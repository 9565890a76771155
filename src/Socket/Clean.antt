-- ===== src/Socket/Clean.antt =====
-- The output of the stream decoder of packages/crab_city/src/ws/focus.rs under the check of UTF-8.
use crabcity.Shared.{
  Bool-cases, List, Option, [], ap, append-nil, append_assoc, arith, inl, inr, length,
  length-append, none, refl, some, sym, true, ℕ, ◌++◌, ◌+◌, ◌∙◌, ◌∷◌, ◌≡◌,
}
use crabcity.Socket.Decoder.{
  Decoded, Reader, Step, at_start, began_with, byte_step, new_decoder, replacement, sent_by,
  went_on_with,
}
use crabcity.Socket.Scans.{scan-moved}
use crabcity.Socket.Streams.{at_start-IsReader, bytewise, concat, decode_chunks, decode_chunks_lem}
use crabcity.Socket.Utf8.{Range, from_utf8, in_range, lead, scan, valid_utf8}
use crabcity.Terminal.Emulator.{Bytes}

-- Behind whole characters the scan goes on as from the beginning.
abbrev pub IsClean : Bytes → Type 0
IsClean xs =
    (begin : ℕ) (rest : Bytes) → scan begin 0 [] (xs ++ rest) ≡ scan (begin + length xs) 0 [] rest

IsClean-append : (xs ys : Bytes) → IsClean xs → IsClean ys → IsClean (xs ++ ys)
IsClean-append xs ys h k begin rest =
    rw
      (
        append_assoc xs ys rest,
        h begin (ys ++ rest),
        k (begin + length xs) rest,
        length-append xs ys,
      )
      (ap (λ n. scan n 0 [] rest) (omega arith))

IsClean-replacement : IsClean replacement
unfolding scan lead
IsClean-replacement begin rest = ap (λ n. scan n 0 [] rest) (omega arith)

-- The bytes that a reader holds bring the scan to where the reader stands.
pub record IsOpen (q : Reader) : Type 0 where
  pub begun : q.expected ≡ [] → q.held ≡ []
  pub opens :
      (begin : ℕ) (rest : Bytes)
      → scan begin 0 [] (q.held ++ rest) ≡ scan begin (length q.held) q.expected rest

at_start-IsOpen : IsOpen at_start
at_start-IsOpen = record { begun = λ _. refl; opens = λ begin rest. refl }

-- A step sends whole characters and keeps the beginning of one.
abbrev IsCleanStep : Step → Type 0
IsCleanStep s = IsClean s.sent × IsOpen s.reader

began_with-IsCleanStep :
    (b : ℕ) (o : Option (List Range)) → lead b ≡ o → IsCleanStep (began_with b o)
began_with-IsCleanStep b none e = (IsClean-replacement, at_start-IsOpen)
began_with-IsCleanStep b (some []) e =
    (λ begin rest. scan-moved begin 0 [] b rest (begin + 1) 0 [] (rw e refl), at_start-IsOpen)
began_with-IsCleanStep b (some (r ∷ rs)) e = (
  λ begin rest. ap (λ n. scan n 0 [] rest) (omega arith),
  record {
    begun = λ h. cc;
    opens = λ begin rest. scan-moved begin 0 [] b rest begin 1 (r ∷ rs) (rw e refl);
  },
)

went_on_with-IsCleanStep :
    (held : Bytes) (r : Range) (rs : List Range) (b : ℕ)
    → IsOpen (record { held = held; expected = r ∷ rs })
    → in_range r b ≡ true
    → IsCleanStep (went_on_with held b rs)
went_on_with-IsCleanStep held r [] b q inside = (
  λ begin rest.
      rw
        (
          append_assoc held (b ∷ []) rest,
          q.opens begin (b ∷ rest),
          scan-moved begin (length held) (r ∷ []) b rest (begin + length held + 1) 0 []
              (rw inside refl),
          length-append held (b ∷ []),
        )
        (ap (λ n. scan n 0 [] rest) (omega arith)),
  at_start-IsOpen,
)
went_on_with-IsCleanStep held r (r' ∷ rs) b q inside = (
  λ begin rest. ap (λ n. scan n 0 [] rest) (omega arith),
  record {
    begun = λ h. cc;
    opens = λ begin rest.
        rw
          (
            append_assoc held (b ∷ []) rest,
            q.opens begin (b ∷ rest),
            scan-moved begin (length held) (r ∷ r' ∷ rs) b rest begin (length held + 1) (r' ∷ rs)
                (rw inside refl),
            length-append held (b ∷ []),
          )
          refl;
  },
)

byte_step-IsCleanStep :
    (held : Bytes) (rs : List Range) (b : ℕ)
    → IsOpen (record { held = held; expected = rs })
    → IsCleanStep (byte_step held rs b)
byte_step-IsCleanStep held [] b q = began_with-IsCleanStep b (lead b) refl
byte_step-IsCleanStep held (r ∷ rs) b q = elim (Bool-cases (in_range r b)) [
  | inl inside ↦ rw inside (went_on_with-IsCleanStep held r rs b q inside)
  | inr out ↦
      let (clean, open_at) = began_with-IsCleanStep b (lead b) refl in
      rw out
        (IsClean-append replacement (began_with b (lead b)).sent IsClean-replacement clean, open_at)
]

sent_by-IsClean : (q : Reader) (bytes : Bytes) → IsOpen q → IsClean (sent_by q bytes)
unfolding sent_by
sent_by-IsClean q [] h = λ begin rest. ap (λ n. scan n 0 [] rest) (omega arith)
sent_by-IsClean q (b ∷ bytes) h =
    let (clean, open_at) = byte_step-IsCleanStep q.held q.expected b h in
    let s = byte_step q.held q.expected b in
    IsClean-append s.sent (sent_by s.reader bytes) clean (sent_by-IsClean s.reader bytes open_at)

-- Whatever the terminal puts out, in whatever chunks, the client gets it as UTF-8.
pub decode_chunks-from_utf8 :
    (chunks : List Bytes)
    → (d : Decoded) × (decode_chunks new_decoder chunks ≡ some d)
      × (from_utf8 d.result ≡ valid_utf8)
unfolding from_utf8 scan
decode_chunks-from_utf8 chunks =
    let all_sent = sent_by at_start (concat chunks) in
    let clean = sent_by-IsClean at_start (concat chunks) at_start-IsOpen 0 [] in
    (
      bytewise at_start (concat chunks),
      decode_chunks_lem at_start chunks at_start-IsReader,
      ap (λ x. scan 0 0 [] x) (sym (append-nil all_sent)) ∙ clean,
    )
