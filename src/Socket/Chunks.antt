-- ===== src/Socket/Chunks.antt =====
-- How the decoder that reads one byte at a time goes through bytes, and what a report of `from_utf8` in
-- packages/crab_city/src/ws/focus.rs means for it.
use crabcity.Shared.{
  List, [], ap, append-nil, append_assoc, arith, drop, length, length-append, none, refl, some, sym,
  take, ℕ, ◌++◌, ◌+◌, ◌<◌, ◌∷◌, ◌≡◌, ◌≢◌, ◌≤◌,
}
use crabcity.Socket.Decoder.{Reader, at_start, byte_step, reader_after, replacement, sent_by}
use crabcity.Socket.Utf8.{Range, Utf8Result, utf8_error, valid_utf8}
use crabcity.Terminal.Emulator.{Bytes}

pub sent-append :
    (q : Reader) (xs ys : Bytes)
    → sent_by q (xs ++ ys) ≡ sent_by q xs ++ sent_by (reader_after q xs) ys
unfolding sent_by reader_after
sent-append q [] ys = refl
sent-append q (x ∷ xs) ys =
    let s = byte_step q.held q.expected x in simp (sent-append s.reader xs ys, append_assoc) refl

pub reader_after-append :
    (q : Reader) (xs ys : Bytes) → reader_after q (xs ++ ys) ≡ reader_after (reader_after q xs) ys
unfolding reader_after
reader_after-append q [] ys = refl
reader_after-append q (x ∷ xs) ys = reader_after-append (byte_step q.held q.expected x).reader xs ys

-- What a report of `from_utf8` says of the decoder that reads one byte at a time.
abbrev pub Reads : Bytes → Utf8Result → Type 0
Reads bytes valid_utf8 = (sent_by at_start bytes ≡ bytes) × (reader_after at_start bytes ≡ at_start)
Reads bytes (utf8_error v none) =
    (sent_by at_start bytes ≡ take v bytes) × ((reader_after at_start bytes).held ≡ drop v bytes)
Reads bytes (utf8_error v (some n)) =
    (sent_by at_start bytes
      ≡ take v bytes ++ (replacement ++ sent_by at_start (drop (v + n) bytes)))
    × (reader_after at_start bytes ≡ reader_after at_start (drop (v + n) bytes))
    × (0 < n)
    × (v + n ≤ length bytes)

-- `front` is whole characters and `held` the beginning of one that goes on with `expected`.
pub record IsRead (front held : Bytes) (expected : List Range) : Type 0 where
  pub begun : expected ≡ [] → held ≡ []
  pub going : expected ≢ [] → 0 < length held
  pub sent : sent_by at_start (front ++ held) ≡ front
  pub reader : reader_after at_start (front ++ held) ≡ record { held = held; expected = expected }

pub take-append : (xs ys : Bytes) → take (length xs) (xs ++ ys) ≡ xs
take-append [] ys = refl
take-append (x ∷ xs) ys = ap (◌∷◌ x) (take-append xs ys)

pub drop-append : (xs ys : Bytes) → drop (length xs) (xs ++ ys) ≡ ys
drop-append [] ys = refl
drop-append (x ∷ xs) ys = drop-append xs ys

pub drop-append_both : (xs ys zs : Bytes) → drop (length xs + length ys) (xs ++ (ys ++ zs)) ≡ zs
drop-append_both xs ys zs =
    rw (sym (length-append xs ys), sym (append_assoc xs ys zs)) (drop-append (xs ++ ys) zs)

-- One more byte behind a reader that stands at `front` and `held`.
pub sent_one :
    (front held : Bytes) (rs : List Range) (b : ℕ) (bytes : Bytes)
    → IsRead front held rs
    → (sent_by at_start ((front ++ held) ++ b ∷ bytes)
        ≡ front ++ ((byte_step held rs b).sent ++ sent_by (byte_step held rs b).reader bytes))
      × (reader_after at_start ((front ++ held) ++ b ∷ bytes)
          ≡ reader_after (byte_step held rs b).reader bytes)
unfolding sent_by reader_after
sent_one front held rs b bytes at = (
  rw (sent-append at_start (front ++ held) (b ∷ bytes), at.sent, at.reader) refl,
  rw (reader_after-append at_start (front ++ held) (b ∷ bytes), at.reader) refl,
)

-- The byte ends a character.
pub IsRead-whole :
    (front held : Bytes) (rs : List Range) (b : ℕ)
    → IsRead front held rs
    → byte_step held rs b ≡ record { sent = held ++ b ∷ []; reader = at_start }
    → IsRead ((front ++ held) ++ b ∷ []) [] []
unfolding sent_by reader_after
IsRead-whole front held rs b at e =
    let one = sent_one front held rs b [] at in
    record {
      begun = λ _. refl;
      going = λ ne. absurd (ne refl);
      sent =
          rw (append-nil ((front ++ held) ++ b ∷ []), one.0, e, append-nil (held ++ b ∷ []))
            (sym (append_assoc front held (b ∷ [])));
      reader = rw (append-nil ((front ++ held) ++ b ∷ []), one.1, e) refl;
    }

-- The byte goes on with a character.
pub IsRead-held :
    (front held : Bytes) (rs : List Range) (b : ℕ) (r : Range) (rest : List Range)
    → IsRead front held rs
    → byte_step held rs b
      ≡ record { sent = []; reader = record { held = held ++ b ∷ []; expected = r ∷ rest } }
    → IsRead front (held ++ b ∷ []) (r ∷ rest)
unfolding sent_by reader_after
IsRead-held front held rs b r rest at e =
    let one = sent_one front held rs b [] at in
    record {
      begun = λ eq. cc;
      going = λ _. omega (arith, length-append held (b ∷ []));
      sent = rw (sym (append_assoc front held (b ∷ [])), one.0, e) (append-nil front);
      reader = rw (sym (append_assoc front held (b ∷ [])), one.1, e) refl;
    }
