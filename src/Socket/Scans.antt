-- ===== src/Socket/Scans.antt =====
-- The check of UTF-8 that packages/crab_city/src/ws/focus.rs calls, against the decoder that reads one
-- byte at a time.
use crabcity.Shared.{
  Bool-cases, List, Option-cases, [], ap, append-nil, append_assoc, arith, drop, false, inl, inr,
  length, length-append, none, refl, some, subst, sym, take, true, ℕ, ◌++◌, ◌+◌, ◌∙◌, ◌∷◌, ◌≡◌,
}
use crabcity.Socket.Chunks.{
  IsRead, IsRead-held, IsRead-whole, Reads, drop-append, drop-append_both, sent_one, take-append,
}
use crabcity.Socket.Decoder.{Reader, at_start, reader_after, sent_by}
use crabcity.Socket.Utf8.{
  Range, from_utf8, in_range, lead, moved, read_byte, refused, scan, utf8_error,
}
use crabcity.Terminal.Emulator.{Bytes}

-- Nothing can begin with the byte: it is dropped.
Reads-dropped :
    (front : Bytes) (b : ℕ) (bytes : Bytes)
    → IsRead front [] []
    → lead b ≡ none
    → Reads ((front ++ []) ++ b ∷ bytes) (utf8_error (length front) (some 1))
Reads-dropped front b bytes at bad =
    let one = sent_one front [] [] b bytes at in
    let left : drop (length front + 1) ((front ++ []) ++ b ∷ bytes) ≡ bytes =
      rw (append-nil front) (drop-append_both front (b ∷ []) bytes) in
    let kept : take (length front) ((front ++ []) ++ b ∷ bytes) ≡ front =
      rw (append-nil front) (take-append front (b ∷ bytes)) in
    (
      rw (left, kept, one.0, bad) refl,
      rw (left, one.1, bad) refl,
      omega arith,
      rw (append-nil front) (omega (arith, length-append front (b ∷ bytes))),
    )

-- The byte is in the wrong range: the character that it breaks is dropped, and the byte begins anew.
Reads-broken :
    (front held : Bytes) (r : Range) (rs : List Range) (b : ℕ) (bytes : Bytes)
    → IsRead front held (r ∷ rs)
    → in_range r b ≡ false
    → Reads ((front ++ held) ++ b ∷ bytes) (utf8_error (length front) (some (length held)))
unfolding sent_by reader_after
Reads-broken front held r rs b bytes at out =
    let one = sent_one front held (r ∷ rs) b bytes at in
    let left : drop (length front + length held) ((front ++ held) ++ b ∷ bytes) ≡ b ∷ bytes =
      rw (append_assoc front held (b ∷ bytes)) (drop-append_both front held (b ∷ bytes)) in
    let kept : take (length front) ((front ++ held) ++ b ∷ bytes) ≡ front =
      rw (append_assoc front held (b ∷ bytes)) (take-append front (held ++ b ∷ bytes)) in
    (
      rw (left, kept, one.0, out) refl,
      rw (left, one.1, out) refl,
      at.going (λ e. cc),
      omega (arith, length-append front held, length-append (front ++ held) (b ∷ bytes)),
    )

pub scan-moved :
    (begin seen : ℕ) (rs : List Range) (b : ℕ) (bytes : Bytes) (begin' seen' : ℕ) (rs' : List Range)
    → read_byte begin seen rs b ≡ moved begin' seen' rs'
    → scan begin seen rs (b ∷ bytes) ≡ scan begin' seen' rs' bytes
unfolding scan
scan-moved begin seen [] b bytes begin' seen' rs' e = rw (e, scan) refl
scan-moved begin seen (r ∷ rs) b bytes begin' seen' rs' e = rw (e, scan) refl

scan-refused :
    (begin seen : ℕ) (rs : List Range) (b : ℕ) (bytes : Bytes) (n : ℕ)
    → read_byte begin seen rs b ≡ refused n
    → scan begin seen rs (b ∷ bytes) ≡ utf8_error begin (some n)
unfolding scan
scan-refused begin seen [] b bytes n e = rw (e, scan) refl
scan-refused begin seen (r ∷ rs) b bytes n e = rw (e, scan) refl

-- No bytes are left: all characters are whole, or one is not.
Reads-ended :
    (front held : Bytes) (rs : List Range)
    → IsRead front held rs
    → Reads ((front ++ held) ++ []) (scan (length front) (length held) rs [])
unfolding scan
Reads-ended front held [] at =
    let none_held = at.begun refl in
    let all_read : (front ++ held) ++ [] ≡ front =
      rw (none_held, append-nil (front ++ [])) (append-nil front) in
    let is_front : front ++ held ≡ front = rw none_held (append-nil front) in
    rw all_read (
      subst (λ x. sent_by at_start x ≡ front) is_front at.sent,
      subst (λ x. reader_after at_start x ≡ at_start) is_front
          (at.reader ∙ ap (λ x. record { held = x; expected = [] }) none_held),
    )
Reads-ended front held (r ∷ rs) at =
    rw (append-nil (front ++ held), take-append front held, drop-append front held)
      (at.sent, ap (λ (q : Reader). q.held) at.reader)

one_further :
    (front : Bytes) (b : ℕ) (bytes : Bytes)
    → front ++ b ∷ bytes ≡ ((front ++ b ∷ []) ++ []) ++ bytes
one_further front b bytes =
    rw (append-nil (front ++ b ∷ [])) (sym (append_assoc front (b ∷ []) bytes))

one_held :
    (front held : Bytes) (b : ℕ) (bytes : Bytes)
    → (front ++ held) ++ b ∷ bytes ≡ (front ++ (held ++ b ∷ [])) ++ bytes
one_held front held b bytes = simp append_assoc refl

scan-Reads_inside :
    (b : ℕ) (bytes front held : Bytes) (r : Range) (rs : List Range) (begin seen : ℕ)
    (whole : Bytes)
    → IsRead front held (r ∷ rs)
    → begin ≡ length front
    → seen ≡ length held
    → whole ≡ (front ++ held) ++ b ∷ bytes
    → in_range r b ≡ true
    → ((front held : Bytes) (rs : List Range) (begin seen : ℕ) (whole : Bytes)
        → IsRead front held rs
        → begin ≡ length front
        → seen ≡ length held
        → whole ≡ (front ++ held) ++ bytes
        → Reads whole (scan begin seen rs bytes))
    → Reads whole (scan begin seen (r ∷ rs) (b ∷ bytes))
scan-Reads_inside b bytes front held r [] begin seen whole at es eh ew inside onward =
    rw (scan-moved begin seen (r ∷ []) b bytes (begin + seen + 1) 0 [] (rw inside refl)) (
      onward ((front ++ held) ++ b ∷ []) [] [] (begin + seen + 1) 0 whole
        (IsRead-whole front held (r ∷ []) b at (rw inside refl))
        (omega (arith, es, eh, length-append (front ++ held) (b ∷ []), length-append front held))
        refl (ew ∙ one_further (front ++ held) b bytes))
scan-Reads_inside b bytes front held r (r' ∷ rs) begin seen whole at es eh ew inside onward =
    rw (scan-moved begin seen (r ∷ r' ∷ rs) b bytes begin (seen + 1) (r' ∷ rs) (rw inside refl)) (
      onward front (held ++ b ∷ []) (r' ∷ rs) begin (seen + 1) whole
        (IsRead-held front held (r ∷ r' ∷ rs) b r' rs at (rw inside refl)) es
        (omega (arith, eh, length-append held (b ∷ []))) (ew ∙ one_held front held b bytes))

scan-Reads :
    (bytes front held : Bytes) (rs : List Range) (begin seen : ℕ) (whole : Bytes)
    → IsRead front held rs
    → begin ≡ length front
    → seen ≡ length held
    → whole ≡ (front ++ held) ++ bytes
    → Reads whole (scan begin seen rs bytes)
scan-Reads [] front held rs begin seen whole at es eh ew =
    rw (ew, es, eh) (Reads-ended front held rs at)
scan-Reads (b ∷ bytes) front held [] begin seen whole at es eh ew =
    let none_held = at.begun refl in
    let fresh : IsRead front [] [] = subst (λ h. IsRead front h []) none_held at in
    let tail_is : whole ≡ (front ++ []) ++ b ∷ bytes =
      ew ∙ ap (λ h. (front ++ h) ++ b ∷ bytes) none_held in
    elim (Option-cases (lead b)) [
      | inl bad ↦
          rw (scan-refused begin seen [] b bytes 1 (rw bad refl), tail_is, es)
            (Reads-dropped front b bytes fresh bad)
      | inr ([], good) ↦ rw (scan-moved begin seen [] b bytes (begin + 1) 0 [] (rw good refl)) (
          scan-Reads bytes ((front ++ []) ++ b ∷ []) [] [] (begin + 1) 0 whole
            (IsRead-whole front [] [] b fresh (rw good refl))
            (omega (arith, es, length-append (front ++ []) (b ∷ []), length-append front [])) refl
            (tail_is ∙ one_further (front ++ []) b bytes))
      | inr (r ∷ rs, good) ↦ rw (scan-moved begin seen [] b bytes begin 1 (r ∷ rs) (rw good refl)) (
          scan-Reads bytes front ([] ++ b ∷ []) (r ∷ rs) begin 1 whole
            (IsRead-held front [] [] b r rs fresh (rw good refl)) es refl
            (tail_is ∙ one_held front [] b bytes))
    ]
scan-Reads (b ∷ bytes) front held (r ∷ rs) begin seen whole at es eh ew =
    elim (Bool-cases (in_range r b)) [
      | inl inside ↦
          scan-Reads_inside b bytes front held r rs begin seen whole at es eh ew inside
            (scan-Reads bytes)
      | inr out ↦
          rw (scan-refused begin seen (r ∷ rs) b bytes seen (rw out refl), ew, es, eh)
            (Reads-broken front held r rs b bytes at out)
    ]

-- `from_utf8` reports what the decoder that reads one byte at a time does.
pub from_utf8-Reads : (bytes : Bytes) → Reads bytes (from_utf8 bytes)
unfolding from_utf8 sent_by reader_after
from_utf8-Reads bytes =
    let at_front : IsRead [] [] [] = record {
      begun = λ _. refl;
      going = λ ne. absurd (ne refl);
      sent = refl;
      reader = refl;
    } in
    scan-Reads bytes [] [] [] 0 0 bytes at_front refl refl refl
