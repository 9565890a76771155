-- ===== src/Terminal/Codec.antt =====
-- A codec with the laws that packages/virtual_terminal/src/recorder.rs needs of CBOR: a tag in front of
-- each value, and a mark in front of each byte of a list.
use crabcity.Shared.{
  Option, Option-cases, [], ap, arith, inl, inr, length, none, refl, some, suc, zero, ℕ, ◌++◌, ◌<◌,
  ◌∷◌, ◌≡◌, ◌≢◌,
}
use crabcity.Terminal.Emulator.{Bytes}
use crabcity.Terminal.Recorder.{
  Cbor, VtEvent, VtRecordingHeader, input_event, output_event, resize_event,
}
use crabcity.Terminal.Recording.{IsCbor}

unfoldable pub write_bytes : Bytes → Bytes
write_bytes [] = 0 ∷ []
write_bytes (b ∷ bytes) = 1 ∷ b ∷ write_bytes bytes

abbrev pub prepend : ℕ → Option (Bytes × Bytes) → Option (Bytes × Bytes)
prepend b none = none
prepend b (some (bytes, rest)) = some (b ∷ bytes, rest)

unfoldable pub read_bytes : Bytes → Option (Bytes × Bytes)
read_bytes [] = none
read_bytes (zero ∷ rest) = some ([], rest)
read_bytes (suc n ∷ []) = none
read_bytes (suc n ∷ b ∷ rest) = prepend b (read_bytes rest)

abbrev pub write_tagged : VtEvent → Bytes
write_tagged (output_event t bytes) = 0 ∷ t ∷ write_bytes bytes
write_tagged (input_event t bytes) = 1 ∷ t ∷ write_bytes bytes
write_tagged (resize_event t rows cols) = 2 ∷ t ∷ rows ∷ cols ∷ []

abbrev pub as_output : ℕ → Option (Bytes × Bytes) → Option (VtEvent × Bytes)
as_output t none = none
as_output t (some (bytes, rest)) = some (output_event t bytes, rest)

abbrev pub as_input : ℕ → Option (Bytes × Bytes) → Option (VtEvent × Bytes)
as_input t none = none
as_input t (some (bytes, rest)) = some (input_event t bytes, rest)

unfoldable pub read_tagged : Bytes → Option (VtEvent × Bytes)
unfolding read_bytes
read_tagged [] = none
read_tagged (tag ∷ []) = none
read_tagged (zero ∷ t ∷ rest) = as_output t (read_bytes rest)
read_tagged (suc zero ∷ t ∷ rest) = as_input t (read_bytes rest)
read_tagged (suc (suc n) ∷ t ∷ []) = none
read_tagged (suc (suc n) ∷ t ∷ rows ∷ []) = none
read_tagged (suc (suc n) ∷ t ∷ rows ∷ cols ∷ rest) = some (resize_event t rows cols, rest)

unfoldable pub read_three : Bytes → Option (VtRecordingHeader × Bytes)
read_three [] = none
read_three (r ∷ []) = none
read_three (r ∷ n ∷ []) = none
read_three (r ∷ n ∷ s ∷ rest) = some (record { rows = r; cols = n; scrollback_lines = s }, rest)

unfoldable pub tagged : Cbor
unfolding write_bytes read_tagged read_three
tagged = record {
  write_header = λ h. h.rows ∷ h.cols ∷ h.scrollback_lines ∷ [];
  read_header = read_three;
  write_one = write_tagged;
  read_one = read_tagged;
}

read-write_bytes :
    (bytes rest : Bytes) → read_bytes (write_bytes bytes ++ rest) ≡ some (bytes, rest)
unfolding read_bytes write_bytes
read-write_bytes [] rest = refl
read-write_bytes (b ∷ bytes) rest = rw (read-write_bytes bytes rest) refl

read_bytes-cut :
    (bytes cut lost : Bytes) → write_bytes bytes ≡ cut ++ lost → lost ≢ [] → read_bytes cut ≡ none
unfolding read_bytes write_bytes
read_bytes-cut bytes [] lost e ne = refl
read_bytes-cut [] (x ∷ []) lost e ne = absurd (ne (cc))
read_bytes-cut [] (x ∷ y ∷ cut) lost e ne = cc
read_bytes-cut (b ∷ bytes) (zero ∷ cut) lost e ne = ground (arith, ap length e, e)
read_bytes-cut (b ∷ bytes) (suc n ∷ []) lost e ne = refl
read_bytes-cut (b ∷ bytes) (suc n ∷ x ∷ cut) lost e ne =
    rw (read_bytes-cut bytes cut lost (cc) ne) refl

one_read_tagged :
    (e : VtEvent) (rest : Bytes) → read_tagged (write_tagged e ++ rest) ≡ some (e, rest)
unfolding read_tagged
one_read_tagged (output_event t bytes) rest = rw (read-write_bytes bytes rest) refl
one_read_tagged (input_event t bytes) rest = rw (read-write_bytes bytes rest) refl
one_read_tagged (resize_event t rows cols) rest = refl

cut_unread_tagged :
    (e : VtEvent) (cut lost : Bytes)
    → write_tagged e ≡ cut ++ lost
    → lost ≢ []
    → read_tagged cut ≡ none
unfolding read_tagged
cut_unread_tagged e [] lost eq ne = refl
cut_unread_tagged e (tag ∷ []) lost eq ne = refl
cut_unread_tagged (output_event t bytes) (zero ∷ x ∷ cut) lost eq ne =
    rw (read_bytes-cut bytes cut lost (cc) ne) refl
cut_unread_tagged (output_event t bytes) (suc n ∷ x ∷ cut) lost eq ne = cc
cut_unread_tagged (input_event t bytes) (zero ∷ x ∷ cut) lost eq ne = ground (arith, eq)
cut_unread_tagged (input_event t bytes) (suc zero ∷ x ∷ cut) lost eq ne =
    rw (read_bytes-cut bytes cut lost (cc) ne) refl
cut_unread_tagged (input_event t bytes) (suc (suc n) ∷ x ∷ cut) lost eq ne = ground (arith, eq)
cut_unread_tagged (resize_event t rows cols) (zero ∷ x ∷ cut) lost eq ne = ground (arith, eq)
cut_unread_tagged (resize_event t rows cols) (suc zero ∷ x ∷ cut) lost eq ne = ground (arith, eq)
cut_unread_tagged (resize_event t rows cols) (suc (suc n) ∷ x ∷ []) lost eq ne = refl
cut_unread_tagged (resize_event t rows cols) (suc (suc n) ∷ x ∷ y ∷ []) lost eq ne = refl
cut_unread_tagged (resize_event t rows cols) (suc (suc n) ∷ x ∷ y ∷ z ∷ []) lost eq ne =
    absurd (ne (cc))
cut_unread_tagged (resize_event t rows cols) (suc (suc n) ∷ x ∷ y ∷ z ∷ w ∷ cut) lost eq ne = cc

read_bytes-shorter :
    (bytes value rest : Bytes) → read_bytes bytes ≡ some (value, rest) → length rest < length bytes
unfolding read_bytes
read_bytes-shorter [] value rest e = cc
read_bytes-shorter (zero ∷ bytes) value rest e = ground (arith, e)
read_bytes-shorter (suc n ∷ []) value rest e = cc
read_bytes-shorter (suc n ∷ b ∷ bytes) value rest e = elim (Option-cases (read_bytes bytes)) [
  | inl unread ↦ ground (arith, e, unread)
  | inr ((v, r), found) ↦ ground (arith, e, found, read_bytes-shorter bytes v r found)
]

shorter_tagged :
    (bytes : Bytes) (e : VtEvent) (rest : Bytes)
    → read_tagged bytes ≡ some (e, rest)
    → length rest < length bytes
unfolding read_tagged
shorter_tagged [] e rest eq = cc
shorter_tagged (tag ∷ []) e rest eq = cc
shorter_tagged (zero ∷ t ∷ bytes) e rest eq = elim (Option-cases (read_bytes bytes)) [
  | inl unread ↦ ground (arith, eq, unread)
  | inr ((v, r), found) ↦ ground (arith, eq, found, read_bytes-shorter bytes v r found)
]
shorter_tagged (suc zero ∷ t ∷ bytes) e rest eq = elim (Option-cases (read_bytes bytes)) [
  | inl unread ↦ ground (arith, eq, unread)
  | inr ((v, r), found) ↦ ground (arith, eq, found, read_bytes-shorter bytes v r found)
]
shorter_tagged (suc (suc n) ∷ t ∷ []) e rest eq = cc
shorter_tagged (suc (suc n) ∷ t ∷ rows ∷ []) e rest eq = cc
shorter_tagged (suc (suc n) ∷ t ∷ rows ∷ cols ∷ bytes) e rest eq = ground (arith, eq)

one_written_tagged : (e : VtEvent) → 0 < length (write_tagged e)
one_written_tagged (output_event t bytes) = omega arith
one_written_tagged (input_event t bytes) = omega arith
one_written_tagged (resize_event t rows cols) = omega arith

pub tagged-IsCbor : IsCbor tagged
unfolding read_three read_tagged tagged
tagged-IsCbor = record {
  header_read = λ h rest. refl;
  one_read = one_read_tagged;
  cut_unread = cut_unread_tagged;
  end_unread = refl;
  one_written = one_written_tagged;
  shorter = shorter_tagged;
}
