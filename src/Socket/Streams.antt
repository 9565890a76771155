-- ===== src/Socket/Streams.antt =====
-- What a client gets of the output of a terminal that packages/crab_city/src/ws/focus.rs decodes chunk
-- by chunk.
use crabcity.Shared.{
  Bool-cases, List, Option, [], ap, arith, drop, if◌then◌else◌, inl, inr, length, length-append,
  length-drop, none, refl, some, subst, suc, sym, true, zero, ℕ, ◌++◌, ◌+◌, ◌<◌, ◌∙◌, ◌∷◌, ◌≡◌, ◌≤◌,
}
use crabcity.Socket.Chunks.{Reads, reader_after-append, sent-append}
use crabcity.Socket.Decoder.{
  Decoded, Reader, at_start, began_with, byte_step, decode, decode_loop, gave_up, new_decoder,
  reader_after, sent_by, went_on_with,
}
use crabcity.Socket.Scans.{from_utf8-Reads}
use crabcity.Socket.Utf8.{Range, Utf8Result, from_utf8, in_range, lead, utf8_error, valid_utf8}
use crabcity.Terminal.Emulator.{Bytes}

abbrev pub concat : List Bytes → Bytes
concat [] = []
concat (c ∷ chunks) = c ++ concat chunks

-- The output that follows decoded output.
abbrev pub followed_by : Bytes → Option Decoded → Option Decoded
followed_by front none = none
followed_by front (some d) = some (record { result = front ++ d.result; buf = d.buf })

-- The chunks that the task of a client decodes one behind the other.
unfoldable pub decode_chunks : Bytes → List Bytes → Option Decoded
unfolding decode
decode_chunks buf [] = some (record { result = []; buf = buf })
decode_chunks buf (c ∷ chunks) = elim (decode buf c) [
  | none ↦ none
  | some d ↦ followed_by d.result (decode_chunks d.buf chunks)
]

-- What the decoder that reads one byte at a time makes of bytes.
abbrev pub bytewise : Reader → Bytes → Decoded
bytewise q bytes = record { result = sent_by q bytes; buf = (reader_after q bytes).held }

-- One round of the loop, where the next round with what is left of the bytes is known.
decode_loop_round :
    (fuel : ℕ) (buf : Bytes) (r : Utf8Result)
    → from_utf8 buf ≡ r
    → Reads buf r
    → ((rest : Bytes)
        → length rest < length buf
        → decode_loop fuel rest ≡ some (bytewise at_start rest))
    → decode_loop (suc fuel) buf ≡ some (bytewise at_start buf)
unfolding decode_loop
decode_loop_round fuel buf valid_utf8 e (s, q) onward = rw (e, decode_loop, s, q) refl
decode_loop_round fuel buf (utf8_error v none) e (s, q) onward = rw (e, decode_loop, s, q) refl
decode_loop_round fuel buf (utf8_error v (some n)) e (s, q, moves, inside) onward =
    let shorter : length (drop (v + n) buf) < length buf =
      omega (arith, moves, inside, length-drop (v + n) buf) in
    rw (e, decode_loop, onward (drop (v + n) buf) shorter, s, q) refl

-- The loop with enough fuel.
decode_loop_lem :
    (fuel : ℕ) (buf : Bytes)
    → length buf < fuel
    → decode_loop fuel buf ≡ some (bytewise at_start buf)
decode_loop_lem zero buf h = absurd (omega (arith, h))
decode_loop_lem (suc fuel) buf h =
    decode_loop_round fuel buf (from_utf8 buf) refl (from_utf8-Reads buf)
      (λ rest shorter. decode_loop_lem fuel rest (omega (arith, h, shorter)))

-- A reader that holds nothing but the beginning of one character.
pub record IsReader (q : Reader) : Type 0 where
  pub begun : q.expected ≡ [] → q.held ≡ []
  pub size : length q.held + length q.expected ≤ 4
  pub silent : sent_by at_start q.held ≡ []
  pub replayed : reader_after at_start q.held ≡ q

pub at_start-IsReader : IsReader at_start
unfolding sent_by reader_after
at_start-IsReader = record { begun = λ _. refl; size = omega arith; silent = refl; replayed = refl }

length-lead : (b : ℕ) (rs : List Range) → lead b ≡ some rs → length rs ≤ 3
unfolding lead
length-lead b rs e = ground arith

IsReader-began : (b : ℕ) (o : Option (List Range)) → lead b ≡ o → IsReader (began_with b o).reader
unfolding sent_by reader_after
IsReader-began b none e = at_start-IsReader
IsReader-began b (some []) e = at_start-IsReader
IsReader-began b (some (r ∷ rs)) e = record {
  begun = λ h. cc;
  size = omega (arith, length-lead b (r ∷ rs) e);
  silent = rw (e, sent_by) refl;
  replayed = rw (e, reader_after) refl;
}

byte_step-IsReader :
    (held : Bytes) (rs : List Range) (b : ℕ)
    → IsReader (record { held = held; expected = rs })
    → IsReader (byte_step held rs b).reader
unfolding sent_by reader_after
byte_step-IsReader held [] b q = IsReader-began b (lead b) refl
byte_step-IsReader held (r ∷ rs) b q = elim (Bool-cases (in_range r b)) [
  | inl inside ↦ rw inside (went held r rs b q inside)
  | inr out ↦ rw out (IsReader-began b (lead b) refl)
]
  where
    went :
        (held : Bytes) (r : Range) (rs : List Range) (b : ℕ)
        → IsReader (record { held = held; expected = r ∷ rs })
        → in_range r b ≡ true
        → IsReader (went_on_with held b rs).reader
    went held r [] b q inside = at_start-IsReader
    went held r (r' ∷ rs) b q inside = record {
      begun = λ h. cc;
      size = omega (arith, q.size, length-append held (b ∷ []));
      silent = rw (sent-append at_start held (b ∷ []), q.silent, q.replayed, inside, sent_by) refl;
      replayed =
          reader_after-append at_start held (b ∷ [])
          ∙ (ap (λ p. reader_after p (b ∷ [])) q.replayed
              ∙ ap
                  (λ t.
                    (if t
                      then went_on_with held b (r' ∷ rs)
                      else gave_up (began_with b (lead b))).reader)
                  inside);
    }

pub reader_after-IsReader :
    (q : Reader) (bytes : Bytes) → IsReader q → IsReader (reader_after q bytes)
unfolding reader_after
reader_after-IsReader q [] h = h
reader_after-IsReader q (b ∷ bytes) h =
    reader_after-IsReader (byte_step q.held q.expected b).reader bytes
      (byte_step-IsReader q.held q.expected b h)

-- Decoding goes on where the reader of the bytes so far stands.
pub decode_lem :
    (q : Reader) (chunk : Bytes) → IsReader q → decode q.held chunk ≡ some (bytewise q chunk)
unfolding decode
decode_lem q chunk h =
    rw
      (
        decode_loop_lem (suc (length (q.held ++ chunk))) (q.held ++ chunk) (omega arith),
        sent-append at_start q.held chunk,
        reader_after-append at_start q.held chunk,
        h.silent,
        h.replayed,
      )
      refl

-- Every chunk is decoded, whatever bytes are held: the loop ends within one round for each byte. What
-- is kept of it is shorter than a character.
pub decode_total :
    (buf chunk : Bytes) → (d : Decoded) × (decode buf chunk ≡ some d) × (length d.buf < 4)
unfolding decode
decode_total buf chunk =
    let q = reader_after-IsReader at_start (buf ++ chunk) at_start-IsReader in
    (
      bytewise at_start (buf ++ chunk),
      decode_loop_lem (suc (length (buf ++ chunk))) (buf ++ chunk) (omega arith),
      held_short (reader_after at_start (buf ++ chunk)).held
          (reader_after at_start (buf ++ chunk)).expected q.begun q.size,
    )
  where
    held_short :
        (held : Bytes) (rs : List Range)
        → (rs ≡ [] → held ≡ [])
        → length held + length rs ≤ 4
        → length held < 4
    held_short held [] begun size = rw (begun refl) (omega arith)
    held_short held (r ∷ rs) begun size = omega (arith, size)

-- The chunks of a stream one behind the other, from where a reader stands.
pub decode_chunks_lem :
    (q : Reader) (chunks : List Bytes)
    → IsReader q
    → decode_chunks q.held chunks ≡ some (bytewise q (concat chunks))
unfolding decode_chunks sent_by reader_after
decode_chunks_lem q [] h = refl
decode_chunks_lem q (c ∷ chunks) h =
    let onward = decode_chunks_lem (reader_after q c) chunks (reader_after-IsReader q c h) in
    rw
      (
        decode_lem q c h,
        decode_chunks,
        onward,
        sent-append q c (concat chunks),
        reader_after-append q c (concat chunks),
      )
      refl

-- Chunks cut at any places give the client what one chunk with all the bytes gives, and leave the same
-- bytes to wait for the rest of their character.
pub decode_chunks-decode :
    (chunks : List Bytes) → decode_chunks new_decoder chunks ≡ decode new_decoder (concat chunks)
decode_chunks-decode chunks =
    decode_chunks_lem at_start chunks at_start-IsReader
    ∙ sym (decode_lem at_start (concat chunks) at_start-IsReader)

-- Output that is UTF-8 reaches the client as it is, with nothing left over, also where chunks cut a
-- character.
pub decode_chunks-valid :
    (chunks : List Bytes)
    → from_utf8 (concat chunks) ≡ valid_utf8
    → decode_chunks new_decoder chunks ≡ some (record { result = concat chunks; buf = [] })
decode_chunks-valid chunks e =
    let read : Reads (concat chunks) valid_utf8 =
      subst (Reads (concat chunks)) e (from_utf8-Reads (concat chunks)) in
    decode_chunks_lem at_start chunks at_start-IsReader ∙ rw (read.0, read.1) refl
