-- ===== src/Socket/Decoder.antt =====
-- `Utf8StreamDecoder` of packages/crab_city/src/ws/focus.rs, and the decoder that reads one byte at a
-- time, which shares no loop with it.
use crabcity.Shared.{
  List, Option, [], drop, if◌then◌else◌, length, none, some, suc, take, zero, ℕ, ◌++◌, ◌+◌, ◌∷◌,
}
use crabcity.Socket.Utf8.{Range, from_utf8, in_range, lead, utf8_error, valid_utf8}
use crabcity.Terminal.Emulator.{Bytes}

-- The bytes of U+FFFD.
abbrev pub replacement : Bytes
replacement = 0xef ∷ 0xbf ∷ 0xbd ∷ []

-- What is pushed on the result, and the bytes that are kept.
pub record Decoded : Type 0 where
  pub result : Bytes
  pub buf : Bytes

abbrev pub new_decoder : Bytes
new_decoder = []

abbrev pub clear : Bytes → Bytes
clear buf = []

abbrev pub resumed : Bytes → Option Decoded → Option Decoded
resumed front none = none
resumed front (some d) = some (record { result = front ++ (replacement ++ d.result); buf = d.buf })

-- The loop of `decode`; `none` where it has no fuel left.
unfoldable pub decode_loop : ℕ → Bytes → Option Decoded
decode_loop zero buf = none
decode_loop (suc fuel) buf = elim (from_utf8 buf) [
  | valid_utf8 ↦ some (record { result = buf; buf = [] })
  | utf8_error valid_up_to none ↦
      some (record { result = take valid_up_to buf; buf = drop valid_up_to buf })
  | utf8_error valid_up_to (some len) ↦
      resumed (take valid_up_to buf) (decode_loop fuel (drop (valid_up_to + len) buf))
]

unfoldable pub decode : Bytes → Bytes → Option Decoded
unfolding decode_loop
decode buf chunk = decode_loop (suc (length (buf ++ chunk))) (buf ++ chunk)

-- Between two bytes: those of a character that is not whole, and the ranges of the ones to come.
pub record Reader : Type 0 where
  pub held : Bytes
  pub expected : List Range

abbrev pub at_start : Reader
at_start = record { held = []; expected = [] }

-- What a byte sends, and the reader behind it.
pub record Step : Type 0 where
  pub sent : Bytes
  pub reader : Reader

abbrev pub began_with : ℕ → Option (List Range) → Step
began_with b none = record { sent = replacement; reader = at_start }
began_with b (some []) = record { sent = b ∷ []; reader = at_start }
began_with b (some (r ∷ rs)) = record {
  sent = [];
  reader = record { held = b ∷ []; expected = r ∷ rs };
}

abbrev pub went_on_with : Bytes → ℕ → List Range → Step
went_on_with held b [] = record { sent = held ++ b ∷ []; reader = at_start }
went_on_with held b (r ∷ rs) = record {
  sent = [];
  reader = record { held = held ++ b ∷ []; expected = r ∷ rs };
}

-- A byte that cannot go on ends the character as broken and begins the next.
abbrev pub gave_up : Step → Step
gave_up s = record { sent = replacement ++ s.sent; reader = s.reader }

abbrev pub byte_step : Bytes → List Range → ℕ → Step
byte_step held [] b = began_with b (lead b)
byte_step held (r ∷ rs) b =
    if in_range r b then went_on_with held b rs else gave_up (began_with b (lead b))

unfoldable pub sent_by : Reader → Bytes → Bytes
sent_by q [] = []
sent_by q (b ∷ bytes) = let s = byte_step q.held q.expected b in s.sent ++ sent_by s.reader bytes

unfoldable pub reader_after : Reader → Bytes → Reader
reader_after q [] = q
reader_after q (b ∷ bytes) = reader_after (byte_step q.held q.expected b).reader bytes
