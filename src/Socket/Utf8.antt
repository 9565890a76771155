-- ===== src/Socket/Utf8.antt =====
-- `std::str::from_utf8` as packages/crab_city/src/ws/focus.rs uses it: whether bytes are UTF-8, and
-- where not, how many bytes are, and how many of the next are wrong. It reads one byte at a time and
-- knows which ranges the bytes still to come of a character must lie in.
use crabcity.Driver.Claude.{start}
use crabcity.Shared.{
  Bool, List, Option, [], if◌then◌else◌, leb, ltb, none, some, ℕ, ◌&&◌, ◌+◌, ◌==◌, ◌∷◌,
}
use crabcity.Terminal.Emulator.{Bytes}

pub record Range : Type 0 where
  pub lo : ℕ
  pub hi : ℕ

abbrev pub in_range : Range → ℕ → Bool
in_range r b = leb r.lo b && leb b r.hi

abbrev pub continuation : Range
continuation = record { lo = 0x80; hi = 0xbf }

-- What must follow a first byte; nothing if no character begins with it.
unfoldable pub lead : ℕ → Option (List Range)
lead b =
    if ltb b 0x80
    then some []
    else if ltb b 0xc2
    then none
    else if ltb b 0xe0
    then some (continuation ∷ [])
    else if b == 0xe0
    then some (record { lo = 0xa0; hi = 0xbf } ∷ continuation ∷ [])
    else if b == 0xed
    then some (record { lo = 0x80; hi = 0x9f } ∷ continuation ∷ [])
    else if ltb b 0xf0
    then some (continuation ∷ continuation ∷ [])
    else if b == 0xf0
    then some (record { lo = 0x90; hi = 0xbf } ∷ continuation ∷ continuation ∷ [])
    else if ltb b 0xf4
    then some (continuation ∷ continuation ∷ continuation ∷ [])
    else if b == 0xf4
    then some (record { lo = 0x80; hi = 0x8f } ∷ continuation ∷ continuation ∷ [])
    else none

-- `Result<&str, Utf8Error>`, with `valid_up_to` and `error_len`.
pub data Utf8Result : Type 0 where
  valid_utf8 : Utf8Result
  utf8_error : (valid_up_to : ℕ) (error_len : Option ℕ) → Utf8Result

-- How one byte moves the reader: `start` bytes are whole characters, and `seen` bytes behind them
-- begin one that needs bytes in the ranges of `expected`.
pub data Reading : Type 0 where
  moved : (start seen : ℕ) (expected : List Range) → Reading
  refused : (error_len : ℕ) → Reading

abbrev pub began : ℕ → Option (List Range) → Reading
began start none = refused 1
began start (some []) = moved (start + 1) 0 []
began start (some (r ∷ rs)) = moved start 1 (r ∷ rs)

abbrev pub went_on : ℕ → ℕ → List Range → Reading
went_on start seen [] = moved (start + seen + 1) 0 []
went_on start seen (r ∷ rs) = moved start (seen + 1) (r ∷ rs)

abbrev pub read_byte : ℕ → ℕ → List Range → ℕ → Reading
read_byte start seen [] b = began start (lead b)
read_byte start seen (r ∷ rs) b = if in_range r b then went_on start seen rs else refused seen

unfoldable pub scan : ℕ → ℕ → List Range → Bytes → Utf8Result
scan start seen [] [] = valid_utf8
scan start seen (r ∷ rs) [] = utf8_error start none
scan start seen expected (b ∷ bytes) = elim (read_byte start seen expected b) [
  | moved start' seen' expected' ↦ scan start' seen' expected' bytes
  | refused n ↦ utf8_error start (some n)
]

unfoldable pub from_utf8 : Bytes → Utf8Result
unfolding scan
from_utf8 bytes = scan 0 0 [] bytes
