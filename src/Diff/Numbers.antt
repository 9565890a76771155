-- ===== src/Diff/Numbers.antt =====
-- The numbers of packages/crab_city/src/git/diff.rs: `i64`, its parser and its wrapping increment.
use crabcity.Shared.{
  Option, Text, [], if◌then◌else◌, leb, none, parse_decimal, some, suc, zero, ℕ, ◌==◌, ◌∷◌,
}

pub data ℤ : Type 0 where
  pos negsuc : ℕ → ℤ

abbrev pub i64_max : ℕ
i64_max = 9223372036854775807

abbrev in_range : Option ℕ → Option ℤ
in_range none = none
in_range (some n) = if leb n i64_max then some (pos n) else none

abbrev negated : Option ℕ → Option ℤ
negated none = none
negated (some zero) = some (pos 0)
negated (some (suc n)) = if leb n i64_max then some (negsuc n) else none

-- `s.parse::<i64>().ok()`.
unfoldable pub parse_i64 : Text → Option ℤ
parse_i64 [] = none
parse_i64 (c ∷ s) =
    if c == 43
    then in_range (parse_decimal s)
    else if c == 45
    then negated (parse_decimal s)
    else in_range (parse_decimal (c ∷ s))

-- `n + 1` on `i64`, which wraps around.
unfoldable pub i64_succ : ℤ → ℤ
i64_succ (pos n) = if n == i64_max then negsuc i64_max else pos (suc n)
i64_succ (negsuc zero) = pos 0
i64_succ (negsuc (suc n)) = negsuc n
