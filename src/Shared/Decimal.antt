-- ===== src/Shared/Decimal.antt =====
-- Decimal numbers as text: `{}` of an unsigned integer, and `parse` of digits.
use Prim.Native.Nat.{ℕ, zero, suc, ◌+◌, ◌-◌, ◌*◌, ◌/◌, ◌%◌, ◌<◌}
use mathlib.Core.Path.{◌≡◌, refl, ◌∙◌}
use mathlib.Core.Bool.{Bool, false, ◌&&◌}
use mathlib.Core.List.{[], ◌∷◌}
use mathlib.Core.Logic.{inl, inr}
use mathlib.Core.Option.{Option, none, some}
use native.Mathlib.Omega.{arith}
use crabcity.Shared.Tests.{leb, ltb, if◌then◌else◌, Bool-cases}
use crabcity.Shared.Lists.{is_empty}
use crabcity.Shared.Strings.{Text}

-- The digits of `n` in front of `rest`, on fuel.
unfoldable pub decimal_onto : ℕ → ℕ → Text → Text
decimal_onto zero n rest = rest
decimal_onto (suc fuel) n rest =
    let more = decimal_onto fuel (n / 10) ((48 + n % 10) ∷ rest) in
    if ltb n 10 then (48 + n) ∷ rest else more

-- A number has fewer digits than its successor.
unfoldable pub decimal : ℕ → Text
unfolding decimal_onto
decimal n = decimal_onto (suc n) n []

abbrev pub is_digit : ℕ → Bool
is_digit c = leb 48 c && leb c 57

-- The value of a text of digits behind the value `acc`.
unfoldable pub parse_onto : ℕ → Text → Option ℕ
parse_onto acc [] = some acc
parse_onto acc (c ∷ s) =
    let rest = parse_onto (acc * 10 + (c - 48)) s in if is_digit c then rest else none

unfoldable pub parse_decimal : Text → Option ℕ
unfolding parse_onto
parse_decimal [] = none
parse_decimal (c ∷ s) = parse_onto 0 (c ∷ s)

decimal_onto-parse :
    (fuel n acc : ℕ) (rest : Text)
    → n < fuel
    → parse_onto 0 (decimal_onto fuel n rest) ≡ parse_onto n rest
unfolding decimal_onto parse_onto
decimal_onto-parse zero n acc rest h = elim h [ ]
decimal_onto-parse (suc fuel) n acc rest h = elim (Bool-cases (ltb n 10)) [
  | inl small ↦ rw small (ground arith)
  | inr large ↦
      rw large (ground (arith, decimal_onto-parse fuel (n / 10) acc ((48 + n % 10) ∷ rest)))
]

decimal_onto-nonempty :
    (fuel n c : ℕ) (rest : Text) → is_empty (decimal_onto fuel n (c ∷ rest)) ≡ false
unfolding decimal_onto
decimal_onto-nonempty zero n c rest = refl
decimal_onto-nonempty (suc fuel) n c rest =
    ground (arith, decimal_onto-nonempty fuel (n / 10) (48 + n % 10) (c ∷ rest))

decimal-nonempty : (n : ℕ) → is_empty (decimal n) ≡ false
unfolding decimal
decimal-nonempty n = ground (arith, decimal_onto-nonempty n (n / 10) (48 + n % 10) [])

parse_nonempty : (s : Text) → is_empty s ≡ false → parse_decimal s ≡ parse_onto 0 s
unfolding parse_decimal
parse_nonempty [] h = absurd (cc)
parse_nonempty (c ∷ s) h = refl

-- Printing a number and reading it back gives the number.
pub parse-decimal : (n : ℕ) → parse_decimal (decimal n) ≡ some n
unfolding decimal parse_onto
parse-decimal n =
    parse_nonempty (decimal n) (decimal-nonempty n)
    ∙ decimal_onto-parse (suc n) n 0 [] (omega arith)
