-- ===== src/Shared/Trim.antt =====
-- Prefixes, trimming and removed characters: the laws of the text operations.
use Prim.Native.Nat.{ℕ, zero, suc}
use mathlib.Core.Path.{◌≡◌, refl, ap, ◌∙◌}
use mathlib.Core.Bool.{true, false, ◌&&◌, ◌||◌}
use mathlib.Core.Logic.{inl, inr}
use mathlib.Core.List.{[], ◌∷◌, ◌++◌, append_assoc}
use native.Mathlib.Omega.{arith}
use crabcity.Shared.Tests.{Bool-cases}
use crabcity.Shared.Lists.{take, is_empty}
use crabcity.Shared.Strings.{
  Text, has_char, is_whitespace, remove_char, starts_with, trim, trim_end, trim_start,
}

-- A text that is another with something behind it.
abbrev pub IsPrefixOf : Text → Text → Type 0
IsPrefixOf p s = (rest : Text) × (s ≡ p ++ rest)

-- Not beginning with white space.
abbrev pub StartsDark : Text → Type 0
StartsDark [] = Unit
StartsDark (c ∷ s) = is_whitespace c ≡ false

pub starts_with_sound : (s p : Text) → starts_with s p ≡ true → IsPrefixOf p s
unfolding starts_with
starts_with_sound s [] h = (s, refl)
starts_with_sound [] (d ∷ p) h = absurd (cc)
starts_with_sound (c ∷ s) (d ∷ p) h =
    let (rest, e) = starts_with_sound s p (ground arith) in (rest, ground (arith, e))

pub starts_with-append : (p rest : Text) → starts_with (p ++ rest) p ≡ true
unfolding starts_with
starts_with-append [] [] = refl
starts_with-append [] (c ∷ rest) = refl
starts_with-append (d ∷ p) rest = ground (arith, starts_with-append p rest)

pub starts_with_of_prefix : (p s : Text) → IsPrefixOf p s → starts_with s p ≡ true
starts_with_of_prefix p s (rest, e) = rw e (starts_with-append p rest)

pub trim_start-StartsDark : (s : Text) → StartsDark (trim_start s)
unfolding trim_start
trim_start-StartsDark [] = tt
trim_start-StartsDark (c ∷ s) = ground (arith, trim_start-StartsDark s)

pub take-StartsDark : (n : ℕ) (s : Text) → StartsDark s → StartsDark (take n s)
take-StartsDark zero s h = tt
take-StartsDark (suc n) [] h = tt
take-StartsDark (suc n) (c ∷ s) h = h

pub trim_end-prefix : (s : Text) → IsPrefixOf (trim_end s) s
unfolding trim_end
trim_end-prefix [] = ([], refl)
trim_end-prefix (c ∷ s) = elim (Bool-cases (is_whitespace c && is_empty (trim_end s))) [
  | inl blank ↦ rw blank (c ∷ s, refl)
  | inr kept ↦ rw kept ((trim_end-prefix s).0, ap (◌∷◌ c) (trim_end-prefix s).1)
]

take-prefix : (n : ℕ) (s : Text) → IsPrefixOf (take n s) s
take-prefix zero s = (s, refl)
take-prefix (suc n) [] = ([], refl)
take-prefix (suc n) (c ∷ s) = ((take-prefix n s).0, ap (◌∷◌ c) (take-prefix n s).1)

prefix_trans : (p q s : Text) → IsPrefixOf p q → IsPrefixOf q s → IsPrefixOf p s
prefix_trans p q s (r, e) (t, f) = (r ++ t, f ∙ (ap (λ u. u ++ t) e ∙ append_assoc p r t))

pub take-trim_end-prefix : (n : ℕ) (s : Text) → IsPrefixOf (take n (trim_end s)) s
take-trim_end-prefix n s =
    prefix_trans _ (trim_end s) s (take-prefix n (trim_end s)) (trim_end-prefix s)

pub trim_start_dark : (s : Text) → StartsDark s → trim_start s ≡ s
unfolding trim_start
trim_start_dark [] h = refl
trim_start_dark (c ∷ s) h = rw h

-- A text with a dark start keeps its first character, and only its end is trimmed.
pub trim_dark : (s : Text) → StartsDark s → trim s ≡ trim_end s
unfolding trim
trim_dark [] h = refl
trim_dark (c ∷ s) h = rw h (trim_start_dark (c ∷ trim_end s) h)

pub trim_end_nonempty : (s : Text) → StartsDark s → is_empty (trim_end s) ≡ is_empty s
unfolding trim_end
trim_end_nonempty [] h = refl
trim_end_nonempty (c ∷ s) h = rw h refl

pub remove_char_absent : (c : ℕ) (s : Text) → has_char c s ≡ false → remove_char c s ≡ s
unfolding has_char
remove_char_absent c [] h = refl
remove_char_absent c (d ∷ s) h = ground (arith, remove_char_absent c s)

pub has_char-remove_char : (c : ℕ) (s : Text) → has_char c (remove_char c s) ≡ false
unfolding has_char
has_char-remove_char c [] = refl
has_char-remove_char c (d ∷ s) = ground (arith, has_char-remove_char c s)

pub has_char-take : (c n : ℕ) (s : Text) → has_char c s ≡ false → has_char c (take n s) ≡ false
unfolding has_char
has_char-take c zero s h = refl
has_char-take c (suc n) [] h = refl
has_char-take c (suc n) (d ∷ s) h = ground (arith, has_char-take c n s)

has_char-trim_start : (c : ℕ) (s : Text) → has_char c s ≡ false → has_char c (trim_start s) ≡ false
unfolding has_char trim_start
has_char-trim_start c [] h = refl
has_char-trim_start c (d ∷ s) h = ground (arith, has_char-trim_start c s)

has_char-trim_end : (c : ℕ) (s : Text) → has_char c s ≡ false → has_char c (trim_end s) ≡ false
unfolding has_char trim_end
has_char-trim_end c [] h = refl
has_char-trim_end c (d ∷ s) h = ground (arith, has_char-trim_end c s)

pub has_char-trim : (c : ℕ) (s : Text) → has_char c s ≡ false → has_char c (trim s) ≡ false
unfolding trim
has_char-trim c s h = has_char-trim_start c (trim_end s) (has_char-trim_end c s h)

pub trim-StartsDark : (s : Text) → StartsDark (trim s)
unfolding trim
trim-StartsDark s = trim_start-StartsDark (trim_end s)

pub has_char-append : (c : ℕ) (s t : Text) → has_char c (s ++ t) ≡ (has_char c s || has_char c t)
unfolding has_char
has_char-append c [] t = refl
has_char-append c (d ∷ s) t = ground (arith, has_char-append c s t)
