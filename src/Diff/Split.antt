-- ===== src/Diff/Split.antt =====
-- The operations of Rust's `str` that packages/crab_city/src/git/diff.rs cuts its input with.
use crabcity.Shared.{
  Bool, List, Option, Text, [], false, if◌then◌else◌, is_empty, is_whitespace, length, none, not,
  some, starts_with, strip_prefix, suc, zero, ℕ, ◌&&◌, ◌-◌, ◌==◌, ◌∷◌,
}

-- The part being read and the parts behind it, with one more character in front.
abbrev pub into_first : ℕ → List Text → List Text
into_first c [] = (c ∷ []) ∷ []
into_first c (part ∷ parts) = (c ∷ part) ∷ parts

-- `s.split(pattern)` for a pattern that is not empty, with so many characters of a match to skip.
unfoldable pub split_skip : Text → ℕ → Text → List Text
split_skip pattern skip [] = [] ∷ []
split_skip pattern (suc n) (c ∷ s) = split_skip pattern n s
split_skip pattern zero (c ∷ s) =
    let cut = split_skip pattern (length pattern - 1) s in
    let rest = split_skip pattern 0 s in
    if starts_with (c ∷ s) pattern then [] ∷ cut else into_first c rest

unfoldable pub split_on : Text → Text → List Text
unfolding split_skip
split_on pattern s = split_skip pattern 0 s

-- `s.lines()`: a line ends at "\n" or "\r\n".
unfoldable pub text_lines : Text → List Text
text_lines [] = []
text_lines (c ∷ s) =
    let rest = text_lines s in
    if c == 10
    then [] ∷ rest
    else if c == 13 && starts_with s (10 ∷ [])
    then rest
    else into_first c rest

abbrev starts_dark : Text → Bool
starts_dark [] = false
starts_dark (c ∷ s) = not (is_whitespace c)

-- `s.split_whitespace()`.
unfoldable pub split_whitespace : Text → List Text
split_whitespace [] = []
split_whitespace (c ∷ s) =
    let rest = split_whitespace s in
    if is_whitespace c then rest else if starts_dark s then into_first c rest else (c ∷ []) ∷ rest

-- `s.trim_start_matches(c)`.
unfoldable pub trim_start_char : ℕ → Text → Text
trim_start_char c [] = []
trim_start_char c (d ∷ s) = let rest = trim_start_char c s in if d == c then rest else d ∷ s

-- `s.split(c).next()`, which always is something.
unfoldable pub until_char : ℕ → Text → Text
until_char c [] = []
until_char c (d ∷ s) = let rest = until_char c s in if d == c then [] else d ∷ rest

-- `s.find(pattern)`: how many characters stand in front of the first occurrence.
unfoldable pub find_text : Text → Text → Option ℕ
find_text pattern [] = if is_empty pattern then some 0 else none
find_text pattern (c ∷ s) =
    let later = find_text pattern s in
    if starts_with (c ∷ s) pattern
    then some 0
    else (elim later [ none ↦ none | some n ↦ some (suc n) ])

-- `s.strip_prefix(p).unwrap_or(s)`.
abbrev pub without_prefix : Text → Text → Text
without_prefix p s = elim (strip_prefix s p) [ none ↦ s | some rest ↦ rest ]
