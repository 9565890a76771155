-- ===== src/Diff/Header.antt =====
-- The headers of a file and of a hunk (packages/crab_city/src/git/diff.rs).
use crabcity.Diff.Numbers.{parse_i64, ℤ}
use crabcity.Diff.Split.{find_text, split_whitespace, trim_start_char, until_char, without_prefix}
use crabcity.Shared.{
  List, Option, Text, codes, drop, if◌then◌else◌, is_empty, length, none, some, strip_prefix, suc,
  take, trim, ℕ, ◌∷◌,
}

-- The header from one character behind the found index on.
abbrev paths_at : Text → ℕ → Text × Text
paths_at header found_at = (
  without_prefix (codes "a/") (take found_at header),
  without_prefix (codes "b/") (drop (suc found_at) header),
)

-- `header.splitn(2, ' ')`, where the second part may be missing.
abbrev paths_split : Text → Text × Text
paths_split header =
    let old = until_char 32 header in
    let behind = drop (length old) header in
    (
      without_prefix (codes "a/") old,
      without_prefix (codes "b/") (if is_empty behind then old else drop 1 behind),
    )

unfoldable pub parse_diff_header_paths : Text → Text × Text
parse_diff_header_paths header = elim (find_text (codes " b/") header) [
  | some found_at ↦ paths_at header found_at
  | none ↦ paths_split header
]

-- A start, without its sign and the count behind the comma.
abbrev parse_start : ℕ → Text → Option ℤ
parse_start sign part = parse_i64 (until_char 44 (trim_start_char sign part))

abbrev parse_range : List Text → Option (ℤ × ℤ)
parse_range (old ∷ new_part ∷ parts) = elim (parse_start 45 old) [
  | none ↦ none
  | some old_start ↦ elim (parse_start 43 new_part) [
    | none ↦ none
    | some new_start ↦ some (old_start, new_start)
  ]
]
parse_range _ = none

unfoldable pub parse_hunk_header : Text → Option (ℤ × ℤ)
parse_hunk_header header = elim (strip_prefix header (codes "@@")) [
  | none ↦ none
  | some rest ↦ elim (find_text (codes "@@") rest) [
    | none ↦ none
    | some end_at ↦ parse_range (split_whitespace (trim (take end_at rest)))
  ]
]
