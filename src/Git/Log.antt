-- ===== src/Git/Log.antt =====
-- The parser of packages/crab_city/src/git/log.rs for the output of `git log` in the format that the
-- handler asks for.
use crabcity.Diff.Numbers.{negsuc, parse_i64, pos, ℤ}
use crabcity.Shared.{
  Bool, List, Option, Text, [], if◌then◌else◌, is_empty, length, ltb, map, none, not, retain, some,
  suc, take, trim, true, zero, ℕ, ◌==◌, ◌∷◌,
}

pub record GitCommit : Type 0 where
  pub hash : Text
  pub short_hash : Text
  pub author_name : Text
  pub author_email : Text
  pub date : ℤ
  pub message : Text
  pub body : Text
  pub refs : List Text

pub record GitLogResponse : Type 0 where
  pub commits : List GitCommit
  pub has_more : Bool

-- `s.split(c)`: the first part, and the parts behind it.
unfoldable pub split_char : ℕ → Text → Text × List Text
split_char sep [] = ([], [])
split_char sep (ch ∷ s) =
    let later = split_char sep s in
    if ch == sep then ([], later.0 ∷ later.1) else (ch ∷ later.0, later.1)

-- The text in front of a character and the text behind it, if it is there.
unfoldable pub break_at : ℕ → Text → Text × Option Text
break_at sep [] = ([], none)
break_at sep (ch ∷ s) =
    let later = break_at sep s in if ch == sep then ([], some s) else (ch ∷ later.0, later.1)

-- `s.splitn(n + 1, c)`.
unfoldable pub splitn : ℕ → ℕ → Text → List Text
unfolding break_at
splitn zero sep s = s ∷ []
splitn (suc n) sep s = elim (break_at sep s).1 [
  | none ↦ (break_at sep s).0 ∷ []
  | some behind ↦ (break_at sep s).0 ∷ splitn n sep behind
]

abbrev pub field_end : ℕ
field_end = 0

abbrev pub body_end : ℕ
body_end = 0x1e

abbrev pub record_end : ℕ
record_end = 0x1f

abbrev pub date_of : Text → ℤ
date_of s = elim (parse_i64 s) [ none ↦ pos 0 | some n ↦ n ]

unfoldable pub parse_refs : Text → List Text
unfolding split_char
parse_refs s =
    let parts = split_char 44 s in retain (λ x. not (is_empty x)) (map trim (parts.0 ∷ parts.1))

abbrev pub commit_with : (hash short name email date message body : Text) → Text → GitCommit
commit_with hash short name email date message body refs = record {
  hash = hash;
  short_hash = short;
  author_name = name;
  author_email = email;
  date = date_of date;
  message = message;
  body = trim body;
  refs = parse_refs refs;
}

-- Fewer than six fields make no commit.
abbrev pub commit_of : List Text → Text → Option GitCommit
commit_of [] refs = none
commit_of (h ∷ []) refs = none
commit_of (h ∷ s ∷ []) refs = none
commit_of (h ∷ s ∷ n ∷ []) refs = none
commit_of (h ∷ s ∷ n ∷ e ∷ []) refs = none
commit_of (h ∷ s ∷ n ∷ e ∷ d ∷ []) refs = none
commit_of (h ∷ s ∷ n ∷ e ∷ d ∷ m ∷ []) refs = some (commit_with h s n e d m [] refs)
commit_of (h ∷ s ∷ n ∷ e ∷ d ∷ m ∷ b ∷ others) refs = some (commit_with h s n e d m b refs)

abbrev pub or_no_text : Option Text → Text
or_no_text none = []
or_no_text (some s) = s

-- A record without white space around it; an empty one is skipped.
unfoldable pub parse_record : Text → Option GitCommit
unfolding break_at splitn parse_refs
parse_record [] = none
parse_record (ch ∷ s) =
    let parts = break_at body_end (ch ∷ s) in
    commit_of (splitn 6 field_end parts.0) (or_no_text parts.1)

abbrev pub add_commit : Option GitCommit → List GitCommit → List GitCommit
add_commit none commits = commits
add_commit (some commit) commits = commit ∷ commits

unfoldable pub parse_records : List Text → List GitCommit
unfolding parse_record
parse_records [] = []
parse_records (s ∷ records) = add_commit (parse_record (trim s)) (parse_records records)

-- `truncate`, with the limit as a `usize`: a negative one is beyond every length.
abbrev pub truncated : ℤ → List GitCommit → List GitCommit
truncated (pos limit) commits = take limit commits
truncated (negsuc n) commits = commits

abbrev pub exceeds : ℤ → ℕ → Bool
exceeds (pos limit) count = ltb limit count
exceeds (negsuc n) count = true

unfoldable pub parse_git_log_output : Text → ℤ → GitLogResponse
unfolding split_char parse_records
parse_git_log_output output limit =
    let records = split_char record_end output in
    let commits = parse_records (records.0 ∷ records.1) in
    record { commits = truncated limit commits; has_more = exceeds limit (length commits) }
