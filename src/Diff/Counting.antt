-- ===== src/Diff/Counting.antt =====
-- The additions and deletions that are reported are those that are shown
-- (packages/crab_city/src/git/diff.rs).
use crabcity.Diff.Hunks.{
  FileState, added_line, closed, context_line, deleted_line, file_line, file_lines, hunk_line,
  inner_line, new_file, open_hunk,
}
use crabcity.Diff.Parse.{
  parse_chunk, parse_chunks, parse_file, parse_lines, parse_unified_diff, total,
}
use crabcity.Diff.Split.{text_lines}
use crabcity.Diff.Types.{GitDiffFile, GitDiffHunk, GitDiffLine, LineType, add, ctx, del}
use crabcity.Shared.{
  All, All-append, Bool, Bool-cases, List, Option, Text, [], ap, arith, codes, false, if◌then◌else◌,
  inl, inr, is_empty, length, none, refl, some, starts_with, suc, trim, true, ℕ, ◌++◌, ◌+◌, ◌∷◌,
  ◌≡◌,
}

abbrev is_type : LineType → LineType → Bool
is_type add add = true
is_type del del = true
is_type ctx ctx = true
is_type _ _ = false

-- How many of the lines are of the type.
abbrev pub count_lines : LineType → List GitDiffLine → ℕ
count_lines t [] = 0
count_lines t (l ∷ ls) =
    let rest = count_lines t ls in if is_type t l.line_type then suc rest else rest

abbrev pub count_hunks : LineType → List GitDiffHunk → ℕ
count_hunks t [] = 0
count_hunks t (h ∷ hs) = count_lines t h.lines + count_hunks t hs

count_lines-append :
    (t : LineType) (ls ms : List GitDiffLine)
    → count_lines t (ls ++ ms) ≡ count_lines t ls + count_lines t ms
count_lines-append t [] ms = omega arith
count_lines-append t (l ∷ ls) ms = ground (arith, count_lines-append t ls ms)

count_hunks-append :
    (t : LineType) (hs ks : List GitDiffHunk)
    → count_hunks t (hs ++ ks) ≡ count_hunks t hs + count_hunks t ks
count_hunks-append t [] ks = omega arith
count_hunks-append t (h ∷ hs) ks = omega (arith, count_hunks-append t hs ks)

-- The lines of the hunk that is being read.
abbrev current_lines : Option (Text × List GitDiffLine) → List GitDiffLine
current_lines none = []
current_lines (some (header, ls)) = ls

count-closed :
    (t : LineType) (current : Option (Text × List GitDiffLine)) (hs : List GitDiffHunk)
    → count_hunks t (closed current hs) ≡ count_hunks t hs + count_lines t (current_lines current)
unfolding closed
count-closed t none hs = omega arith
count-closed t (some (header, ls)) hs =
    omega (arith, count_hunks-append t hs ((record { header = header; lines = ls }) ∷ []))

-- The counters are those of the hunks read so far.
abbrev IsCounted : FileState → Type 0
IsCounted st =
    (st.file_additions ≡ count_hunks add st.hunks + count_lines add (current_lines st.current_hunk))
    × (st.file_deletions
        ≡ count_hunks del st.hunks + count_lines del (current_lines st.current_hunk))

open-IsCounted : (line : Text) (st : FileState) → IsCounted st → IsCounted (open_hunk line st)
unfolding open_hunk
open-IsCounted line st v = (
  omega (arith, v, count-closed add st.current_hunk st.hunks),
  omega (arith, v, count-closed del st.current_hunk st.hunks),
)

count_snoc :
    (t : LineType) (ls : List GitDiffLine) (l : GitDiffLine)
    → count_lines t (ls ++ l ∷ []) ≡ count_lines t ls + count_lines t (l ∷ [])
count_snoc t ls l = count_lines-append t ls (l ∷ [])

added-IsCounted :
    (header rest : Text) (ls : List GitDiffLine) (st : FileState)
    → current_lines st.current_hunk ≡ ls
    → IsCounted st
    → IsCounted (added_line header rest ls st)
unfolding added_line
added-IsCounted header rest ls st e v = (
  rw (count_snoc add ls _) (rw (← e) (omega (arith, v))),
  rw (count_snoc del ls _) (rw (← e) (omega (arith, v))),
)

deleted-IsCounted :
    (header rest : Text) (ls : List GitDiffLine) (st : FileState)
    → current_lines st.current_hunk ≡ ls
    → IsCounted st
    → IsCounted (deleted_line header rest ls st)
unfolding deleted_line
deleted-IsCounted header rest ls st e v = (
  rw (count_snoc add ls _) (rw (← e) (omega (arith, v))),
  rw (count_snoc del ls _) (rw (← e) (omega (arith, v))),
)

context-IsCounted :
    (header rest : Text) (ls : List GitDiffLine) (st : FileState)
    → current_lines st.current_hunk ≡ ls
    → IsCounted st
    → IsCounted (context_line header rest ls st)
unfolding context_line
context-IsCounted header rest ls st e v = (
  rw (count_snoc add ls _) (rw (← e) (omega (arith, v))),
  rw (count_snoc del ls _) (rw (← e) (omega (arith, v))),
)

hunk_line-IsCounted :
    (header line : Text) (ls : List GitDiffLine) (st : FileState)
    → current_lines st.current_hunk ≡ ls
    → IsCounted st
    → IsCounted (hunk_line header line ls st)
unfolding hunk_line
hunk_line-IsCounted header [] ls st e v = v
hunk_line-IsCounted header (c ∷ rest) ls st e v = ground (
  arith,
  added-IsCounted header rest ls st e v,
  deleted-IsCounted header rest ls st e v,
  context-IsCounted header rest ls st e v,
)

inner_line-IsCounted :
    (line : Text) (current : Option (Text × List GitDiffLine)) (st : FileState)
    → st.current_hunk ≡ current
    → IsCounted st
    → IsCounted (inner_line line current st)
unfolding inner_line
inner_line-IsCounted line none st e v = v
inner_line-IsCounted line (some (header, ls)) st e v =
    hunk_line-IsCounted header line ls st (ap current_lines e) v

file_line-IsCounted : (line : Text) (st : FileState) → IsCounted st → IsCounted (file_line line st)
unfolding file_line
file_line-IsCounted line st v = elim (Bool-cases (starts_with line (codes "@@"))) [
  | inl opens ↦ rw (opens, file_line) (open-IsCounted line st v)
  | inr inside ↦ rw (inside, file_line) (inner_line-IsCounted line st.current_hunk st refl v)
]

file_lines-IsCounted :
    (lines : List Text) (st : FileState) → IsCounted st → IsCounted (file_lines lines st)
unfolding file_lines
file_lines-IsCounted [] st v = v
file_lines-IsCounted (line ∷ rest) st v =
    file_lines-IsCounted rest (file_line line st) (file_line-IsCounted line st v)

-- A file reports as many additions and deletions as its hunks have lines of these types.
abbrev pub FileCounts : GitDiffFile → Type 0
FileCounts file =
    (file.additions ≡ count_hunks add file.hunks) × (file.deletions ≡ count_hunks del file.hunks)

parse_file-FileCounts : (header : Text) (rest : List Text) → FileCounts (parse_file header rest)
unfolding parse_file
parse_file-FileCounts header rest =
    let st = file_lines rest new_file in
    let v = file_lines-IsCounted rest new_file (refl, refl) in
    (
      omega (arith, v, count-closed add st.current_hunk st.hunks),
      omega (arith, v, count-closed del st.current_hunk st.hunks),
    )

parse_lines-FileCounts : (lines : List Text) → All FileCounts (parse_lines lines)
unfolding parse_lines
parse_lines-FileCounts [] = tt
parse_lines-FileCounts (header ∷ rest) = (parse_file-FileCounts header rest, tt)

parse_chunk-FileCounts : (chunk : Text) → All FileCounts (parse_chunk chunk)
unfolding parse_chunk
parse_chunk-FileCounts chunk = elim (Bool-cases (is_empty (trim chunk))) [
  | inl blank ↦ rw blank tt
  | inr content ↦ rw content (parse_lines-FileCounts (text_lines chunk))
]

parse_chunks-FileCounts : (chunks : List Text) → All FileCounts (parse_chunks chunks)
unfolding parse_chunks
parse_chunks-FileCounts [] = tt
parse_chunks-FileCounts (chunk ∷ chunks) =
    All-append FileCounts (parse_chunk chunk) (parse_chunks chunks) (parse_chunk-FileCounts chunk)
      (parse_chunks-FileCounts chunks)

total-FileCounts :
    (files : List GitDiffFile)
    → All FileCounts files
    → (total (λ f. f.additions) files ≡ total (λ f. count_hunks add f.hunks) files)
      × (total (λ f. f.deletions) files ≡ total (λ f. count_hunks del f.hunks) files)
total-FileCounts [] v = (refl, refl)
total-FileCounts (file ∷ files) v =
    let (a, d) = total-FileCounts files v.1 in (omega (arith, v.0, a), omega (arith, v.0, d))

-- Whatever the text, each file of a parsed diff reports as many additions and deletions as its hunks
-- have added and deleted lines, and the statistics are the sums over the files and their number.
pub parse_unified_diff-counts :
    (diff_text : Text)
    → let (files, stats) = parse_unified_diff diff_text in
      All FileCounts files
      × (stats.additions ≡ total (λ f. count_hunks add f.hunks) files)
      × (stats.deletions ≡ total (λ f. count_hunks del f.hunks) files)
      × (stats.files_changed ≡ length files)
unfolding parse_unified_diff
parse_unified_diff-counts diff_text =
    let v = parse_chunks-FileCounts _ in let (a, d) = total-FileCounts _ v in (v, a, d, refl)
