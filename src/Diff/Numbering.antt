-- ===== src/Diff/Numbering.antt =====
-- The lines of a hunk are numbered from its header on, and are those of the text
-- (packages/crab_city/src/git/diff.rs).
use crabcity.Diff.Header.{parse_hunk_header}
use crabcity.Diff.Hunks.{
  FileState, added_line, closed, context_line, deleted_line, file_line, file_lines, hunk_line,
  inner_line, new_file, open_hunk, start_nums,
}
use crabcity.Diff.Numbers.{i64_succ, ℤ}
use crabcity.Diff.Parse.{parse_file}
use crabcity.Diff.Types.{GitDiffHunk, GitDiffLine, LineType, add, ctx, del}
use crabcity.Shared.{
  All, List, Option, Text, [], ap, append-nil, append_assoc, arith, codes, map, none, refl, some,
  starts_with, true, ◌++◌, ◌∙◌, ◌∷◌, ◌≡◌,
}

-- The numbers that stand at a line, given those counted to.
abbrev pub HasNums : LineType → Option ℤ → Option ℤ → ℤ × ℤ → Type 0
HasNums add old new_num (o, n) = (old ≡ none) × (new_num ≡ some n)
HasNums del old new_num (o, n) = (old ≡ some o) × (new_num ≡ none)
HasNums ctx old new_num (o, n) = (old ≡ some o) × (new_num ≡ some n)

-- The numbers behind a line.
abbrev pub next_nums : LineType → ℤ × ℤ → ℤ × ℤ
next_nums add (o, n) = (o, i64_succ n)
next_nums del (o, n) = (i64_succ o, n)
next_nums ctx (o, n) = (i64_succ o, i64_succ n)

-- Lines that are numbered one after the other: an added line in the new file, a deleted one in the
-- old file, and a line of context in both.
abbrev pub Numbered : ℤ × ℤ → List GitDiffLine → Type 0
Numbered at [] = Unit
Numbered at (l ∷ ls) =
    HasNums l.line_type l.old_num l.new_num at × Numbered (next_nums l.line_type at) ls

-- The numbers behind lines.
abbrev pub nums_after : ℤ × ℤ → List GitDiffLine → ℤ × ℤ
nums_after at [] = at
nums_after at (l ∷ ls) = nums_after (next_nums l.line_type at) ls

-- What the parser makes of a line of the type.
abbrev pub taken : LineType → Text → Text → List GitDiffLine → FileState → FileState
taken add header content ls st = added_line header content ls st
taken del header content ls st = deleted_line header content ls st
taken ctx header content ls st = context_line header content ls st

abbrev pub nums_of : FileState → ℤ × ℤ
nums_of st = (st.old_num, st.new_num)

abbrev pub line_of : LineType → Text → ℤ × ℤ → GitDiffLine
line_of add content (o, n) = record {
  line_type = add;
  content = content;
  old_num = none;
  new_num = some n;
}
line_of del content (o, n) = record {
  line_type = del;
  content = content;
  old_num = some o;
  new_num = none;
}
line_of ctx content (o, n) = record {
  line_type = ctx;
  content = content;
  old_num = some o;
  new_num = some n;
}

pub taken_lem :
    (t : LineType) (header content : Text) (ls : List GitDiffLine) (st : FileState)
    → let after = taken t header content ls st in
      (after.current_hunk ≡ some (header, ls ++ line_of t content (nums_of st) ∷ []))
      × (after.hunks ≡ st.hunks)
      × (nums_of after ≡ next_nums t (nums_of st))
unfolding added_line deleted_line context_line
taken_lem add header content ls st = (refl, refl, refl)
taken_lem del header content ls st = (refl, refl, refl)
taken_lem ctx header content ls st = (refl, refl, refl)

-- A line as the diff has it.
abbrev print_as : LineType → Text → Text
print_as add content = 43 ∷ content
print_as del content = 45 ∷ content
print_as ctx content = 32 ∷ content

abbrev pub print_line : GitDiffLine → Text
print_line l = print_as l.line_type l.content

file_line-print :
    (t : LineType) (header content : Text) (ls : List GitDiffLine) (st : FileState)
    → st.current_hunk ≡ some (header, ls)
    → file_line (print_as t content) st ≡ taken t header content ls st
unfolding file_line inner_line hunk_line starts_with
file_line-print add header content ls st e = rw (e, inner_line) refl
file_line-print del header content ls st e = rw (e, inner_line) refl
file_line-print ctx header content ls st e = rw (e, inner_line) refl

line_of-HasNums :
    (t : LineType) (content : Text) (old new_num : Option ℤ) (at : ℤ × ℤ)
    → HasNums t old new_num at
    → line_of t content at
      ≡ record { line_type = t; content = content; old_num = old; new_num = new_num }
line_of-HasNums add content old new_num (o, n) h = ground (arith, h)
line_of-HasNums del content old new_num (o, n) h = ground (arith, h)
line_of-HasNums ctx content old new_num (o, n) h = ground (arith, h)

-- The numbered lines of a hunk, printed, are read behind the ones that it has.
file_lines-print :
    (header : Text) (ls ms : List GitDiffLine) (at : ℤ × ℤ) (st : FileState)
    → st.current_hunk ≡ some (header, ls)
    → nums_of st ≡ at
    → Numbered at ms
    → ((file_lines (map print_line ms) st).current_hunk ≡ some (header, ls ++ ms))
      × ((file_lines (map print_line ms) st).hunks ≡ st.hunks)
unfolding file_lines
file_lines-print header ls [] at st e c v = (rw append-nil e, refl)
file_lines-print header ls (m ∷ ms) at st e c v =
    let after = taken m.line_type header m.content ls st in
    let (current, same, nums) = taken_lem m.line_type header m.content ls st in
    let told : line_of m.line_type m.content (nums_of st) ≡ m =
      ap (line_of m.line_type m.content) c
      ∙ line_of-HasNums m.line_type m.content m.old_num m.new_num at v.0 in
    let (read, kept) =
      file_lines-print header (ls ++ m ∷ []) ms (next_nums m.line_type at) after
        (current ∙ ap (λ (l : GitDiffLine). some (header, ls ++ l ∷ [])) told)
        (nums ∙ ap (next_nums m.line_type) c) v.1 in
    let step =
      ap (file_lines (map print_line ms)) (file_line-print m.line_type header m.content ls st e) in
    (
      ap (λ (s : FileState). s.current_hunk) step
          ∙ (read ∙ ap (λ (q : List GitDiffLine). some (header, q)) (append_assoc ls (m ∷ []) ms)),
      ap (λ (s : FileState). s.hunks) step ∙ (kept ∙ same),
    )

-- A hunk whose header is one, and whose lines are numbered from it on.
pub record IsHunk (h : GitDiffHunk) : Type 0 where
  pub marked : starts_with h.header (codes "@@") ≡ true
  pub starts : ℤ × ℤ
  pub read : parse_hunk_header h.header ≡ some starts
  pub numbered : Numbered starts h.lines

abbrev pub print_hunks : List GitDiffHunk → List Text
print_hunks [] = []
print_hunks (h ∷ hs) = (h.header ∷ map print_line h.lines) ++ print_hunks hs

file_lines-append :
    (xs ys : List Text) (st : FileState)
    → file_lines (xs ++ ys) st ≡ file_lines ys (file_lines xs st)
unfolding file_lines
file_lines-append [] ys st = refl
file_lines-append (x ∷ xs) ys st = file_lines-append xs ys (file_line x st)

abbrev pub hunks_of : FileState → List GitDiffHunk
hunks_of st = closed st.current_hunk st.hunks

open_hunk_lem :
    (header : Text) (st : FileState) (starts : ℤ × ℤ)
    → starts_with header (codes "@@") ≡ true
    → parse_hunk_header header ≡ some starts
    → let after = file_line header st in
      (after.current_hunk ≡ some (header, []))
      × (after.hunks ≡ hunks_of st)
      × (nums_of after ≡ starts)
unfolding file_line open_hunk start_nums
open_hunk_lem header st starts m r = rw (m, file_line) (rw (r, open_hunk) (refl, refl, refl))

one_hunk :
    (h : GitDiffHunk) (st : FileState)
    → IsHunk h
    → hunks_of (file_lines (h.header ∷ map print_line h.lines) st) ≡ hunks_of st ++ h ∷ []
unfolding file_lines closed
one_hunk h st v =
    let (current, same, nums) = open_hunk_lem h.header st v.starts v.marked v.read in
    let (read, kept) =
      file_lines-print h.header [] h.lines v.starts (file_line h.header st) current nums
        v.numbered in
    rw (read, kept, same) refl

print_hunks_lem :
    (hs : List GitDiffHunk) (st : FileState)
    → All IsHunk hs
    → hunks_of (file_lines (print_hunks hs) st) ≡ hunks_of st ++ hs
unfolding file_lines
print_hunks_lem [] st v = rw append-nil refl
print_hunks_lem (h ∷ hs) st v =
    let after = file_lines (h.header ∷ map print_line h.lines) st in
    ap hunks_of (file_lines-append (h.header ∷ map print_line h.lines) (print_hunks hs) st)
    ∙ (print_hunks_lem hs after v.1
        ∙ (ap (λ (q : List GitDiffHunk). q ++ hs) (one_hunk h st v.0)
            ∙ append_assoc (hunks_of st) (h ∷ []) hs))

-- Hunks that are printed line by line are parsed back: if the header of each gives numbers from
-- which its lines are numbered, then the file that is parsed from them has exactly these hunks.
pub parse_file-print_hunks :
    (header : Text) (hs : List GitDiffHunk)
    → All IsHunk hs
    → (parse_file header (print_hunks hs)).hunks ≡ hs
unfolding parse_file closed
parse_file-print_hunks header hs v = print_hunks_lem hs new_file v
