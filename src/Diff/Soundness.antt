-- ===== src/Diff/Soundness.antt =====
-- Whatever the text, the lines of each parsed hunk are numbered from its header on
-- (packages/crab_city/src/git/diff.rs).
use crabcity.Diff.Header.{parse_hunk_header}
use crabcity.Diff.Hunks.{
  FileState, closed, file_line, file_lines, hunk_line, inner_line, new_file, open_hunk, start_nums,
}
use crabcity.Diff.Numbering.{
  HasNums, Numbered, line_of, next_nums, nums_after, nums_of, taken, taken_lem,
}
use crabcity.Diff.Numbers.{ℤ}
use crabcity.Diff.Parse.{parse_file}
use crabcity.Diff.Types.{GitDiffHunk, GitDiffLine, LineType, add, ctx, del}
use crabcity.Shared.{
  All, All-snoc, Bool-cases, List, Option, Text, [], ap, codes, inl, inr, none, refl, some,
  starts_with, subst, sym, ◌++◌, ◌==◌, ◌∙◌, ◌∷◌, ◌≡◌,
}

-- If the header gives numbers, the lines are numbered from them on.
abbrev pub IsNumbered : GitDiffHunk → Type 0
IsNumbered h = (at : ℤ × ℤ) → parse_hunk_header h.header ≡ some at → Numbered at h.lines

-- The hunk that is being read is numbered up to the numbers counted to.
abbrev KeepsCount : Option (Text × List GitDiffLine) → ℤ × ℤ → Type 0
KeepsCount none counted = Unit
KeepsCount (some (header, ls)) counted =
    (at : ℤ × ℤ)
    → parse_hunk_header header ≡ some at
    → Numbered at ls × (nums_after at ls ≡ counted)

abbrev IsSound : FileState → Type 0
IsSound st = All IsNumbered st.hunks × KeepsCount st.current_hunk (nums_of st)

Numbered-snoc :
    (ls : List GitDiffLine) (l : GitDiffLine) (at : ℤ × ℤ)
    → Numbered at ls
    → HasNums l.line_type l.old_num l.new_num (nums_after at ls)
    → Numbered at (ls ++ l ∷ [])
Numbered-snoc [] l at v h = (h, tt)
Numbered-snoc (k ∷ ls) l at v h = (v.0, Numbered-snoc ls l (next_nums k.line_type at) v.1 h)

nums_after_snoc :
    (ls : List GitDiffLine) (l : GitDiffLine) (at : ℤ × ℤ)
    → nums_after at (ls ++ l ∷ []) ≡ next_nums l.line_type (nums_after at ls)
nums_after_snoc [] l at = refl
nums_after_snoc (k ∷ ls) l at = nums_after_snoc ls l (next_nums k.line_type at)

line_nums :
    (t : LineType) (content : Text) (at : ℤ × ℤ)
    → ((line_of t content at).line_type ≡ t)
      × HasNums
          (line_of t content at).line_type
          (line_of t content at).old_num
          (line_of t content at).new_num
          at
line_nums add content (o, n) = (refl, (refl, refl))
line_nums del content (o, n) = (refl, (refl, refl))
line_nums ctx content (o, n) = (refl, (refl, refl))

taken-IsSound :
    (t : LineType) (header content : Text) (ls : List GitDiffLine) (st : FileState)
    → All IsNumbered st.hunks
    → KeepsCount (some (header, ls)) (nums_of st)
    → IsSound (taken t header content ls st)
taken-IsSound t header content ls st v k =
    let (current, same, nums) = taken_lem t header content ls st in
    let l = line_of t content (nums_of st) in
    let (typed_as, has) = line_nums t content (nums_of st) in
    rw (current, same, nums)
      (
        v,
        λ at r.
            let (numbered, counted) = k at r in
            (
              Numbered-snoc ls l at numbered (
                  subst (λ (c : ℤ × ℤ). HasNums l.line_type l.old_num l.new_num c) (sym counted)
                    has),
              nums_after_snoc ls l at
                  ∙ (ap (next_nums l.line_type) counted
                      ∙ ap (λ (u : LineType). next_nums u (nums_of st)) typed_as),
            ),
      )

hunk_line-IsSound :
    (header line : Text) (ls : List GitDiffLine) (st : FileState)
    → st.current_hunk ≡ some (header, ls)
    → IsSound st
    → IsSound (hunk_line header line ls st)
unfolding hunk_line
hunk_line-IsSound header [] ls st e v = v
hunk_line-IsSound header (c ∷ rest) ls st e v = elim (Bool-cases (c == 43)) [
  | inl plus ↦ rw plus (taken-IsSound add header rest ls st v.0 k)
  | inr other ↦ elim (Bool-cases (c == 45)) [
    | inl minus ↦ rw (other, minus) (taken-IsSound del header rest ls st v.0 k)
    | inr neither ↦ elim (Bool-cases (c == 32)) [
      | inl space ↦ rw (other, neither, space) (taken-IsSound ctx header rest ls st v.0 k)
      | inr skipped ↦ rw (other, neither, skipped) v
    ]
  ]
]
  where
    k : KeepsCount (some (header, ls)) (nums_of st)
    k = subst (λ (q : Option (Text × List GitDiffLine)). KeepsCount q (nums_of st)) e v.1

inner_line-IsSound :
    (line : Text) (current : Option (Text × List GitDiffLine)) (st : FileState)
    → st.current_hunk ≡ current
    → IsSound st
    → IsSound (inner_line line current st)
unfolding inner_line
inner_line-IsSound line none st e v = v
inner_line-IsSound line (some (header, ls)) st e v = hunk_line-IsSound header line ls st e v

closed-IsNumbered :
    (current : Option (Text × List GitDiffLine)) (counted : ℤ × ℤ) (hs : List GitDiffHunk)
    → All IsNumbered hs
    → KeepsCount current counted
    → All IsNumbered (closed current hs)
unfolding closed
closed-IsNumbered none counted hs v k = v
closed-IsNumbered (some (header, ls)) counted hs v k =
    All-snoc IsNumbered hs (record { header = header; lines = ls }) v (λ at r. (k at r).0)

start_nums_lem :
    (read : Option (ℤ × ℤ)) (counted at : ℤ × ℤ) → read ≡ some at → at ≡ start_nums read counted
unfolding start_nums
start_nums_lem none counted at e = absurd (cc)
start_nums_lem (some starts) counted at e = cc

open-IsSound : (line : Text) (st : FileState) → IsSound st → IsSound (open_hunk line st)
unfolding open_hunk
open-IsSound line st v = (
  closed-IsNumbered st.current_hunk (nums_of st) st.hunks v.0 v.1,
  λ at r. (tt, start_nums_lem (parse_hunk_header line) (nums_of st) at r),
)

file_line-IsSound : (line : Text) (st : FileState) → IsSound st → IsSound (file_line line st)
unfolding file_line
file_line-IsSound line st v = elim (Bool-cases (starts_with line (codes "@@"))) [
  | inl opens ↦ rw (opens, file_line) (open-IsSound line st v)
  | inr inside ↦ rw (inside, file_line) (inner_line-IsSound line st.current_hunk st refl v)
]

file_lines-IsSound :
    (lines : List Text) (st : FileState) → IsSound st → IsSound (file_lines lines st)
unfolding file_lines
file_lines-IsSound [] st v = v
file_lines-IsSound (line ∷ rest) st v =
    file_lines-IsSound rest (file_line line st) (file_line-IsSound line st v)

-- In every hunk that is parsed from the lines of a file, whatever they are, the lines are numbered
-- one after the other from the numbers of the hunk's header, if the header has them.
pub parse_file-IsNumbered :
    (header : Text) (rest : List Text) → All IsNumbered (parse_file header rest).hunks
unfolding parse_file
parse_file-IsNumbered header rest =
    let st = file_lines rest new_file in
    let v = file_lines-IsSound rest new_file (tt, tt) in
    closed-IsNumbered st.current_hunk (nums_of st) st.hunks v.0 v.1
