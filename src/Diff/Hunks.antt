-- ===== src/Diff/Hunks.antt =====
-- The loop of `parse_unified_diff` over the lines of one file
-- (packages/crab_city/src/git/diff.rs).
use crabcity.Diff.Header.{parse_hunk_header}
use crabcity.Diff.Numbers.{i64_succ, pos, ℤ}
use crabcity.Diff.Types.{GitDiffHunk, GitDiffLine, add, ctx, del}
use crabcity.Shared.{
  List, Option, Text, [], codes, if◌then◌else◌, none, some, starts_with, ℕ, ◌++◌, ◌+◌, ◌==◌, ◌∷◌,
}

pub record FileState : Type 0 where
  pub hunks : List GitDiffHunk
  pub current_hunk : Option (Text × List GitDiffLine)
  pub file_additions : ℕ
  pub file_deletions : ℕ
  pub old_num : ℤ
  pub new_num : ℤ

abbrev pub new_file : FileState
new_file = record {
  hunks = [];
  current_hunk = none;
  file_additions = 0;
  file_deletions = 0;
  old_num = pos 0;
  new_num = pos 0;
}

-- `current_hunk.take()`, pushed onto the hunks if there is one.
unfoldable pub closed : Option (Text × List GitDiffLine) → List GitDiffHunk → List GitDiffHunk
closed none hunks = hunks
closed (some (header, hunk_lines)) hunks =
    hunks ++ (record { header = header; lines = hunk_lines }) ∷ []

-- The numbers that a hunk starts with, if its header has any, and else the ones counted to.
unfoldable pub start_nums : Option (ℤ × ℤ) → ℤ × ℤ → ℤ × ℤ
start_nums none counted = counted
start_nums (some starts) counted = starts

unfoldable pub open_hunk : Text → FileState → FileState
unfolding closed start_nums
open_hunk line st =
    let (o, n) = start_nums (parse_hunk_header line) (st.old_num, st.new_num) in
    record st {
      hunks = closed st.current_hunk st.hunks;
      current_hunk = some (line, []);
      old_num = o;
      new_num = n;
    }

unfoldable pub added_line : Text → Text → List GitDiffLine → FileState → FileState
added_line header rest hunk_lines st = record st {
  current_hunk = some (
    header,
    hunk_lines
        ++ (record { line_type = add; content = rest; old_num = none; new_num = some st.new_num })
          ∷ [],
  );
  new_num = i64_succ st.new_num;
  file_additions = st.file_additions + 1;
}

unfoldable pub deleted_line : Text → Text → List GitDiffLine → FileState → FileState
deleted_line header rest hunk_lines st = record st {
  current_hunk = some (
    header,
    hunk_lines
        ++ (record { line_type = del; content = rest; old_num = some st.old_num; new_num = none })
          ∷ [],
  );
  old_num = i64_succ st.old_num;
  file_deletions = st.file_deletions + 1;
}

unfoldable pub context_line : Text → Text → List GitDiffLine → FileState → FileState
context_line header rest hunk_lines st = record st {
  current_hunk = some (
    header,
    hunk_lines
        ++ (record {
          line_type = ctx;
          content = rest;
          old_num = some st.old_num;
          new_num = some st.new_num;
        })
          ∷ [],
  );
  old_num = i64_succ st.old_num;
  new_num = i64_succ st.new_num;
}

-- A line of a hunk, by its first character; any other line is skipped.
unfoldable pub hunk_line : Text → Text → List GitDiffLine → FileState → FileState
unfolding added_line deleted_line context_line
hunk_line header [] hunk_lines st = st
hunk_line header (c ∷ rest) hunk_lines st =
    if c == 43
    then added_line header rest hunk_lines st
    else if c == 45
    then deleted_line header rest hunk_lines st
    else if c == 32
    then context_line header rest hunk_lines st
    else st

-- A line that opens no hunk.
unfoldable pub inner_line : Text → Option (Text × List GitDiffLine) → FileState → FileState
unfolding hunk_line
inner_line line none st = st
inner_line line (some (header, hunk_lines)) st = hunk_line header line hunk_lines st

unfoldable pub file_line : Text → FileState → FileState
unfolding open_hunk inner_line
file_line line st =
    if starts_with line (codes "@@") then open_hunk line st else inner_line line st.current_hunk st

unfoldable pub file_lines : List Text → FileState → FileState
unfolding file_line
file_lines [] st = st
file_lines (line ∷ rest) st = file_lines rest (file_line line st)
