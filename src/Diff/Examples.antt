-- ===== src/Diff/Examples.antt =====
-- The theorems on the parser of diffs at a small diff (packages/crab_city/src/git/diff.rs).
use crabcity.Diff.Counting.{FileCounts, count_hunks, parse_unified_diff-counts}
use crabcity.Diff.Header.{parse_diff_header_paths, parse_hunk_header}
use crabcity.Diff.Hunks.{
  added_line, closed, context_line, deleted_line, file_line, file_lines, hunk_line, inner_line,
  open_hunk, start_nums,
}
use crabcity.Diff.Numbering.{IsHunk, parse_file-print_hunks, print_hunks}
use crabcity.Diff.Numbers.{i64_succ, parse_i64, pos}
use crabcity.Diff.Parse.{
  file_status, parse_chunk, parse_chunks, parse_file, parse_lines, parse_unified_diff, total,
}
use crabcity.Diff.Soundness.{IsNumbered, parse_file-IsNumbered}
use crabcity.Diff.Split.{
  find_text, split_on, split_skip, split_whitespace, text_lines, trim_start_char, until_char,
}
use crabcity.Diff.Types.{GitDiffHunk, add, ctx, del, modified, renamed}
use crabcity.Shared.{
  All, Text, [], codes, is_whitespace, length, none, parse_decimal, parse_onto, refl, some,
  starts_with, strip_prefix, trim, ◌∷◌, ◌≡◌,
}

abbrev start_line : Text
start_line = codes "@@ -1,2 +1,2 @@"

abbrev small_hunk : GitDiffHunk
small_hunk = record {
  header = start_line;
  lines =
      (record {
        line_type = ctx;
        content = codes "a";
        old_num = some (pos 1);
        new_num = some (pos 1);
      })
      ∷ (record { line_type = del; content = codes "b"; old_num = some (pos 2); new_num = none })
      ∷ (record { line_type = add; content = codes "c"; old_num = none; new_num = some (pos 2) })
      ∷ [];
}

abbrev small_diff : Text
small_diff =
    codes
      "diff --git a/x b/x\nindex 1..2\n@@ -1,2 +1,2 @@\n a\n-b\n+c\ndiff --git a/y b/z\nrename from y"

small_diff_parsed : parse_unified_diff small_diff ≡ (
  (record {
    path = codes "x";
    old_path = none;
    status = modified;
    additions = 1;
    deletions = 1;
    hunks = small_hunk ∷ [];
  })
      ∷ (record {
        path = codes "z";
        old_path = some (codes "y");
        status = renamed;
        additions = 0;
        deletions = 0;
        hunks = [];
      })
      ∷ [],
  record { additions = 1; deletions = 1; files_changed = 2 },
)
unfolding parse_unified_diff split_on split_skip text_lines split_whitespace trim_start_char
    until_char find_text parse_i64 parse_decimal parse_onto i64_succ parse_diff_header_paths
    parse_hunk_header open_hunk closed start_nums hunk_line added_line deleted_line context_line
    inner_line file_line file_lines file_status parse_file parse_lines parse_chunk parse_chunks
    starts_with strip_prefix trim is_whitespace
small_diff_parsed = refl

parse_unified_diff-counts_example :
    let (files, stats) = parse_unified_diff small_diff in
    All FileCounts files
    × (stats.additions ≡ total (λ f. count_hunks add f.hunks) files)
    × (stats.deletions ≡ total (λ f. count_hunks del f.hunks) files)
    × (stats.files_changed ≡ length files)
parse_unified_diff-counts_example = parse_unified_diff-counts small_diff

small_hunk-IsHunk : IsHunk small_hunk
unfolding parse_hunk_header starts_with strip_prefix split_whitespace trim_start_char until_char
    find_text parse_i64 parse_decimal parse_onto i64_succ trim is_whitespace
small_hunk-IsHunk = record {
  marked = refl;
  starts = (pos 1, pos 1);
  read = refl;
  numbered = ((refl, refl), ((refl, refl), ((refl, refl), tt)));
}

parse_file-print_hunks_example :
    (parse_file (codes "a/x b/x") (print_hunks (small_hunk ∷ []))).hunks ≡ small_hunk ∷ []
parse_file-print_hunks_example =
    parse_file-print_hunks (codes "a/x b/x") (small_hunk ∷ []) (small_hunk-IsHunk, tt)

parse_file-IsNumbered_example :
    All IsNumbered (parse_file (codes "a/x b/x") (start_line ∷ codes "-b" ∷ codes "?" ∷ [])).hunks
parse_file-IsNumbered_example =
    parse_file-IsNumbered (codes "a/x b/x") (start_line ∷ codes "-b" ∷ codes "?" ∷ [])
