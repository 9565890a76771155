-- ===== src/Diff/Parse.antt =====
-- `parse_unified_diff` of packages/crab_city/src/git/diff.rs.
use crabcity.Diff.Header.{parse_diff_header_paths}
use crabcity.Diff.Hunks.{closed, file_lines, new_file}
use crabcity.Diff.Split.{split_on, text_lines, without_prefix}
use crabcity.Diff.Types.{FileStatus, GitDiffFile, GitDiffStats, added, deleted, modified, renamed}
use crabcity.Shared.{
  Bool, List, Text, [], codes, false, if◌then◌else◌, is_empty, length, none, some, starts_with,
  trim, true, ℕ, ◌++◌, ◌+◌, ◌||◌, ◌∷◌,
}

-- The loop that looks for the status of a file, up to its first hunk.
unfoldable pub file_status : FileStatus → List Text → FileStatus
file_status status [] = status
file_status status (line ∷ rest) =
    let as_added = file_status added rest in
    let as_deleted = file_status deleted rest in
    let as_renamed = file_status renamed rest in
    let as_before = file_status status rest in
    if starts_with line (codes "new file")
    then as_added
    else if starts_with line (codes "deleted file")
    then as_deleted
    else if starts_with line (codes "rename from") || starts_with line (codes "similarity index")
    then as_renamed
    else if starts_with line (codes "@@")
    then status
    else as_before

-- Whether the old path is shown.
abbrev shows_old : FileStatus → Bool
shows_old renamed = true
shows_old deleted = true
shows_old _ = false

unfoldable pub parse_file : Text → List Text → GitDiffFile
unfolding file_status
parse_file header rest =
    let (old_path, new_path) = parse_diff_header_paths header in
    let status = file_status modified rest in
    let st = file_lines rest new_file in
    record {
      path = new_path;
      old_path = if shows_old status then some old_path else none;
      status = status;
      additions = st.file_additions;
      deletions = st.file_deletions;
      hunks = closed st.current_hunk st.hunks;
    }

-- The files of a chunk: none if it is blank.
unfoldable pub parse_lines : List Text → List GitDiffFile
unfolding parse_file
parse_lines [] = []
parse_lines (header ∷ rest) = parse_file header rest ∷ []

unfoldable pub parse_chunk : Text → List GitDiffFile
unfolding parse_lines
parse_chunk chunk = if is_empty (trim chunk) then [] else parse_lines (text_lines chunk)

unfoldable pub parse_chunks : List Text → List GitDiffFile
unfolding parse_chunk
parse_chunks [] = []
parse_chunks (chunk ∷ chunks) = parse_chunk chunk ++ parse_chunks chunks

-- The first chunk still has its mark.
abbrev unmarked : List Text → List Text
unmarked [] = []
unmarked (chunk ∷ chunks) = without_prefix (codes "diff --git ") chunk ∷ chunks

abbrev pub total : (GitDiffFile → ℕ) → List GitDiffFile → ℕ
total f [] = 0
total f (file ∷ files) = f file + total f files

unfoldable pub parse_unified_diff : Text → List GitDiffFile × GitDiffStats
unfolding parse_chunks
parse_unified_diff diff_text =
    let files = parse_chunks (unmarked (split_on (10 ∷ codes "diff --git ") diff_text)) in
    (
      files,
      record {
        additions = total (λ f. f.additions) files;
        deletions = total (λ f. f.deletions) files;
        files_changed = length files;
      },
    )
