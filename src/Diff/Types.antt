-- ===== src/Diff/Types.antt =====
-- The records of packages/crab_city/src/git/types.rs that the parser fills. The strings that name the
-- type of a line and the status of a file are constructors; highlights are left out, which the parser
-- sets to `None`.
use crabcity.Diff.Numbers.{ℤ}
use crabcity.Shared.{List, Option, Text, ℕ}

-- "add", "del" and "ctx".
pub data LineType : Type 0 where
  add del ctx : LineType

pub record GitDiffLine : Type 0 where
  pub line_type : LineType
  pub content : Text
  pub old_num : Option ℤ
  pub new_num : Option ℤ

pub record GitDiffHunk : Type 0 where
  pub header : Text
  pub lines : List GitDiffLine

pub data FileStatus : Type 0 where
  modified added deleted renamed : FileStatus

pub record GitDiffFile : Type 0 where
  pub path : Text
  pub old_path : Option Text
  pub status : FileStatus
  pub additions : ℕ
  pub deletions : ℕ
  pub hunks : List GitDiffHunk

pub record GitDiffStats : Type 0 where
  pub additions : ℕ
  pub deletions : ℕ
  pub files_changed : ℕ
