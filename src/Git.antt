-- ===== src/Git.antt =====
-- The commands of git that packages/crab_city/src/git reads the output of.
pub mod Log
pub mod Records
pub mod Commits
mod Examples
