-- ===== src/Diff.antt =====
-- packages/crab_city/src/git/diff.rs: the parser of unified diffs.
pub mod Split
pub mod Numbers
pub mod Types
pub mod Header
pub mod Hunks
pub mod Parse
pub mod Counting
pub mod Numbering
pub mod Soundness
mod Examples
