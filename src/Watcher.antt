-- ===== src/Watcher.antt =====
-- The watchers of conversations: packages/crab_city/src/ws/merging_watcher.rs.
pub mod Turns
pub mod Merging
pub mod Results
pub mod Replies
pub mod Delegated
pub mod Stored
pub mod Polls
pub mod Arrivals
mod Examples
