-- ===== src/Gsm.antt =====
-- packages/crab_city/src/ws/state_manager.rs: the global state manager, which the connections share.
-- Each `RwLock` is held for the whole of an operation on its map, so that such an operation is one
-- step; an operation that takes several locks in turn is the composition of its steps, without another
-- task between them.
pub mod State
pub mod Sessions
pub mod FirstInput
pub mod Discovery
pub mod Claims
pub mod Locks
pub mod Exclusion
pub mod Holding
pub mod Reconcile
pub mod Presence
pub mod Attendance
pub mod Instances
pub mod Cleanup
pub mod Input
pub mod Delivery
pub mod Inbox
pub mod Attention
mod Examples
