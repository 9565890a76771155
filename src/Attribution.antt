-- ===== src/Attribution.antt =====
-- Matching typed input with conversation entries: packages/crab_city/src/models.rs (the content
-- match) and packages/crab_city/src/handlers/conversations/format.rs (the pending queue).
pub mod Content
pub mod Queue
pub mod Consume
mod Examples
