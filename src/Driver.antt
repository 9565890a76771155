-- ===== src/Driver.antt =====
-- packages/crab_city/src/process_driver.rs and claude_driver.rs: the driver that an instance's actor
-- owns.
pub mod Process
pub mod Claude
pub mod Sync
mod Examples
