-- ===== src/Inference.antt =====
-- packages/crab_city/src/inference: the state of a Claude instance and the manager that infers it.
pub mod State
pub mod Manager
pub mod Transitions
pub mod Sticky
mod Examples
