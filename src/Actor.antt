-- ===== src/Actor.antt =====
-- packages/crab_city/src/instance_actor.rs: the actor that owns the driver and the terminal of an
-- instance.
pub mod Instance
pub mod Recent
pub mod Turns
pub mod Watched
mod Examples
