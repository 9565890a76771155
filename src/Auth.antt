-- ===== src/Auth.antt =====
-- Authentication: packages/crab_city/src/auth.rs with the users, sessions and invites of
-- packages/crab_city/src/repository/auth.rs.
pub mod Types
pub mod Cookies
pub mod Tables
pub mod Middleware
pub mod Answers
pub mod Texts
pub mod Paths
pub mod Forgery
pub mod Gate
pub mod CookieTrip
pub mod Unique
pub mod Login
pub mod Revocation
pub mod Register
pub mod Consistent
pub mod Stored
pub mod Requests
pub mod Runs
pub mod Meanwhile
pub mod Handlers
mod Examples
