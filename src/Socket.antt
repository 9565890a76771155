-- ===== src/Socket.antt =====
-- The tasks behind a WebSocket: packages/crab_city/src/ws/focus.rs, which decodes the output of a
-- terminal for a client and brings the client's copy of a conversation up to date.
pub mod Utf8
pub mod Decoder
pub mod Chunks
pub mod Scans
pub mod Streams
pub mod Clean
pub mod Focus
pub mod Sync
pub mod Conversations
pub mod Forwarding
mod Examples
