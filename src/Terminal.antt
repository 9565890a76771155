-- ===== src/Terminal.antt =====
-- packages/virtual_terminal/src/lib.rs: the virtual terminal between the clients and the
-- pseudo-terminal.
pub mod Emulator
pub mod Viewport
pub mod Virtual
pub mod Agreement
pub mod Said
pub mod Negotiation
pub mod Sgr
pub mod Styles
pub mod Scrollback
pub mod History
pub mod Recorder
pub mod Recording
pub mod Played
pub mod Codec
mod Examples
