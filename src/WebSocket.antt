-- ===== src/WebSocket.antt =====
-- WebSocket transcripts (crates/eggreplay-core/src/websocket.rs).
pub mod Types
pub mod Validate
pub mod Handshake
pub mod Accepted
pub mod Transcript
