-- ===== src/Store.antt =====
-- The fixture store (crates/eggreplay-store/src/lib.rs).
pub mod Types
pub mod Recorder
pub mod Recorded
pub mod Sequential
pub mod Extensions
pub mod Extended
pub mod Blobs
pub mod Stored
pub mod Events
pub mod EventLogs
pub mod Conversations
pub mod Conversed
