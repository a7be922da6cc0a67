-- ===== src/Matching.antt =====
-- Matching a request against recorded flows (crates/eggreplay-core/src/matching.rs).
pub mod Types
pub mod Session
pub mod Normalize
pub mod Body
pub mod Select
pub mod Outcome
pub mod Loads
pub mod NearMiss
pub mod Replays
