-- ===== src/Stream.antt =====
-- Stream timelines (crates/eggreplay-core/src/stream.rs).
pub mod Types
pub mod Validate
pub mod Sse
pub mod SseBounds
pub mod Timelines
pub mod Order
