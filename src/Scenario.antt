-- ===== src/Scenario.antt =====
-- Authored replay scenarios (crates/eggreplay-core/src/scenario.rs).
pub mod Types
pub mod Validate
pub mod Render
pub mod Extract
pub mod Runtime
pub mod Rendering
pub mod Extracted
pub mod Invariant
pub mod Authored
pub mod WellFormed
