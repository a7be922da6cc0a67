-- ===== src/Report.antt =====
-- Regression reports (crates/eggreplay-core/src/report.rs).
pub mod Types
pub mod HeaderDiff
pub mod Compare
pub mod Streams
pub mod Agreement
pub mod Kinds
pub mod Verdicts
pub mod Accounted
pub mod StreamAgreement
pub mod Ordered
