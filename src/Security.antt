-- ===== src/Security.antt =====
-- Redaction (crates/eggreplay-core/src/security.rs).
pub mod Redact
pub mod Headers
pub mod Markers
pub mod Wildcards
pub mod Secrecy
pub mod Reconciled
