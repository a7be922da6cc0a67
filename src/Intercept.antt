-- ===== src/Intercept.antt =====
-- The interception proxy's policy and headers (crates/eggreplay-intercept/src).
pub mod Hosts
pub mod Rules
pub mod PolicyFile
pub mod Ranks
pub mod Priority
pub mod Boundary
pub mod Coherence
pub mod Headers
pub mod Nomination
pub mod Forwarding
pub mod Removed
