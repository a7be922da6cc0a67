-- ===== src/Grpc.antt =====
-- Views of gRPC bodies (crates/eggreplay-http/src/grpc.rs).
pub mod Frames
pub mod Framing
pub mod Trailers
pub mod Status
