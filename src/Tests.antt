-- ===== src/Tests.antt =====
-- Concrete inputs, tests of definitions, and the theorems applied to concrete inputs.
mod Fixtures
mod Matching
mod Scenario
mod Security
mod WebSocket
mod Grpc
mod Core
mod Stream
mod Report
mod Store
mod Intercept
