-- ===== src/Lib.antt =====
-- EggReplay records HTTP exchanges and replays them: a recorded flow is redacted and stored, and a
-- replay answers each request with the recorded flow that matches it, or by a scenario that was
-- written for it. A regression run compares what a candidate answers with what was recorded, and an
-- explicit proxy decides which connections it may record. This library models the parts that decide,
-- which are free of input and output. Paths are from the root of the repository.
--
-- Prelude, Bytes and BTree are what the modules share: tests, lists and results, text as the list
-- of its bytes in UTF-8, and the ordered maps and sets of the Rust library as sorted lists, which
-- compare as the Rust ones do. External is what the program takes from the crates serde_json, sha2
-- and url: a parameter of which nothing is assumed.
--
-- * Error (crates/eggreplay-core/src/error.rs): the taxonomy of errors. `new` is `FlowError::new`,
--   with `none` for a panic.
-- * Flow (flow.rs of the same crate): requests, responses, bodies by reference, flows and their
--   validation.
-- * Config (config.rs): the record modes and what they resolve to, and the profiles.
-- * Matching (matching.rs): Types is the data, Session the consumption state, Normalize the
--   comparison of headers and queries with redacted parts left out, Body the comparison of bodies,
--   and Select the selection. `select_with_loader` passes on the state of the loader explicitly; its
--   loop is `scan`. Outcome, NearMiss, Loads and Replays are the proofs.
-- * Security (security.rs): Redact is the redaction of flows and bodies, Headers what follows a
--   change of a body. Markers and Wildcards relate redaction to matching, Secrecy is what remains of
--   a flow, and Reconciled what remains of the headers of a changed body.
-- * Scenario (scenario.rs): Types, Validate, Extract, Render and Runtime are the code. `advance`
--   returns the answer with the runtime that it leaves, and each of its steps is a function on the
--   result of the one before. Authored, WellFormed, Extracted, Invariant and Rendering are the
--   proofs.
-- * WebSocket (websocket.rs): Types, Validate and Handshake are the code. The loop over messages
--   carries a cursor, the loop over conversations the totals. Accepted and Transcript are the proofs.
-- * Stream (stream.rs): Types, Validate, Sse and the first part of Order are the code. A float by
--   which delays are scaled stands as the function that it computes. Timelines, SseBounds and the rest
--   of Order are the proofs.
-- * Grpc (crates/eggreplay-http/src/grpc.rs): Frames and Trailers are the code. Framing, Status and
--   the end of Trailers are the proofs.
-- * Report (report.rs of the core crate): Types, HeaderDiff, Compare and Streams are the code. The
--   findings that the source pushes are threaded through as a `Diff`, and what a finding prints of a
--   side is a `Summary`. Agreement, Verdicts, Accounted, StreamAgreement, Ordered and Kinds are the
--   proofs; Sorting is the stable sort.
-- * Intercept (crates/eggreplay-intercept/src): Hosts and Rules (policy.rs), PolicyFile
--   (policy_file.rs) and Headers (headers.rs) are the code. Addresses and header maps are parameters;
--   HeaderMapLaws says what is assumed of the latter. Ranks, Priority, Boundary, Coherence,
--   Nomination, Forwarding and Removed are the proofs.
-- * Store (crates/eggreplay-store/src/lib.rs): Types, Recorder, Events, Conversations, Extensions and
--   Blobs are the code. Extensions has a fixture's root as a list of its entries, and Blobs has the
--   files of the bodies and SHA-256 as parameters.
--   `append_flow` is split where it takes its lock, and `Step` interleaves the parts of all tasks: one
--   that has passed the check of the shutdown flag may act at any later time. Recorded, Sequential,
--   EventLogs, Conversed, Extended and Stored are the proofs.
-- * Tests applies the theorems to concrete inputs.
--
-- Requests meet these parts in turn: a recorded flow passes through `redact_flow`, is turned into a
-- candidate by `from_flow`, and is selected by `select_with_loader`; where a scenario is given,
-- `advance` answers instead. What is recorded goes into a store by `append_flow`, and a candidate's
-- answer is compared with it by `compare_flows`.
--
-- Lengths and counts are natural numbers. Sums that the source checks against the width of its type
-- are checked here (header and payload lengths); the rest is bounded by the limits that the source
-- tests first. The fuel of `render_loop` is one more than the length of the template, since each
-- round consumes at least four bytes. The room of `parse_frames` is the limit of the source itself.
--
-- Not modelled are: the network side (recording.rs, replay.rs, regression.rs, inbound.rs, h2.rs, and
-- the proxy, tunnel and certificate files of the interception crate), which drives tokio, hyper and
-- rustls; the rest of the file system side of the store, where writes are taken to succeed; HAR import
-- and export; the command line; the Python bindings; the displays of a policy; `StreamTimingMode::parse`, which
-- parses a float; `redact_url`, which only calls the url crate; `Flow::new`, which reads a
-- process-wide counter; the texts of errors made by other crates.
pub mod Prelude
pub mod Bytes
pub mod BTree
pub mod Error
pub mod Flow
pub mod External
pub mod Config
pub mod Matching
pub mod Security
pub mod Scenario
pub mod Grpc
pub mod WebSocket
pub mod Stream
pub mod Intercept
pub mod Sorting
pub mod Report
pub mod Store
mod Tests
