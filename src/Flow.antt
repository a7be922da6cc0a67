-- ===== src/Flow.antt =====
-- Recorded flows and their validation (crates/eggreplay-core/src/flow.rs).
use eggreplay.Prelude.{
  ℕ, ◌≡◌, Bool, true, false, not, ◌&&◌, ◌||◌, List, Option, none, some, ltb, leb, ◌==◌, ==_iff,
  arith, Eq, nat_eq, list_eq, ◌↔◌, length, all, Result, ok, ◌>>◌, reject_if, is_empty,
}
use eggreplay.Bytes.{Bytes, codes, is_digit, lowercase, starts_with_byte, contains_byte}
use eggreplay.Error.{ErrorCategory, ErrorPhase, FlowError, short_error}

pub record HeaderEntry : Type 0 where
  pub name : Bytes
  pub value : Bytes

unfoldable pub header_beq : HeaderEntry → HeaderEntry → Bool
header_beq a b = a.name == b.name && a.value == b.value

pub header_beq_iff : (a b : HeaderEntry) → (header_beq a b ≡ true) ↔ (a ≡ b)
unfolding header_beq
header_beq_iff a b = ground (arith, ==_iff a.name b.name, ==_iff a.value b.value)

instance abbrev pub header_eq : Eq HeaderEntry
header_eq = record { beq = header_beq; beq_iff = header_beq_iff }

pub record QueryPair : Type 0 where
  pub key : Bytes
  pub value : Bytes

unfoldable pub query_beq : QueryPair → QueryPair → Bool
query_beq a b = a.key == b.key && a.value == b.value

pub query_beq_iff : (a b : QueryPair) → (query_beq a b ≡ true) ↔ (a ≡ b)
unfolding query_beq
query_beq_iff a b = ground (arith, ==_iff a.key b.key, ==_iff a.value b.value)

instance abbrev pub query_eq : Eq QueryPair
query_eq = record { beq = query_beq; beq_iff = query_beq_iff }

abbrev pub Trailers : Type 0
Trailers = List HeaderEntry

pub record BlobRef : Type 0 where
  pub sha256 : Bytes
  pub length : ℕ

pub data BodyRef : Type 0 where
  absent empty : BodyRef
  blob : BlobRef → BodyRef

-- `BodyRef::len`
unfoldable pub body_len : BodyRef → Option ℕ
body_len absent = none
body_len empty = some 0
body_len (blob b) = some b.length

abbrev pub is_hexdigit : ℕ → Bool
is_hexdigit c = is_digit c || (leb b'a' c && leb c b'f') || (leb b'A' c && leb c b'F')

-- `BlobRef::new`
unfoldable pub new_blob : Bytes → ℕ → Result BlobRef FlowError
new_blob sha256 size = do
  reject_if (not (length sha256 == 64) || not (all is_hexdigit sha256)) (
      short_error ErrorCategory.policy ErrorPhase.policy
        (codes "blob digest must be 64 hexadecimal characters"))
  ok (record { sha256 = lowercase sha256; length = size })

pub record HttpRequest : Type 0 where
  pub method : Bytes
  pub scheme : Bytes
  pub authority : Bytes
  pub path : Bytes
  pub query : List QueryPair
  pub headers : List HeaderEntry
  pub body : BodyRef
  pub trailers : Trailers

pub record HttpResponse : Type 0 where
  pub status : ℕ
  pub headers : List HeaderEntry
  pub body : BodyRef
  pub trailers : Trailers

pub data FlowOutcome : Type 0 where
  response : HttpResponse → FlowOutcome
  error : FlowError → FlowOutcome

pub record PhysicalRoute : Type 0 where
  pub kind : Bytes
  pub description : Option Bytes

pub record Provenance : Type 0 where
  pub mode : Bytes
  pub observer : Bytes

pub record RedactionMarker : Type 0 where
  pub field : Bytes
  pub profile : Bytes

pub record Flow : Type 0 where
  pub schema_version : ℕ
  pub id : Bytes
  pub started_at_ms : ℕ
  pub completed_at_ms : Option ℕ
  pub request : HttpRequest
  pub outcome : FlowOutcome
  pub physical_route : Option PhysicalRoute
  pub provenance : Provenance
  pub annotations : List (Bytes × Bytes)
  pub redactions : List RedactionMarker

abbrev pub flow_schema_version : ℕ
flow_schema_version = 1

-- `if let Some(end) = self.completed_at_ms && end < self.started_at_ms`
ends_early : Option ℕ → ℕ → Bool
ends_early none start = false
ends_early (some finish) start = ltb finish start

-- `!(100..=599).contains(&status)`
abbrev pub is_status : ℕ → Bool
is_status status = leb 100 status && leb status 599

bad_status : FlowOutcome → Bool
bad_status (response r) = not (is_status r.status)
bad_status (error e) = false

-- `Flow::validate`
unfoldable pub validate : Flow → Result (Unit {0}) FlowError
unfolding ends_early bad_status
validate f = do
  reject_if (not (f.schema_version == flow_schema_version))
      (short_error ErrorCategory.policy ErrorPhase.policy (codes "unsupported flow schema"))
  reject_if
      (is_empty f.id
        || ltb 256 (length f.id)
        || contains_byte b'/' f.id
        || contains_byte b'\\' f.id)
      (short_error ErrorCategory.policy ErrorPhase.policy (codes "invalid flow identifier"))
  reject_if
      (is_empty f.request.method
        || is_empty f.request.path
        || not (starts_with_byte b'/' f.request.path))
      (short_error ErrorCategory.protocol ErrorPhase.request (codes "invalid request line fields"))
  reject_if (ends_early f.completed_at_ms f.started_at_ms)
      (short_error ErrorCategory.policy ErrorPhase.policy (codes "flow completion precedes start"))
  reject_if (bad_status f.outcome)
      (short_error ErrorCategory.protocol ErrorPhase.headers (codes "invalid response status"))
  ok tt
