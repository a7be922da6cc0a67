-- ===== src/Store/Types.antt =====
-- Limits, errors and the checks of what goes into a store.
use eggreplay.Bytes.{Bytes, is_digit, lowercase}
use eggreplay.Error.{FlowError}
use eggreplay.Flow.{BodyRef, Flow, FlowOutcome, body_len, is_hexdigit}
use eggreplay.Prelude.{
  Message, Result, all, err, if◌then◌else◌, is_empty, leb, length, ltb, none, not, ok, reject_if,
  some, text, ℕ, ◌%◌, ◌&&◌, ◌*◌, ◌+◌, ◌==◌, ◌^◌, ◌||◌, nat_eq, list_eq, option_eq, pair_eq, ◌>>◌,
  refl, ◌≡◌,
}

abbrev pub session_schema_v1 : ℕ
session_schema_v1 = 1

abbrev pub session_schema_version : ℕ
session_schema_version = 2

pub record StoreLimits : Type 0 where
  pub max_line_bytes : ℕ
  pub max_blob_bytes : ℕ
  pub max_flows : ℕ
  pub max_total_bytes : ℕ

-- `Default`
abbrev pub default_store_limits : StoreLimits
default_store_limits = record {
  max_line_bytes = 4 * 1024 * 1024;
  max_blob_bytes = 64 * 1024 * 1024;
  max_flows = 100000;
  max_total_bytes = 512 * 1024 * 1024;
}

-- `StoreError`, without the texts of other crates. An invalid flow keeps its error, of which the
-- source keeps the text.
pub data StoreError : Type 0 where
  io json : StoreError
  invalid : Message → StoreError
  invalid_flow : FlowError → StoreError
  unsupported_schema : ℕ → StoreError
  integrity : Bytes → StoreError

-- `SchemaOneMigration::migrate`
unfoldable pub migrate : ℕ → Result ℕ StoreError
migrate schema_version =
    if leb session_schema_v1 schema_version && leb schema_version session_schema_version
    then ok schema_version
    else err (unsupported_schema schema_version)

-- `map_err(StoreError::Invalid)` and `From<FlowError>`
unfoldable pub as_store_error {ℓ} :
    {A : Type ℓ} {E : Type 0} → (E → StoreError) → Result A E → Result A StoreError
as_store_error f (ok a) = ok a
as_store_error f (err e) = err (f e)

pub as_store_error-eq-ok :
    {E : Type 0} (f : E → StoreError) (m : Result (Unit {0}) E)
    → as_store_error f m ≡ ok tt
    → m ≡ ok tt
unfolding as_store_error
as_store_error-eq-ok f (ok u) h = refl
as_store_error-eq-ok f (err e) h = absurd (cc h)

-- `validate_digest`
unfoldable pub validate_digest : Bytes → Result (Unit {0}) StoreError
validate_digest digest =
    reject_if
      (not (length digest == 64)
        || not (all is_hexdigit digest)
        || not (digest == lowercase digest))
      (invalid (text "invalid blob digest"))

unfoldable pub validate_body_ref : ℕ → BodyRef → Result (Unit {0}) StoreError
validate_body_ref max_blob_bytes (BodyRef.blob b) = do
  validate_digest b.sha256
  reject_if (ltb max_blob_bytes b.length) (invalid (text "body reference exceeds configured limit"))
validate_body_ref max_blob_bytes _ = ok tt

-- The body of the response, if there is one.
unfoldable pub response_body : FlowOutcome → BodyRef
response_body (FlowOutcome.response r) = r.body
response_body (FlowOutcome.error e) = BodyRef.absent

-- `validate_body_refs`: an error has no body to check.
unfoldable pub validate_body_refs : Flow → ℕ → Result (Unit {0}) StoreError
validate_body_refs flow max_blob_bytes = do
  validate_body_ref max_blob_bytes flow.request.body
  validate_body_ref max_blob_bytes (response_body flow.outcome)

-- `len().unwrap_or(0)`
unfoldable pub len_or_zero : BodyRef → ℕ
len_or_zero b = elim (body_len b) [ none ↦ 0 | some n ↦ n ]

-- `flow_body_bytes`, a sum of 64 bits.
unfoldable pub flow_body_bytes : Flow → ℕ
flow_body_bytes flow =
    (len_or_zero flow.request.body + len_or_zero (response_body flow.outcome)) % 2 ^ 64

-- `validate_extension_name`
unfoldable pub validate_extension_name : Bytes → Result (Unit {0}) StoreError
validate_extension_name name =
    reject_if
      (is_empty name
        || ltb 64 (length name)
        || not (all (λ b. (leb b'a' b && leb b b'z') || is_digit b || b == b'-') name))
      (invalid (text "invalid extension name"))
