-- ===== src/Store/Recorder.antt =====
-- `RecordingSession` and `SessionWriter`: the flow log and its accounting. Writes to files succeed
-- here. Of the log, its lines are kept, oldest last; `none` is the state after `finish` has taken it.
use eggreplay.Prelude.{
  Bool, List, Option, Result, [], false, if◌then◌else◌, leb, length, ltb, none, not, ok, ok_or,
  reject_if, some, suc, text, true, ℕ, ◌+◌, ◌-◌, ◌==◌, ◌^◌, ◌∷◌, nat_eq, list_eq, option_eq,
  pair_eq, ◌>>◌, ◌>>=◌,
}
use eggreplay.Bytes.{Bytes}
use eggreplay.Flow
use eggreplay.Flow.{Flow}
use eggreplay.Store.Types.{
  StoreError, StoreLimits, migrate, as_store_error, invalid, invalid_flow, validate_body_refs, json,
  flow_body_bytes,
}

-- `RecordingInner`, without the registries of extensions.
pub record Recorder : Type 0 where
  pub limits : StoreLimits
  pub flows : Option (List Bytes)
  pub flow_count : ℕ
  pub total_bytes : ℕ
  pub active_blobs : ℕ
  pub shutdown : Bool

-- `RecordingSession::create`
unfoldable pub create : ℕ → StoreLimits → Result Recorder StoreError
create schema_version limits = do
  schema ← migrate schema_version
  ok (record {
    limits = limits;
    flows = some [];
    flow_count = 0;
    total_bytes = 0;
    active_blobs = 0;
    shutdown = false;
  })

-- `SessionWriter`, as far as flows go.
pub record Writer : Type 0 where
  pub limits : StoreLimits
  pub flows : List Bytes
  pub flow_count : ℕ
  pub total_bytes : ℕ

-- `serde_json::to_vec` of a flow is a parameter.
module _ (to_vec : Flow → Option Bytes) where
  -- What `append_flow` does before it takes the lock: the line, with the bytes of the bodies.
  unfoldable pub prepare : StoreLimits → Flow → Result (Bytes × ℕ) StoreError
  prepare limits flow = do
    as_store_error invalid_flow (Flow.validate flow)
    validate_body_refs flow limits.max_blob_bytes
    encoded ← ok_or (to_vec flow) json
    reject_if (ltb limits.max_line_bytes (length encoded))
        (invalid (text "flow JSONL line exceeds configured limit"))
    ok (encoded, flow_body_bytes flow)

  -- What it does under the lock.
  unfoldable pub append_line : Recorder → Bytes × ℕ → Result Recorder StoreError
  append_line r (encoded, new_bytes) = do
    lines ← ok_or r.flows (invalid (text "session is finalizing"))
    reject_if (leb r.limits.max_flows r.flow_count)
        (invalid (text "flow count exceeds configured limit"))
    reject_if (leb (2 ^ 64) (r.total_bytes + new_bytes))
        (invalid (text "total body length overflow"))
    reject_if (ltb r.limits.max_total_bytes (r.total_bytes + new_bytes))
        (invalid (text "total body length exceeds configured limit"))
    ok (record r {
      flows = some (encoded ∷ lines);
      flow_count = suc r.flow_count;
      total_bytes = r.total_bytes + new_bytes;
    })

  -- `RecordingSession::append_flow`, undisturbed.
  unfoldable pub append_flow : Recorder → Flow → Result Recorder StoreError
  append_flow r flow = do
    reject_if r.shutdown (invalid (text "session is shutting down"))
    line ← prepare r.limits flow
    append_line r line

  -- `SessionWriter::append_flow`
  unfoldable pub write_flow : Writer → Flow → Result Writer StoreError
  write_flow w flow = do
    reject_if (leb w.limits.max_flows w.flow_count)
        (invalid (text "flow count exceeds configured limit"))
    as_store_error invalid_flow (Flow.validate flow)
    validate_body_refs flow w.limits.max_blob_bytes
    encoded ← ok_or (to_vec flow) json
    reject_if (ltb w.limits.max_line_bytes (length encoded))
        (invalid (text "flow JSONL line exceeds configured limit"))
    reject_if (leb (2 ^ 64) (w.total_bytes + flow_body_bytes flow))
        (invalid (text "total body length overflow"))
    reject_if (ltb w.limits.max_total_bytes (w.total_bytes + flow_body_bytes flow))
        (invalid (text "total body length exceeds configured limit"))
    ok (record w {
      flows = encoded ∷ w.flows;
      flow_count = suc w.flow_count;
      total_bytes = w.total_bytes + flow_body_bytes flow;
    })

-- `shutdown`
unfoldable pub shut_down : Recorder → Recorder
shut_down r = record r { shutdown = true }

-- `begin_blob`: the check of the flag, and then, another moment, the count.
unfoldable pub admit_blob : Recorder → Result (Unit {0}) StoreError
admit_blob r = reject_if r.shutdown (invalid (text "session is shutting down"))

unfoldable pub count_blob : Recorder → Recorder
count_blob r = record r { active_blobs = suc r.active_blobs }

-- `fetch_sub` where a body writer finishes or is dropped.
unfoldable pub release_blob : Recorder → Recorder
release_blob r = record r { active_blobs = r.active_blobs - 1 }

-- `finish`, up to the finalizers: the flag and the check of the open bodies.
unfoldable pub check_idle : Recorder → Result (Unit {0}) StoreError
check_idle r =
    reject_if (not (r.active_blobs == 0))
      (invalid (text "cannot finalize with active transactions"))

-- `finish`, past them: the log is taken, and its lines and their count go into the manifest.
unfoldable pub take_log : Recorder → Result (Recorder × (List Bytes × ℕ)) StoreError
take_log r = do
  lines ← ok_or r.flows (invalid (text "session is already finalizing"))
  ok (record r { flows = none }, (lines, r.flow_count))

-- `Write::write` of a body writer, as the length and its limit go.
unfoldable pub write_body : ℕ → ℕ → Bytes → Option ℕ
write_body max_bytes size buf =
    if leb (2 ^ 64) (size + length buf)
    then none
    else if ltb max_bytes (size + length buf)
    then none
    else some (size + length buf)
