-- ===== src/Report/Types.antt =====
-- The types of a report, and the comparison policy.
use eggreplay.Stream.Sse.{is_some}
use eggreplay.Bytes.{Bytes, codes, eq_ignore_case}
use eggreplay.Error.{ErrorCategory, ErrorPhase}
use eggreplay.Prelude.{
  Bool, List, Option, Message, Result, [], about_text, any, contains, false, is_empty, none, not,
  ok, reject_if, ℕ, ◌||◌, ◌∷◌, nat_eq, list_eq, option_eq, pair_eq, ◌>>◌,
}

abbrev pub report_schema_version : ℕ
report_schema_version = 3

pub data ReportScheduler : Type 0 where
  sequential recorded_start_order timeline : ReportScheduler

pub data DiffKind : Type 0 where
  status header trailer body outcome timing sse stream_event web_socket : DiffKind

-- The `Debug` form of a kind, by which findings are sorted.
unfoldable pub kind_debug : DiffKind → Bytes
kind_debug DiffKind.status = codes "Status"
kind_debug DiffKind.header = codes "Header"
kind_debug DiffKind.trailer = codes "Trailer"
kind_debug DiffKind.body = codes "Body"
kind_debug DiffKind.outcome = codes "Outcome"
kind_debug DiffKind.timing = codes "Timing"
kind_debug DiffKind.sse = codes "Sse"
kind_debug DiffKind.stream_event = codes "StreamEvent"
kind_debug DiffKind.web_socket = codes "WebSocket"

-- What a finding prints of one side: a text, a number, `sha256:{} length:{}`, the `Debug` forms of an
-- error's category and phase, or `{} ordered events`.
pub data Summary : Type 0 where
  words : Bytes → Summary
  number event_count : ℕ → Summary
  digest : Bytes → ℕ → Summary
  error_kinds : ErrorCategory → ErrorPhase → Summary

pub record DiffFinding : Type 0 where
  pub kind : DiffKind
  pub field : Bytes
  pub baseline : Summary
  pub candidate : Summary

pub data SuppressionReason : Type 0 where
  volatile_header : SuppressionReason

pub record SuppressedHeader : Type 0 where
  pub field : Bytes
  pub reason : SuppressionReason

pub record TimingAssertion : Type 0 where
  pub max_elapsed_ms : ℕ

pub record ComparisonPolicy : Type 0 where
  pub compare_stream_events : Bool
  pub cadence_tolerance_ns : Option ℕ
  pub compare_sse : Bool
  pub sse_ignored : List Bytes
  pub websocket_cadence_tolerance_ns : Option ℕ
  pub volatile_headers : List Bytes

-- `Default`
abbrev pub default_policy : ComparisonPolicy
default_policy = record {
  compare_stream_events = false;
  cadence_tolerance_ns = none;
  compare_sse = false;
  sse_ignored = [];
  websocket_cadence_tolerance_ns = none;
  volatile_headers = codes "date" ∷ [];
}

unfoldable pub is_stream_enabled : ComparisonPolicy → Bool
is_stream_enabled p = p.compare_stream_events || is_some p.cadence_tolerance_ns

unfoldable pub is_sse_enabled : ComparisonPolicy → Bool
is_sse_enabled p = p.compare_sse || not (is_empty p.sse_ignored)

unfoldable pub is_volatile : ComparisonPolicy → Bytes → Bool
is_volatile p name = any (λ header. eq_ignore_case header name) p.volatile_headers

abbrev pub sse_fields : List Bytes
sse_fields = codes "data" ∷ codes "event" ∷ codes "id" ∷ codes "retry" ∷ codes "comments" ∷ []

unfoldable pub validate_ignored : List Bytes → Result (Unit {0}) Message
validate_ignored [] = ok tt
validate_ignored (field ∷ fields) = do
  reject_if (not (contains sse_fields field)) (about_text "unsupported sse-ignore field" field)
  validate_ignored fields

-- `ComparisonPolicy::validate`
unfoldable pub validate : ComparisonPolicy → Result (Unit {0}) Message
validate p = validate_ignored p.sse_ignored

pub record RegressionReport : Type 0 where
  pub schema_version : ℕ
  pub scheduler : ReportScheduler
  pub baseline_flow_ids : List Bytes
  pub findings : List DiffFinding
  pub suppressed : List SuppressedHeader

unfoldable pub is_success : RegressionReport → Bool
is_success r = is_empty r.findings
