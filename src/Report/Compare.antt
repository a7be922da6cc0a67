-- ===== src/Report/Compare.antt =====
-- `compare_flows_with_timing_and_policy`, the authority for the difference of two flows.
use eggreplay.Report.HeaderDiff.{no_diff, Diff, push, compare_headers}
use eggreplay.Sorting.{sort_by}
use eggreplay.Stream.Sse.{SseParseResult, compare_sse, parse_sse}
use eggreplay.Prelude.{
  Bool, List, Option, [], any, false, if◌then◌else◌, length, ltb, none, some, true, ℕ, ◌&&◌, ◌-◌,
  ◌==◌, ◌∷◌, nat_eq, list_eq, option_eq, pair_eq,
}
use Prim.Native.Nat.{Ordering}
use eggreplay.Bytes.{Bytes, codes, trim, split_byte, eq_ignore_case}
use eggreplay.BTree.{compare_bytes}
use eggreplay.Error.{FlowError, category_name, phase_name}
use eggreplay.External.{External}
use eggreplay.Flow.{Flow, FlowOutcome, HeaderEntry, HttpResponse}
use eggreplay.Report.Types.{
  ComparisonPolicy, DiffFinding, DiffKind, number, error_kinds, TimingAssertion, words,
  ReportScheduler, is_sse_enabled, SuppressedHeader, kind_debug, Summary, RegressionReport, digest,
  report_schema_version, default_policy,
}

-- `is_sse`: the part of the value before the first `;`.
unfoldable pub media_type : Bytes → Bytes
media_type value = elim (split_byte b';' value) [ [] ↦ [] | part ∷ parts ↦ part ]

unfoldable pub is_sse : List HeaderEntry → Bool
is_sse headers =
    any
      (λ h.
        eq_ignore_case h.name (codes "content-type")
        && eq_ignore_case (trim (media_type h.value)) (codes "text/event-stream"))
      headers

-- `outcome_name`
unfoldable pub outcome_name : FlowOutcome → Bytes
outcome_name (FlowOutcome.response r) = codes "response"
outcome_name (FlowOutcome.error e) = codes "error"

-- The orders by which a report is sorted: `(Debug of kind, field)`, and `field`.
unfoldable pub bytes_precede : Bytes → Bytes → Bool
bytes_precede a b = elim (compare_bytes a b) [ Ordering.gt ↦ false | _ ↦ true ]

unfoldable pub finding_precedes : DiffFinding → DiffFinding → Bool
finding_precedes f g = elim (compare_bytes (kind_debug f.kind) (kind_debug g.kind)) [
  | Ordering.lt ↦ true
  | Ordering.eq ↦ bytes_precede f.field g.field
  | Ordering.gt ↦ false
]

unfoldable pub suppressed_precedes : SuppressedHeader → SuppressedHeader → Bool
suppressed_precedes a b = bytes_precede a.field b.field

-- The texts of the finding on two SSE bodies.
unfoldable pub sse_finding : List Bytes → SseParseResult → SseParseResult → Option (Bytes × Bytes)
sse_finding ignored baseline candidate = elim baseline.error [
  | some e ↦ some (codes "baseline SSE is malformed", codes "candidate SSE inspected")
  | none ↦ elim candidate.error [
    | some e ↦ some (codes "baseline SSE parsed", codes "candidate SSE is malformed")
    | none ↦
        if compare_sse baseline.events candidate.events ignored
        then none
        else some (codes "SSE event sequence", codes "SSE event sequence")
  ]
]

unfoldable pub push_sse : Option (Bytes × Bytes) → Diff → Diff
push_sse none d = d
push_sse (some (baseline, candidate)) d =
    push
      (record {
        kind = DiffKind.sse;
        field = codes "response.sse";
        baseline = words baseline;
        candidate = words candidate;
      })
      d

unfoldable pub compare_sse_bodies :
    ComparisonPolicy → HttpResponse → HttpResponse → Bytes → Bytes → Diff → Diff
compare_sse_bodies policy expected actual a b d =
    if is_sse_enabled policy && is_sse expected.headers && is_sse actual.headers
    then push_sse (sse_finding policy.sse_ignored (parse_sse a true) (parse_sse b true)) d
    else d

unfoldable pub compare_status : HttpResponse → HttpResponse → Diff → Diff
compare_status expected actual d =
    if expected.status == actual.status
    then d
    else push
        (record {
          kind = DiffKind.status;
          field = codes "response.status";
          baseline = number expected.status;
          candidate = number actual.status;
        })
        d

module _ (ext : External) where
  open ext use {sha256_hex}

  abbrev digest_of : Bytes → Summary
  digest_of body = digest (sha256_hex body) (length body)

  unfoldable pub same_body : Bytes → Bytes → Bool
  same_body a b = sha256_hex a == sha256_hex b && length a == length b

  unfoldable pub compare_bodies : Bytes → Bytes → Diff → Diff
  compare_bodies a b d =
      if same_body a b
      then d
      else push
          (record {
            kind = DiffKind.body;
            field = codes "response.body";
            baseline = digest_of a;
            candidate = digest_of b;
          })
          d

  -- The arm of two responses.
  unfoldable pub compare_responses :
      ComparisonPolicy → HttpResponse → HttpResponse → Bytes → Bytes → Diff → Diff
  compare_responses policy expected actual a b d = compare_sse_bodies policy expected actual a b (
      compare_bodies a b (
        compare_headers policy (codes "response.trailers") DiffKind.trailer expected.trailers
          actual.trailers
          (compare_headers policy (codes "response.headers") DiffKind.header expected.headers
            actual.headers (compare_status expected actual d))))

  -- `==` of categories and of phases, by their names.
  unfoldable pub same_error : FlowError → FlowError → Bool
  same_error e f =
      category_name e.category == category_name f.category
      && phase_name e.phase == phase_name f.phase

  unfoldable pub compare_errors : FlowError → FlowError → Diff → Diff
  compare_errors e f d =
      if same_error e f
      then d
      else push
          (record {
            kind = DiffKind.outcome;
            field = codes "outcome.error";
            baseline = error_kinds e.category e.phase;
            candidate = error_kinds f.category f.phase;
          })
          d

  unfoldable pub compare_outcomes :
      ComparisonPolicy → FlowOutcome → FlowOutcome → Bytes → Bytes → Diff → Diff
  compare_outcomes policy (FlowOutcome.response r) (FlowOutcome.response s) a b d =
      compare_responses policy r s a b d
  compare_outcomes policy (FlowOutcome.error e) (FlowOutcome.error f) a b d = compare_errors e f d
  compare_outcomes policy expected actual a b d =
      push
        (record {
          kind = DiffKind.outcome;
          field = codes "outcome.kind";
          baseline = words (outcome_name expected);
          candidate = words (outcome_name actual);
        })
        d

  -- The timing assertion, for a candidate that has completed.
  unfoldable pub check_elapsed : TimingAssertion → ℕ → ℕ → Diff → Diff
  check_elapsed assertion start finish d =
      if ltb assertion.max_elapsed_ms (finish - start)
      then push
          (record {
            kind = DiffKind.timing;
            field = codes "timing.elapsed_ms";
            baseline = number assertion.max_elapsed_ms;
            candidate = number (finish - start);
          })
          d
      else d

  unfoldable pub check_timing : Option TimingAssertion → Flow → Diff → Diff
  check_timing none candidate d = d
  check_timing (some assertion) candidate d = elim candidate.completed_at_ms [
    | none ↦ d
    | some finish ↦ check_elapsed assertion candidate.started_at_ms finish d
  ]

  -- `compare_flows_with_timing_and_policy`
  unfoldable pub compare_flows_with_timing_and_policy :
      Flow
      → Flow
      → Bytes
      → Bytes
      → ReportScheduler
      → Option TimingAssertion
      → ComparisonPolicy
      → RegressionReport
  compare_flows_with_timing_and_policy baseline candidate a b scheduler timing policy =
      let d =
        check_timing timing candidate
          (compare_outcomes policy baseline.outcome candidate.outcome a b no_diff) in
      record {
        schema_version = report_schema_version;
        scheduler = scheduler;
        baseline_flow_ids = baseline.id ∷ [];
        findings = sort_by finding_precedes d.findings;
        suppressed = sort_by suppressed_precedes d.suppressed;
      }

  -- `compare_flows_with_policy`, `compare_flows_with_timing`, `compare_flows`
  unfoldable pub compare_flows_with_policy :
      Flow → Flow → Bytes → Bytes → ReportScheduler → ComparisonPolicy → RegressionReport
  compare_flows_with_policy baseline candidate a b scheduler policy =
      compare_flows_with_timing_and_policy baseline candidate a b scheduler none policy

  unfoldable pub compare_flows_with_timing :
      Flow → Flow → Bytes → Bytes → ReportScheduler → Option TimingAssertion → RegressionReport
  compare_flows_with_timing baseline candidate a b scheduler timing =
      compare_flows_with_timing_and_policy baseline candidate a b scheduler timing default_policy

  unfoldable pub compare_flows : Flow → Flow → Bytes → Bytes → ReportScheduler → RegressionReport
  compare_flows baseline candidate a b scheduler =
      compare_flows_with_timing baseline candidate a b scheduler none
