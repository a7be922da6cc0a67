-- ===== src/Report/Verdicts.antt =====
-- When a comparison succeeds: proofs about `compare_flows_with_timing_and_policy`.
use eggreplay.Report.Kinds.{category_name-inj, phase_name-inj}
use eggreplay.Sorting.{is_empty-sort_by}
use eggreplay.Stream.Sse.{is_some, parse_sse}
use eggreplay.Prelude.{
  Bool, Option, ap, false, if◌then◌else◌, is_empty, leb, length, none, not, refl, some, true, ◌&&◌,
  ◌-◌, ◌==◌, ◌↔◌, ◌∙◌, ◌≡◌, nat_eq, list_eq, option_eq, pair_eq, arith, ==_iff, Bool-cases,
  Option-cases, inl, inr, ltb, ℕ,
}
use eggreplay.Bytes.{Bytes, codes}
use eggreplay.Error.{category_name, phase_name, FlowError}
use eggreplay.External.{External}
use eggreplay.Flow.{Flow, FlowOutcome, HttpResponse}
use eggreplay.Report.Agreement.{HeadersAgree, findings-compare_headers, findings-unless}
use eggreplay.Report.Compare.{
  compare_outcomes, compare_responses, check_timing, compare_sse_bodies, compare_errors, is_sse,
  check_elapsed, compare_bodies, same_error, compare_status, sse_finding, same_body, push_sse,
  compare_flows_with_timing_and_policy, compare_flows, compare_flows_with_timing, finding_precedes,
}
use eggreplay.Report.HeaderDiff.{Diff, no_diff, compare_headers, push}
use eggreplay.Report.Types.{
  ComparisonPolicy, is_sse_enabled, TimingAssertion, DiffKind, is_success, ReportScheduler,
  default_policy,
}

-- The SSE comparison applies and finds something.
unfoldable pub sse_differs : ComparisonPolicy → HttpResponse → HttpResponse → Bytes → Bytes → Bool
sse_differs policy r s a b =
    (is_sse_enabled policy && is_sse r.headers && is_sse s.headers)
    && is_some (sse_finding policy.sse_ignored (parse_sse a true) (parse_sse b true))

-- Within the time of an assertion, if there is one and the candidate has completed.
unfoldable pub is_timely : Option TimingAssertion → Flow → Bool
is_timely none f = true
is_timely (some assertion) f = elim f.completed_at_ms [
  | none ↦ true
  | some finish ↦ leb (finish - f.started_at_ms) assertion.max_elapsed_ms
]

module _ (ext : External) where
  open ext use {sha256_hex}

  -- Two responses that give no finding.
  abbrev pub ResponsesAgree :
      ComparisonPolicy → HttpResponse → HttpResponse → Bytes → Bytes → Type 0
  ResponsesAgree policy r s a b =
      (r.status ≡ s.status)
      × (HeadersAgree policy r.headers s.headers
          × (HeadersAgree policy r.trailers s.trailers
              × ((sha256_hex a ≡ sha256_hex b)
                  × ((length a ≡ length b) × (sse_differs policy r s a b ≡ false)))))

  abbrev pub OutcomesAgree : ComparisonPolicy → FlowOutcome → FlowOutcome → Bytes → Bytes → Type 0
  OutcomesAgree policy (FlowOutcome.response r) (FlowOutcome.response s) a b =
      ResponsesAgree policy r s a b
  OutcomesAgree policy (FlowOutcome.error e) (FlowOutcome.error f) a b =
      (e.category ≡ f.category) × (e.phase ≡ f.phase)
  OutcomesAgree policy _ _ a b = ⊥

  findings-push_sse :
      (t : Bool) (o : Option (Bytes × Bytes)) (d : Diff)
      → is_empty (if t then push_sse o d else d).findings
        ≡ is_empty d.findings && not (t && is_some o)
  unfolding push_sse is_some
  findings-push_sse true none d = ground arith
  findings-push_sse true (some (x, y)) d = findings-unless false _ d
  findings-push_sse false o d = ground arith

  findings-compare_sse_bodies :
      (policy : ComparisonPolicy) (r s : HttpResponse) (a b : Bytes) (d : Diff)
      → is_empty (compare_sse_bodies policy r s a b d).findings
        ≡ is_empty d.findings && not (sse_differs policy r s a b)
  unfolding compare_sse_bodies sse_differs
  findings-compare_sse_bodies policy r s a b d = findings-push_sse _ _ d

  findings-compare_status :
      (r s : HttpResponse) → is_empty (compare_status r s no_diff).findings ≡ r.status == s.status
  unfolding compare_status
  findings-compare_status r s = findings-unless (r.status == s.status) _ no_diff

  findings-compare_bodies :
      (a b : Bytes) (d : Diff)
      → is_empty (compare_bodies ext a b d).findings
        ≡ is_empty d.findings && (sha256_hex a == sha256_hex b && length a == length b)
  unfolding compare_bodies same_body
  findings-compare_bodies a b d = findings-unless (same_body ext a b) _ d

  findings-compare_responses :
      (policy : ComparisonPolicy) (r s : HttpResponse) (a b : Bytes)
      → (is_empty (compare_responses ext policy r s a b no_diff).findings ≡ true)
        ↔ ResponsesAgree policy r s a b
  unfolding compare_responses
  findings-compare_responses policy r s a b =
      let d1 = compare_status r s no_diff in
      let d2 =
        compare_headers policy (codes "response.headers") DiffKind.header r.headers s.headers d1 in
      let d3 =
        compare_headers policy (codes "response.trailers") DiffKind.trailer r.trailers s.trailers
          d2 in
      let d4 = compare_bodies ext a b d3 in
      let status = findings-compare_status r s in
      let headers =
        findings-compare_headers policy (codes "response.headers") DiffKind.header r.headers
          s.headers d1 in
      let trailers =
        findings-compare_headers policy (codes "response.trailers") DiffKind.trailer r.trailers
          s.trailers d2 in
      let bodies = findings-compare_bodies a b d3 in
      let sse = findings-compare_sse_bodies policy r s a b d4 in
      (
        λ h.
            let e4 : is_empty d4.findings ≡ true = ground (arith, sse) in
            let e3 : is_empty d3.findings ≡ true = ground (arith, bodies) in
            let (e2, trailers_agree) = trailers.0 e3 in
            let (e1, headers_agree) = headers.0 e2 in
            (
              ground (arith, status, ==_iff r.status s.status),
              (
                headers_agree,
                (
                  trailers_agree,
                  (
                    ground (arith, bodies, ==_iff (sha256_hex a) (sha256_hex b)),
                    (ground (arith, bodies), ground (arith, sse)),
                  ),
                ),
              ),
            ),
        λ (same, (headers_agree, (trailers_agree, (digests, (lengths, quiet))))).
            let e1 : is_empty d1.findings ≡ true =
              ground (arith, status, ==_iff r.status s.status) in
            let e3 = trailers.1 (headers.1 (e1, headers_agree), trailers_agree) in
            let e4 : is_empty d4.findings ≡ true =
              ground (arith, bodies, ==_iff (sha256_hex a) (sha256_hex b)) in
            ground (arith, sse),
      )

  findings-compare_errors :
      (e f : FlowError)
      → (is_empty (compare_errors ext e f no_diff).findings ≡ true)
        ↔ ((e.category ≡ f.category) × (e.phase ≡ f.phase))
  unfolding compare_errors same_error
  findings-compare_errors e f =
      let found = findings-unless (same_error ext e f) _ no_diff in
      let categories = ==_iff (category_name e.category) (category_name f.category) in
      let phases = ==_iff (phase_name e.phase) (phase_name f.phase) in
      (
        λ h. (
          category_name-inj e.category f.category (categories.0 (ground (arith, found))),
          phase_name-inj e.phase f.phase (phases.0 (ground (arith, found))),
        ),
        λ (h, g).
            found ∙ ground (arith, categories.1 (ap category_name h), phases.1 (ap phase_name g)),
      )

  findings-check_elapsed :
      (assertion : TimingAssertion) (start finish : ℕ) (d : Diff)
      → is_empty (check_elapsed ext assertion start finish d).findings
        ≡ is_empty d.findings && leb (finish - start) assertion.max_elapsed_ms
  unfolding check_elapsed
  findings-check_elapsed assertion start finish d =
      elim (Bool-cases (ltb assertion.max_elapsed_ms (finish - start))) [
        | inl late ↦
            rw (late, check_elapsed)
              (findings-unless false _ d ∙ ap (λ t. is_empty d.findings && t) (ground arith))
        | inr timely ↦ rw (timely, check_elapsed) (ground arith)
      ]

  findings-check_timing :
      (timing : Option TimingAssertion) (f : Flow) (d : Diff)
      → is_empty (check_timing ext timing f d).findings ≡ is_empty d.findings && is_timely timing f
  unfolding check_timing is_timely check_elapsed
  findings-check_timing none f d = ground arith
  findings-check_timing (some assertion) f d = elim (Option-cases f.completed_at_ms) [
    | inl running ↦ rw (running, check_timing) (ground arith)
    | inr (finish, completed) ↦
        rw (completed, check_timing) (findings-check_elapsed assertion f.started_at_ms finish d)
  ]

  findings-compare_outcomes :
      (policy : ComparisonPolicy) (x y : FlowOutcome) (a b : Bytes)
      → (is_empty (compare_outcomes ext policy x y a b no_diff).findings ≡ true)
        ↔ OutcomesAgree policy x y a b
  unfolding compare_outcomes push
  findings-compare_outcomes policy (FlowOutcome.response r) (FlowOutcome.response s) a b =
      findings-compare_responses policy r s a b
  findings-compare_outcomes policy (FlowOutcome.error e) (FlowOutcome.error f) a b =
      findings-compare_errors e f
  findings-compare_outcomes policy (FlowOutcome.response r) (FlowOutcome.error f) a b =
      (λ h. absurd (cc h), λ h. absurd h)
  findings-compare_outcomes policy (FlowOutcome.error e) (FlowOutcome.response s) a b =
      (λ h. absurd (cc h), λ h. absurd h)

  -- A comparison succeeds exactly if the outcomes agree and the candidate is within the time that is
  -- asserted. Two responses agree with the same status, with headers and with trailers that agree at
  -- every name, with bodies of the same digest and length, and where the SSE comparison, if it
  -- applies, finds nothing; two errors with the same category and phase; a response and an error
  -- never.
  pub is_success-compare_flows_with_timing_and_policy :
      (x y : Flow) (a b : Bytes) (scheduler : ReportScheduler) (timing : Option TimingAssertion)
      (policy : ComparisonPolicy)
      → (is_success (compare_flows_with_timing_and_policy ext x y a b scheduler timing policy)
          ≡ true)
        ↔ (OutcomesAgree policy x.outcome y.outcome a b × (is_timely timing y ≡ true))
  unfolding compare_flows_with_timing_and_policy is_success
  is_success-compare_flows_with_timing_and_policy x y a b scheduler timing policy =
      let d = compare_outcomes ext policy x.outcome y.outcome a b no_diff in
      let outcomes = findings-compare_outcomes policy x.outcome y.outcome a b in
      let timed = findings-check_timing timing y d in
      let sorted = is_empty-sort_by finding_precedes (check_timing ext timing y d).findings in
      (
        λ h. (outcomes.0 (ground (arith, timed, sorted)), ground (arith, timed, sorted)),
        λ (h, g). ground (arith, outcomes.1 h, timed, sorted),
      )

  -- A flow compared with itself succeeds under the default policy.
  pub is_success-compare_flows :
      (x : Flow) (body : Bytes) (scheduler : ReportScheduler)
      → is_success (compare_flows ext x x body body scheduler) ≡ true
  unfolding compare_flows compare_flows_with_timing is_timely sse_differs is_sse_enabled
  is_success-compare_flows x body scheduler =
      (is_success-compare_flows_with_timing_and_policy x x body body scheduler none
          default_policy).1
        (self_agrees x.outcome, refl)
    where
      self_agrees : (o : FlowOutcome) → OutcomesAgree default_policy o o body body
      self_agrees (FlowOutcome.response r) =
          (refl, (λ name. inr refl, (λ name. inr refl, (refl, (refl, refl)))))
      self_agrees (FlowOutcome.error e) = (refl, refl)
