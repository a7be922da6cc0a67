-- ===== src/Tests/Report.antt =====
-- The theorems on reports at concrete inputs.
use eggreplay.Report.Agreement.{values_named}
use eggreplay.Report.HeaderDiff.{compare_headers, no_diff, Diff}
use eggreplay.Report.Compare.{compare_flows_with_timing_and_policy}
use eggreplay.Prelude.{
  List, [], false, is_empty, map, none, refl, retain, some, true, ℕ, ◌++◌, ◌↔◌, ◌∷◌, ◌≡◌, any,
  contains, nat_eq, list_eq, option_eq, pair_eq,
}
use eggreplay.BTree
use eggreplay.Report.Accounted.{is_named}
use eggreplay.Bytes.{Bytes, codes}
use eggreplay.Flow.{HeaderEntry}
use eggreplay.Report.Accounted.{
  compare_headers-reports, suppression, tolerated, difference, differs,
}
use eggreplay.Report.StreamAgreement.{is_empty-compare_stream_events, skeleton}
use eggreplay.Report.Streams.{compare_stream_events}
use eggreplay.Report.Types.{DiffKind, ReportScheduler, default_policy, is_success}
use eggreplay.Report.Verdicts.{
  is_success-compare_flows_with_timing_and_policy, is_timely, OutcomesAgree,
}
use eggreplay.Tests.Fixtures.{crates, flow_of, users, orders}
use eggreplay.Stream.Types.{FlowStreamEvents, data_frame, end_of_stream}

is_success-compare_flows_with_timing_and_policy_example :
    (is_success (
        compare_flows_with_timing_and_policy crates
          (flow_of users)
          (flow_of orders)
          []
          []
          ReportScheduler.sequential
          (some (record { max_elapsed_ms = 5 }))
          default_policy)
      ≡ true)
    ↔ (OutcomesAgree crates default_policy (flow_of users).outcome (flow_of orders).outcome [] []
        × (is_timely (some (record { max_elapsed_ms = 5 })) (flow_of orders) ≡ true))
is_success-compare_flows_with_timing_and_policy_example =
    is_success-compare_flows_with_timing_and_policy crates (flow_of users) (flow_of orders) [] []
      ReportScheduler.sequential (some (record { max_elapsed_ms = 5 })) default_policy

-- Ten milliseconds are too long.
late : is_timely (some (record { max_elapsed_ms = 5 })) (flow_of orders) ≡ false
unfolding is_timely
late = refl

abbrev dated : Bytes → List HeaderEntry
dated day =
    record { name = codes "Date"; value = day } ∷ record { name = codes "Vary"; value = day } ∷ []

abbrev header_diff : Diff
header_diff =
    compare_headers default_policy (codes "response.headers") DiffKind.header (dated (codes "Mon"))
      (dated (codes "Tue")) no_diff

compare_headers-reports_example :
    (names : List Bytes) × BTree.Ascending names
    × ((n : Bytes)
        → contains names n ≡ any (is_named n) (dated (codes "Mon") ++ dated (codes "Tue")))
    × (header_diff.suppressed
        ≡ []
          ++ map (suppression default_policy (codes "response.headers") DiffKind.header) (
              retain
                (λ n.
                  tolerated default_policy
                    (codes "response.headers")
                    DiffKind.header
                    (values_named n (dated (codes "Mon")))
                    (values_named n (dated (codes "Tue")))
                    n)
                names))
    × (header_diff.findings
        ≡ []
          ++ map
              (λ n.
                difference default_policy
                  (codes "response.headers")
                  DiffKind.header
                  (values_named n (dated (codes "Mon")))
                  (values_named n (dated (codes "Tue")))
                  n)
              (retain
                (λ n.
                  differs default_policy
                    (codes "response.headers")
                    DiffKind.header
                    (values_named n (dated (codes "Mon")))
                    (values_named n (dated (codes "Tue")))
                    n)
                names))
compare_headers-reports_example =
    compare_headers-reports default_policy (codes "response.headers") DiffKind.header
      (dated (codes "Mon")) (dated (codes "Tue")) no_diff

abbrev stream_at : ℕ → FlowStreamEvents
stream_at t = record {
  flow_id = codes "flow-1";
  start_offset_ns = 0;
  request = [];
  response =
      record { delta_ns = t; event = data_frame 0 4 }
      ∷ record { delta_ns = t; event = end_of_stream }
      ∷ [];
}

is_empty-compare_stream_events_example :
    (is_empty (compare_stream_events (stream_at 1) (stream_at 7) none) ≡ true) ↔ (
      map (λ e. skeleton e.event) (stream_at 1).response
      ≡ map (λ e. skeleton e.event) (stream_at 7).response)
is_empty-compare_stream_events_example = is_empty-compare_stream_events (stream_at 1) (stream_at 7)
