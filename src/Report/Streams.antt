-- ===== src/Report/Streams.antt =====
-- `compare_stream_events`, the opt-in comparison of response streams.
use eggreplay.Sorting.{sort_by}
use eggreplay.Report.Compare.{bytes_precede}
use eggreplay.Prelude.{
  Bool, List, Option, [], false, if◌then◌else◌, length, ltb, none, not, some, suc, true, ℕ, ◌&&◌,
  ◌++◌, ◌+◌, ◌-◌, ◌==◌, ◌||◌, ◌∷◌, nat_eq, list_eq, option_eq, pair_eq,
}
use eggreplay.Bytes.{Bytes, codes, decimal, eq_ignore_case}
use eggreplay.Flow.{HeaderEntry}
use eggreplay.Report.Types.{DiffFinding, DiffKind, number, event_count}
use eggreplay.Stream.Types.{
  FlowStreamEvents, StreamEvent, StreamEventKind, data_frame, trailers_frame, end_of_stream,
  stream_error,
}

-- `iter().zip(right).all(…)`
unfoldable pub same_names : List HeaderEntry → List HeaderEntry → Bool
same_names (a ∷ l) (b ∷ r) = eq_ignore_case a.name b.name && same_names l r
same_names _ _ = true

-- `same_stream_event`
unfoldable pub same_stream_event : StreamEventKind → StreamEventKind → Bool
same_stream_event (data_frame o n) (data_frame p m) = o == p && n == m
same_stream_event (trailers_frame l) (trailers_frame r) = length l == length r && same_names l r
same_stream_event end_of_stream end_of_stream = true
same_stream_event (stream_error o c p) (stream_error q d r) = o == q && c == d && p == r
same_stream_event _ _ = false

-- `iter().zip(right).any(…)`
unfoldable pub any_differs : List StreamEvent → List StreamEvent → Bool
any_differs (a ∷ l) (b ∷ r) = not (same_stream_event a.event b.event) || any_differs l r
any_differs _ _ = false

unfoldable pub compare_events : List StreamEvent → List StreamEvent → List DiffFinding
compare_events left right =
    if not (length left == length right) || any_differs left right
    then (record {
      kind = DiffKind.stream_event;
      field = codes "stream.response.events";
      baseline = event_count (length left);
      candidate = event_count (length right);
    })
      ∷ []
    else []

-- `abs_diff`
abbrev pub abs_diff : ℕ → ℕ → ℕ
abs_diff a b = (a - b) + (b - a)

unfoldable pub cadence_field : ℕ → Bytes
cadence_field index = codes "stream.response.cadence[" ++ decimal index ++ codes "]"

-- The loop over the pairs, from an index on and after events of given times: the first has the gap to
-- time zero. `saturating_sub` is subtraction here.
unfoldable pub compare_cadence :
    ℕ → ℕ → ℕ → ℕ → List StreamEvent → List StreamEvent → List DiffFinding
compare_cadence tolerance index before_left before_right (a ∷ l) (b ∷ r) =
    let rest = compare_cadence tolerance (suc index) a.delta_ns b.delta_ns l r in
    let baseline_gap = a.delta_ns - before_left in
    let candidate_gap = b.delta_ns - before_right in
    if ltb tolerance (abs_diff baseline_gap candidate_gap)
    then (record {
      kind = DiffKind.timing;
      field = cadence_field index;
      baseline = number baseline_gap;
      candidate = number candidate_gap;
    })
      ∷ rest
    else rest
compare_cadence tolerance index before_left before_right _ _ = []

unfoldable pub cadence_findings : Option ℕ → List StreamEvent → List StreamEvent → List DiffFinding
cadence_findings none left right = []
cadence_findings (some tolerance) left right = compare_cadence tolerance 0 0 0 left right

-- The order by which the findings are sorted.
unfoldable pub field_precedes : DiffFinding → DiffFinding → Bool
field_precedes f g = bytes_precede f.field g.field

-- `compare_stream_events`
unfoldable pub compare_stream_events :
    FlowStreamEvents → FlowStreamEvents → Option ℕ → List DiffFinding
compare_stream_events baseline candidate tolerance = sort_by field_precedes (
    compare_events baseline.response candidate.response
    ++ cadence_findings tolerance baseline.response candidate.response)
