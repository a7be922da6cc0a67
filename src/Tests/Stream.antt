-- ===== src/Tests/Stream.antt =====
-- The theorems on streams at concrete inputs.
use eggreplay.Stream.SseBounds.{parse_sse_lem}
use eggreplay.Stream.Sse.{parse_sse, max_sse_events}
use eggreplay.Bytes.{codes, Bytes}
use eggreplay.Stream.Order.{
  timeline_order_offsets, sort_offsets, count_of, insert_offset, enumerate_from, before,
  timeline_order_offsets_lem, InOrder,
}
use eggreplay.Stream.Timelines.{IsStreamEvents, validate-IsStreamEvents}
use eggreplay.Prelude.{
  List, [], map, ok, refl, ℕ, ◌∷◌, ◌≡◌, nat_eq, list_eq, option_eq, pair_eq, All, false, is_empty,
  length, true, ◌||◌, ◌≤◌, get_elem?, some, ◌<◌,
}
use eggreplay.Stream.Types.{
  data_frame, trailers_frame, end_of_stream, StreamEvents, stream_events_schema_version,
  max_stream_total_delay_ns,
}
use eggreplay.Stream.Validate.{validate, check_flows, check_events, check_event, check_kind}

abbrev timeline : StreamEvents
timeline = record {
  schema_version = stream_events_schema_version;
  flows =
      record {
        flow_id = codes "flow-1";
        start_offset_ns = 5;
        request = record { delta_ns = 0; event = end_of_stream } ∷ [];
        response =
            record { delta_ns = 1; event = data_frame 0 4 }
            ∷ record { delta_ns = 3; event = data_frame 4 2 }
            ∷ record { delta_ns = 3; event = trailers_frame [] }
            ∷ record { delta_ns = 4; event = end_of_stream }
            ∷ [];
      }
      ∷ [];
}

timeline_accepted : validate timeline ≡ ok tt
unfolding validate check_flows check_events check_event check_kind eggreplay.BTree.contains
    eggreplay.BTree.add eggreplay.BTree.compare_bytes
timeline_accepted = refl

validate-IsStreamEvents_example : IsStreamEvents timeline
validate-IsStreamEvents_example = validate-IsStreamEvents timeline timeline_accepted

abbrev starts : List ℕ
starts = 7 ∷ 3 ∷ 7 ∷ []

ordered : timeline_order_offsets starts 4 ≡ ok (1 ∷ 0 ∷ 2 ∷ [])
unfolding timeline_order_offsets sort_offsets insert_offset before enumerate_from
ordered = refl

timeline_order_offsets_lem_example :
    (0 < 4)
    × (4 ≤ 1024)
    × All (λ o. o ≤ max_stream_total_delay_ns) starts
    × ((keyed : List (ℕ × ℕ)) × (1 ∷ 0 ∷ 2 ∷ [] ≡ map (λ a. a.1) keyed)
        × (length keyed ≡ length starts)
        × InOrder keyed
        × ((i o : ℕ) → get_elem? starts i ≡ some o → count_of (o, i) keyed ≡ 1))
timeline_order_offsets_lem_example = timeline_order_offsets_lem starts 4 ordered

-- A comment, an event with its name, and the newlines that end it.
abbrev sse_body : Bytes
sse_body = codes ":hi\nevent: a\ndata: x\n\n"

parse_sse_lem_example :
    (length (parse_sse sse_body false).events ≤ max_sse_events)
    × All (λ e. (false || is_empty e.comments) ≡ true) (parse_sse sse_body false).events
parse_sse_lem_example = parse_sse_lem sse_body false
