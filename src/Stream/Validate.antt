-- ===== src/Stream/Validate.antt =====
-- `StreamEvents::validate`, and `StreamTimingMode::delay_ns`.
use eggreplay.Flow.{HeaderEntry}
use eggreplay.Prelude.{
  Bool, List, Message, Result, [], about_number, any, false, is_empty, length, ltb, not, ok,
  reject_if, text, true, ℕ, ◌==◌, ◌||◌, ◌∷◌, nat_eq, list_eq, option_eq, pair_eq, ◌>>◌, ◌>>=◌,
  saturating_add,
}
use eggreplay.Stream.Types.{
  end_of_stream, StreamEvent, FlowStreamEvents, max_stream_delay_ns, StreamEventKind, StreamEvents,
  data_frame, max_stream_events_per_flow, max_stream_total_delay_ns, stream_events_schema_version,
  stream_error, max_stream_events_per_session, trailers_frame,
}
use eggreplay.BTree
use eggreplay.BTree.{BTreeSet}

-- What the loop over the events of one direction carries.
pub record EventCursor : Type 0 where
  pub last_delta : ℕ
  pub last_offset : ℕ
  pub terminal : Bool
  pub trailers_seen : Bool

abbrev pub start_events : EventCursor
start_events = record { last_delta = 0; last_offset = 0; terminal = false; trailers_seen = false }

abbrev is_large_field : HeaderEntry → Bool
is_large_field f = ltb 256 (length f.name) || ltb 8192 (length f.value)

-- The branch on the kind of an event.
unfoldable pub check_kind : EventCursor → StreamEventKind → Result EventCursor Message
check_kind c (data_frame offset size) = do
  reject_if (c.trailers_seen || not (offset == c.last_offset) || size == 0)
      (text "stream DATA offsets must be contiguous and nonempty")
  ok (record c { last_offset = saturating_add offset size })
check_kind c (stream_error offset category phase) = do
  reject_if (not (offset == c.last_offset) || ltb 64 (length category) || ltb 64 (length phase))
      (text "stream terminal error is invalid")
  ok (record c { terminal = true })
check_kind c (trailers_frame fields) = do
  reject_if (c.trailers_seen || ltb 256 (length fields) || any is_large_field fields)
      (text "stream trailers exceed configured limit")
  ok (record c { trailers_seen = true })
check_kind c end_of_stream = ok (record c { terminal = true })

unfoldable pub check_event : EventCursor → StreamEvent → Result EventCursor Message
check_event c e = do
  reject_if (c.terminal || ltb e.delta_ns c.last_delta || ltb max_stream_delay_ns e.delta_ns)
      (text "stream event order or delay is invalid")
  check_kind (record c { last_delta = e.delta_ns }) e.event

unfoldable pub check_events : EventCursor → List StreamEvent → Result (Unit {0}) Message
check_events c [] = ok tt
check_events c (e ∷ es) = do next ← check_event c e; check_events next es

-- The loop over the flows, with the ids seen and the number of events so far.
unfoldable pub check_flows : BTreeSet → ℕ → List FlowStreamEvents → Result (Unit {0}) Message
check_flows ids total [] = ok tt
check_flows ids total (f ∷ fs) =
    let count = saturating_add (length f.request) (length f.response) in
    do
      reject_if (is_empty f.flow_id || ltb 256 (length f.flow_id) || BTree.contains ids f.flow_id)
          (text "stream event flow id is empty, oversized, or duplicated")
      reject_if (ltb max_stream_events_per_flow count)
          (text "stream event count for flow exceeds configured limit")
      reject_if (ltb max_stream_events_per_session (saturating_add total count))
          (text "aggregate stream event count exceeds configured limit")
      check_events start_events f.request
      check_events start_events f.response
      check_flows (BTree.add f.flow_id ids) (saturating_add total count) fs

-- `StreamEvents::validate`
unfoldable pub validate : StreamEvents → Result (Unit {0}) Message
validate self = do
  reject_if (not (self.schema_version == stream_events_schema_version))
      (about_number "unsupported stream-events schema" self.schema_version)
  reject_if (ltb max_stream_events_per_session (length self.flows))
      (text "stream event flow count exceeds configured limit")
  check_flows [] 0 self.flows

-- `StreamTimingMode`. A factor stands for what scaling by it makes of a delta: `(delta as f64 *
-- factor).ceil() as u64`.
pub data StreamTimingMode : Type 0 where
  immediate recorded : StreamTimingMode
  scaled : (ℕ → ℕ) → StreamTimingMode

unfoldable pub scaled_delta : StreamTimingMode → ℕ → ℕ
scaled_delta immediate delta_ns = 0
scaled_delta recorded delta_ns = delta_ns
scaled_delta (scaled factor) delta_ns = factor delta_ns

-- `StreamTimingMode::delay_ns`
unfoldable pub delay_ns : StreamTimingMode → ℕ → ℕ → Result ℕ Message
delay_ns mode delta_ns accumulated_ns = do
  reject_if (ltb max_stream_delay_ns delta_ns)
      (text "recorded stream delay exceeds configured limit")
  reject_if
      (ltb max_stream_total_delay_ns (saturating_add accumulated_ns (scaled_delta mode delta_ns)))
      (text "total replay delay exceeds configured limit")
  ok (scaled_delta mode delta_ns)
