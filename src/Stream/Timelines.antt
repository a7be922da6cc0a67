-- ===== src/Stream/Timelines.antt =====
-- What accepted stream events are: proofs about `StreamEvents::validate` and `delay_ns`.
use eggreplay.Bytes.{Bytes}
use eggreplay.BTree.{BTreeSet, contains-add}
use eggreplay.Prelude.{
  All, Bool, List, [], false, ok, refl, true, ℕ, ◌<◌, ◌∷◌, ◌≡◌, ◌≤◌, ==_iff, ==_refl, Distinct,
  arith, bind-eq-ok, contains, length, map, subst, ◌+◌, ◌∙◌, nat_eq, list_eq, option_eq, pair_eq,
  saturating_add,
}
use eggreplay.Stream.Types.{
  data_frame, trailers_frame, stream_error, end_of_stream, StreamEventKind, FlowStreamEvents,
  StreamEvents, StreamEvent, max_stream_events_per_flow, max_stream_delay_ns,
  stream_events_schema_version,
}
use eggreplay.Stream.Validate.{
  validate, check_flows, EventCursor, check_events, check_event, check_kind, start_events,
}
use eggreplay.BTree

-- The times do not decrease from `prior` on and stay within the longest delay.
abbrev pub Timed : ℕ → List StreamEvent → Type 0
Timed prior [] = Unit
Timed prior (e ∷ es) =
    (prior ≤ e.delta_ns) × (e.delta_ns ≤ max_stream_delay_ns) × Timed e.delta_ns es

-- Where the body stands after an event.
abbrev pub offset_after : ℕ → StreamEventKind → ℕ
offset_after old (data_frame offset size) = saturating_add offset size
offset_after old _ = old

-- An event agrees with where the body stands: data has a length, and data and errors name the offset.
abbrev pub IsAt : ℕ → StreamEventKind → Type 0
IsAt here (data_frame offset size) = (offset ≡ here) × (0 < size)
IsAt here (stream_error offset category phase) = offset ≡ here
IsAt here _ = Unit

abbrev pub Contiguous : ℕ → List StreamEvent → Type 0
Contiguous here [] = Unit
Contiguous here (e ∷ es) = IsAt here e.event × Contiguous (offset_after here e.event) es

abbrev pub is_terminal : StreamEventKind → Bool
is_terminal end_of_stream = true
is_terminal (stream_error offset category phase) = true
is_terminal _ = false

abbrev pub is_trailers : StreamEventKind → Bool
is_trailers (trailers_frame fields) = true
is_trailers _ = false

-- Neither data nor trailers.
abbrev pub ends : StreamEventKind → Bool
ends (data_frame offset size) = false
ends (trailers_frame fields) = false
ends _ = true

-- Nothing follows a terminal event, and neither data nor trailers follow trailers.
abbrev pub Closed : List StreamEvent → Type 0
Closed [] = Unit
Closed (e ∷ es) =
    (is_terminal e.event ≡ true → es ≡ [])
    × (is_trailers e.event ≡ true → All (λ f. ends f.event ≡ true) es)
    × Closed es

record IsStream (c : EventCursor) (es : List StreamEvent) : Type 0 where
  timed : Timed c.last_delta es
  contiguous : Contiguous c.last_offset es
  closed : Closed es
  over : c.terminal ≡ true → es ≡ []
  ending : c.trailers_seen ≡ true → All (λ f. ends f.event ≡ true) es

-- What accepting an event does, by its kind.
record IsKindStep (c : EventCursor) (k : StreamEventKind) (next : EventCursor) : Type 0 where
  delta : next.last_delta ≡ c.last_delta
  placed : IsAt c.last_offset k
  offset : next.last_offset ≡ offset_after c.last_offset k
  closes : is_terminal k ≡ true → next.terminal ≡ true
  trails : is_trailers k ≡ true → next.trailers_seen ≡ true
  keeps : c.trailers_seen ≡ true → (ends k ≡ true) × (next.trailers_seen ≡ true)

check_kind-IsKindStep :
    (c : EventCursor) (k : StreamEventKind) (next : EventCursor)
    → check_kind c k ≡ ok next
    → IsKindStep c k next
unfolding check_kind
check_kind-IsKindStep c (data_frame offset size) next h = record {
  delta = ground arith;
  placed = (ground (arith, ==_iff offset c.last_offset), ground arith);
  offset = ground arith;
  closes = λ q. absurd (cc q);
  trails = λ q. absurd (cc q);
  keeps = λ q. absurd (ground arith);
}
check_kind-IsKindStep c (trailers_frame fields) next h = record {
  delta = ground arith;
  placed = tt;
  offset = ground arith;
  closes = λ q. absurd (cc q);
  trails = λ q. ground arith;
  keeps = λ q. absurd (ground arith);
}
check_kind-IsKindStep c end_of_stream next h = record {
  delta = ground arith;
  placed = tt;
  offset = ground arith;
  closes = λ q. ground arith;
  trails = λ q. absurd (cc q);
  keeps = λ q. (refl, ground arith);
}
check_kind-IsKindStep c (stream_error offset category phase) next h = record {
  delta = ground arith;
  placed = ground (arith, ==_iff offset c.last_offset);
  offset = ground arith;
  closes = λ q. ground arith;
  trails = λ q. absurd (cc q);
  keeps = λ q. (refl, ground arith);
}

check_event_lem :
    (c : EventCursor) (e : StreamEvent) (next : EventCursor)
    → check_event c e ≡ ok next
    → (c.terminal ≡ false)
      × (c.last_delta ≤ e.delta_ns)
      × (e.delta_ns ≤ max_stream_delay_ns)
      × IsKindStep (record c { last_delta = e.delta_ns }) e.event next
unfolding check_event
check_event_lem c e next h =
    let kind : check_kind (record c { last_delta = e.delta_ns }) e.event ≡ ok next = ground arith in
    (ground arith, ground arith, ground arith, check_kind-IsKindStep _ e.event next kind)

check_events-IsStream :
    (c : EventCursor) (es : List StreamEvent) → check_events c es ≡ ok tt → IsStream c es
unfolding check_events
check_events-IsStream c [] h = record {
  timed = tt;
  contiguous = tt;
  closed = tt;
  over = λ q. refl;
  ending = λ q. tt;
}
check_events-IsStream c (e ∷ es) h =
    let (next, one, more) = bind-eq-ok (check_event c e) _ h in
    let (going, later, short, step) = check_event_lem c e next one in
    let rest = check_events-IsStream next es more in
    record {
      timed = (later, short, subst (λ d. Timed d es) step.delta rest.timed);
      contiguous = (step.placed, subst (λ o. Contiguous o es) step.offset rest.contiguous);
      closed = ((λ q. rest.over (step.closes q)), (λ q. rest.ending (step.trails q)), rest.closed);
      over = λ q. absurd (cc (q, going));
      ending = λ q. ((step.keeps q).0, rest.ending (step.keeps q).1);
    }

-- One direction of a flow: times that do not decrease from 0, data that is contiguous from offset 0,
-- and nothing after its end.
abbrev pub Stream : List StreamEvent → Type 0
Stream es = Timed 0 es × Contiguous 0 es × Closed es

abbrev pub FlowValid : FlowStreamEvents → Type 0
FlowValid f =
    Stream f.request
    × Stream f.response
    × (length f.request + length f.response ≤ max_stream_events_per_flow)

pub record IsStreamEvents (self : StreamEvents) : Type 0 where
  pub schema : self.schema_version ≡ stream_events_schema_version
  pub flows_valid : All FlowValid self.flows
  pub ids_distinct : Distinct (map (λ f. f.flow_id) self.flows)

check_events-Stream : (es : List StreamEvent) → check_events start_events es ≡ ok tt → Stream es
check_events-Stream es h =
    let s = check_events-IsStream start_events es h in (s.timed, s.contiguous, s.closed)

check_flows_lem :
    (ids : BTreeSet) (total : ℕ) (fs : List FlowStreamEvents)
    → check_flows ids total fs ≡ ok tt
    → All FlowValid fs
      × Distinct (map (λ f. f.flow_id) fs)
      × ((x : Bytes) → BTree.contains ids x ≡ true → contains (map (λ f. f.flow_id) fs) x ≡ false)
unfolding check_flows contains
check_flows_lem ids total [] h = (tt, tt, λ x q. refl)
check_flows_lem ids total (f ∷ fs) h =
    let count = saturating_add (length f.request) (length f.response) in
    let rest : check_flows (BTree.add f.flow_id ids) (saturating_add total count) fs ≡ ok tt =
      ground arith in
    let (valid, distinct, apart) = check_flows_lem (BTree.add f.flow_id ids) _ fs rest in
    (
      (
        (
          check_events-Stream f.request (ground arith),
          check_events-Stream f.response (ground arith),
          ground arith,
        ),
        valid,
      ),
      (
        apart f.flow_id (contains-add f.flow_id f.flow_id ids ∙ ground (arith, ==_refl f.flow_id)),
        distinct,
      ),
      λ x q. ground (arith, ==_iff f.flow_id x, apart x, contains-add f.flow_id x ids),
    )

-- Accepted stream events are well formed: for every flow, in both directions, times do not decrease
-- and stay within the longest delay, data is nonempty and contiguous from offset 0, an error stands
-- where the data ends, nothing follows an end or an error, neither data nor trailers follow trailers,
-- and the events are no more than 4096. Flow ids are not repeated.
pub validate-IsStreamEvents : (self : StreamEvents) → validate self ≡ ok tt → IsStreamEvents self
unfolding validate
validate-IsStreamEvents self h =
    let loop : check_flows [] 0 self.flows ≡ ok tt = ground arith in
    let (valid, distinct, apart) = check_flows_lem [] 0 self.flows loop in
    record {
      schema = ground (arith, ==_iff self.schema_version stream_events_schema_version);
      flows_valid = valid;
      ids_distinct = distinct;
    }
