-- ===== src/Store/EventLogs.antt =====
-- What an event log holds: it validates as a whole, since each of its flows does and its counters are
-- those of validation.
use eggreplay.Store.Types.{as_store_error, invalid, json, as_store_error-eq-ok}
use eggreplay.Store.Events.{
  EventLog, EventEncoding, add_events, stream_events_of, append_all, append_stream_events,
  no_events, max_stream_events_bytes,
}
use eggreplay.Prelude.{
  List, [], arith, contains, false, length, ltb, ok, refl, reject_if-imp, saturating_add, then-imp,
  ℕ, ◌++◌, ◌∙◌, ◌∷◌, ◌≡◌, nat_eq, list_eq, option_eq, pair_eq, Message, Result, is_empty, reject_if,
  text, ◌||◌, ap, bind-eq-ok, if◌then◌else◌, not, ok-inj, ok_or, reject_if-eq-ok, subst, sym,
  then-eq-ok, ◌-◌, ◌==◌, ◌≤◌, length-append, ltb→lt, true,
}
use eggreplay.BTree
use eggreplay.BTree.{BTreeSet}
use eggreplay.Bytes.{Bytes}
use eggreplay.Stream.Types.{
  FlowStreamEvents, max_stream_events_per_session, max_stream_events_per_flow,
}
use eggreplay.Stream.Validate.{check_flows, check_events}
use eggreplay.Stream.Validate

abbrev event_count_of : FlowStreamEvents → ℕ
event_count_of f = saturating_add (length f.request) (length f.response)

-- The number of events behind a start, as validation adds it up.
abbrev count_from : ℕ → List FlowStreamEvents → ℕ
count_from total [] = total
count_from total (f ∷ fs) = count_from (saturating_add total (event_count_of f)) fs

count_from-append :
    (total : ℕ) (fs : List FlowStreamEvents) (e : FlowStreamEvents)
    → count_from total (fs ++ e ∷ []) ≡ saturating_add (count_from total fs) (event_count_of e)
count_from-append total [] e = refl
count_from-append total (f ∷ fs) e =
    count_from-append (saturating_add total (event_count_of f)) fs e

abbrev ids_of : List FlowStreamEvents → List Bytes
ids_of [] = []
ids_of (f ∷ fs) = f.flow_id ∷ ids_of fs

-- The guards of validation on one flow.
abbrev id_guard : BTreeSet → FlowStreamEvents → Result (Unit {0}) Message
id_guard ids f =
    reject_if (is_empty f.flow_id || ltb 256 (length f.flow_id) || BTree.contains ids f.flow_id)
      (text "stream event flow id is empty, oversized, or duplicated")

abbrev count_guard : FlowStreamEvents → Result (Unit {0}) Message
count_guard f =
    reject_if (ltb max_stream_events_per_flow (event_count_of f))
      (text "stream event count for flow exceeds configured limit")

abbrev total_guard : ℕ → FlowStreamEvents → Result (Unit {0}) Message
total_guard total f =
    reject_if (ltb max_stream_events_per_session (saturating_add total (event_count_of f)))
      (text "aggregate stream event count exceeds configured limit")

-- One flow that validates on its own may come behind others, if its id is new and there is room.
check_flows-single :
    (ids : BTreeSet) (total : ℕ) (e : FlowStreamEvents)
    → BTree.contains ids e.flow_id ≡ false
    → ltb max_stream_events_per_session (saturating_add total (event_count_of e)) ≡ false
    → check_flows [] 0 (e ∷ []) ≡ ok tt
    → check_flows ids total (e ∷ []) ≡ ok tt
unfolding check_flows BTree.contains
check_flows-single ids total e new room h =
    reject_if-imp (is_empty e.flow_id || ltb 256 (length e.flow_id) || BTree.contains [] e.flow_id)
      (is_empty e.flow_id || ltb 256 (length e.flow_id) || BTree.contains ids e.flow_id) _ _ _
      (λ a. ground arith)
      (then-imp (count_guard e) _ _ (
        reject_if-imp (ltb max_stream_events_per_session (saturating_add 0 (event_count_of e)))
          (ltb max_stream_events_per_session (saturating_add total (event_count_of e))) _ _ _
          (λ a. room)
          (then-imp (check_events Validate.start_events e.request) _ _
            (then-imp (check_events Validate.start_events e.response) _ _ (λ k. refl)))))
      h

check_flows-append :
    (ids : BTreeSet) (total : ℕ) (fs : List FlowStreamEvents) (e : FlowStreamEvents)
    → BTree.contains ids e.flow_id ≡ false
    → contains (ids_of fs) e.flow_id ≡ false
    → ltb max_stream_events_per_session (saturating_add (count_from total fs) (event_count_of e))
      ≡ false
    → check_flows [] 0 (e ∷ []) ≡ ok tt
    → check_flows ids total fs ≡ ok tt
    → check_flows ids total (fs ++ e ∷ []) ≡ ok tt
unfolding check_flows contains
check_flows-append ids total [] e new other room single h =
    check_flows-single ids total e new room single
check_flows-append ids total (f ∷ fs) e new other room single h =
    then-imp (id_guard ids f) _ _
      (then-imp (count_guard f) _ _ (
        then-imp (total_guard total f) _ _ (
          then-imp (check_events Validate.start_events f.request) _ _ (
            then-imp (check_events Validate.start_events f.response) _ _ (
              check_flows-append (BTree.add f.flow_id ids) (saturating_add total (event_count_of f))
                fs e (BTree.contains-add f.flow_id e.flow_id ids ∙ ground arith) (ground arith) room
                single)))))
      h

-- The counters of a log are those of its flows, which validate.
record IsEventLog (log : EventLog) : Type 0 where
  checked : check_flows [] 0 log.flows ≡ ok tt
  known : (key : Bytes) → contains log.ids key ≡ contains (ids_of log.flows) key
  counted : log.records ≡ count_from 0 log.flows
  few : length log.flows ≤ max_stream_events_per_session

ids_of-append :
    (fs : List FlowStreamEvents) (e : FlowStreamEvents) (key : Bytes)
    → contains (ids_of (fs ++ e ∷ [])) key ≡ e.flow_id == key || contains (ids_of fs) key
unfolding contains
ids_of-append [] e key = refl
ids_of-append (f ∷ fs) e key = ground (arith, ids_of-append fs e key)

check_flows-of-validate :
    (e : FlowStreamEvents)
    → Validate.validate (stream_events_of (e ∷ [])) ≡ ok tt
    → check_flows [] 0 (e ∷ []) ≡ ok tt
unfolding Validate.validate
check_flows-of-validate e h = h

room_left :
    (fs : List FlowStreamEvents) (e : FlowStreamEvents)
    → ltb (length fs) max_stream_events_per_session ≡ true
    → length (fs ++ e ∷ []) ≤ max_stream_events_per_session
room_left fs e h =
    omega (arith, length-append fs (e ∷ []), ltb→lt (length fs) max_stream_events_per_session h)

validate-IsEventLog :
    (log : EventLog) → IsEventLog log → Validate.validate (stream_events_of log.flows) ≡ ok tt
unfolding Validate.validate
validate-IsEventLog log h = rw (few_flows (length log.flows) h.few) h.checked
  where
    few_flows :
        (n : ℕ) → n ≤ max_stream_events_per_session → ltb max_stream_events_per_session n ≡ false
    few_flows n le = ground arith

module _ (encoding : EventEncoding) where
  open encoding use {flow_to_vec, events_to_vec}

  add_events-IsEventLog :
      (log next : EventLog) (e : FlowStreamEvents)
      → add_events encoding (ltb (length log.flows) max_stream_events_per_session) log e ≡ ok next
      → IsEventLog log
      → IsEventLog next
  unfolding add_events contains BTree.contains
  add_events-IsEventLog log next e h was =
      let (single, h1) =
        then-eq-ok (as_store_error invalid (Validate.validate (stream_events_of (e ∷ [])))) _ h in
      let (new, h2) = reject_if-eq-ok (contains log.ids e.flow_id) _ _ h1 in
      let (room, h3) =
        reject_if-eq-ok (not (ltb (length log.flows) max_stream_events_per_session)) _ _ h2 in
      let (fits, h4) =
        reject_if-eq-ok
          (ltb max_stream_events_per_session (saturating_add log.records (event_count_of e))) _ _
          h3 in
      let (encoded, found, h5) = bind-eq-ok (ok_or (flow_to_vec e) json) _ h4 in
      let (base, found_base, h6) =
        bind-eq-ok (ok_or (events_to_vec (stream_events_of [])) json) _ h5 in
      let (short, same) =
        reject_if-eq-ok
          (ltb max_stream_events_bytes (
            saturating_add (length base - 2) (
              saturating_add (saturating_add log.object_bytes (length encoded))
                (if is_empty log.flows then 0 else 1))))
          _ _ h6 in
      subst IsEventLog (ok-inj same) (record {
        checked =
            check_flows-append [] 0 log.flows e refl (sym (was.known e.flow_id) ∙ new)
              (subst
                (λ n.
                  ltb max_stream_events_per_session (saturating_add n (event_count_of e)) ≡ false)
                was.counted fits)
              (check_flows-of-validate e (as_store_error-eq-ok invalid _ single)) was.checked;
        known = λ key.
            ap (λ b. e.flow_id == key || b) (was.known key) ∙ sym (ids_of-append log.flows e key);
        counted =
            ap (λ n. saturating_add n (event_count_of e)) was.counted
            ∙ sym (count_from-append 0 log.flows e);
        few = room_left log.flows e (ground arith);
      })

  append_all-IsEventLog :
      (es : List FlowStreamEvents) (log next : EventLog)
      → append_all encoding log es ≡ ok next
      → IsEventLog log
      → IsEventLog next
  unfolding append_all append_stream_events
  append_all-IsEventLog [] log next h was = subst IsEventLog (ok-inj h) was
  append_all-IsEventLog (e ∷ es) log next h was =
      let (mid, added, rest) = bind-eq-ok (append_stream_events encoding false log e) _ h in
      append_all-IsEventLog es mid next rest (add_events-IsEventLog log mid e added was)

  -- The events of all flows that a session has accepted one by one validate as a file when it is
  -- finished.
  pub validate-append_all :
      (es : List FlowStreamEvents) (log : EventLog)
      → append_all encoding no_events es ≡ ok log
      → Validate.validate (stream_events_of log.flows) ≡ ok tt
  unfolding check_flows
  validate-append_all es log h = validate-IsEventLog log (
      append_all-IsEventLog es no_events log h
        (record { checked = refl; known = λ key. refl; counted = refl; few = omega arith }))
