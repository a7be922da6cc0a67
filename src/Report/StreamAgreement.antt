-- ===== src/Report/StreamAgreement.antt =====
-- When two recorded streams are the same: proofs about `compare_stream_events`.
use eggreplay.Sorting.{is_empty-sort_by, sort_by}
use eggreplay.Prelude.{
  ==_iff, List, [], ap, arith, length, map, refl, true, ◌&&◌, ◌==◌, ◌↔◌, ◌∷◌, ◌≡◌, nat_eq, list_eq,
  option_eq, pair_eq, false, is_empty, none, not, ◌++◌, ◌||◌, Bool-cases, Option, inl, inr, some,
  suc, ℕ,
}
use eggreplay.Bytes.{eq_ignore_case, lowercase}
use eggreplay.Flow.{HeaderEntry}
use eggreplay.Report.Streams.{
  same_stream_event, same_names, compare_stream_events, any_differs, compare_events,
  cadence_findings, field_precedes, compare_cadence,
}
use eggreplay.Stream.Types.{
  StreamEvent, StreamEventKind, data_frame, trailers_frame, end_of_stream, stream_error,
  FlowStreamEvents,
}

-- What a comparison looks at: the data's place, the trailers' names in lower case, and errors.
abbrev pub name_only : HeaderEntry → HeaderEntry
name_only h = record { name = lowercase h.name; value = [] }

abbrev pub skeleton : StreamEventKind → StreamEventKind
skeleton (data_frame o n) = data_frame o n
skeleton (trailers_frame l) = trailers_frame (map name_only l)
skeleton end_of_stream = end_of_stream
skeleton (stream_error o c p) = stream_error o c p

same_names-map :
    (l r : List HeaderEntry)
    → (length l == length r && same_names l r ≡ true) ↔ (map name_only l ≡ map name_only r)
unfolding same_names eq_ignore_case
same_names-map [] [] = (λ h. refl, λ h. refl)
same_names-map [] (b ∷ r) = ground arith
same_names-map (a ∷ l) [] = ground arith
same_names-map (a ∷ l) (b ∷ r) =
    ground (arith, same_names-map l r, ==_iff (lowercase a.name) (lowercase b.name))

same_stream_event-skeleton :
    (a b : StreamEventKind) → (same_stream_event a b ≡ true) ↔ (skeleton a ≡ skeleton b)
unfolding same_stream_event
same_stream_event-skeleton (data_frame o n) (data_frame p m) =
    ground (arith, ==_iff o p, ==_iff n m)
same_stream_event-skeleton (trailers_frame l) (trailers_frame r) =
    let (there, back) = same_names-map l r in (λ h. ap trailers_frame (there h), λ h. back (cc h))
same_stream_event-skeleton end_of_stream end_of_stream = (λ h. refl, λ h. refl)
same_stream_event-skeleton (stream_error o c e) (stream_error q d f) =
    ground (arith, ==_iff o q, ==_iff c d, ==_iff e f)
same_stream_event-skeleton (data_frame o n) (trailers_frame r) =
    (λ h. absurd (cc h), λ h. absurd (cc h))
same_stream_event-skeleton (data_frame o n) end_of_stream = (λ h. absurd (cc h), λ h. absurd (cc h))
same_stream_event-skeleton (data_frame o n) (stream_error q d r) =
    (λ h. absurd (cc h), λ h. absurd (cc h))
same_stream_event-skeleton (trailers_frame l) (data_frame p m) =
    (λ h. absurd (cc h), λ h. absurd (cc h))
same_stream_event-skeleton (trailers_frame l) end_of_stream =
    (λ h. absurd (cc h), λ h. absurd (cc h))
same_stream_event-skeleton (trailers_frame l) (stream_error q d r) =
    (λ h. absurd (cc h), λ h. absurd (cc h))
same_stream_event-skeleton end_of_stream (data_frame p m) = (λ h. absurd (cc h), λ h. absurd (cc h))
same_stream_event-skeleton end_of_stream (trailers_frame r) =
    (λ h. absurd (cc h), λ h. absurd (cc h))
same_stream_event-skeleton end_of_stream (stream_error q d r) =
    (λ h. absurd (cc h), λ h. absurd (cc h))
same_stream_event-skeleton (stream_error o c e) (data_frame p m) =
    (λ h. absurd (cc h), λ h. absurd (cc h))
same_stream_event-skeleton (stream_error o c e) (trailers_frame r) =
    (λ h. absurd (cc h), λ h. absurd (cc h))
same_stream_event-skeleton (stream_error o c e) end_of_stream =
    (λ h. absurd (cc h), λ h. absurd (cc h))

any_differs-skeleton :
    (l r : List StreamEvent)
    → (not (length l == length r) || any_differs l r ≡ false)
      ↔ (map (λ e. skeleton e.event) l ≡ map (λ e. skeleton e.event) r)
unfolding any_differs
any_differs-skeleton [] [] = (λ h. refl, λ h. refl)
any_differs-skeleton [] (b ∷ r) = ground arith
any_differs-skeleton (a ∷ l) [] = ground arith
any_differs-skeleton (a ∷ l) (b ∷ r) =
    ground (arith, any_differs-skeleton l r, same_stream_event-skeleton a.event b.event)

is_empty-compare_events :
    (l r : List StreamEvent)
    → is_empty (compare_events l r ++ []) ≡ not (not (length l == length r) || any_differs l r)
unfolding compare_events
is_empty-compare_events l r = elim (Bool-cases (not (length l == length r) || any_differs l r)) [
  | inl other ↦ rw (other, compare_events) refl
  | inr same ↦ rw (same, compare_events) refl
]

-- Without a tolerance, nothing is found exactly if the responses have the same events in the same
-- order, whatever their times, the values of their trailers and the case of the names of these.
pub is_empty-compare_stream_events :
    (x y : FlowStreamEvents)
    → (is_empty (compare_stream_events x y none) ≡ true)
      ↔ (map (λ e. skeleton e.event) x.response ≡ map (λ e. skeleton e.event) y.response)
unfolding compare_stream_events compare_events cadence_findings
is_empty-compare_stream_events x y =
    let sorted = is_empty-sort_by field_precedes (compare_events x.response y.response ++ []) in
    let found = is_empty-compare_events x.response y.response in
    let same = any_differs-skeleton x.response y.response in
    (λ h. same.0 (ground (arith, sorted, found)), λ h. ground (arith, sorted, found, same.1 h))

compare_cadence_self :
    (tolerance index before : ℕ) (l : List StreamEvent)
    → compare_cadence tolerance index before before l l ≡ []
unfolding compare_cadence
compare_cadence_self tolerance index before [] = refl
compare_cadence_self tolerance index before (a ∷ l) =
    ground (arith, compare_cadence_self tolerance (suc index) a.delta_ns l)

compare_events_self : (l : List StreamEvent) → compare_events l l ≡ []
unfolding compare_events
compare_events_self l = rw (compare_events, (any_differs-skeleton l l).1 refl) refl

-- A recording compared with itself gives no finding, at any tolerance.
pub compare_stream_events_self :
    (x : FlowStreamEvents) (tolerance : Option ℕ)
    → is_empty (compare_stream_events x x tolerance) ≡ true
unfolding compare_stream_events cadence_findings sort_by
compare_stream_events_self x none = (is_empty-compare_stream_events x x).1 refl
compare_stream_events_self x (some t) =
    rw (compare_stream_events, compare_events_self x.response)
      (rw (compare_cadence_self t 0 0 x.response) refl)
