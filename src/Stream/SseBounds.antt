-- ===== src/Stream/SseBounds.antt =====
-- Proofs about `parse_sse` and `compare_sse`.
use eggreplay.Bytes.{
  Bytes, codes, strip_prefix, contains_byte, is_utf8, is_digit, parse_unsigned, split_byte,
}
use eggreplay.Prelude.{
  All, Bool, List, [], arith, false, leb, length, length-append, refl, ◌++◌, ◌∷◌, ◌≡◌, ◌≤◌, Message,
  Option, Option-cases, all, if_intro, inl, inr, is_empty, ltb, map, none, not, some, suc, text, ℕ,
  ◌&&◌, ◌==◌, nat_eq, list_eq, option_eq, pair_eq, ==_iff, ==_refl, contains, subst, true, ◌||◌,
  ◌↔◌,
}
use eggreplay.Stream.Sse.{
  parse_sse, SseState, set_field, flush, max_sse_events, fail, set_retry, read_lines, end_of_body,
  SseParseResult, take_line, max_sse_line_bytes, is_some, max_sse_body_bytes, is_pending,
  strip_return, start_sse, same_event, SseEvent, compare_sse, all_same,
}

-- What the result so far keeps to: the limit on events, and comments only where they are asked for.
record IsBounded (include_comments : Bool) (st : SseState) : Type 0 where
  count : length st.result.events ≤ max_sse_events
  opted : include_comments ≡ false → All (λ e. e.comments ≡ []) st.result.events
  reading : include_comments ≡ false → st.comments ≡ []

All-snoc {ℓ κ} :
    {A : Type ℓ} (P : A → Type κ) (l : List A) (a : A) → All P l → P a → All P (l ++ a ∷ [])
All-snoc P [] a h p = (p, tt)
All-snoc P (x ∷ l) a h p = (h.0, All-snoc P l a h.1 p)

length-snoc {ℓ} : {A : Type ℓ} (l : List A) (a : A) → length (l ++ a ∷ []) ≡ suc (length l)
length-snoc l a = ground (arith, length-append l (a ∷ []))

-- Neither the events nor the comments change.
abbrev Kept : SseState → SseState → Type 0
Kept st new = (new.comments ≡ st.comments) × (new.result.events ≡ st.result.events)

set_retry-Kept : (n : Option ℕ) (st : SseState) → Kept st (set_retry n st)
unfolding set_retry fail
set_retry-Kept none st = (refl, refl)
set_retry-Kept (some n) st = (refl, refl)

set_field-Kept : (field value : Bytes) (st : SseState) → Kept st (set_field field value st)
unfolding set_field fail
set_field-Kept field value st =
    if_intro (Kept st) (field == codes "data") (λ _. (refl, refl))
      (λ _.
        if_intro (Kept st) (field == codes "event") (λ _. (refl, refl))
          (λ _.
            if_intro (Kept st) (field == codes "id")
              (λ _.
                if_intro (Kept st) (contains_byte 0 value) (λ _. (refl, refl)) (λ _. (refl, refl)))
              (λ _.
                if_intro (Kept st) (field == codes "retry")
                  (λ _.
                    if_intro (Kept st) (not (is_empty value) && all is_digit value)
                      (λ _. set_retry-Kept (parse_unsigned 64 value) st) (λ _. (refl, refl)))
                  (λ _. (refl, refl)))))

Kept-IsBounded :
    (include_comments : Bool) (st new : SseState)
    → Kept st new
    → IsBounded include_comments st
    → IsBounded include_comments new
Kept-IsBounded include_comments st new k b = record {
  count = rw k.1 b.count;
  opted = λ q. rw k.1 (b.opted q);
  reading = λ q. rw k.0 (b.reading q);
}

take_line-IsBounded :
    (include_comments : Bool) (line : Bytes) (st : SseState)
    → IsBounded include_comments st
    → IsBounded include_comments (take_line include_comments line st)
unfolding take_line strip_prefix
take_line-IsBounded include_comments line st b =
    elim (Option-cases (strip_prefix (codes ":") line)) [
      | inl q ↦ rw q (Kept-IsBounded include_comments st _ (set_field-Kept _ _ st) b)
      | inr (comment, q) ↦ rw q (
          if_intro (IsBounded include_comments) include_comments
            (λ on. record {
              count = b.count;
              opted = b.opted;
              reading = λ off. absurd (cc (on, off));
            })
            (λ _. b))
    ]

flush-IsBounded :
    (include_comments : Bool) (st : SseState)
    → leb max_sse_events (length st.result.events) ≡ false
    → IsBounded include_comments st
    → IsBounded include_comments (flush st)
unfolding flush
flush-IsBounded include_comments st room b = record {
  count = rw (length-snoc st.result.events _) (ground arith);
  opted = λ q. All-snoc (λ e. e.comments ≡ []) st.result.events _ (b.opted q) (b.reading q);
  reading = λ q. refl;
}

fail-IsBounded :
    (include_comments : Bool) (st : SseState) (m : Message)
    → IsBounded include_comments st
    → IsBounded include_comments (fail st m)
unfolding fail
fail-IsBounded include_comments st m b = record {
  count = b.count;
  opted = b.opted;
  reading = b.reading;
}

read_lines-IsBounded :
    (include_comments : Bool) (lines : List Bytes) (st : SseState)
    → IsBounded include_comments st
    → IsBounded include_comments (read_lines include_comments lines st)
unfolding read_lines
read_lines-IsBounded c [] st b = b
read_lines-IsBounded c (line ∷ lines) st b =
    let P = IsBounded c in
    let skipped = read_lines-IsBounded c lines st b in
    let taken =
      read_lines-IsBounded c lines (take_line c line st) (take_line-IsBounded c line st b) in
    if_intro P (ltb max_sse_line_bytes (length line)) (λ _. fail-IsBounded c st _ b)
      (λ _.
        if_intro P (not (is_empty line)) (λ _. taken)
          (λ _.
            if_intro P (not (is_pending st)) (λ _. skipped)
              (λ _.
                if_intro P (leb max_sse_events (length st.result.events))
                  (λ _. fail-IsBounded c st _ b)
                  (λ room. read_lines-IsBounded c lines (flush st) (flush-IsBounded c st room b)))))

-- What a caller sees of that.
abbrev Bounded : Bool → SseParseResult → Type 0
Bounded include_comments r =
    (length r.events ≤ max_sse_events)
    × (include_comments ≡ false → All (λ e. e.comments ≡ []) r.events)

end_of_body-Bounded : (c : Bool) (st : SseState) → IsBounded c st → Bounded c (end_of_body st)
unfolding end_of_body
end_of_body-Bounded c st b =
    if_intro (Bounded c) (not (is_some st.result.error) && is_pending st)
      (λ _.
        if_intro (Bounded c) (leb max_sse_events (length st.result.events))
          (λ _.
            let f = fail-IsBounded c st (text "SSE event count exceeds configured limit") b in
            (f.count, f.opted))
          (λ room. let f = flush-IsBounded c st room b in (f.count, f.opted)))
      (λ _. (b.count, b.opted))

parse_sse-Bounded :
    (body : Bytes) (include_comments : Bool)
    → Bounded include_comments (parse_sse body include_comments)
unfolding parse_sse
parse_sse-Bounded body c =
    if_intro (Bounded c) (ltb max_sse_body_bytes (length body)) (λ _. (omega arith, λ q. tt))
      (λ _.
        if_intro (Bounded c) (not (is_utf8 body)) (λ _. (omega arith, λ q. tt))
          (λ _. end_of_body-Bounded c _ (
            read_lines-IsBounded c (map strip_return (split_byte 0x0a body)) start_sse
              (record { count = omega arith; opted = λ q. tt; reading = λ q. refl }))))

opted_in :
    (c : Bool) (l : List SseEvent)
    → (c ≡ false → All (λ e. e.comments ≡ []) l)
    → All (λ e. (c || is_empty e.comments) ≡ true) l
opted_in c [] h = tt
opted_in true (e ∷ l) h = (refl, opted_in true l (λ q. absurd (cc q)))
opted_in false (e ∷ l) h = (rw (h refl).0 refl, opted_in false l (λ q. (h refl).1))

-- Whatever the body, parsing it gives at most 100000 events, and no comments unless they were asked
-- for.
pub parse_sse_lem :
    (body : Bytes) (include_comments : Bool)
    → (length (parse_sse body include_comments).events ≤ max_sse_events)
      × All
          (λ e. (include_comments || is_empty e.comments) ≡ true)
          (parse_sse body include_comments).events
parse_sse_lem body c =
    let b = parse_sse-Bounded body c in (b.0, opted_in c (parse_sse body c).events b.1)

same_event-eq : (l r : SseEvent) → same_event [] l r ≡ true → l ≡ r
unfolding same_event contains
same_event-eq l r h = ground (
  arith,
  ==_iff l.payload r.payload,
  ==_iff l.event r.event,
  ==_iff l.id r.id,
  ==_iff l.retry r.retry,
  ==_iff l.comments r.comments,
)

same_event_self : (l : SseEvent) → same_event [] l l ≡ true
unfolding same_event
same_event_self l =
    ground
      (arith, ==_refl l.payload, ==_refl l.event, ==_refl l.id, ==_refl l.retry, ==_refl l.comments)

compare_sse-eq : (ls rs : List SseEvent) → compare_sse ls rs [] ≡ true → ls ≡ rs
unfolding compare_sse all_same
compare_sse-eq [] [] h = refl
compare_sse-eq [] (r ∷ rs) h = absurd (ground arith)
compare_sse-eq (l ∷ ls) [] h = absurd (ground arith)
compare_sse-eq (l ∷ ls) (r ∷ rs) h =
    let here : l ≡ r = same_event-eq l r (ground arith) in
    let rest : ls ≡ rs = compare_sse-eq ls rs (ground arith) in cc (here, rest)

compare_sse_self : (ls : List SseEvent) → compare_sse ls ls [] ≡ true
unfolding compare_sse all_same
compare_sse_self [] = ground arith
compare_sse_self (l ∷ ls) = ground (arith, same_event_self l, compare_sse_self ls)

-- With no field ignored, the comparison holds exactly of equal sequences of events.
compare_sse_iff :
    (expected actual : List SseEvent)
    → (compare_sse expected actual [] ≡ true) ↔ (expected ≡ actual)
compare_sse_iff expected actual = (
  compare_sse-eq expected actual,
  λ q. subst (λ l. compare_sse expected l [] ≡ true) q (compare_sse_self expected),
)
