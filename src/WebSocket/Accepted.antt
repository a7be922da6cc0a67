-- ===== src/WebSocket/Accepted.antt =====
-- What an accepted WebSocket transcript guarantees: proofs about `WebSocketTranscript::validate`.
use eggreplay.WebSocket.Types.{
  client_to_server, server_to_client, WebSocketLimits, WebSocketConversation, WebSocketMessage,
  WebSocketDirection, is_close,
}
use eggreplay.Prelude.{
  All, Bool, List, [], arith, err, false, ok, refl, suc, true, ℕ, ◌+◌, ◌<◌, ◌∷◌, ◌≡◌, ◌≢◌, ◌≤◌,
  ==_iff, Bool-cases, Result-cases, inl, inr, nat_eq, list_eq, option_eq, pair_eq, bind-eq-ok, sym,
  zero, ◌⊎◌,
}
use eggreplay.WebSocket.Validate.{
  Cursor, close_part, check_message, has_closed, payload_len, close_direction, Closed,
  check_messages,
}

-- The length that a payload adds to the totals.
unfoldable pub payload_bytes : WebSocketMessage → ℕ
payload_bytes m = elim (payload_len m.payload) [ ok n ↦ n | err e ↦ 0 ]

abbrev pub message_bytes : List WebSocketMessage → ℕ
message_bytes [] = 0
message_bytes (m ∷ ms) = payload_bytes m + message_bytes ms

abbrev pub conversation_bytes : List WebSocketConversation → ℕ
conversation_bytes [] = 0
conversation_bytes (c ∷ cs) = message_bytes c.messages + conversation_bytes cs

-- The messages are numbered from an index on, at times that do not decrease and stay within the
-- longest duration.
abbrev pub Timed : WebSocketLimits → ℕ → ℕ → List WebSocketMessage → Type 0
Timed limits index prior [] = Unit
Timed limits index prior (m ∷ ms) =
    (m.sequence ≡ index)
    × (prior ≤ m.delta_ns)
    × (m.delta_ns ≤ limits.max_duration_ns)
    × Timed limits (suc index) m.delta_ns ms

-- No message travels in a direction.
abbrev pub Silent : WebSocketDirection → List WebSocketMessage → Type 0
Silent d ms = All (λ m. m.direction ≢ d) ms

-- After a close message, its direction is silent.
abbrev pub ClosesOnce : List WebSocketMessage → Type 0
ClosesOnce [] = Unit
ClosesOnce (m ∷ ms) = (is_close m.kind ≡ true → Silent m.direction ms) × ClosesOnce ms

-- One of the messages closes a direction.
abbrev pub Closes : WebSocketDirection → List WebSocketMessage → Type 0
Closes d [] = ⊥
Closes d (m ∷ ms) = ((is_close m.kind ≡ true) × (m.direction ≡ d)) ⊎ Closes d ms

-- What accepting one message means.
record IsNext (limits : WebSocketLimits) (cur : Cursor) (m : WebSocketMessage) (next : Cursor)
    : Type 0 where
  sequence : m.sequence ≡ cur.index
  later : 0 < cur.index → cur.prior_delta ≤ m.delta_ns
  short : m.delta_ns ≤ limits.max_duration_ns
  not_closed : has_closed cur.closed m.direction ≡ false
  index : next.index ≡ suc cur.index
  prior : next.prior_delta ≡ m.delta_ns
  total : next.total_payload ≡ cur.total_payload + payload_bytes m
  bounded : next.total_payload ≤ limits.max_total_payload_bytes
  closes : is_close m.kind ≡ true → has_closed next.closed m.direction ≡ true
  stays :
      (d : WebSocketDirection) → has_closed cur.closed d ≡ true → has_closed next.closed d ≡ true
  closed_by :
      (d : WebSocketDirection)
      → has_closed next.closed d ≡ true
      → (has_closed cur.closed d ≡ true) ⊎ ((is_close m.kind ≡ true) × (m.direction ≡ d))

has_closed-close_direction :
    (c : Closed) (d e : WebSocketDirection)
    → (has_closed (close_direction c d) d ≡ true)
      × (has_closed c e ≡ true → has_closed (close_direction c d) e ≡ true)
unfolding has_closed close_direction
has_closed-close_direction c client_to_server client_to_server = (refl, λ h. refl)
has_closed-close_direction c client_to_server server_to_client = (refl, λ h. h)
has_closed-close_direction c server_to_client client_to_server = (refl, λ h. h)
has_closed-close_direction c server_to_client server_to_client = (refl, λ h. refl)

has_closed-cases :
    (c : Closed) (d e : WebSocketDirection)
    → has_closed (close_direction c d) e ≡ true
    → (has_closed c e ≡ true) ⊎ (d ≡ e)
unfolding has_closed close_direction
has_closed-cases c client_to_server client_to_server h = inr refl
has_closed-cases c client_to_server server_to_client h = inl h
has_closed-cases c server_to_client client_to_server h = inl h
has_closed-cases c server_to_client server_to_client h = inr refl

close_part_lem :
    (limits : WebSocketLimits) (cur : Cursor) (m : WebSocketMessage) (closing : Closed × Bool)
    → close_part limits cur m ≡ ok closing
    → (is_close m.kind ≡ true
        → (has_closed cur.closed m.direction ≡ false)
          × (closing.0 ≡ close_direction cur.closed m.direction))
      × (is_close m.kind ≡ false → closing.0 ≡ cur.closed)
unfolding close_part
close_part_lem limits cur m closing e = (λ k. (ground arith, ground arith), λ k. ground arith)

check_message-IsNext :
    (limits : WebSocketLimits) (cur : Cursor) (m : WebSocketMessage) (next : Cursor)
    → check_message limits cur m ≡ ok next
    → IsNext limits cur m next
unfolding check_message payload_bytes
check_message-IsNext limits cur m next e = elim (Result-cases (payload_len m.payload)) [
  | inr (bad, q) ↦ absurd (ground arith)
  | inl (size, q) ↦ elim (Result-cases (close_part limits cur m)) [
    | inr (bad, r) ↦ absurd (ground arith)
    | inl (closing, r) ↦
        let (closes, keeps) = close_part_lem limits cur m closing r in
        let new_closed : next.closed ≡ closing.0 = ground arith in
        record {
          sequence = ground (arith, ==_iff m.sequence cur.index);
          later = λ h. ground arith;
          short = ground arith;
          not_closed = ground (arith, closes);
          index = ground arith;
          prior = ground arith;
          total = ground arith;
          bounded = ground arith;
          closes = λ k.
              rw new_closed
                (rw (closes k).1 (has_closed-close_direction cur.closed m.direction m.direction).0);
          stays = λ d h. elim (Bool-cases (is_close m.kind)) [
            | inl k ↦
                rw new_closed
                  (rw (closes k).1 ((has_closed-close_direction cur.closed m.direction d).1 h))
            | inr k ↦ rw new_closed (rw (keeps k) h)
          ];
          closed_by = λ d h. elim (Bool-cases (is_close m.kind)) [
            | inl k ↦
                let after : has_closed (close_direction cur.closed m.direction) d ≡ true =
                  cc (h, new_closed, (closes k).1) in
                elim (has_closed-cases cur.closed m.direction d after) [
                  | inl old ↦ inl old
                  | inr same ↦ inr (k, same)
                ]
            | inr k ↦ inl (cc (h, new_closed, keeps k))
          ];
        }
  ]
]

Nat-cases : (n : ℕ) → (n ≡ 0) ⊎ (0 < n)
Nat-cases zero = inl refl
Nat-cases (suc n) = inr (omega arith)

-- What accepting a run of messages means, from a cursor on.
pub record IsRun (limits : WebSocketLimits) (cur : Cursor) (ms : List WebSocketMessage)
    (last : Cursor) : Type 0 where
  pub timed : Timed limits cur.index cur.prior_delta ms
  pub closes_once : ClosesOnce ms
  pub silent : (d : WebSocketDirection) → has_closed cur.closed d ≡ true → Silent d ms
  pub closed_by :
      (d : WebSocketDirection)
      → has_closed last.closed d ≡ true
      → (has_closed cur.closed d ≡ true) ⊎ Closes d ms
  pub total : last.total_payload ≡ cur.total_payload + message_bytes ms
  pub bounded :
      cur.total_payload ≤ limits.max_total_payload_bytes
      → last.total_payload ≤ limits.max_total_payload_bytes

pub check_messages-IsRun :
    (limits : WebSocketLimits) (cur : Cursor) (ms : List WebSocketMessage) (last : Cursor)
    → (cur.index ≡ 0 → cur.prior_delta ≡ 0)
    → check_messages limits cur ms ≡ ok last
    → IsRun limits cur ms last
unfolding check_messages
check_messages-IsRun limits cur [] last z e = record {
  timed = tt;
  closes_once = tt;
  silent = λ d h. tt;
  closed_by = λ d h. inl (ground arith);
  total = ground arith;
  bounded = λ h. ground arith;
}
check_messages-IsRun limits cur (m ∷ ms) last z e =
    let (next, one, more) = bind-eq-ok (check_message limits cur m) _ e in
    let step = check_message-IsNext limits cur m next one in
    let rest =
      check_messages-IsRun limits next ms last (λ q. absurd (omega (arith, q, step.index))) more in
    record {
      timed = (
        step.sequence,
        elim (Nat-cases cur.index) [ inl q ↦ omega (arith, z q) | inr q ↦ step.later q ],
        step.short,
        rw (sym step.index) (rw (sym step.prior) rest.timed),
      );
      closes_once = (λ k. rest.silent m.direction (step.closes k), rest.closes_once);
      silent = λ d h. (λ q. cc (q, h, step.not_closed), rest.silent d (step.stays d h));
      closed_by = λ d h. elim (rest.closed_by d h) [
        | inr q ↦ inr (inr q)
        | inl q ↦ elim (step.closed_by d q) [ inl old ↦ inl old | inr one ↦ inr (inl one) ]
      ];
      total = omega (arith, step.total, rest.total);
      bounded = λ h. rest.bounded step.bounded;
    }
