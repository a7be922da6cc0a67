-- ===== src/WebSocket/Transcript.antt =====
-- What an accepted transcript guarantees: proofs about `WebSocketTranscript::validate`.
use eggreplay.Bytes.{Bytes}
use eggreplay.WebSocket.Validate.{
  check_conversations, check_terminal, check_conversation, has_closed, Totals, validate, Closed,
  check_messages, start_cursor,
}
use eggreplay.Prelude.{
  All, ==_iff, ==_refl, Distinct, List, Option, Result-cases, [], arith, bind-eq-ok, contains,
  false, inl, inr, length, map, ok, refl, true, ℕ, ◌+◌, ◌∷◌, ◌≡◌, ◌≤◌, nat_eq, list_eq, option_eq,
  pair_eq,
}
use eggreplay.WebSocket.Types.{
  clean_close, abnormal, client_to_server, server_to_client, WebSocketLimits, WebSocketTranscript,
  WebSocketDirection, WebSocketConversation, WebSocketMessage, websocket_schema_version,
  WebSocketTerminal,
}
use eggreplay.WebSocket.Accepted.{
  Timed, message_bytes, ClosesOnce, conversation_bytes, Closes, check_messages-IsRun,
}

-- A conversation whose messages are numbered from 0 at times that do not decrease, which is silent in
-- a direction once that has closed, and whose clean close has a close message in both directions.
pub record IsConversation (limits : WebSocketLimits) (c : WebSocketConversation) : Type 0 where
  pub message_count : length c.messages ≤ limits.max_messages_per_conversation
  pub timed : Timed limits 0 0 c.messages
  pub closes_once : ClosesOnce c.messages
  pub clean :
      (code : Option ℕ) (reason : Option Bytes)
      → c.terminal ≡ clean_close code reason
      → (d : WebSocketDirection) → Closes d c.messages

-- What accepting a conversation does to the totals.
record IsAdded (limits : WebSocketLimits) (t : Totals) (c : WebSocketConversation) (next : Totals)
    : Type 0 where
  valid : IsConversation limits c
  ids : next.ids ≡ c.id ∷ t.ids
  flow_ids : next.flow_ids ≡ c.flow_id ∷ t.flow_ids
  new_id : contains t.ids c.id ≡ false
  new_flow_id : contains t.flow_ids c.flow_id ≡ false
  payload : next.payload ≡ t.payload + message_bytes c.messages
  bounded :
      t.payload ≤ limits.max_total_payload_bytes → next.payload ≤ limits.max_total_payload_bytes

never_closed :
    (d : WebSocketDirection) → has_closed (record { client = false; server = false }) d ≡ true → ⊥
unfolding has_closed
never_closed client_to_server h = cc h
never_closed server_to_client h = cc h

check_terminal-closed :
    (limits : WebSocketLimits) (closed : Closed) (ms : List WebSocketMessage)
    (t : WebSocketTerminal)
    → check_terminal limits closed ms t ≡ ok tt
    → (code : Option ℕ) (reason : Option Bytes) → t ≡ clean_close code reason
    → (d : WebSocketDirection) → has_closed closed d ≡ true
unfolding check_terminal has_closed
check_terminal-closed limits closed ms (clean_close c r) e code reason q client_to_server =
    ground arith
check_terminal-closed limits closed ms (clean_close c r) e code reason q server_to_client =
    ground arith
check_terminal-closed limits closed ms (abnormal cause) e code reason q d = absurd (cc q)

check_conversation-IsAdded :
    (limits : WebSocketLimits) (t : Totals) (c : WebSocketConversation) (next : Totals)
    → check_conversation limits t c ≡ ok next
    → IsAdded limits t c next
unfolding check_conversation
check_conversation-IsAdded limits t c next e =
    elim (Result-cases (check_messages limits (start_cursor t.payload) c.messages)) [
      | inr (bad, q) ↦ absurd (ground arith)
      | inl (cur, q) ↦
          let run =
            check_messages-IsRun limits (start_cursor t.payload) c.messages cur (λ z. refl) q in
          let terminal : check_terminal limits cur.closed c.messages c.terminal ≡ ok tt =
            ground arith in
          record {
            valid = record {
              message_count = ground arith;
              timed = run.timed;
              closes_once = run.closes_once;
              clean = λ code reason h d.
                  elim (run.closed_by d (
                    check_terminal-closed limits cur.closed c.messages c.terminal terminal code
                      reason h d)) [ inl old ↦ absurd (never_closed d old) | inr found ↦ found ];
            };
            ids = ground arith;
            flow_ids = ground arith;
            new_id = ground arith;
            new_flow_id = ground arith;
            payload = ground (arith, run.total);
            bounded = λ h. ground (arith, run.bounded h);
          }
    ]

-- A transcript whose conversations are valid, one for each id and each flow, with a payload within the
-- limit of the session.
pub record IsTranscript (limits : WebSocketLimits) (t : WebSocketTranscript) : Type 0 where
  pub schema : t.schema_version ≡ websocket_schema_version
  pub count : length t.conversations ≤ limits.max_conversations
  pub conversations_valid : All (IsConversation limits) t.conversations
  pub ids_distinct : Distinct (map (λ c. c.id) t.conversations)
  pub flow_ids_distinct : Distinct (map (λ c. c.flow_id) t.conversations)
  pub payload : conversation_bytes t.conversations ≤ limits.max_total_payload_bytes

-- None of the keys of later conversations is among those seen.
abbrev Apart : List Bytes → List Bytes → Type 0
Apart seen keys = (x : Bytes) → contains seen x ≡ true → contains keys x ≡ false

Apart-cons :
    (seen new keys : List Bytes) (k : Bytes)
    → new ≡ k ∷ seen
    → contains seen k ≡ false
    → Apart new keys
    → (contains keys k ≡ false) × Apart seen (k ∷ keys)
unfolding contains
Apart-cons seen new keys k q fresh apart =
    (ground (arith, apart k, ==_refl k), λ x h. ground (arith, apart x, ==_iff k x))

check_conversations-IsTranscript :
    (limits : WebSocketLimits) (t : Totals) (cs : List WebSocketConversation) (last : Totals)
    → t.payload ≤ limits.max_total_payload_bytes
    → check_conversations limits t cs ≡ ok last
    → All (IsConversation limits) cs
      × (Distinct (map (λ c. c.id) cs) × Apart t.ids (map (λ c. c.id) cs))
      × (Distinct (map (λ c. c.flow_id) cs) × Apart t.flow_ids (map (λ c. c.flow_id) cs))
      × (t.payload + conversation_bytes cs ≤ limits.max_total_payload_bytes)
unfolding check_conversations contains
check_conversations-IsTranscript limits t [] last b e =
    (tt, (tt, λ x h. refl), (tt, λ x h. refl), omega (arith, b))
check_conversations-IsTranscript limits t (c ∷ cs) last b e =
    let (next, one, more) = bind-eq-ok (check_conversation limits t c) _ e in
    let step = check_conversation-IsAdded limits t c next one in
    let (valid, (ids, ids_apart), (flows, flows_apart), total) =
      check_conversations-IsTranscript limits next cs last (step.bounded b) more in
    let (id_new, id_rest) = Apart-cons t.ids next.ids _ c.id step.ids step.new_id ids_apart in
    let (flow_new, flow_rest) =
      Apart-cons t.flow_ids next.flow_ids _ c.flow_id step.flow_ids step.new_flow_id flows_apart in
    (
      (step.valid, valid),
      ((id_new, ids), id_rest),
      ((flow_new, flows), flow_rest),
      omega (arith, total, step.payload),
    )

-- A transcript that validation accepts is a transcript: in every conversation the messages are
-- numbered from 0 without a gap, their times do not decrease and stay within the longest duration, no
-- message follows a close in its direction, and a clean close has a close message in both directions.
-- Ids and flows are not repeated, and all payloads together are within the limit of the session.
pub validate-IsTranscript :
    (t : WebSocketTranscript) (limits : WebSocketLimits)
    → validate t limits ≡ ok tt
    → IsTranscript limits t
unfolding validate
validate-IsTranscript t limits e =
    let start : Totals = record { ids = []; flow_ids = []; messages = 0; payload = 0 } in
    elim (Result-cases (check_conversations limits start t.conversations)) [
      | inr (bad, q) ↦ absurd (ground arith)
      | inl (totals, q) ↦
          let (valid, (ids, _), (flows, _), total) =
            check_conversations-IsTranscript limits start t.conversations totals (omega arith) q in
          record {
            schema = ground (arith, ==_iff t.schema_version websocket_schema_version);
            count = ground arith;
            conversations_valid = valid;
            ids_distinct = ids;
            flow_ids_distinct = flows;
            payload = omega (arith, total);
          }
    ]
