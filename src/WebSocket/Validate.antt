-- ===== src/WebSocket/Validate.antt =====
-- `WebSocketTranscript::validate`, `validate_redactions` and `valid_close_code`.
use eggreplay.Prelude.{
  Bool, List, Message, Option, Result, [], all, any, contains, false, get_last?, if◌then◌else◌,
  is_empty, leb, length, ltb, map, min, none, not, ok, ok_or, reject_if, some, suc, text, true, ℕ,
  ◌&&◌, ◌+◌, ◌==◌, ◌^◌, ◌||◌, ◌∷◌, nat_eq, list_eq, option_eq, pair_eq, ◌>>◌, ◌>>=◌,
}
use eggreplay.Bytes.{Bytes, codes, starts_with_byte}
use eggreplay.Flow.{BodyRef, body_len}
use eggreplay.Scenario.Validate.{is_token_byte, for_each}
use eggreplay.WebSocket.Types.{
  WebSocketLimits, WebSocketDirection, client_to_server, server_to_client, WebSocketMessageKind,
  WebSocketRedaction, json_pointers, whole_message, WebSocketTerminal, clean_close, abnormal,
  WebSocketMessage, WebSocketConversation, WebSocketTranscript, is_close, is_control, is_text,
  websocket_schema_version,
}

abbrev pub Check : Type 0
Check = Result (Unit {0}) Message

-- `valid_close_code`
unfoldable pub valid_close_code : ℕ → Bool
valid_close_code code =
    (leb 1000 code && leb code 1014 && not (leb 1004 code && leb code 1006))
    || (leb 3000 code && leb code 4999)

is_bad_redaction_pointer : Bytes → Bool
is_bad_redaction_pointer pointer = ltb 1024 (length pointer) || not (starts_with_byte b'/' pointer)

validate_redaction : WebSocketMessageKind → WebSocketRedaction → Check
unfolding is_bad_redaction_pointer
validate_redaction kind (json_pointers pointers) =
    reject_if
      (not (is_text kind) || ltb 256 (length pointers) || any is_bad_redaction_pointer pointers)
      (text "invalid WebSocket JSON redaction metadata")
validate_redaction kind whole_message = ok tt
validate_redaction kind WebSocketRedaction.close_reason =
    reject_if (not (is_close kind)) (text "close reason redaction on a non-close message")

-- `validate_redactions`
unfoldable pub validate_redactions : List WebSocketRedaction → WebSocketMessageKind → Check
unfolding validate_redaction
validate_redactions redactions kind = for_each (validate_redaction kind) redactions

-- `close_directions`, as whether each direction has closed.
pub record Closed : Type 0 where
  pub client : Bool
  pub server : Bool

unfoldable pub has_closed : Closed → WebSocketDirection → Bool
has_closed c client_to_server = c.client
has_closed c server_to_client = c.server

unfoldable pub close_direction : Closed → WebSocketDirection → Closed
close_direction c client_to_server = record c { client = true }
close_direction c server_to_client = record c { server = true }

-- What the loop over the messages carries: the index, `prior_delta`, `close_directions`, `terminated`
-- and the payload bytes of the session so far.
pub record Cursor : Type 0 where
  pub index : ℕ
  pub prior_delta : ℕ
  pub closed : Closed
  pub terminated : Bool
  pub total_payload : ℕ

-- The length of a payload; a body that is marked absent has none.
unfoldable pub payload_len : Option BodyRef → Result ℕ Message
payload_len none = ok 0
payload_len (some body) = ok_or (body_len body) (text "WebSocket payload body length is invalid")

some_invalid_code : Option ℕ → Bool
some_invalid_code none = false
some_invalid_code (some code) = not (valid_close_code code)

is_none {ℓ} : {A : Type ℓ} → Option A → Bool
is_none none = true
is_none (some a) = false

-- `reason.len() > limits.max_close_reason_bytes.min(123) || code.is_none()`
some_bad_reason : WebSocketLimits → Option ℕ → Option Bytes → Bool
some_bad_reason limits code none = false
some_bad_reason limits code (some reason) =
    ltb (min limits.max_close_reason_bytes 123) (length reason) || is_none code

-- The branch on the kind of a message: what it does to `close_directions` and `terminated`.
unfoldable pub close_part :
    WebSocketLimits → Cursor → WebSocketMessage → Result (Closed × Bool) Message
unfolding some_invalid_code is_none some_bad_reason close_direction
close_part limits cur m =
    if is_close m.kind
    then (do
      reject_if (not (is_none m.payload)) (text "WebSocket close data must use close metadata")
      reject_if (some_invalid_code m.close_code) (text "invalid WebSocket close code")
      reject_if (some_bad_reason limits m.close_code m.close_text)
          (text "invalid WebSocket close reason")
      reject_if (has_closed cur.closed m.direction)
          (text "duplicate WebSocket close message in one direction")
      let closed = close_direction cur.closed m.direction
      ok (closed, closed.client && closed.server))
    else (do
      reject_if (not (is_none m.close_code) || not (is_none m.close_text))
          (text "close metadata on a non-close WebSocket message")
      ok (cur.closed, cur.terminated))

-- The body of the loop over the messages. Lengths are `u64`, whose sum is checked.
unfoldable pub check_message : WebSocketLimits → Cursor → WebSocketMessage → Result Cursor Message
unfolding close_part
check_message limits cur m = do
  reject_if (not (m.sequence == cur.index)) (text "WebSocket sequence numbers must be contiguous")
  reject_if (ltb 0 cur.index && ltb m.delta_ns cur.prior_delta)
      (text "WebSocket message timing must be nondecreasing")
  reject_if (ltb limits.max_duration_ns m.delta_ns)
      (text "WebSocket conversation duration exceeds limit")
  reject_if cur.terminated (text "WebSocket messages follow a terminal event")
  reject_if (has_closed cur.closed m.direction && not (is_close m.kind))
      (text "WebSocket message follows close in the same direction")
  size ← payload_len m.payload
  reject_if (ltb limits.max_message_bytes size) (text "WebSocket message payload exceeds limit")
  reject_if (leb (2 ^ 64) (cur.total_payload + size)) (text "WebSocket payload length overflow")
  reject_if (ltb limits.max_total_payload_bytes (cur.total_payload + size))
      (text "WebSocket payload bytes exceed session limit")
  reject_if (is_control m.kind && ltb (min limits.max_control_payload_bytes 125) size)
      (text "WebSocket control payload exceeds configured limit")
  closing ← close_part limits cur m
  validate_redactions m.redactions m.kind
  ok (record {
    index = suc cur.index;
    prior_delta = m.delta_ns;
    closed = closing.0;
    terminated = closing.1;
    total_payload = cur.total_payload + size;
  })

unfoldable pub check_messages :
    WebSocketLimits → Cursor → List WebSocketMessage → Result Cursor Message
check_messages limits cur [] = ok cur
check_messages limits cur (m ∷ ms) = do
  next ← check_message limits cur m
  check_messages limits next ms

abbrev abnormal_causes : List Bytes
abnormal_causes = map codes (
    "eof" ∷ "reset" ∷ "shutdown" ∷ "duration-limit" ∷ "protocol-error" ∷ "read-error"
    ∷ "write-error" ∷ "timeout" ∷ "cancelled" ∷ "upstream-error" ∷ "downstream-error" ∷ "other"
    ∷ [])

-- The part of the clean close that looks at the last message.
closes_with : Option WebSocketMessage → Option ℕ → Option Bytes → Bool
closes_with none code reason = false
closes_with (some last) code reason =
    is_close last.kind && last.close_code == code && last.close_text == reason

unfoldable pub check_terminal :
    WebSocketLimits → Closed → List WebSocketMessage → WebSocketTerminal → Check
unfolding closes_with some_invalid_code some_bad_reason is_none
check_terminal limits closed messages (clean_close code reason) = do
  reject_if (not (closed.client && closed.server))
      (text "clean WebSocket terminal requires both close messages")
  reject_if (not (closes_with (get_last? messages) code reason))
      (text "clean WebSocket terminal requires a close message")
  reject_if (some_invalid_code code || some_bad_reason limits code reason)
      (text "invalid WebSocket terminal close metadata")
check_terminal limits closed messages (abnormal cause) =
    reject_if (not (contains abnormal_causes cause))
      (text "invalid WebSocket abnormal terminal cause")

bad_subprotocol : WebSocketLimits → Bytes → Bool
bad_subprotocol limits protocol =
    is_empty protocol
    || ltb limits.max_subprotocol_bytes (length protocol)
    || not (all is_token_byte protocol)

bad_selection : WebSocketLimits → List Bytes → Option Bytes → Bool
bad_selection limits offered none = false
bad_selection limits offered (some selected) =
    not (contains offered selected) || ltb limits.max_subprotocol_bytes (length selected)

-- What the loop over the conversations carries: `ids`, `flow_ids`, `total_messages` and
-- `total_payload`.
pub record Totals : Type 0 where
  pub ids : List Bytes
  pub flow_ids : List Bytes
  pub messages : ℕ
  pub payload : ℕ

abbrev pub start_cursor : ℕ → Cursor
start_cursor total_payload = record {
  index = 0;
  prior_delta = 0;
  closed = record { client = false; server = false };
  terminated = false;
  total_payload = total_payload;
}

unfoldable pub check_conversation :
    WebSocketLimits → Totals → WebSocketConversation → Result Totals Message
unfolding bad_subprotocol bad_selection
check_conversation limits t c = do
  reject_if (is_empty c.id || ltb 128 (length c.id)) (text "invalid WebSocket conversation id")
  reject_if (is_empty c.flow_id || ltb 128 (length c.flow_id))
      (text "invalid WebSocket initiating flow id")
  reject_if (contains t.ids c.id) (text "duplicate WebSocket conversation id")
  reject_if (contains t.flow_ids c.flow_id) (text "duplicate WebSocket initiating flow id")
  reject_if (ltb limits.max_subprotocols (length c.offered_subprotocols))
      (text "too many offered WebSocket subprotocols")
  reject_if (any (bad_subprotocol limits) c.offered_subprotocols)
      (text "invalid WebSocket subprotocol")
  reject_if (bad_selection limits c.offered_subprotocols c.selected_subprotocol)
      (text "selected WebSocket subprotocol was not offered")
  reject_if (ltb limits.max_messages_per_conversation (length c.messages))
      (text "WebSocket message count exceeds conversation limit")
  reject_if (leb (2 ^ 64) (t.messages + length c.messages))
      (text "WebSocket message count overflow")
  reject_if (ltb limits.max_messages_per_session (t.messages + length c.messages))
      (text "WebSocket message count exceeds session limit")
  cur ← check_messages limits (start_cursor t.payload) c.messages
  check_terminal limits cur.closed c.messages c.terminal
  ok (record {
    ids = c.id ∷ t.ids;
    flow_ids = c.flow_id ∷ t.flow_ids;
    messages = t.messages + length c.messages;
    payload = cur.total_payload;
  })

unfoldable pub check_conversations :
    WebSocketLimits → Totals → List WebSocketConversation → Result Totals Message
check_conversations limits t [] = ok t
check_conversations limits t (c ∷ cs) = do
  next ← check_conversation limits t c
  check_conversations limits next cs

-- `WebSocketTranscript::validate`
unfoldable pub validate : WebSocketTranscript → WebSocketLimits → Check
validate self limits = do
  reject_if (not (self.schema_version == websocket_schema_version))
      (text "unsupported WebSocket extension schema")
  reject_if (ltb limits.max_conversations (length self.conversations))
      (text "WebSocket conversation count exceeds limit")
  totals ←
      check_conversations limits (record { ids = []; flow_ids = []; messages = 0; payload = 0 })
        self.conversations
  ok tt
