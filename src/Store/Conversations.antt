-- ===== src/Store/Conversations.antt =====
-- `append_websocket_conversation` and `websocket_transcript`.
use eggreplay.Prelude.{
  Bool, List, Option, Result, [], any, if◌then◌else◌, leb, length, ltb, none, ok, ok_or, reject_if,
  saturating_add, some, text, ℕ, ◌*◌, ◌++◌, ◌+◌, ◌==◌, ◌^◌, ◌||◌, ◌∷◌, nat_eq, list_eq, option_eq,
  pair_eq, ◌>>◌, ◌>>=◌,
}
use eggreplay.Bytes.{Bytes}
use eggreplay.Flow.{body_len}
use eggreplay.Store.Types.{StoreError, invalid, as_store_error, json}
use eggreplay.WebSocket.Types.{
  WebSocketConversation, WebSocketMessage, WebSocketTranscript, websocket_schema_version,
  default_limits,
}
use eggreplay.WebSocket.Validate

abbrev pub max_extension_bytes : ℕ
max_extension_bytes = 16 * 1024 * 1024

-- `WebSocketAccumulation`
pub record WebSocketAccumulation : Type 0 where
  pub conversations : List WebSocketConversation
  pub messages : ℕ
  pub payload_bytes : ℕ
  pub encoded_bytes : ℕ

-- `Default`
abbrev pub no_conversations : WebSocketAccumulation
no_conversations = record { conversations = []; messages = 0; payload_bytes = 0; encoded_bytes = 0 }

-- `payload.as_ref().and_then(BodyRef::len)`
unfoldable pub payload_size : WebSocketMessage → Option ℕ
payload_size m = elim m.payload [ none ↦ none | some body ↦ body_len body ]

-- The lengths of the payloads, added up with a check.
unfoldable pub add_payloads : ℕ → List WebSocketMessage → Option ℕ
add_payloads total [] = some total
add_payloads total (m ∷ ms) = elim (payload_size m) [
  | none ↦ add_payloads total ms
  | some n ↦
      let rest = add_payloads (total + n) ms in if leb (2 ^ 64) (total + n) then none else rest
]

abbrev pub transcript_of : List WebSocketConversation → WebSocketTranscript
transcript_of conversations = record {
  schema_version = websocket_schema_version;
  conversations = conversations;
}

unfoldable pub is_same_conversation : WebSocketConversation → WebSocketConversation → Bool
is_same_conversation new existing = existing.id == new.id || existing.flow_id == new.flow_id

-- `serde_json::to_vec` of a conversation and of a transcript.
pub record ConversationEncoding : Type 0 where
  pub conversation_to_vec : WebSocketConversation → Option Bytes
  pub transcript_to_vec : WebSocketTranscript → Option Bytes

module _ (encoding : ConversationEncoding) where
  open encoding use {conversation_to_vec, transcript_to_vec}

  -- `append_websocket_conversation`
  unfoldable pub append_websocket_conversation :
      WebSocketAccumulation → WebSocketConversation → Result WebSocketAccumulation StoreError
  append_websocket_conversation acc c =
      let next_messages = acc.messages + length c.messages in
      do
        reject_if (leb default_limits.max_conversations (length acc.conversations))
            (invalid (text "WebSocket conversation count exceeds limit"))
        reject_if (any (is_same_conversation c) acc.conversations)
            (invalid (text "duplicate WebSocket conversation or flow id"))
        as_store_error invalid (Validate.validate (transcript_of (c ∷ [])) default_limits)
        reject_if (leb (2 ^ 64) next_messages) (invalid (text "WebSocket message count overflow"))
        reject_if (ltb default_limits.max_messages_per_session next_messages)
            (invalid (text "WebSocket message count exceeds session limit"))
        payload ←
            ok_or (add_payloads 0 c.messages) (invalid (text "WebSocket payload length overflow"))
        reject_if (leb (2 ^ 64) (acc.payload_bytes + payload))
            (invalid (text "WebSocket payload length overflow"))
        reject_if (ltb default_limits.max_total_payload_bytes (acc.payload_bytes + payload))
            (invalid (text "WebSocket payload bytes exceed session limit"))
        encoded ← ok_or (conversation_to_vec c) json
        reject_if (leb (2 ^ 64) (acc.encoded_bytes + (length encoded + 1)))
            (invalid (text "WebSocket metadata length overflow"))
        reject_if
            (ltb max_extension_bytes (saturating_add (acc.encoded_bytes + (length encoded + 1)) 64))
            (invalid (text "WebSocket extension exceeds configured limit"))
        ok (record {
          conversations = acc.conversations ++ c ∷ [];
          messages = next_messages;
          payload_bytes = acc.payload_bytes + payload;
          encoded_bytes = acc.encoded_bytes + (length encoded + 1);
        })

  unfoldable pub append_conversations :
      WebSocketAccumulation → List WebSocketConversation → Result WebSocketAccumulation StoreError
  append_conversations acc [] = ok acc
  append_conversations acc (c ∷ cs) = do
    next ← append_websocket_conversation acc c
    append_conversations next cs

  -- `websocket_transcript`
  unfoldable pub websocket_transcript :
      WebSocketAccumulation → Result WebSocketTranscript StoreError
  websocket_transcript acc =
      let transcript = transcript_of acc.conversations in
      do
        as_store_error invalid (Validate.validate transcript default_limits)
        encoded ← ok_or (transcript_to_vec transcript) json
        reject_if (ltb max_extension_bytes (length encoded))
            (invalid (text "WebSocket extension exceeds configured limit"))
        ok transcript
