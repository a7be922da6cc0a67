-- ===== src/WebSocket/Types.antt =====
-- The transcript and its limits.
use eggreplay.Prelude.{Bool, List, Option, false, true, ℕ, ◌*◌}
use eggreplay.Bytes.{Bytes}
use eggreplay.Flow.{BodyRef}

abbrev pub websocket_schema_version : ℕ
websocket_schema_version = 1

pub record WebSocketLimits : Type 0 where
  pub max_conversations : ℕ
  pub max_messages_per_conversation : ℕ
  pub max_messages_per_session : ℕ
  pub max_message_bytes : ℕ
  pub max_total_payload_bytes : ℕ
  pub max_duration_ns : ℕ
  pub max_extension_metadata_bytes : ℕ
  pub max_handshake_header_count : ℕ
  pub max_handshake_header_bytes : ℕ
  pub max_diagnostic_bytes : ℕ
  pub max_control_payload_bytes : ℕ
  pub max_close_reason_bytes : ℕ
  pub max_subprotocols : ℕ
  pub max_subprotocol_bytes : ℕ

-- `WebSocketLimits::default`
abbrev pub default_limits : WebSocketLimits
default_limits = record {
  max_conversations = 1024;
  max_messages_per_conversation = 100000;
  max_messages_per_session = 1000000;
  max_message_bytes = 16 * 1024 * 1024;
  max_total_payload_bytes = 1024 * 1024 * 1024;
  max_duration_ns = 24 * 60 * 60 * 1000000000;
  max_extension_metadata_bytes = 16 * 1024 * 1024;
  max_handshake_header_count = 128;
  max_handshake_header_bytes = 64 * 1024;
  max_diagnostic_bytes = 4096;
  max_control_payload_bytes = 125;
  max_close_reason_bytes = 123;
  max_subprotocols = 32;
  max_subprotocol_bytes = 128;
}

pub data WebSocketDirection : Type 0 where
  client_to_server server_to_client : WebSocketDirection

-- The kinds of messages. `text` and `binary` carry data, the others are control messages.
pub data WebSocketMessageKind : Type 0 where
  text_message binary ping pong close : WebSocketMessageKind

pub data WebSocketRedaction : Type 0 where
  json_pointers : List Bytes → WebSocketRedaction
  whole_message close_reason : WebSocketRedaction

pub data WebSocketTerminal : Type 0 where
  clean_close : Option ℕ → Option Bytes → WebSocketTerminal
  abnormal : Bytes → WebSocketTerminal

pub record WebSocketMessage : Type 0 where
  pub sequence : ℕ
  pub direction : WebSocketDirection
  pub delta_ns : ℕ
  pub kind : WebSocketMessageKind
  pub payload : Option BodyRef
  pub close_code : Option ℕ
  pub close_text : Option Bytes
  pub redactions : List WebSocketRedaction

pub record WebSocketConversation : Type 0 where
  pub id : Bytes
  pub flow_id : Bytes
  pub offered_subprotocols : List Bytes
  pub selected_subprotocol : Option Bytes
  pub messages : List WebSocketMessage
  pub terminal : WebSocketTerminal

pub record WebSocketTranscript : Type 0 where
  pub schema_version : ℕ
  pub conversations : List WebSocketConversation

unfoldable pub is_close : WebSocketMessageKind → Bool
is_close close = true
is_close _ = false

unfoldable pub is_control : WebSocketMessageKind → Bool
is_control ping = true
is_control pong = true
is_control close = true
is_control _ = false

unfoldable pub is_text : WebSocketMessageKind → Bool
is_text text_message = true
is_text _ = false
