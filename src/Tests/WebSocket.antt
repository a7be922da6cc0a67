-- ===== src/Tests/WebSocket.antt =====
-- The theorem on WebSocket transcripts at a concrete input.
use eggreplay.WebSocket.Transcript.{IsTranscript, validate-IsTranscript}
use eggreplay.Bytes.{codes}
use eggreplay.Prelude.{
  Option, [], contains, list_beq, none, ok, option_beq, pair_beq, refl, some, ℕ, ◌*◌, ◌∷◌, ◌≡◌,
  nat_eq, list_eq, option_eq, pair_eq,
}
use eggreplay.WebSocket.Types.{
  default_limits, WebSocketTranscript, WebSocketConversation, WebSocketMessage, clean_close,
  client_to_server, server_to_client, text_message, WebSocketMessageKind, WebSocketDirection,
  websocket_schema_version,
}
use eggreplay.WebSocket.Validate.{validate}

abbrev message : ℕ → WebSocketDirection → WebSocketMessageKind → Option ℕ → WebSocketMessage
message sequence direction kind close_code = record {
  sequence = sequence;
  direction = direction;
  delta_ns = sequence * 10;
  kind = kind;
  payload = none;
  close_code = close_code;
  close_text = none;
  redactions = [];
}

abbrev transcript : WebSocketTranscript
transcript = record {
  schema_version = websocket_schema_version;
  conversations =
      record {
        id = codes "c";
        flow_id = codes "f";
        offered_subprotocols = codes "chat" ∷ [];
        selected_subprotocol = some (codes "chat");
        messages =
            message 0 client_to_server text_message none
            ∷ message 1 client_to_server WebSocketMessageKind.close (some 1000)
            ∷ message 2 server_to_client WebSocketMessageKind.close (some 1000)
            ∷ [];
        terminal = clean_close (some 1000) none;
      }
      ∷ [];
}

transcript_accepted : validate transcript default_limits ≡ ok tt
unfolding eggreplay.Prelude.list_beq eggreplay.Prelude.pair_beq eggreplay.Prelude.option_beq
    eggreplay.Prelude.contains eggreplay.Bytes.starts_with_byte
    eggreplay.WebSocket.Validate.valid_close_code eggreplay.WebSocket.Validate.validate_redactions
    eggreplay.WebSocket.Validate.has_closed eggreplay.WebSocket.Validate.close_direction
    eggreplay.WebSocket.Validate.payload_len eggreplay.WebSocket.Validate.close_part
    eggreplay.WebSocket.Validate.check_message eggreplay.WebSocket.Validate.check_messages
    eggreplay.WebSocket.Validate.check_terminal eggreplay.WebSocket.Validate.check_conversation
    eggreplay.WebSocket.Validate.check_conversations eggreplay.WebSocket.Validate.validate
    eggreplay.WebSocket.Types.is_close eggreplay.WebSocket.Types.is_control
    eggreplay.WebSocket.Types.is_text eggreplay.Scenario.Validate.for_each
    eggreplay.Scenario.Validate.is_token_byte
transcript_accepted = refl

validate-IsTranscript_example : IsTranscript default_limits transcript
validate-IsTranscript_example = validate-IsTranscript transcript default_limits transcript_accepted
