-- ===== src/Tests/Store.antt =====
-- The theorems on the store at concrete inputs.
use eggreplay.Store.Blobs.{BlobEntry, read_blob_from_root, contents, file}
use eggreplay.Store.Extensions.{
  write_extension_file, Directory, ExtensionReaders, ExtensionDescriptor, validate_extensions,
  check_contents, regular_file,
}
use eggreplay.Store.EventLogs.{validate-append_all}
use eggreplay.Store.Stored.{IsBlob, read_blob_from_root-IsBlob}
use eggreplay.Store.Extended.{write_extension_file-validate_extensions}
use eggreplay.Store.Conversed.{IsAccumulation, append_conversations-IsAccumulation}
use eggreplay.WebSocket.Types.{WebSocketConversation, client_to_server, ping, abnormal}
use eggreplay.Store.Conversations.{
  WebSocketAccumulation, ConversationEncoding, append_conversations, append_websocket_conversation,
  add_payloads, payload_size, is_same_conversation, no_conversations,
}
use eggreplay.Stream.Types.{FlowStreamEvents, data_frame, end_of_stream}
use eggreplay.Store.Events.{
  stream_events_of, EventEncoding, EventLog, append_all, append_stream_events, add_events,
  no_events,
}
use eggreplay.Store.Sequential.{ok_of, recorder_of, append_flow-write_flow}
use eggreplay.Prelude.{
  List, Option, [], false, map, none, ok, refl, some, true, ℕ, ◌∷◌, ◌≡◌, ◌>>◌, ◌>>=◌, ok_or,
  contains, nat_eq, list_eq, option_eq, pair_eq, list_beq, if◌then◌else◌, not, option_beq, arith,
  length, suc, ◌==◌, ◌↔◌,
}
use mathlib.Core.Option
use eggreplay.Stream.Validate as EventValidate
use eggreplay.Bytes.{Bytes, codes}
use eggreplay.Flow
use eggreplay.Flow.{Flow, BlobRef}
use eggreplay.Store.Recorded.{
  take_log-IsRecorded, Steps, appended, began, done, then_step, IsRecorded, stopped,
}
use eggreplay.Store.Recorder.{
  Recorder, Writer, prepare, count_blob, take_log, create, append_flow, shut_down, append_line,
  write_flow,
}
use eggreplay.Store.Types.{
  default_store_limits, migrate, as_store_error, validate_body_refs, validate_body_ref,
  response_body, flow_body_bytes, len_or_zero, validate_digest,
}
use eggreplay.Tests.Fixtures.{flow_of, users}

-- A flow's encoding is its id here.
abbrev flow_id : Flow → Option Bytes
flow_id f = some f.id

abbrev the_flow : Flow
the_flow = flow_of users

abbrev created_session : Recorder
created_session = record {
  limits = default_store_limits;
  flows = some [];
  flow_count = 0;
  total_bytes = 0;
  active_blobs = 0;
  shutdown = false;
}

-- A body is begun, the flow is appended after the session has been shut down.
abbrev logged : Recorder
logged = record {
  limits = default_store_limits;
  flows = some (codes "flow-1" ∷ []);
  flow_count = 1;
  total_bytes = 0;
  active_blobs = 1;
  shutdown = true;
}

created : create 1 default_store_limits ≡ ok created_session
unfolding create migrate
created = refl

prepared : prepare flow_id default_store_limits the_flow ≡ ok (codes "flow-1", 0)
unfolding prepare as_store_error Flow.validate validate_body_refs validate_body_ref response_body
    flow_body_bytes len_or_zero Flow.body_len eggreplay.Bytes.contains_byte
    eggreplay.Bytes.starts_with_byte
prepared = refl

logged-Steps : Steps flow_id created_session logged
unfolding count_blob shut_down append_line
logged-Steps =
    then_step (then_step (then_step done began) stopped)
      (appended the_flow (codes "flow-1", 0) prepared refl)

taken_log : take_log logged ≡ ok (record logged { flows = none }, (codes "flow-1" ∷ [], 1))
unfolding take_log
taken_log = refl

take_log-IsRecorded_example :
    IsRecorded flow_id default_store_limits (codes "flow-1" ∷ []) 1 0
    × ((◌≡◌ {A = Option (List Bytes)} none none) × (◌≡◌ {A = ℕ} 1 1))
take_log-IsRecorded_example =
    take_log-IsRecorded flow_id 1 default_store_limits created_session logged
      (record logged { flows = none }) (record logged { flows = none }) (codes "flow-1" ∷ []) 1
      created logged-Steps taken_log done

abbrev writer : Writer
writer = record { limits = default_store_limits; flows = []; flow_count = 0; total_bytes = 0 }

append_flow-write_flow_example :
    ok_of (append_flow flow_id (recorder_of writer) the_flow)
    ≡ Option.map recorder_of (ok_of (write_flow flow_id writer the_flow))
append_flow-write_flow_example = append_flow-write_flow flow_id writer the_flow

-- The metadata are taken to be as long as the flow's id, and the empty file to be two bytes.
abbrev event_encoding : EventEncoding
event_encoding = record {
  flow_to_vec = λ f. some f.flow_id;
  events_to_vec = λ s. some (codes "{}");
}

abbrev one_flow : FlowStreamEvents
one_flow = record {
  flow_id = codes "flow-1";
  start_offset_ns = 0;
  request = [];
  response =
      record { delta_ns = 1; event = data_frame 0 4 }
      ∷ record { delta_ns = 2; event = end_of_stream }
      ∷ [];
}

abbrev event_log : EventLog
event_log = record {
  flows = one_flow ∷ [];
  ids = codes "flow-1" ∷ [];
  records = 2;
  object_bytes = 6;
}

appended_events : append_all event_encoding no_events (one_flow ∷ []) ≡ ok event_log
unfolding append_all append_stream_events add_events as_store_error EventValidate.validate
    EventValidate.check_flows EventValidate.check_events EventValidate.check_event
    EventValidate.check_kind eggreplay.BTree.contains contains
appended_events = refl

validate-append_all_example : EventValidate.validate (stream_events_of (one_flow ∷ [])) ≡ ok tt
validate-append_all_example =
    validate-append_all event_encoding (one_flow ∷ []) event_log appended_events

abbrev conversation_encoding : ConversationEncoding
conversation_encoding = record {
  conversation_to_vec = λ c. some c.id;
  transcript_to_vec = λ t. some (codes "{}");
}

-- A ping without payload, and then the connection is lost.
abbrev conversation : WebSocketConversation
conversation = record {
  id = codes "c1";
  flow_id = codes "flow-1";
  offered_subprotocols = [];
  selected_subprotocol = none;
  messages =
      record {
        sequence = 0;
        direction = client_to_server;
        delta_ns = 4;
        kind = ping;
        payload = none;
        close_code = none;
        close_text = none;
        redactions = [];
      }
      ∷ [];
  terminal = abnormal (codes "eof");
}

abbrev accumulation : WebSocketAccumulation
accumulation = record {
  conversations = conversation ∷ [];
  messages = 1;
  payload_bytes = 0;
  encoded_bytes = 3;
}

appended_conversation :
    append_conversations conversation_encoding no_conversations (conversation ∷ [])
    ≡ ok accumulation
unfolding append_conversations append_websocket_conversation add_payloads payload_size
    is_same_conversation as_store_error eggreplay.WebSocket.Validate.validate
    eggreplay.WebSocket.Validate.check_conversations eggreplay.WebSocket.Validate.check_conversation
    contains eggreplay.WebSocket.Validate.check_messages eggreplay.WebSocket.Validate.check_message
    eggreplay.WebSocket.Validate.has_closed eggreplay.WebSocket.Validate.payload_len
    eggreplay.WebSocket.Types.is_control eggreplay.WebSocket.Types.is_close
    eggreplay.WebSocket.Validate.validate_redactions eggreplay.Scenario.Validate.for_each
    eggreplay.WebSocket.Validate.check_terminal eggreplay.Prelude.list_beq
appended_conversation = refl

append_conversations-IsAccumulation_example : IsAccumulation conversation_encoding accumulation
append_conversations-IsAccumulation_example =
    append_conversations-IsAccumulation conversation_encoding (conversation ∷ []) accumulation
      appended_conversation

abbrev extension_readers : ExtensionReaders
extension_readers = record {
  is_single = λ path. not (contains path b'/');
  file_name = λ path. if contains path b'/' then none else some path;
  read_rules = λ bytes. none;
  read_events = λ bytes. some (stream_events_of (one_flow ∷ []));
  read_transcript = λ bytes. none;
}

abbrev provenance : ExtensionDescriptor
provenance = record {
  name = codes "interop-provenance";
  schema_version = 1;
  path = codes "provenance.json";
  required_for_replay = false;
}

abbrev stream_events : ExtensionDescriptor
stream_events = record {
  name = codes "stream-events";
  schema_version = 1;
  path = codes "events.json";
  required_for_replay = true;
}

-- A root with the manifest and one extension, to which stream events are added.
abbrev one_extension : Directory
one_extension =
    (codes "provenance.json", regular_file (codes "{}"))
    ∷ (codes "manifest.json", regular_file (codes "{}"))
    ∷ []

abbrev two_extensions : Directory
two_extensions = (codes "events.json", regular_file (codes "{\"flows\":[]}")) ∷ one_extension

valid_extension : validate_extensions extension_readers one_extension (provenance ∷ []) ≡ ok tt
unfolding validate_extensions eggreplay.Store.Extensions.check_extensions
    eggreplay.Store.Types.validate_extension_name eggreplay.Store.Extensions.validate_extension_path
    contains eggreplay.Prelude.option_beq list_beq eggreplay.Bytes.starts_with_byte
    eggreplay.Store.Extensions.regular_at eggreplay.Store.Extensions.entry_at check_contents
valid_extension = refl

events_extension : check_contents extension_readers stream_events (codes "{\"flows\":[]}") ≡ ok tt
unfolding check_contents contains list_beq as_store_error EventValidate.validate
    EventValidate.check_flows eggreplay.BTree.contains EventValidate.check_events
    EventValidate.check_event EventValidate.check_kind
events_extension = refl

written_extension :
    write_extension_file extension_readers one_extension
      (provenance ∷ [])
      stream_events
      (codes "{\"flows\":[]}")
    ≡ ok (two_extensions, provenance ∷ stream_events ∷ [])
unfolding write_extension_file eggreplay.Store.Types.validate_extension_name
    eggreplay.Store.Extensions.validate_extension_path contains eggreplay.Prelude.option_beq
    list_beq eggreplay.Bytes.starts_with_byte eggreplay.Store.Extensions.current_total
    eggreplay.Store.Extensions.len_at eggreplay.Store.Extensions.entry_at
    eggreplay.Stream.Sse.is_some
written_extension = refl

write_extension_file-validate_extensions_example :
    (validate_extensions extension_readers two_extensions (provenance ∷ stream_events ∷ []) ≡ ok tt)
    ↔ (check_contents extension_readers stream_events (codes "{\"flows\":[]}") ≡ ok tt)
write_extension_file-validate_extensions_example =
    write_extension_file-validate_extensions extension_readers one_extension two_extensions
      (provenance ∷ []) (provenance ∷ stream_events ∷ []) stream_events (codes "{\"flows\":[]}")
      valid_extension written_extension

-- A digest of 64 characters, for the text `ok`, whose file is read in two parts.
abbrev zeros : Bytes
zeros = codes "0000000000000000000000000000000000000000000000000000000000000000"

abbrev ok_body : BlobRef
ok_body = record { sha256 = zeros; length = 2 }

abbrev digest_of : Bytes → Bytes
digest_of bytes = if bytes == codes "ok" then zeros else []

abbrev two_reads : Bytes → Option BlobEntry
two_reads name = if name == zeros then some (file (codes "o" ∷ codes "k" ∷ [])) else none

ok_body-IsBlob : IsBlob two_reads digest_of ok_body default_store_limits (codes "ok")
unfolding contents validate_digest list_beq eggreplay.Bytes.lowercase
ok_body-IsBlob = record {
  digest_valid = refl;
  within_limit = omega arith;
  stored = (codes "o" ∷ codes "k" ∷ [], (refl, refl));
  length_agrees = refl;
  digest_agrees = refl;
}

read_blob_from_root-IsBlob_example :
    (read_blob_from_root two_reads digest_of ok_body default_store_limits ≡ ok (codes "ok"))
    ↔ IsBlob two_reads digest_of ok_body default_store_limits (codes "ok")
read_blob_from_root-IsBlob_example =
    read_blob_from_root-IsBlob two_reads digest_of ok_body default_store_limits (codes "ok")
      (omega arith)
