-- ===== src/Store/Events.antt =====
-- `append_stream_events` of both kinds of sessions.
use eggreplay.Prelude.{
  Bool, List, Option, Result, [], contains, false, if◌then◌else◌, is_empty, length, ltb, not, ok,
  ok_or, reject_if, saturating_add, text, true, ℕ, ◌*◌, ◌++◌, ◌-◌, ◌∷◌, nat_eq, list_eq, option_eq,
  pair_eq, ◌>>◌, ◌>>=◌,
}
use eggreplay.Bytes.{Bytes}
use eggreplay.Store.Types.{StoreError, invalid, as_store_error, json}
use eggreplay.Stream.Types.{
  FlowStreamEvents, StreamEvents, max_stream_events_per_session, stream_events_schema_version,
}
use eggreplay.Stream.Validate

abbrev pub max_stream_events_bytes : ℕ
max_stream_events_bytes = 16 * 1024 * 1024

-- `serde_json::to_vec` of the metadata of a flow and of a whole file.
pub record EventEncoding : Type 0 where
  pub flow_to_vec : FlowStreamEvents → Option Bytes
  pub events_to_vec : StreamEvents → Option Bytes

-- `stream_events`, `stream_event_ids`, `stream_event_records`, `stream_event_object_bytes`
pub record EventLog : Type 0 where
  pub flows : List FlowStreamEvents
  pub ids : List Bytes
  pub records : ℕ
  pub object_bytes : ℕ

abbrev pub no_events : EventLog
no_events = record { flows = []; ids = []; records = 0; object_bytes = 0 }

abbrev pub stream_events_of : List FlowStreamEvents → StreamEvents
stream_events_of flows = record { schema_version = stream_events_schema_version; flows = flows }

module _ (encoding : EventEncoding) where
  open encoding use {flow_to_vec, events_to_vec}

  -- What both do with an event log that may take another flow: `has_room` is the test of the number of
  -- flows.
  unfoldable pub add_events : Bool → EventLog → FlowStreamEvents → Result EventLog StoreError
  add_events has_room log events =
      let records = saturating_add (length events.request) (length events.response) in
      let next_records = saturating_add log.records records in
      do
        as_store_error invalid (Validate.validate (stream_events_of (events ∷ [])))
        reject_if (contains log.ids events.flow_id)
            (invalid (text "duplicate stream event flow id"))
        reject_if (not has_room) (invalid (text "stream event flow count exceeds configured limit"))
        reject_if (ltb max_stream_events_per_session next_records)
            (invalid (text "aggregate stream event count exceeds configured limit"))
        encoded ← ok_or (flow_to_vec events) json
        base ← ok_or (events_to_vec (stream_events_of [])) json
        let next_object_bytes =
            saturating_add (saturating_add log.object_bytes (length encoded))
              (if is_empty log.flows then 0 else 1)
        reject_if (ltb max_stream_events_bytes (saturating_add (length base - 2) next_object_bytes))
            (invalid (text "stream event metadata exceeds configured limit"))
        ok (record {
          flows = log.flows ++ events ∷ [];
          ids = events.flow_id ∷ log.ids;
          records = next_records;
          object_bytes = next_object_bytes;
        })

  -- `SessionWriter::append_stream_events`
  unfoldable pub write_stream_events : EventLog → FlowStreamEvents → Result EventLog StoreError
  write_stream_events log events = add_events true log events

  -- `RecordingSession::append_stream_events`; the flag is looked at before and behind the lock.
  unfoldable pub append_stream_events :
      Bool → EventLog → FlowStreamEvents → Result EventLog StoreError
  append_stream_events shutdown log events = do
    reject_if shutdown (invalid (text "session is shutting down"))
    add_events (ltb (length log.flows) max_stream_events_per_session) log events

  unfoldable pub append_all : EventLog → List FlowStreamEvents → Result EventLog StoreError
  append_all log [] = ok log
  append_all log (e ∷ es) = do next ← append_stream_events false log e; append_all next es
