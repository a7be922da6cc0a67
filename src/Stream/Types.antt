-- ===== src/Stream/Types.antt =====
-- The events of a stream and their limits.
use eggreplay.Prelude.{List, ℕ}
use eggreplay.Bytes.{Bytes}
use eggreplay.Flow.{HeaderEntry}

abbrev pub stream_events_schema_version : ℕ
stream_events_schema_version = 1

abbrev pub max_stream_events_per_flow : ℕ
max_stream_events_per_flow = 4096

abbrev pub max_stream_events_per_session : ℕ
max_stream_events_per_session = 1000000

abbrev pub max_stream_delay_ns : ℕ
max_stream_delay_ns = 60000000000

abbrev pub max_stream_total_delay_ns : ℕ
max_stream_total_delay_ns = 300000000000

-- `StreamEventKind`: the offset and the length of data, the fields of trailers, the end, and an error
-- with its offset, category and phase.
pub data StreamEventKind : Type 0 where
  data_frame : ℕ → ℕ → StreamEventKind
  trailers_frame : List HeaderEntry → StreamEventKind
  end_of_stream : StreamEventKind
  stream_error : ℕ → Bytes → Bytes → StreamEventKind

pub record StreamEvent : Type 0 where
  pub delta_ns : ℕ
  pub event : StreamEventKind

pub record FlowStreamEvents : Type 0 where
  pub flow_id : Bytes
  pub start_offset_ns : ℕ
  pub request : List StreamEvent
  pub response : List StreamEvent

pub record StreamEvents : Type 0 where
  pub schema_version : ℕ
  pub flows : List FlowStreamEvents
