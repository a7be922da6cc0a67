-- ===== src/Scenario/Types.antt =====
-- The rules document and the limits on it.
use eggreplay.Prelude.{List, Option, ℕ, ◌*◌}
use eggreplay.BTree.{BTreeMap}
use eggreplay.Bytes.{Bytes}
use eggreplay.Error.{ErrorCategory, ErrorPhase}
use eggreplay.Flow.{HeaderEntry}
use eggreplay.Security.Redact.{RedactionConfig}

abbrev pub max_scenarios : ℕ
max_scenarios = 128

abbrev pub max_states : ℕ
max_states = 128

abbrev pub max_transitions : ℕ
max_transitions = 1024

abbrev pub max_variables : ℕ
max_variables = 64

abbrev pub max_name_bytes : ℕ
max_name_bytes = 128

abbrev pub max_template_bytes : ℕ
max_template_bytes = 16 * 1024

abbrev pub max_value_bytes : ℕ
max_value_bytes = 4096

abbrev pub max_json_bytes : ℕ
max_json_bytes = 1024 * 1024

abbrev pub rules_schema_version : ℕ
rules_schema_version = 1

abbrev pub max_fault_delay_ms : ℕ
max_fault_delay_ms = 30000

abbrev pub max_fault_chunk_bytes : ℕ
max_fault_chunk_bytes = 16 * 1024 * 1024

pub data ExtractionFailureBehavior : Type 0 where
  abort skip : ExtractionFailureBehavior

pub data RequestPredicate : Type 0 where
  method path : Bytes → RequestPredicate
  query header : Bytes → Bytes → RequestPredicate

pub data VariableSource : Type 0 where
  path_segment : ℕ → VariableSource
  from_query from_header json_pointer prior_variable : Bytes → VariableSource

pub record VariableExtraction : Type 0 where
  pub name : Bytes
  pub source : VariableSource

pub data ScenarioFault : Type 0 where
  response_head_delay : ℕ → ScenarioFault
  body_chunk_delay : ℕ → ℕ → ScenarioFault
  close_before_response : ScenarioFault
  close_after_bytes : ℕ → ScenarioFault
  transport_error : ErrorCategory → ErrorPhase → ScenarioFault

pub record JsonPointerReplacement : Type 0 where
  pub pointer : Bytes
  pub value_template : Bytes

pub record ScenarioResponse : Type 0 where
  pub status : ℕ
  pub headers : List HeaderEntry
  pub body_template : Bytes
  pub json_pointer_replacements : List JsonPointerReplacement
  pub fault : Option ScenarioFault

pub record ScenarioTransition : Type 0 where
  pub from : Bytes
  pub when : List RequestPredicate
  pub extract : List VariableExtraction
  pub extraction_failure : ExtractionFailureBehavior
  pub response : ScenarioResponse
  pub next_state : Bytes

pub record Scenario : Type 0 where
  pub id : Bytes
  pub initial_state : Bytes
  pub states : List Bytes
  pub transitions : List ScenarioTransition

pub record ScenarioRules : Type 0 where
  pub schema_version : ℕ
  pub scenarios : List Scenario

pub record RenderedScenarioResponse : Type 0 where
  pub status : ℕ
  pub headers : List HeaderEntry
  pub body : Bytes
  pub fault : Option ScenarioFault

pub record ScenarioStep : Type 0 where
  pub scenario_id : Bytes
  pub previous_state : Bytes
  pub next_state : Bytes
  pub response : RenderedScenarioResponse

pub record ScenarioRuntime : Type 0 where
  pub scenario : Scenario
  pub state : Bytes
  pub variables : BTreeMap Bytes
  pub redaction : RedactionConfig
