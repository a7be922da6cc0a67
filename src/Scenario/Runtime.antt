-- ===== src/Scenario/Runtime.antt =====
-- `ScenarioRules::runtime_with_redaction` and `ScenarioRuntime::advance`.
use eggreplay.Prelude.{
  Bool, List, Message, Option, Result, [], about_text, all, any, err, false, find, if◌then◌else◌,
  is_empty, length, ltb, none, not, ok, ok_or, reject_if, some, text, true, ◌&&◌, ◌+◌, ◌==◌, ◌∷◌,
  nat_eq, list_eq, option_eq, pair_eq, ◌>>◌, ◌>>=◌,
}
use eggreplay.BTree
use eggreplay.BTree.{BTreeMap}
use eggreplay.Bytes.{Bytes}
use eggreplay.External.{External}
use eggreplay.Flow.{HeaderEntry, HttpRequest, is_status}
use eggreplay.Scenario.Extract.{matches, extract_value}
use eggreplay.Scenario.Render.{render}
use eggreplay.Scenario.Types.{
  ExtractionFailureBehavior, abort, skip, VariableSource, json_pointer, VariableExtraction,
  JsonPointerReplacement, ScenarioResponse, ScenarioTransition, ScenarioRules,
  RenderedScenarioResponse, ScenarioStep, ScenarioRuntime, max_variables, max_json_bytes,
  max_value_bytes, max_template_bytes,
}
use eggreplay.Scenario.Validate.{validate}
use eggreplay.Security.Redact.{RedactionConfig}

-- `ScenarioRules::runtime_with_redaction`
unfoldable pub runtime_with_redaction :
    ScenarioRules → Bytes → RedactionConfig → Result ScenarioRuntime Message
runtime_with_redaction rules scenario_id redaction = do
  validate rules
  scenario ←
      ok_or (find (λ s. s.id == scenario_id) rules.scenarios)
        (about_text "scenario was not found" scenario_id)
  ok (record {
    scenario = scenario;
    state = scenario.initial_state;
    variables = [];
    redaction = redaction;
  })

-- Whether a transition leaves the state and matches the request.
unfoldable pub is_enabled : Bytes → HttpRequest → ScenarioTransition → Bool
is_enabled state request t = t.from == state && all (matches request) t.when

is_json_source : VariableSource → Bool
is_json_source (json_pointer p) = true
is_json_source _ = false

-- How extraction ends short of its variables: by an error, or because the transition is skipped.
pub data Stop : Type 0 where
  failed : Message → Stop
  skipped : Stop

unfoldable pub on_failure : ExtractionFailureBehavior → Message → Stop
on_failure abort e = failed e
on_failure skip e = skipped

module _ (ext : External) where
  open ext use {Value, from_slice, to_text, modify, of_string}

  unfoldable pub parse_body : List VariableExtraction → Bytes → Result (Option Value) Message
  unfolding is_json_source
  parse_body extractions body =
      if any (λ item. is_json_source item.source) extractions
      then (do
        reject_if (ltb max_json_bytes (length body))
            (text "JSON extraction body exceeds configured limit")
        value ← ok_or (from_slice body) (text "JSON extraction body is invalid")
        ok (some value))
      else ok none

  module _ (request : HttpRequest) (json : Option Value) (redaction : RedactionConfig)
      (behavior : ExtractionFailureBehavior) where
    -- One extraction, with the failure behaviour of its transition.
    unfoldable pub extract_one : VariableExtraction → BTreeMap Bytes → Result (BTreeMap Bytes) Stop
    extract_one e variables = elim (extract_value ext e request json variables redaction) [
      | err message ↦ err (on_failure behavior message)
      | ok value ↦
          if ltb max_value_bytes (length value)
          then err (failed (text "scenario variable value exceeds configured limit"))
          else ok (BTree.insert e.name value variables)
    ]

    unfoldable pub extract_all :
        List VariableExtraction → BTreeMap Bytes → Result (BTreeMap Bytes) Stop
    unfolding extract_one
    extract_all [] variables = ok variables
    extract_all (e ∷ es) variables = do next ← extract_one e variables; extract_all es next

  -- The loop over the replacements.
  replace_all : List JsonPointerReplacement → BTreeMap Bytes → Value → Result Value Message
  replace_all [] variables value = ok value
  replace_all (r ∷ rs) variables value = elim (modify value r.pointer (λ target. target)) [
    | none ↦ err (text "scenario JSON Pointer target was not found")
    | some found ↦ elim (render r.value_template variables) [
      | err e ↦ err e
      | ok rendered ↦ elim (modify value r.pointer (λ target. of_string rendered)) [
        | none ↦ err (text "scenario JSON Pointer target was not found")
        | some next ↦ replace_all rs variables next
      ]
    ]
  ]

  -- The rendered body, with the JSON replacements made.
  unfoldable pub render_body : ScenarioResponse → BTreeMap Bytes → Result Bytes Message
  unfolding replace_all
  render_body r variables = do
    body ← render r.body_template variables
    if is_empty r.json_pointer_replacements then ok body else (do
      value ← ok_or (from_slice body) (text "scenario JSON transform body is invalid JSON")
      replaced ← replace_all r.json_pointer_replacements variables value
      reject_if (ltb max_template_bytes (length (to_text replaced)))
          (text "rendered scenario JSON exceeds configured limit")
      ok (to_text replaced))

  unfoldable pub render_headers :
      List HeaderEntry → BTreeMap Bytes → Result (List HeaderEntry) Message
  render_headers [] variables = ok []
  render_headers (h ∷ hs) variables = do
    value ← render h.value variables
    rest ← render_headers hs variables
    ok (record h { value = value } ∷ rest)

  -- What follows a successful extraction: the rendered response.
  unfoldable pub render_response :
      ScenarioResponse → BTreeMap Bytes → Result RenderedScenarioResponse Message
  unfolding render_body render_headers
  render_response r variables = do
    body ← render_body r variables
    reject_if (not (is_status r.status)) (text "scenario response status is invalid")
    headers ← render_headers r.headers variables
    ok (record { status = r.status; headers = headers; body = body; fault = r.fault })

  -- The answer of `advance`, and the runtime that it leaves.
  abbrev pub Advance : Type 0
  Advance = Result (Option ScenarioStep) Message × ScenarioRuntime

  unfoldable pub commit :
      ScenarioRuntime → ScenarioTransition → BTreeMap Bytes → RenderedScenarioResponse → Advance
  commit rt t variables response = (
    ok (
        some (record {
          scenario_id = rt.scenario.id;
          previous_state = rt.state;
          next_state = t.next_state;
          response = response;
        })),
    record rt { state = t.next_state; variables = variables },
  )

  unfoldable pub answer :
      ScenarioRuntime
      → ScenarioTransition
      → BTreeMap Bytes
      → Result RenderedScenarioResponse Message
      → Advance
  unfolding commit
  answer rt t variables (err e) = (err e, rt)
  answer rt t variables (ok response) = commit rt t variables response

  unfoldable pub respond :
      ScenarioRuntime → ScenarioTransition → Result (BTreeMap Bytes) Stop → Advance
  unfolding answer
  respond rt t (err (failed e)) = (err e, rt)
  respond rt t (err skipped) = (ok none, rt)
  respond rt t (ok variables) = answer rt t variables (render_response t.response variables)

  unfoldable pub extract_and_respond :
      ScenarioRuntime → HttpRequest → ScenarioTransition → Result (Option Value) Message → Advance
  unfolding respond
  extract_and_respond rt request t (err e) = (err e, rt)
  extract_and_respond rt request t (ok json) =
      respond rt t
        (extract_all request json rt.redaction t.extraction_failure t.extract rt.variables)

  unfoldable pub take_transition :
      ScenarioRuntime → HttpRequest → Bytes → Option ScenarioTransition → Advance
  unfolding extract_and_respond
  take_transition rt request body none = (ok none, rt)
  take_transition rt request body (some t) =
      if ltb max_variables (length t.extract + length rt.variables)
      then (err (text "scenario variable count exceeds configured limit"), rt)
      else extract_and_respond rt request t (parse_body t.extract body)

  -- `ScenarioRuntime::advance`
  unfoldable pub advance : ScenarioRuntime → HttpRequest → Bytes → Advance
  unfolding take_transition
  advance rt request body =
      take_transition rt request body (find (is_enabled rt.state request) rt.scenario.transitions)
