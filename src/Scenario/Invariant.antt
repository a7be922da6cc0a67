-- ===== src/Scenario/Invariant.antt =====
-- What every step of a scenario keeps: proofs about `ScenarioRuntime::advance`.
use eggreplay.Prelude.{
  All, Bool-cases, Option, Result, [], arith, contains, find, inl, inr, length, ok, some, true, ◌+◌,
  ◌≡◌, ◌≤◌, nat_eq, list_eq, option_eq, pair_eq, Message, err, none, Option-cases, ltb, ltb→le,
  refl, ==_iff, ◌==◌,
}
use eggreplay.BTree.{BTreeMap}
use eggreplay.Bytes.{Bytes}
use eggreplay.External.{External}
use eggreplay.Flow.{HttpRequest}
use eggreplay.Scenario.Runtime.{
  runtime_with_redaction, is_enabled, Stop, parse_body, extract_all, render_response, commit,
  take_transition, advance, respond, extract_and_respond, answer,
}
use eggreplay.Scenario.Types.{
  ScenarioTransition, ScenarioRules, ScenarioStep, ScenarioRuntime, max_variables,
  RenderedScenarioResponse,
}
use eggreplay.Scenario.Validate.{validate}
use eggreplay.Scenario.WellFormed.{IsTransition, IsScenario, validate-IsRules}
use eggreplay.Security.Redact.{RedactionConfig}
use eggreplay.Scenario.Extracted.{SmallValues, find-All, extract_all_lem, IsClear}

-- The runtime stands in a declared state of a validated scenario, with bounded variables.
pub record IsRuntime (rt : ScenarioRuntime) : Type 0 where
  pub scenario_valid : IsScenario rt.scenario
  pub state_declared : contains rt.scenario.states rt.state ≡ true
  pub variable_count : length rt.variables ≤ max_variables
  pub values_small : SmallValues rt.variables

-- A step that was taken: by the first transition that leaves the state and whose predicates all match,
-- from the extraction to the response.
pub record Taken (ext : External) (rt : ScenarioRuntime) (request : HttpRequest) (body : Bytes)
    (step : ScenarioStep) (after : ScenarioRuntime) : Type 0 where
  pub transition : ScenarioTransition
  pub first_enabled : find (is_enabled rt.state request) rt.scenario.transitions ≡ some transition
  pub room : length transition.extract + length rt.variables ≤ max_variables
  pub json : Option ext.Value
  pub parsed : parse_body ext transition.extract body ≡ ok json
  pub variables_extracted :
      extract_all ext request json rt.redaction transition.extraction_failure transition.extract
        rt.variables
      ≡ ok after.variables
  pub response_rendered : render_response ext transition.response after.variables ≡ ok step.response
  pub left : step.previous_state ≡ rt.state
  pub entered : (step.next_state ≡ transition.next_state) × (after.state ≡ transition.next_state)
  pub kept : (after.scenario ≡ rt.scenario) × (after.redaction ≡ rt.redaction)
  pub named : step.scenario_id ≡ rt.scenario.id

-- The three ways in which a request ends.
abbrev pub Advanced :
    (ext : External)
    → ScenarioRuntime
    → HttpRequest
    → Bytes
    → Result (Option ScenarioStep) Message
    → ScenarioRuntime
    → Type 0
Advanced ext rt request body (err e) after = after ≡ rt
Advanced ext rt request body (ok none) after = after ≡ rt
Advanced ext rt request body (ok (some step)) after = Taken ext rt request body step after

module _ (ext : External) (rt : ScenarioRuntime) (request : HttpRequest) (body : Bytes) where
  abbrev Answered : Result (Option ScenarioStep) Message × ScenarioRuntime → Type 0
  Answered r = Advanced ext rt request body r.0 r.1

  module _ (t : ScenarioTransition)
      (first : find (is_enabled rt.state request) rt.scenario.transitions ≡ some t) where
    extraction : Option ext.Value → Result (BTreeMap Bytes) Stop
    extraction json =
        extract_all ext request json rt.redaction t.extraction_failure t.extract rt.variables

    respond-Advanced :
        (json : Option ext.Value)
        → length t.extract + length rt.variables ≤ max_variables
        → parse_body ext t.extract body ≡ ok json
        → (r : Result (BTreeMap Bytes) Stop) → extraction json ≡ r
        → Answered (respond ext rt t r)
    unfolding respond extraction commit
    respond-Advanced json room parsed (err (Stop.failed e)) x = refl
    respond-Advanced json room parsed (err Stop.skipped) x = refl
    respond-Advanced json room parsed (ok variables) x =
        answer-Advanced (render_response ext t.response variables) refl
      where
        answer-Advanced :
            (r : Result RenderedScenarioResponse Message)
            → render_response ext t.response variables ≡ r
            → Answered (answer ext rt t variables r)
        answer-Advanced (err e) rendered = refl
        answer-Advanced (ok response) rendered = record {
          transition = t;
          first_enabled = first;
          room = room;
          json = json;
          parsed = parsed;
          variables_extracted = x;
          response_rendered = rendered;
          left = refl;
          entered = (refl, refl);
          kept = (refl, refl);
          named = refl;
        }

    extract_and_respond-Advanced :
        (p : Result (Option ext.Value) Message)
        → length t.extract + length rt.variables ≤ max_variables
        → parse_body ext t.extract body ≡ p
        → Answered (extract_and_respond ext rt request t p)
    unfolding extract_and_respond extraction
    extract_and_respond-Advanced (err e) room parsed = refl
    extract_and_respond-Advanced (ok json) room parsed =
        respond-Advanced json room parsed (extraction json) refl

  take_transition-Advanced :
      (t : Option ScenarioTransition)
      → find (is_enabled rt.state request) rt.scenario.transitions ≡ t
      → Answered (take_transition ext rt request body t)
  unfolding take_transition
  take_transition-Advanced none first = refl
  take_transition-Advanced (some t) first =
      elim (Bool-cases (ltb max_variables (length t.extract + length rt.variables))) [
        | inl full ↦ rw full refl
        | inr room ↦ rw room (
            extract_and_respond-Advanced t first (parse_body ext t.extract body) (ltb→le _ _ room)
              refl)
      ]

  -- A request is answered by a step through the first enabled transition, with all of its extractions
  -- made and its response rendered, or else, by an error or with no answer, and then nothing of the
  -- scenario has changed.
  pub advance-Advanced : Answered (advance ext rt request body)
  unfolding advance
  advance-Advanced =
      take_transition-Advanced (find (is_enabled rt.state request) rt.scenario.transitions) refl

  -- Every step keeps the runtime in a declared state with bounded variables.
  Advanced-IsRuntime :
      (r : Result (Option ScenarioStep) Message) (after : ScenarioRuntime)
      → IsRuntime rt
      → Advanced ext rt request body r after
      → IsRuntime after
  Advanced-IsRuntime (err e) after v h = rw h v
  Advanced-IsRuntime (ok none) after v h = rw h v
  Advanced-IsRuntime (ok (some step)) after v h =
      let t = h.transition in
      let declared : IsTransition rt.scenario.states t =
        (find-All (IsTransition rt.scenario.states) (is_enabled rt.state request)
          rt.scenario.transitions t v.scenario_valid.transitions_valid h.first_enabled).0 in
      let (grown, small, clear) =
        extract_all_lem ext request h.json rt.redaction t.extraction_failure t.extract rt.variables
          after.variables h.variables_extracted in
      record {
        scenario_valid = rw h.kept.0 v.scenario_valid;
        state_declared = rw (h.kept.0, h.entered.1) declared.next_declared;
        variable_count = omega (arith, h.room);
        values_small = small v.values_small;
      }

  -- From a runtime that stands in a declared state of a validated scenario, with at most 64 variables
  -- of at most 4096 bytes, every request leaves such a runtime.
  pub advance-IsRuntime : IsRuntime rt → IsRuntime (advance ext rt request body).1
  advance-IsRuntime v = Advanced-IsRuntime _ _ v advance-Advanced

  -- A step that was taken, through the first enabled transition, took no variable from a query key, a
  -- header or a JSON pointer that the runtime's redaction policy lists, header names being compared in
  -- lower case.
  pub advance-IsClear :
      (step : ScenarioStep) (after : ScenarioRuntime)
      → advance ext rt request body ≡ (ok (some step), after)
      → (t : ScenarioTransition) × (find (is_enabled rt.state request) rt.scenario.transitions
          ≡ some t)
        × All (λ e. IsClear rt.redaction e.source) t.extract
  advance-IsClear step after e =
      let h : Taken ext rt request body step after = rw e at advance-Advanced in
      let t = h.transition in
      (
        t,
        h.first_enabled,
        (extract_all_lem ext request h.json rt.redaction t.extraction_failure t.extract rt.variables
            after.variables h.variables_extracted).2,
      )

pub runtime_with_redaction-IsRuntime :
    (rules : ScenarioRules) (scenario_id : Bytes) (redaction : RedactionConfig)
    {rt : ScenarioRuntime}
    → runtime_with_redaction rules scenario_id redaction ≡ ok rt
    → IsRuntime rt × (rt.scenario.id ≡ scenario_id) × (rt.state ≡ rt.scenario.initial_state)
unfolding runtime_with_redaction
runtime_with_redaction-IsRuntime rules scenario_id redaction {rt} e =
    elim (Option-cases (find (λ s. s.id == scenario_id) rules.scenarios)) [
      | inl missing ↦ absurd (ground arith)
      | inr (s, found) ↦
          let accepted : validate rules ≡ ok tt = ground arith in
          let built : rt ≡ record {
            scenario = s;
            state = s.initial_state;
            variables = [];
            redaction = redaction;
          } =
            ground arith in
          let (valid, named) =
            find-All IsScenario (λ k. k.id == scenario_id) rules.scenarios s
              (validate-IsRules rules accepted).scenarios_valid found in
          rw built (
            record {
              scenario_valid = valid;
              state_declared = valid.initial_declared;
              variable_count = omega arith;
              values_small = tt;
            },
            (==_iff s.id scenario_id).0 named,
            refl,
          )
    ]
