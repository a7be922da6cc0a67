-- ===== src/Tests/Scenario.antt =====
-- The theorems on scenarios at concrete inputs.
use eggreplay.Scenario.Extracted.{IsClear}
use eggreplay.Security.Redact.{default_secure}
use eggreplay.Scenario.Rendering.{Renders, render_loop-ne-none, render-Renders}
use eggreplay.Scenario.Render.{render_loop, render}
use eggreplay.Scenario.Invariant.{
  IsRuntime, runtime_with_redaction-IsRuntime, advance-IsRuntime, Advanced, advance-IsClear,
  advance-Advanced,
}
use eggreplay.Scenario.Runtime.{is_enabled, runtime_with_redaction, advance}
use eggreplay.Scenario.WellFormed.{IsRules, validate-IsRules}
use eggreplay.Bytes.{Bytes, codes}
use eggreplay.Prelude.{
  All, [], contains, false, find, length, list_beq, none, ok, option_beq, pair_beq, refl, some, suc,
  ◌∷◌, ◌≡◌, ◌≢◌, ◌≤◌, nat_eq, list_eq, option_eq, pair_eq,
}
use eggreplay.Tests.Fixtures.{crates, users}
use eggreplay.Scenario.Types.{
  Scenario, RequestPredicate, path_segment, abort, ScenarioStep, ScenarioRuntime, ScenarioRules,
  ScenarioTransition, rules_schema_version, max_template_bytes,
}
use eggreplay.Scenario.Validate.{validate}
use eggreplay.BTree.{BTreeMap}

abbrev login : ScenarioTransition
login = record {
  from = codes "start";
  when = RequestPredicate.path (codes "/users") ∷ [];
  extract = record { name = codes "kind"; source = path_segment 0 } ∷ [];
  extraction_failure = abort;
  response = record {
    status = 200;
    headers = [];
    body_template = codes "all {{kind}}";
    json_pointer_replacements = [];
    fault = none;
  };
  next_state = codes "done";
}

abbrev scenario : Scenario
scenario = record {
  id = codes "s";
  initial_state = codes "start";
  states = codes "start" ∷ codes "done" ∷ [];
  transitions = login ∷ [];
}

abbrev rules : ScenarioRules
rules = record { schema_version = rules_schema_version; scenarios = scenario ∷ [] }

rules_accepted : validate rules ≡ ok tt
unfolding eggreplay.Prelude.list_beq eggreplay.Prelude.pair_beq eggreplay.Prelude.option_beq
    eggreplay.Prelude.contains eggreplay.BTree.compare_bytes eggreplay.BTree.get
    eggreplay.BTree.insert eggreplay.BTree.contains eggreplay.BTree.add eggreplay.BTree.extend
    eggreplay.Bytes.to_lower eggreplay.Bytes.lowercase eggreplay.Bytes.strip_prefix
    eggreplay.Bytes.trim eggreplay.Bytes.starts_with_byte eggreplay.Bytes.contains_byte
    eggreplay.Bytes.eq_ignore_case eggreplay.Scenario.Validate.for_each
    eggreplay.Scenario.Validate.validate_fault eggreplay.Scenario.Validate.validate_name
    eggreplay.Scenario.Validate.is_token_byte eggreplay.Scenario.Validate.validate_transition
    eggreplay.Scenario.Validate.validate_states eggreplay.Scenario.Validate.validate_references
    eggreplay.Scenario.Validate.validate_scenario eggreplay.Scenario.Validate.validate_scenarios
    eggreplay.Scenario.Validate.validate
rules_accepted = refl

validate-IsRules_example : IsRules rules
validate-IsRules_example = validate-IsRules rules rules_accepted

abbrev at_start : ScenarioRuntime
at_start = record {
  scenario = scenario;
  state = codes "start";
  variables = [];
  redaction = default_secure;
}

runtime_built : runtime_with_redaction rules (codes "s") default_secure ≡ ok at_start
unfolding eggreplay.Scenario.Runtime.runtime_with_redaction eggreplay.Prelude.list_beq
    eggreplay.Prelude.pair_beq eggreplay.Prelude.option_beq eggreplay.Prelude.contains
    eggreplay.BTree.compare_bytes eggreplay.BTree.get eggreplay.BTree.insert
    eggreplay.BTree.contains eggreplay.BTree.add eggreplay.BTree.extend eggreplay.Bytes.to_lower
    eggreplay.Bytes.lowercase eggreplay.Bytes.strip_prefix eggreplay.Bytes.trim
    eggreplay.Bytes.starts_with_byte eggreplay.Bytes.contains_byte eggreplay.Bytes.eq_ignore_case
    eggreplay.Scenario.Validate.for_each eggreplay.Scenario.Validate.validate_fault
    eggreplay.Scenario.Validate.validate_name eggreplay.Scenario.Validate.is_token_byte
    eggreplay.Scenario.Validate.validate_transition eggreplay.Scenario.Validate.validate_states
    eggreplay.Scenario.Validate.validate_references eggreplay.Scenario.Validate.validate_scenario
    eggreplay.Scenario.Validate.validate_scenarios eggreplay.Scenario.Validate.validate
runtime_built = refl

advance-Advanced_example :
    let r = advance crates at_start users [] in Advanced crates at_start users [] r.0 r.1
advance-Advanced_example = advance-Advanced crates at_start users []

advance-IsRuntime_example : IsRuntime (advance crates at_start users []).1
advance-IsRuntime_example =
    advance-IsRuntime crates at_start users []
      (runtime_with_redaction-IsRuntime rules (codes "s") default_secure runtime_built).0

abbrev step : ScenarioStep
step = record {
  scenario_id = codes "s";
  previous_state = codes "start";
  next_state = codes "done";
  response = record { status = 200; headers = []; body = codes "all users"; fault = none };
}

abbrev at_done : ScenarioRuntime
at_done = record at_start { state = codes "done"; variables = (codes "kind", codes "users") ∷ [] }

advanced : advance crates at_start users [] ≡ (ok (some step), at_done)
unfolding eggreplay.Prelude.list_beq eggreplay.Prelude.pair_beq eggreplay.Prelude.option_beq
    eggreplay.Prelude.contains eggreplay.BTree.compare_bytes eggreplay.BTree.get
    eggreplay.BTree.insert eggreplay.BTree.contains eggreplay.BTree.add eggreplay.BTree.extend
    eggreplay.Bytes.to_lower eggreplay.Bytes.lowercase eggreplay.Bytes.strip_prefix
    eggreplay.Bytes.trim eggreplay.Bytes.starts_with_byte eggreplay.Bytes.contains_byte
    eggreplay.Bytes.eq_ignore_case eggreplay.Scenario.Render.split_at_double
    eggreplay.Scenario.Render.substitution eggreplay.Scenario.Render.go_on
    eggreplay.Scenario.Render.round eggreplay.Scenario.Render.render_loop
    eggreplay.Scenario.Render.render eggreplay.Scenario.Extract.matches
    eggreplay.Scenario.Extract.nth_segment eggreplay.Scenario.Extract.is_blocked
    eggreplay.Scenario.Extract.extract_value eggreplay.Scenario.Runtime.runtime_with_redaction
    eggreplay.Scenario.Runtime.is_enabled eggreplay.Scenario.Runtime.on_failure
    eggreplay.Scenario.Runtime.parse_body eggreplay.Scenario.Runtime.extract_one
    eggreplay.Scenario.Runtime.extract_all eggreplay.Scenario.Runtime.render_body
    eggreplay.Scenario.Runtime.render_headers eggreplay.Scenario.Runtime.render_response
    eggreplay.Scenario.Runtime.commit eggreplay.Scenario.Runtime.answer
    eggreplay.Scenario.Runtime.respond eggreplay.Scenario.Runtime.extract_and_respond
    eggreplay.Scenario.Runtime.take_transition eggreplay.Scenario.Runtime.advance
    eggreplay.Security.Redact.default_secure eggreplay.Scenario.Validate.validate_name
advanced = refl

advance-IsClear_example :
    (t : ScenarioTransition) × (find (is_enabled (codes "start") users) (login ∷ []) ≡ some t)
    × All (λ e. IsClear default_secure e.source) t.extract
advance-IsClear_example = advance-IsClear crates at_start users [] step at_done advanced

abbrev kinds : BTreeMap Bytes
kinds = (codes "kind", codes "users") ∷ []

render_loop-ne-none_example :
    render_loop (suc (length (codes "all {{kind}}"))) kinds [] (codes "all {{kind}}") ≢ none
render_loop-ne-none_example = render_loop-ne-none kinds (codes "all {{kind}}")

rendered : render (codes "all {{kind}}") kinds ≡ ok (codes "all users")
unfolding eggreplay.Prelude.list_beq eggreplay.Prelude.pair_beq eggreplay.Prelude.option_beq
    eggreplay.Prelude.contains eggreplay.BTree.compare_bytes eggreplay.BTree.get
    eggreplay.BTree.insert eggreplay.BTree.contains eggreplay.BTree.add eggreplay.BTree.extend
    eggreplay.Bytes.to_lower eggreplay.Bytes.lowercase eggreplay.Bytes.strip_prefix
    eggreplay.Bytes.trim eggreplay.Bytes.starts_with_byte eggreplay.Bytes.contains_byte
    eggreplay.Bytes.eq_ignore_case eggreplay.Scenario.Render.split_at_double
    eggreplay.Scenario.Render.substitution eggreplay.Scenario.Render.go_on
    eggreplay.Scenario.Render.round eggreplay.Scenario.Render.render_loop
    eggreplay.Scenario.Render.render eggreplay.Scenario.Validate.validate_name
rendered = refl

render-Renders_example :
    Renders kinds (codes "all {{kind}}") (codes "all users")
    × (length (codes "all users") ≤ max_template_bytes)
    × (length (codes "all {{kind}}") ≤ max_template_bytes)
render-Renders_example = render-Renders (codes "all {{kind}}") kinds rendered
