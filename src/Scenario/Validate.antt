-- ===== src/Scenario/Validate.antt =====
-- `ScenarioRules::validate`, `validate_transition`, `validate_name` and `ScenarioFault::validate`.
use Prim.Native.String.{String}
use eggreplay.Prelude.{
  Bool, List, Message, Option, Result, [], about_number, all, any, is_empty, length, ltb, none, not,
  ok, reject_if, some, text, ℕ, ◌&&◌, ◌==◌, ◌>>◌, ◌||◌, ◌∷◌, nat_eq, list_eq, option_eq, pair_eq,
  ◌>>=◌,
}
use eggreplay.BTree
use eggreplay.BTree.{BTreeSet}
use eggreplay.Bytes.{Bytes, codes, is_alphanumeric, starts_with_byte}
use eggreplay.Flow.{HeaderEntry, is_status}
use eggreplay.Scenario.Types.{
  RequestPredicate, VariableSource, path_segment, from_query, from_header, json_pointer,
  prior_variable, VariableExtraction, ScenarioFault, response_head_delay, body_chunk_delay,
  JsonPointerReplacement, ScenarioTransition, Scenario, ScenarioRules, max_scenarios, max_states,
  max_transitions, max_variables, max_name_bytes, max_template_bytes, max_value_bytes,
  rules_schema_version, max_fault_delay_ms, max_fault_chunk_bytes,
}

abbrev pub Check : Type 0
Check = Result (Unit {0}) Message

-- A loop whose body may return an error.
unfoldable pub for_each {ℓ} : {A : Type ℓ} → (A → Check) → List A → Check
for_each f [] = ok tt
for_each f (x ∷ xs) = let rest = for_each f xs in f x >> rest

-- `ScenarioFault::validate`
unfoldable pub validate_fault : ScenarioFault → Check
validate_fault (response_head_delay delay_ms) =
    reject_if (ltb max_fault_delay_ms delay_ms)
      (text "scenario fault delay exceeds configured limit")
validate_fault (body_chunk_delay delay_ms chunk_bytes) = do
  reject_if (ltb max_fault_delay_ms delay_ms) (text "scenario fault delay exceeds configured limit")
  reject_if (chunk_bytes == 0 || ltb max_fault_chunk_bytes chunk_bytes)
      (text "scenario fault chunk size exceeds configured bounds")
validate_fault _ = ok tt

abbrev pub is_name_byte : ℕ → Bool
is_name_byte c = is_alphanumeric c || c == b'_' || c == b'-' || c == b'.'

-- The text of the error names the label.
unfoldable pub validate_name : Bytes → String → Check
validate_name value label =
    reject_if (is_empty value || ltb max_name_bytes (length value) || not (all is_name_byte value))
      (text label)

-- `b"!#$%&'*+-.^_`|~"` and the letters and digits.
unfoldable pub is_token_byte : ℕ → Bool
is_token_byte c = is_alphanumeric c || any (λ d. d == c) (codes "!#$%&'*+-.^_`|~")

abbrev pub is_bad_value_byte : ℕ → Bool
is_bad_value_byte c = c == b'\r' || c == b'\n' || (ltb c b' ' && not (c == b'\t'))

unfoldable pub validate_header : HeaderEntry → Check
validate_header h = do
  reject_if (ltb 256 (length h.name) || ltb max_value_bytes (length h.value))
      (text "scenario response header exceeds configured limit")
  reject_if (is_empty h.name || not (all is_token_byte h.name) || any is_bad_value_byte h.value)
      (text "scenario response header is malformed")

-- `pointer.len() > MAX_NAME_BYTES || (!pointer.is_empty() && !pointer.starts_with('/'))`
abbrev pub is_bad_pointer : Bytes → Bool
is_bad_pointer pointer =
    ltb max_name_bytes (length pointer)
    || (not (is_empty pointer) && not (starts_with_byte b'/' pointer))

unfoldable pub validate_replacement : JsonPointerReplacement → Check
validate_replacement r =
    reject_if (is_bad_pointer r.pointer || ltb max_template_bytes (length r.value_template))
      (text "invalid or oversized scenario JSON transform")

unfoldable pub validate_source : VariableSource → Check
validate_source (from_query key) = validate_name key "extraction key"
validate_source (from_header name) = validate_name name "extraction key"
validate_source (json_pointer pointer) =
    reject_if (is_bad_pointer pointer) (text "invalid JSON Pointer")
validate_source (prior_variable name) = validate_name name "prior variable"
validate_source (path_segment index) =
    reject_if (ltb 1024 index) (text "path segment index exceeds configured limit")

-- The loop over the extractions, with the names seen.
unfoldable pub validate_extractions : BTreeSet → List VariableExtraction → Check
unfolding validate_source
validate_extractions names [] = ok tt
validate_extractions names (e ∷ es) =
    let rest = validate_extractions (BTree.add e.name names) es in
    do
      validate_name e.name "variable name"
      reject_if (BTree.contains names e.name) (text "duplicate variable extraction name")
      validate_source e.source
      rest

abbrev pub check_value : Bytes → String → Check
check_value value label = reject_if (ltb max_value_bytes (length value)) (text label)

unfoldable pub validate_predicate : RequestPredicate → Check
validate_predicate (RequestPredicate.method value) = check_value value "method predicate too long"
validate_predicate (RequestPredicate.path value) = check_value value "path predicate too long"
validate_predicate (RequestPredicate.query key value) = do
  check_value key "query key predicate too long"
  check_value value "query value predicate too long"
validate_predicate (RequestPredicate.header name value) = do
  check_value name "header name predicate too long"
  check_value value "header value predicate too long"

unfoldable pub validate_optional_fault : Option ScenarioFault → Check
validate_optional_fault none = ok tt
validate_optional_fault (some fault) = validate_fault fault

unfoldable pub validate_transition : ScenarioTransition → Check
unfolding validate_replacement validate_optional_fault validate_header validate_extractions
    validate_predicate
validate_transition t = do
  reject_if (ltb max_variables (length t.extract))
      (text "transition variable count exceeds configured limit")
  reject_if (ltb max_template_bytes (length t.response.body_template))
      (text "scenario template exceeds configured limit")
  reject_if (ltb 32 (length t.response.json_pointer_replacements))
      (text "scenario JSON transform count exceeds configured limit")
  for_each validate_replacement t.response.json_pointer_replacements
  reject_if (not (is_status t.response.status)) (text "scenario response status is invalid")
  validate_optional_fault t.response.fault
  for_each validate_header t.response.headers
  validate_extractions [] t.extract
  for_each validate_predicate t.when

-- The loop over the states: the set of them, if they are well named and distinct.
unfoldable pub validate_states : BTreeSet → List Bytes → Result BTreeSet Message
validate_states seen [] = ok seen
validate_states seen (s ∷ ss) =
    let rest = validate_states (BTree.add s seen) ss in
    do
      validate_name s "state name"
      reject_if (BTree.contains seen s) (text "duplicate scenario state")
      rest

unfoldable pub validate_references : BTreeSet → ScenarioTransition → Check
validate_references states t = do
  reject_if (not (BTree.contains states t.from) || not (BTree.contains states t.next_state))
      (text "transition references an undeclared state")
  validate_transition t

-- The body of the loop over the scenarios, past the test of the id.
unfoldable pub validate_scenario : Scenario → Check
unfolding validate_states validate_references
validate_scenario s = do
  reject_if (is_empty s.states || ltb max_states (length s.states))
      (text "scenario state count exceeds configured bounds")
  states ← validate_states [] s.states
  reject_if (not (BTree.contains states s.initial_state)) (text "initial state is not declared")
  reject_if (ltb max_transitions (length s.transitions))
      (text "scenario transition count exceeds configured limit")
  for_each (validate_references states) s.transitions

unfoldable pub validate_scenarios : BTreeSet → List Scenario → Check
validate_scenarios ids [] = ok tt
validate_scenarios ids (s ∷ ss) =
    let rest = validate_scenarios (BTree.add s.id ids) ss in
    do
      validate_name s.id "scenario id"
      reject_if (BTree.contains ids s.id) (text "duplicate scenario id")
      validate_scenario s
      rest

-- `ScenarioRules::validate`
unfoldable pub validate : ScenarioRules → Check
validate rules = do
  reject_if (not (rules.schema_version == rules_schema_version))
      (about_number "unsupported rules schema" rules.schema_version)
  reject_if (ltb max_scenarios (length rules.scenarios))
      (text "scenario count exceeds configured limit")
  validate_scenarios [] rules.scenarios
