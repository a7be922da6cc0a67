-- ===== src/Scenario/WellFormed.antt =====
-- What a validated rules document guarantees: proofs about `ScenarioRules::validate`.
use eggreplay.Scenario.Authored.{
  IsName, IsReplacement, IsHeader, IsExtraction, IsPredicate, IsFault, validate_name-IsName,
  validate_replacement-IsReplacement, validate_header-IsHeader, validate_predicate-IsPredicate,
  validate_optional_fault-IsFault, validate_extractions-IsExtraction,
}
use eggreplay.Prelude.{
  All, Distinct, List, [], contains, false, is_empty, length, map, ok, then-eq-ok, true, ◌∷◌, ◌≡◌,
  ◌≤◌, nat_eq, list_eq, option_eq, pair_eq, ==_iff, ==_refl, arith, refl, ◌||◌, ◌∙◌, Result-cases,
  inl, inr, ltb, not, reject_if-eq-ok,
}
use eggreplay.BTree
use eggreplay.BTree.{BTreeSet, contains-add}
use eggreplay.Bytes.{Bytes}
use eggreplay.Flow.{is_status}
use eggreplay.Scenario.Types.{
  ScenarioTransition, Scenario, ScenarioRules, max_variables, max_transitions, max_states,
  max_template_bytes, max_scenarios, rules_schema_version,
}
use eggreplay.Scenario.Validate.{
  for_each, validate_transition, validate_states, validate_references, validate_scenario,
  validate_scenarios, validate, Check, validate_name, validate_optional_fault, validate_header,
  validate_extractions, validate_replacement, validate_predicate,
}

-- A transition that stays within the states of its scenario and the limits.
pub record IsTransition (states : List Bytes) (t : ScenarioTransition) : Type 0 where
  pub from_declared : contains states t.from ≡ true
  pub next_declared : contains states t.next_state ≡ true
  pub status_valid : is_status t.response.status ≡ true
  pub extractions : length t.extract ≤ 64
  pub extractions_distinct : Distinct (map (λ e. e.name) t.extract)
  pub extractions_valid : All IsExtraction t.extract
  pub template : length t.response.body_template ≤ 16384
  pub replacements : length t.response.json_pointer_replacements ≤ 32
  pub replacements_valid : All IsReplacement t.response.json_pointer_replacements
  pub fault_valid : IsFault t.response.fault
  pub headers_valid : All IsHeader t.response.headers
  pub predicates_valid : All IsPredicate t.when

pub record IsScenario (s : Scenario) : Type 0 where
  pub some_state : is_empty s.states ≡ false
  pub state_count : length s.states ≤ max_states
  pub states_distinct : Distinct s.states
  pub states_named : All IsName s.states
  pub initial_declared : contains s.states s.initial_state ≡ true
  pub transition_count : length s.transitions ≤ max_transitions
  pub transitions_valid : All (IsTransition s.states) s.transitions

pub record IsRules (r : ScenarioRules) : Type 0 where
  pub schema : r.schema_version ≡ rules_schema_version
  pub scenario_count : length r.scenarios ≤ max_scenarios
  pub ids_distinct : Distinct (map (λ s. s.id) r.scenarios)
  pub ids_named : All (λ s. IsName s.id) r.scenarios
  pub scenarios_valid : All IsScenario r.scenarios

for_each-All {ℓ κ} :
    {A : Type ℓ} {P : A → Type κ} (f : A → Check) (l : List A)
    → ((a : A) → f a ≡ ok tt → P a)
    → for_each f l ≡ ok tt
    → All P l
unfolding for_each
for_each-All f [] h e = tt
for_each-All f (a ∷ l) h e =
    let (here, later) = then-eq-ok (f a) (for_each f l) e in (h a here, for_each-All f l h later)

validate_transition_lem :
    (states : List Bytes) (t : ScenarioTransition)
    → contains states t.from ≡ true
    → contains states t.next_state ≡ true
    → validate_transition t ≡ ok tt
    → IsTransition states t
unfolding validate_transition
validate_transition_lem states t f n h =
    let (few, h) = reject_if-eq-ok (ltb max_variables (length t.extract)) _ _ h in
    let (short, h) =
      reject_if-eq-ok (ltb max_template_bytes (length t.response.body_template)) _ _ h in
    let (few_replacements, h) =
      reject_if-eq-ok (ltb 32 (length t.response.json_pointer_replacements)) _ _ h in
    let (replacements, h) =
      then-eq-ok (for_each validate_replacement t.response.json_pointer_replacements) _ h in
    let (status, h) = reject_if-eq-ok (not (is_status t.response.status)) _ _ h in
    let (fault, h) = then-eq-ok (validate_optional_fault t.response.fault) _ h in
    let (headers, h) = then-eq-ok (for_each validate_header t.response.headers) _ h in
    let (extracted, predicates) = then-eq-ok (validate_extractions [] t.extract) _ h in
    let (valid, distinct, apart) = validate_extractions-IsExtraction [] t.extract extracted in
    record {
      from_declared = f;
      next_declared = n;
      status_valid = ground (arith, status);
      extractions = ground (arith, few);
      extractions_distinct = distinct;
      extractions_valid = valid;
      template = ground (arith, short);
      replacements = ground (arith, few_replacements);
      replacements_valid =
          for_each-All validate_replacement t.response.json_pointer_replacements
            validate_replacement-IsReplacement replacements;
      fault_valid = validate_optional_fault-IsFault t.response.fault fault;
      headers_valid =
          for_each-All validate_header t.response.headers validate_header-IsHeader headers;
      predicates_valid =
          for_each-All validate_predicate t.when validate_predicate-IsPredicate predicates;
    }

-- The set that the loop over the states builds holds what it was given and the states.
validate_states-contains :
    (seen set : BTreeSet) (states : List Bytes) (x : Bytes)
    → validate_states seen states ≡ ok set
    → BTree.contains set x ≡ (BTree.contains seen x || contains states x)
unfolding validate_states contains
validate_states-contains seen set [] x e = ground arith
validate_states-contains seen set (s ∷ ss) x e =
    ground (arith, validate_states-contains (BTree.add s seen) set ss x, contains-add s x seen)

-- Every state is well named.
validate_states-IsName :
    (seen set : BTreeSet) (states : List Bytes)
    → validate_states seen states ≡ ok set
    → All IsName states
unfolding validate_states
validate_states-IsName seen set [] h = tt
validate_states-IsName seen set (s ∷ ss) h =
    let (name, h) = then-eq-ok (validate_name s "state name") _ h in
    let (fresh, h) = reject_if-eq-ok (BTree.contains seen s) _ _ h in
    (validate_name-IsName s _ name, validate_states-IsName (BTree.add s seen) set ss h)

-- Every scenario is well named.
validate_scenarios-IsName :
    (ids : BTreeSet) (ss : List Scenario)
    → validate_scenarios ids ss ≡ ok tt
    → All (λ s. IsName s.id) ss
unfolding validate_scenarios
validate_scenarios-IsName ids [] h = tt
validate_scenarios-IsName ids (s ∷ ss) h =
    let (name, h) = then-eq-ok (validate_name s.id "scenario id") _ h in
    let (fresh, h) = reject_if-eq-ok (BTree.contains ids s.id) _ _ h in
    let (valid, h) = then-eq-ok (validate_scenario s) _ h in
    (validate_name-IsName s.id _ name, validate_scenarios-IsName (BTree.add s.id ids) ss h)

-- No state occurs twice, or among those seen.
validate_states-Distinct :
    (seen set : BTreeSet) (states : List Bytes)
    → validate_states seen states ≡ ok set
    → Distinct states × ((x : Bytes) → BTree.contains seen x ≡ true → contains states x ≡ false)
unfolding validate_states contains
validate_states-Distinct seen set [] e = (tt, λ x h. refl)
validate_states-Distinct seen set (s ∷ ss) e =
    let ih : validate_states (BTree.add s seen) ss ≡ ok set = ground arith in
    let fresh : BTree.contains seen s ≡ false = ground arith in
    let (distinct, apart) = validate_states-Distinct (BTree.add s seen) set ss ih in
    (
      (apart s (contains-add s s seen ∙ ground (arith, ==_refl s)), distinct),
      λ x h. ground (arith, ==_iff s x, apart x, contains-add s x seen),
    )

validate_references_lem :
    (states : List Bytes) (set : BTreeSet) (t : ScenarioTransition)
    → ((x : Bytes) → BTree.contains set x ≡ contains states x)
    → validate_references set t ≡ ok tt
    → IsTransition states t
unfolding validate_references
validate_references_lem states set t holds e =
    validate_transition_lem states t (ground (arith, holds t.from))
      (ground (arith, holds t.next_state)) (ground arith)

validate_scenario-IsScenario : (s : Scenario) → validate_scenario s ≡ ok tt → IsScenario s
unfolding validate_scenario contains BTree.contains
validate_scenario-IsScenario s e = elim (Result-cases (validate_states [] s.states)) [
  | inr (m, failed) ↦ absurd (ground arith)
  | inl (set, built) ↦
      let holds : (x : Bytes) → BTree.contains set x ≡ contains s.states x =
        λ x. validate_states-contains [] set s.states x built in
      let loop : for_each (validate_references set) s.transitions ≡ ok tt = ground arith in
      record {
        some_state = ground arith;
        state_count = ground arith;
        states_distinct = (validate_states-Distinct [] set s.states built).0;
        states_named = validate_states-IsName [] set s.states built;
        initial_declared = ground (arith, holds s.initial_state);
        transition_count = ground arith;
        transitions_valid =
            for_each-All (validate_references set) s.transitions
              (λ t. validate_references_lem s.states set t holds) loop;
      }
]

validate_scenarios-IsScenario :
    (ids : BTreeSet) (ss : List Scenario)
    → validate_scenarios ids ss ≡ ok tt
    → All IsScenario ss
      × Distinct (map (λ s. s.id) ss)
      × ((x : Bytes) → BTree.contains ids x ≡ true → contains (map (λ s. s.id) ss) x ≡ false)
unfolding validate_scenarios contains
validate_scenarios-IsScenario ids [] e = (tt, tt, λ x h. refl)
validate_scenarios-IsScenario ids (s ∷ ss) e =
    let rest : validate_scenarios (BTree.add s.id ids) ss ≡ ok tt = ground arith in
    let here : validate_scenario s ≡ ok tt = ground arith in
    let (valid, distinct, apart) = validate_scenarios-IsScenario (BTree.add s.id ids) ss rest in
    (
      (validate_scenario-IsScenario s here, valid),
      (apart s.id (contains-add s.id s.id ids ∙ ground (arith, ==_refl s.id)), distinct),
      λ x h. ground (arith, ==_iff s.id x, apart x, contains-add s.id x ids),
    )

-- An accepted rules document is well formed: the schema and every count are within the limits;
-- scenario ids, the states of each scenario and the variables of each transition are well named and
-- distinct; each initial state and both ends of each transition are declared; every authored status is
-- a status of HTTP; and the predicates, the sources of variables, the JSON transforms, the faults and
-- the headers of every transition have their form and are within their limits.
pub validate-IsRules : (r : ScenarioRules) → validate r ≡ ok tt → IsRules r
unfolding validate
validate-IsRules r e =
    let checked : validate_scenarios [] r.scenarios ≡ ok tt = ground arith in
    let (valid, distinct, apart) = validate_scenarios-IsScenario [] r.scenarios checked in
    record {
      schema = ground (arith, ==_iff r.schema_version rules_schema_version);
      scenario_count = ground arith;
      ids_distinct = distinct;
      ids_named = validate_scenarios-IsName [] r.scenarios checked;
      scenarios_valid = valid;
    }
