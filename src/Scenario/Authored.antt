-- ===== src/Scenario/Authored.antt =====
-- The parts of a transition that the checks of `ScenarioRules::validate` accept.
use Prim.Native.String.{String}
use eggreplay.Prelude.{
  All, Distinct, List, [], contains, false, is_empty, length, map, ok, then-eq-ok, true, ◌∷◌, ◌≡◌,
  ◌≤◌, nat_eq, list_eq, option_eq, pair_eq, ==_iff, ==_refl, arith, refl, ◌||◌, ◌∙◌, All-imp,
  Option, all, all-All, any-All-not, ltb, none, not, reject_if-eq-ok, some, ◌<◌, ◌==◌, ◌⊎◌, ℕ,
}
use eggreplay.BTree
use eggreplay.BTree.{BTreeSet, contains-add}
use eggreplay.Bytes.{Bytes, starts_with_byte, is_alphanumeric, codes}
use eggreplay.Flow.{HeaderEntry}
use eggreplay.Scenario.Types.{
  VariableSource, VariableExtraction, ScenarioFault, JsonPointerReplacement, RequestPredicate,
  response_head_delay, from_query, from_header, body_chunk_delay, json_pointer, close_after_bytes,
  prior_variable, transport_error, path_segment, close_before_response, max_name_bytes,
}
use eggreplay.Scenario.Validate.{
  validate_source, validate_name, validate_optional_fault, validate_header, validate_extractions,
  validate_replacement, validate_predicate, is_token_byte, validate_fault, is_bad_value_byte,
  is_name_byte,
}

-- A name: of 1 to 128 letters, digits and `_-.`.
pub record IsName (v : Bytes) : Type 0 where
  pub nonempty : is_empty v ≡ false
  pub short : length v ≤ 128
  pub name_bytes : All (λ c. (is_alphanumeric c || c == b'_' || c == b'-' || c == b'.') ≡ true) v

-- A JSON pointer: at most 128 bytes, and empty or begun by a slash.
abbrev pub IsPointer : Bytes → Type 0
IsPointer p = (length p ≤ 128) × ((is_empty p || starts_with_byte b'/' p) ≡ true)

abbrev pub IsReplacement : JsonPointerReplacement → Type 0
IsReplacement r = IsPointer r.pointer × (length r.value_template ≤ 16384)

-- A header that can be sent: a token as its name, and no control byte but a tab in its value.
pub record IsHeader (h : HeaderEntry) : Type 0 where
  pub short_name : length h.name ≤ 256
  pub short_value : length h.value ≤ 4096
  pub named : is_empty h.name ≡ false
  pub token : All (λ c. (is_alphanumeric c || contains (codes "!#$%&'*+-.^_`|~") c) ≡ true) h.name
  pub printable : All (λ c. (b' ' ≤ c) ⊎ (c ≡ b'\t')) h.value

abbrev pub IsSource : VariableSource → Type 0
IsSource (from_query key) = IsName key
IsSource (from_header name) = IsName name
IsSource (json_pointer pointer) = IsPointer pointer
IsSource (prior_variable name) = IsName name
IsSource (path_segment index) = index ≤ 1024

abbrev pub IsExtraction : VariableExtraction → Type 0
IsExtraction e = IsName e.name × IsSource e.source

abbrev pub IsPredicate : RequestPredicate → Type 0
IsPredicate (RequestPredicate.method value) = length value ≤ 4096
IsPredicate (RequestPredicate.path value) = length value ≤ 4096
IsPredicate (RequestPredicate.query key value) = (length key ≤ 4096) × (length value ≤ 4096)
IsPredicate (RequestPredicate.header name value) = (length name ≤ 4096) × (length value ≤ 4096)

abbrev pub IsFault : Option ScenarioFault → Type 0
IsFault none = Unit
IsFault (some (response_head_delay delay_ms)) = delay_ms ≤ 30000
IsFault (some (body_chunk_delay delay_ms chunk_bytes)) =
    (delay_ms ≤ 30000) × (0 < chunk_bytes) × (chunk_bytes ≤ 16777216)
IsFault (some close_before_response) = Unit
IsFault (some (close_after_bytes n)) = Unit
IsFault (some (transport_error category phase)) = Unit

pub validate_name-IsName : (v : Bytes) (label : String) → validate_name v label ≡ ok tt → IsName v
unfolding validate_name
validate_name-IsName v label e =
    let passed : (is_empty v || ltb max_name_bytes (length v) || not (all is_name_byte v)) ≡ false =
      ground arith in
    record {
      nonempty = ground arith;
      short = ground arith;
      name_bytes = all-All is_name_byte v (ground arith);
    }

pub validate_replacement-IsReplacement :
    (r : JsonPointerReplacement) → validate_replacement r ≡ ok tt → IsReplacement r
unfolding validate_replacement
validate_replacement-IsReplacement r e = ground arith

token_byte :
    (c : ℕ)
    → is_token_byte c ≡ true
    → (is_alphanumeric c || contains (codes "!#$%&'*+-.^_`|~") c) ≡ true
unfolding is_token_byte contains
token_byte c h = h

printable_byte : (c : ℕ) → is_bad_value_byte c ≡ false → (b' ' ≤ c) ⊎ (c ≡ b'\t')
printable_byte c h = ground (arith, ==_iff c b'\t')

pub validate_header-IsHeader : (h : HeaderEntry) → validate_header h ≡ ok tt → IsHeader h
unfolding validate_header
validate_header-IsHeader h e = record {
  short_name = ground arith;
  short_value = ground arith;
  named = ground arith;
  token = All-imp h.name token_byte (all-All is_token_byte h.name (ground arith));
  printable = All-imp h.value printable_byte (any-All-not is_bad_value_byte h.value (ground arith));
}

validate_source-IsSource : (v : VariableSource) → validate_source v ≡ ok tt → IsSource v
unfolding validate_source
validate_source-IsSource (from_query key) e = validate_name-IsName key _ e
validate_source-IsSource (from_header name) e = validate_name-IsName name _ e
validate_source-IsSource (json_pointer pointer) e = ground arith
validate_source-IsSource (prior_variable name) e = validate_name-IsName name _ e
validate_source-IsSource (path_segment index) e = ground arith

pub validate_predicate-IsPredicate :
    (q : RequestPredicate) → validate_predicate q ≡ ok tt → IsPredicate q
unfolding validate_predicate
validate_predicate-IsPredicate (RequestPredicate.method value) e = ground arith
validate_predicate-IsPredicate (RequestPredicate.path value) e = ground arith
validate_predicate-IsPredicate (RequestPredicate.query key value) e = ground arith
validate_predicate-IsPredicate (RequestPredicate.header name value) e = ground arith

pub validate_optional_fault-IsFault :
    (f : Option ScenarioFault) → validate_optional_fault f ≡ ok tt → IsFault f
unfolding validate_optional_fault validate_fault
validate_optional_fault-IsFault none e = tt
validate_optional_fault-IsFault (some (response_head_delay delay_ms)) e = ground arith
validate_optional_fault-IsFault (some (body_chunk_delay delay_ms chunk_bytes)) e = ground arith
validate_optional_fault-IsFault (some close_before_response) e = tt
validate_optional_fault-IsFault (some (close_after_bytes n)) e = tt
validate_optional_fault-IsFault (some (transport_error category phase)) e = tt

-- The extractions are valid and distinct, and none has a name that was seen.
pub validate_extractions-IsExtraction :
    (seen : BTreeSet) (es : List VariableExtraction)
    → validate_extractions seen es ≡ ok tt
    → All IsExtraction es
      × Distinct (map (λ e. e.name) es)
      × ((x : Bytes) → BTree.contains seen x ≡ true → contains (map (λ e. e.name) es) x ≡ false)
unfolding validate_extractions contains
validate_extractions-IsExtraction seen [] h = (tt, tt, λ x g. refl)
validate_extractions-IsExtraction seen (e ∷ es) h =
    let (name, h) = then-eq-ok (validate_name e.name "variable name") _ h in
    let (fresh, h) = reject_if-eq-ok (BTree.contains seen e.name) _ _ h in
    let (source, h) = then-eq-ok (validate_source e.source) _ h in
    let (valid, distinct, apart) = validate_extractions-IsExtraction (BTree.add e.name seen) es h in
    (
      ((validate_name-IsName e.name _ name, validate_source-IsSource e.source source), valid),
      (apart e.name (contains-add e.name e.name seen ∙ ground (arith, ==_refl e.name)), distinct),
      λ x g. ground (arith, ==_iff e.name x, apart x, contains-add e.name x seen),
    )
