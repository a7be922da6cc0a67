-- ===== src/Scenario/Extracted.antt =====
-- What the extractions of a transition do to the variables: proofs about `extract_value`.
use eggreplay.Prelude.{
  All, Bool, Bool-cases, List, Option, Result, [], arith, bind-eq-ok, false, find, inl, inr, length,
  ok, some, true, ◌+◌, ◌∷◌, ◌≡◌, ◌≤◌, nat_eq, list_eq, option_eq, pair_eq, Result-cases, subst,
  contains, refl, ◌∙◌,
}
use eggreplay.BTree
use eggreplay.BTree.{BTreeMap, length-insert}
use eggreplay.Bytes.{Bytes, lowercase}
use eggreplay.External.{External}
use eggreplay.Flow.{HttpRequest}
use eggreplay.Scenario.Extract.{is_blocked, extract_value}
use eggreplay.Scenario.Runtime.{Stop, extract_one, extract_all}
use eggreplay.Scenario.Types.{
  ExtractionFailureBehavior, VariableExtraction, max_value_bytes, VariableSource, from_query,
  from_header, json_pointer, path_segment, prior_variable,
}
use eggreplay.Security.Redact.{RedactionConfig}

-- Every value of the variables is within the limit on its length.
abbrev pub SmallValues : BTreeMap Bytes → Type 0
SmallValues m = All (λ entry. length (entry.1) ≤ max_value_bytes) m

pub insert-SmallValues :
    (k v : Bytes) (m : BTreeMap Bytes)
    → length v ≤ max_value_bytes
    → SmallValues m
    → SmallValues (BTree.insert k v m)
unfolding BTree.insert
insert-SmallValues k v [] h g = (h, tt)
insert-SmallValues k v ((j, w) ∷ m) h g = ground (arith, insert-SmallValues k v m h g.1)

pub find-All {ℓ κ} :
    {A : Type ℓ} (P : A → Type κ) (p : A → Bool) (l : List A) (a : A)
    → All P l
    → find p l ≡ some a
    → P a × (p a ≡ true)
find-All P p [] a h e = cc
find-All P p (x ∷ l) a h e = elim (Bool-cases (p x)) [
  | inl t ↦
      let found : some x ≡ some a = rw t at e in
      let same : x ≡ a = cc in subst (λ y. P y × (p y ≡ true)) same (h.0, t)
  | inr f ↦ find-All P p l a h.1 (rw f at e)
]

-- The redaction policy has no entry for what a source reads: not the query key, the header by its name
-- in lower case, nor the JSON pointer. Path segments and variables are never redacted.
abbrev pub IsClear : RedactionConfig → VariableSource → Type 0
IsClear redaction (from_query key) = contains redaction.query_keys key ≡ false
IsClear redaction (from_header name) = contains redaction.headers (lowercase name) ≡ false
IsClear redaction (json_pointer pointer) = contains redaction.json_paths pointer ≡ false
IsClear redaction (path_segment index) = Unit
IsClear redaction (prior_variable name) = Unit

contains-set : (set : BTree.BTreeSet) (key : Bytes) → contains set key ≡ BTree.contains set key
unfolding contains BTree.contains
contains-set [] key = refl
contains-set (j ∷ set) key = ground (arith, contains-set set key)

is_blocked-IsClear :
    (redaction : RedactionConfig) (source : VariableSource)
    → is_blocked redaction source ≡ false
    → IsClear redaction source
unfolding is_blocked
is_blocked-IsClear redaction (from_query key) h = contains-set redaction.query_keys key ∙ h
is_blocked-IsClear redaction (from_header name) h =
    contains-set redaction.headers (lowercase name) ∙ h
is_blocked-IsClear redaction (json_pointer pointer) h =
    contains-set redaction.json_paths pointer ∙ h
is_blocked-IsClear redaction (path_segment index) h = tt
is_blocked-IsClear redaction (prior_variable name) h = tt

module _ (ext : External) (request : HttpRequest) (json : Option ext.Value)
    (redaction : RedactionConfig) (behavior : ExtractionFailureBehavior) where
  abbrev extracted : List VariableExtraction → BTreeMap Bytes → Result (BTreeMap Bytes) Stop
  extracted es variables = extract_all ext request json redaction behavior es variables

  extract_value-IsClear :
      (e : VariableExtraction) (variables : BTreeMap Bytes) (value : Bytes)
      → extract_value ext e request json variables redaction ≡ ok value
      → IsClear redaction e.source
  unfolding extract_value
  extract_value-IsClear e variables value h = is_blocked-IsClear redaction e.source (ground arith)

  extract_one_lem :
      (e : VariableExtraction) (variables next : BTreeMap Bytes)
      → extract_one ext request json redaction behavior e variables ≡ ok next
      → (length next ≤ length variables + 1)
        × (SmallValues variables → SmallValues next)
        × IsClear redaction e.source
  unfolding extract_one
  extract_one_lem e variables next h =
      elim (Result-cases (extract_value ext e request json variables redaction)) [
        | inr (m, refused) ↦ absurd (ground arith)
        | inl (value, got) ↦
            let stored : next ≡ BTree.insert e.name value variables = ground arith in
            let short : length value ≤ max_value_bytes = ground arith in
            rw stored (
              length-insert e.name value variables,
              insert-SmallValues e.name value variables short,
              extract_value-IsClear e variables value got,
            )
      ]

  -- A complete extraction adds at most one variable for each item, none longer than the limit, and
  -- reads no source that the redaction policy blocks.
  pub extract_all_lem :
      (es : List VariableExtraction) (variables final : BTreeMap Bytes)
      → extracted es variables ≡ ok final
      → (length final ≤ length variables + length es)
        × (SmallValues variables → SmallValues final)
        × All (λ e. IsClear redaction e.source) es
  unfolding extract_all
  extract_all_lem [] variables final h = ground arith
  extract_all_lem (e ∷ es) variables final h =
      let (next, one, rest) = bind-eq-ok _ (λ m. extracted es m) h in
      let (grown, small, clear) = extract_one_lem e variables next one in
      let (more, smaller, clearer) = extract_all_lem es next final rest in
      (omega arith, (λ g. smaller (small g)), (clear, clearer))
