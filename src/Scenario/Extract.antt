-- ===== src/Scenario/Extract.antt =====
-- `RequestPredicate::matches` and `extract_value`.
use eggreplay.Prelude.{
  Bool, Message, Option, Result, about_text, any, false, find, get_elem?, is_empty, none, not,
  ok_or, reject_if, retain, some, text, ℕ, ◌&&◌, ◌==◌, nat_eq, list_eq, option_eq, pair_eq, ◌>>◌,
}
use eggreplay.BTree
use eggreplay.BTree.{BTreeMap}
use eggreplay.Bytes.{split_byte, Bytes, lowercase, eq_ignore_case}
use eggreplay.External.{External}
use eggreplay.Flow.{HttpRequest}
use eggreplay.Scenario.Types.{
  RequestPredicate, VariableSource, path_segment, from_query, from_header, json_pointer,
  prior_variable, VariableExtraction,
}
use eggreplay.Security.Redact.{RedactionConfig}

-- `RequestPredicate::matches`
unfoldable pub matches : HttpRequest → RequestPredicate → Bool
matches request (RequestPredicate.method value) = request.method == value
matches request (RequestPredicate.path value) = request.path == value
matches request (RequestPredicate.query key value) =
    any (λ pair. pair.key == key && pair.value == value) request.query
matches request (RequestPredicate.header name value) =
    any (λ field. eq_ignore_case field.name name && field.value == value) request.headers

-- `path.split('/').filter(|part| !part.is_empty()).nth(index)`
unfoldable pub nth_segment : Bytes → ℕ → Option Bytes
unfolding split_byte
nth_segment path index =
    get_elem? (retain (λ part. not (is_empty part)) (split_byte b'/' path)) index

-- Whether the redaction policy blocks a source.
unfoldable pub is_blocked : RedactionConfig → VariableSource → Bool
is_blocked redaction (from_query key) = BTree.contains redaction.query_keys key
is_blocked redaction (from_header name) = BTree.contains redaction.headers (lowercase name)
is_blocked redaction (json_pointer pointer) = BTree.contains redaction.json_paths pointer
is_blocked redaction _ = false

module _ (ext : External) where
  open ext use {Value, pointer, as_string, to_text}

  -- `Value::String(text) => text.clone(), other => other.to_string()`
  value_text : Value → Bytes
  value_text value = elim (as_string value) [ some s ↦ s | none ↦ to_text value ]

  json_text : Option Value → Bytes → Option Bytes
  unfolding value_text
  json_text none path = none
  json_text (some body) path = elim (pointer body path) [
    | none ↦ none
    | some value ↦ some (value_text value)
  ]

  source_value : VariableSource → HttpRequest → Option Value → BTreeMap Bytes → Option Bytes
  unfolding json_text
  source_value (path_segment index) request json variables = nth_segment request.path index
  source_value (from_query key) request json variables =
      elim (find (λ pair. pair.key == key) request.query) [ none ↦ none | some p ↦ some p.value ]
  source_value (from_header name) request json variables =
      elim (find (λ field. eq_ignore_case field.name name) request.headers) [
        | none ↦ none
        | some h ↦ some h.value
      ]
  source_value (json_pointer path) request json variables = json_text json path
  source_value (prior_variable name) request json variables = BTree.get variables name

  -- `extract_value`
  unfoldable pub extract_value :
      VariableExtraction
      → HttpRequest
      → Option Value
      → BTreeMap Bytes
      → RedactionConfig
      → Result Bytes Message
  unfolding source_value
  extract_value extraction request json variables redaction = do
    reject_if (is_blocked redaction extraction.source)
        (text "scenario extraction source is redacted")
    ok_or (source_value extraction.source request json variables)
        (about_text "scenario variable could not be extracted" extraction.name)
