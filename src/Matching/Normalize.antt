-- ===== src/Matching/Normalize.antt =====
-- Normalisation of requests, and the wildcards that redaction markers make.
use eggreplay.Prelude.{
  Bool, List, [], if◌then◌else◌, is_empty, map, none, not, retain, some, ◌++◌, ◌∷◌, nat_eq, list_eq,
  option_eq, pair_eq, false, ◌==◌, ◌||◌,
}
use eggreplay.BTree
use eggreplay.BTree.{BTreeMap, BTreeSet, get-insert}
use eggreplay.Bytes.{Bytes, codes, lowercase, strip_prefix}
use eggreplay.Flow.{HeaderEntry, QueryPair, RedactionMarker, HttpRequest}
use eggreplay.Matching.Types.{NormalizedRequest, Matcher}

-- `normalized.entry(name).or_insert_with(Vec::new).push(value)`
unfoldable pub push_value : Bytes → Bytes → BTreeMap (List Bytes) → BTreeMap (List Bytes)
push_value name value m = elim (BTree.get m name) [
  | none ↦ BTree.insert name (value ∷ []) m
  | some values ↦ BTree.insert name (values ++ value ∷ []) m
]

unfoldable pub normalize_loop :
    List HeaderEntry → BTreeSet → BTreeMap (List Bytes) → BTreeMap (List Bytes)
normalize_loop [] ignored m = m
normalize_loop (h ∷ hs) ignored m =
    let name = lowercase h.name in
    normalize_loop hs ignored
      (if not (BTree.contains ignored name) then push_value name h.value m else m)

unfoldable pub normalize_headers : List HeaderEntry → BTreeSet → BTreeMap (List Bytes)
unfolding push_value normalize_loop
normalize_headers headers ignored = normalize_loop headers ignored []

-- `Matcher::normalize`
unfoldable pub normalize : Matcher → HttpRequest → NormalizedRequest
normalize m request = record {
  scheme = lowercase request.scheme;
  authority = lowercase request.authority;
  path = if is_empty request.path then codes "/" else request.path;
  query = request.query;
  headers = normalize_headers request.headers m.ignored_headers;
}

-- The fields after a prefix, `markers.iter().filter_map(|marker| marker.field.strip_prefix(…))`.
unfoldable pub stripped : Bytes → List RedactionMarker → List Bytes
stripped prefix [] = []
stripped prefix (m ∷ ms) =
    let rest = stripped prefix ms in
    elim (strip_prefix prefix m.field) [ none ↦ rest | some name ↦ name ∷ rest ]

abbrev pub request_headers_prefix : Bytes
request_headers_prefix = codes "request.headers."

abbrev pub request_query_prefix : Bytes
request_query_prefix = codes "request.query."

abbrev pub body_json_marker_prefix : Bytes
body_json_marker_prefix = codes "request.body.json:"

abbrev pub response_body_json_marker_prefix : Bytes
response_body_json_marker_prefix = codes "response.body.json:"

unfoldable pub redacted_request_headers : List RedactionMarker → BTreeSet
redacted_request_headers markers =
    BTree.extend [] (map lowercase (stripped request_headers_prefix markers))

unfoldable pub redacted_request_query : List RedactionMarker → BTreeSet
redacted_request_query markers = BTree.extend [] (stripped request_query_prefix markers)

unfoldable pub redacted_body_json_paths : List RedactionMarker → Bool → BTreeSet
redacted_body_json_paths markers is_response = BTree.extend [] (
    stripped (if is_response then response_body_json_marker_prefix else body_json_marker_prefix)
      markers)

unfoldable pub redacted_body_form_keys : List RedactionMarker → BTreeSet
redacted_body_form_keys markers = BTree.extend [] (stripped (codes "request.body.form:") markers)

unfoldable pub filter_query : List QueryPair → BTreeSet → List QueryPair
filter_query query redacted =
    if is_empty redacted
    then query
    else retain (λ pair. not (BTree.contains redacted pair.key)) query

unfoldable pub has_redaction_marker : List RedactionMarker → Bytes → Bool
has_redaction_marker [] field = false
has_redaction_marker (m ∷ ms) field = m.field == field || has_redaction_marker ms field
