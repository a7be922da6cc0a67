-- ===== src/Security/Redact.antt =====
-- `RedactionConfig`, `redact_flow`, `push_body_markers`, and the redaction of JSON and form bodies.
use eggreplay.Prelude.{
  Bool, List, Message, Option, Result, [], false, if◌then◌else◌, is_empty, map, none, not, ok,
  ok_or, reject_if, some, text, true, ◌&&◌, ◌++◌, ◌||◌, ◌∷◌, nat_eq, list_eq, option_eq, pair_eq,
  ◌>>◌, ◌>>=◌,
}
use eggreplay.BTree
use eggreplay.BTree.{BTreeSet}
use eggreplay.Bytes.{Bytes, codes, lowercase, is_utf8}
use eggreplay.Config.{RedactionProfile}
use eggreplay.External.{External}
use eggreplay.Flow.{HeaderEntry, QueryPair, RedactionMarker, Flow, FlowOutcome, response, error}

pub record RedactionConfig : Type 0 where
  pub headers : BTreeSet
  pub query_keys : BTreeSet
  pub json_paths : BTreeSet

-- `RedactionConfig::default_secure`
unfoldable pub default_secure : RedactionConfig
default_secure = record {
  headers = BTree.extend [] (
      codes "authorization"
      ∷ codes "proxy-authorization"
      ∷ codes "cookie"
      ∷ codes "set-cookie"
      ∷ []);
  query_keys = [];
  json_paths = [];
}

-- `RedactionConfig::from_profile`
unfoldable pub from_profile : RedactionProfile → RedactionConfig
from_profile p = record {
  headers = BTree.extend [] (map lowercase p.sensitive_headers);
  query_keys = BTree.extend [] p.sensitive_query_keys;
  json_paths = BTree.extend [] p.sensitive_json_paths;
}

-- `RedactionConfig::wants_body_redaction`
unfoldable pub wants_body_redaction : RedactionConfig → Bool
wants_body_redaction c = not (is_empty c.json_paths) || not (is_empty c.query_keys)

abbrev pub redacted_text : Bytes
redacted_text = codes "<redacted>"

-- Whether a header or a query key is to be redacted.
abbrev pub is_sensitive : BTreeSet → HeaderEntry → Bool
is_sensitive names h = BTree.contains names (lowercase h.name)

-- What the loops of `redact_flow` make of one header, of all headers, and of the query, with the
-- markers so far.
abbrev pub header_marker : Bytes → Bytes → HeaderEntry → RedactionMarker
header_marker prefix profile h = record { field = prefix ++ b'.' ∷ h.name; profile = profile }

unfoldable pub redact_header :
    BTreeSet
    → Bytes
    → Bytes
    → HeaderEntry
    → List RedactionMarker
    → HeaderEntry × List RedactionMarker
redact_header names prefix profile h markers =
    if is_sensitive names h
    then (record h { value = redacted_text }, markers ++ header_marker prefix profile h ∷ [])
    else (h, markers)

unfoldable pub redact_headers :
    BTreeSet
    → Bytes
    → Bytes
    → List HeaderEntry
    → List RedactionMarker
    → List HeaderEntry × List RedactionMarker
unfolding redact_header
redact_headers names prefix profile [] markers = ([], markers)
redact_headers names prefix profile (h ∷ hs) markers =
    let (h', markers') = redact_header names prefix profile h markers in
    let (hs', final) = redact_headers names prefix profile hs markers' in (h' ∷ hs', final)

abbrev pub query_marker : Bytes → QueryPair → RedactionMarker
query_marker profile p = record { field = codes "request.query." ++ p.key; profile = profile }

unfoldable pub redact_query :
    BTreeSet → Bytes → List QueryPair → List RedactionMarker → List QueryPair × List RedactionMarker
redact_query keys profile [] markers = ([], markers)
redact_query keys profile (p ∷ ps) markers =
    let sensitive = BTree.contains keys p.key in
    let marker : RedactionMarker = record {
      field = codes "request.query." ++ p.key;
      profile = profile;
    } in
    let (ps', final) =
      redact_query keys profile ps
        (if sensitive then markers ++ query_marker profile p ∷ [] else markers) in
    ((if sensitive then record p { value = redacted_text } else p) ∷ ps', final)

unfoldable pub redact_outcome :
    BTreeSet → Bytes → FlowOutcome → List RedactionMarker → FlowOutcome × List RedactionMarker
unfolding redact_headers
redact_outcome names profile (error e) markers = (error e, markers)
redact_outcome names profile (response r) markers =
    let (headers, markers') =
      redact_headers names (codes "response.headers") profile r.headers markers in
    let (trailers, final) =
      redact_headers names (codes "response.trailers") profile r.trailers markers' in
    (response (record r { headers = headers; trailers = trailers }), final)

-- `redact_flow`
unfoldable pub redact_flow : Flow → RedactionConfig → Bytes → Flow
unfolding redact_outcome redact_query
redact_flow f config profile =
    let names = config.headers in
    let (headers, m1) =
      redact_headers names (codes "request.headers") profile f.request.headers f.redactions in
    let (trailers, m2) =
      redact_headers names (codes "request.trailers") profile f.request.trailers m1 in
    let (outcome, m3) = redact_outcome names profile f.outcome m2 in
    let (query, m4) = redact_query config.query_keys profile f.request.query m3 in
    record f {
      request = record f.request { headers = headers; trailers = trailers; query = query };
      outcome = outcome;
      redactions = m4;
    }

-- `push_body_markers`
unfoldable pub push_body_markers :
    List RedactionMarker → BTreeSet → Bytes → Bool → List RedactionMarker
push_body_markers markers [] profile is_response = markers
push_body_markers markers (path ∷ paths) profile is_response =
    push_body_markers
      (markers
        ++ (record {
          field =
              (if is_response then codes "response.body.json:" else codes "request.body.json:")
              ++ path;
          profile = profile;
        }
            ∷ []))
      paths profile is_response

module _ (ext : External) where
  open ext use {Value, from_slice, to_text, modify, of_string, parse_form}

  -- One round of the loop of `apply_json_redaction` and of `redact_json`.
  redact_target : Option Value → Value × Bool → Value × Bool
  redact_target none (value, matched) = (value, matched)
  redact_target (some changed) (value, matched) = (changed, true)

  redact_paths : BTreeSet → Value × Bool → Value × Bool
  unfolding redact_target
  redact_paths [] (value, matched) = (value, matched)
  redact_paths (p ∷ ps) (value, matched) =
      redact_paths ps
        (redact_target (modify value p (λ target. of_string redacted_text)) (value, matched))

  -- `redact_json`
  unfoldable pub redact_json : Value → BTreeSet → Value
  unfolding redact_paths
  redact_json value paths = (redact_paths paths (value, false)).0

  -- `apply_json_redaction`; serialising a parsed value does not fail.
  unfoldable pub apply_json_redaction : Bytes → BTreeSet → Result (Bytes × Bool) Message
  unfolding redact_paths
  apply_json_redaction body paths = do
    value ← ok_or (from_slice body) (text "malformed JSON for redaction")
    let r = redact_paths paths (value, false)
    ok (to_text r.0, r.1)

  redact_pairs : BTreeSet → List (Bytes × Bytes) → List (Bytes × Bytes) × Bool
  redact_pairs keys [] = ([], false)
  redact_pairs keys ((key, value) ∷ ps) =
      let (ps', matched) = redact_pairs keys ps in
      if BTree.contains keys key
      then ((key, redacted_text) ∷ ps', true)
      else ((key, value) ∷ ps', matched)

  -- `apply_form_redaction`, over the form serializer of the url crate.
  unfoldable pub apply_form_redaction :
      (List (Bytes × Bytes) → Bytes) → Bytes → BTreeSet → Result (Bytes × Bool) Message
  unfolding redact_pairs
  apply_form_redaction print_form body keys = do
    reject_if (not (is_utf8 body)) (text "form body is not valid UTF-8")
    let pairs = parse_form body
    reject_if (is_empty pairs && not (is_empty body)) (text "malformed form body for redaction")
    let r = redact_pairs keys pairs
    ok (print_form r.0, r.1)
