-- ===== src/Matching/Body.antt =====
-- Body comparison: `body_match`, `body_match_with_json`, `try_form_wildcard`,
-- `remove_json_pointer` and `Matcher::body_matches_lazy`.
use eggreplay.Prelude.{
  Bool, List, Option, [], false, if◌then◌else◌, is_empty, length, ltb, none, not, retain, some, ℕ,
  ◌&&◌, ◌==◌, ◌||◌, ◌∷◌, nat_eq, list_eq, option_eq, pair_eq,
}
use eggreplay.BTree
use eggreplay.BTree.{BTreeSet}
use eggreplay.Bytes.{
  Bytes, is_utf8, contains_byte, starts_with_byte, trim_start, rsplit_byte, parse_unsigned,
}
use eggreplay.External.{External, Kind, object, array, other}
use eggreplay.Matching.Types.{
  BodyMatchMode, exact_bytes, exact_text, semantic_json, CandidateBody, digest, inline,
  MatchCandidate, Matcher,
}
use eggreplay.Matching.Normalize.{redacted_body_json_paths, redacted_body_form_keys}

-- `is_form`
is_form : Bytes → Bool
unfolding trim_start starts_with_byte
is_form s = contains_byte b'=' s && not (starts_with_byte b'{' (trim_start s))

module _ (ext : External) where
  open ext use {Value, value_beq, from_slice, modify, kind, remove_key, remove_index, parse_form}

  remove_at : Kind → Bytes → Value → Value
  remove_at object token parent = remove_key token parent
  remove_at (array n) token parent = elim (parse_unsigned 64 token) [
    | none ↦ parent
    | some index ↦ if ltb index n then remove_index index parent else parent
  ]
  remove_at other token parent = parent

  or_same : Value → Option Value → Value
  or_same value none = value
  or_same value (some changed) = changed

  unfoldable pub remove_json_pointer : Bytes → Value → Value
  unfolding remove_at or_same
  remove_json_pointer pointer value =
      if is_empty pointer then value else elim (rsplit_byte b'/' pointer) [
        | none ↦ value
        | some (parent, token) ↦
            or_same value (modify value parent (λ target. remove_at (kind target) token target))
      ]

  remove_all : BTreeSet → Value → Value
  remove_all [] value = value
  remove_all (p ∷ ps) value = remove_all ps (remove_json_pointer p value)

  same_json : BTreeSet → Option Value → Option Value → Bool
  same_json paths (some actual) (some expected) =
      value_beq (remove_all paths actual) (remove_all paths expected)
  same_json paths _ _ = false

  -- `body_match_with_json`; its last argument has no effect in the source.
  unfoldable pub body_match_with_json : Bytes → Bytes → BTreeSet → Bool
  unfolding same_json remove_all
  body_match_with_json actual expected paths =
      same_json paths (from_slice actual) (from_slice expected)

  unfoldable pub body_match : BodyMatchMode → Bytes → Bytes → BTreeSet → Bool
  unfolding same_json remove_all
  body_match exact_bytes actual expected paths = actual == expected
  body_match exact_text actual expected paths = actual == expected && is_utf8 actual
  body_match semantic_json actual expected paths =
      same_json paths (from_slice actual) (from_slice expected)

  kept_pairs : BTreeSet → Bytes → List (Bytes × Bytes)
  kept_pairs redacted form = retain (λ pair. not (BTree.contains redacted pair.0)) (parse_form form)

  unfoldable pub try_form_wildcard : Bytes → Bytes → BTreeSet → Option Bool
  unfolding is_form kept_pairs
  try_form_wildcard actual expected redacted =
      if not (is_utf8 actual) || not (is_utf8 expected)
      then none
      else if not (is_form actual) || not (is_form expected)
      then none
      else some (kept_pairs redacted actual == kept_pairs redacted expected)

  -- The comparison of a loaded body that carries redaction markers.
  redacted_match : Bytes → BTreeSet → BTreeSet → Option Bytes → Bool
  redacted_match actual form paths none = false
  redacted_match actual form paths (some expected) =
      let json = body_match_with_json actual expected paths in
      if is_empty form
      then json
      else elim (try_form_wildcard actual expected form) [ some result ↦ result | none ↦ json ]

  -- The loader is stateful: it takes and returns the caller's state.
  module _ {S : Type 0} (loader : S → ℕ → MatchCandidate → Option Bytes × S) where
    -- `expected_opt`
    load_redacted : ℕ → MatchCandidate → CandidateBody → S → Option Bytes × S
    load_redacted index c (digest sha256 size) s = loader s index c
    load_redacted index c (inline bytes) s =
        if not (is_empty bytes)
        then (some bytes, s)
        else if not (is_empty c.request_body)
        then (some c.request_body, s)
        else loader s index c
    load_redacted index c _ s = (some [], s)

    match_loaded : Matcher → Bytes → Option Bytes × S → Bool × S
    match_loaded m actual (none, s) = (false, s)
    match_loaded m actual (some expected, s) =
        (body_match m.body_mode actual expected m.ignored_json_paths, s)

    match_digest :
        BodyMatchMode → Matcher → Bytes → Bytes → ℕ → Bool → ℕ → MatchCandidate → S → Bool × S
    unfolding match_loaded
    match_digest exact_bytes m actual sha256 size narrowed index c s =
        (length actual == size && ext.sha256_hex actual == sha256, s)
    match_digest exact_text m actual sha256 size narrowed index c s =
        (length actual == size && ext.sha256_hex actual == sha256 && is_utf8 actual, s)
    match_digest semantic_json m actual sha256 size narrowed index c s =
        if not narrowed then (false, s) else match_loaded m actual (loader s index c)

    match_plain : Matcher → Bytes → CandidateBody → Bool → ℕ → MatchCandidate → S → Bool × S
    unfolding match_digest
    match_plain m actual (digest sha256 size) narrowed index c s =
        match_digest m.body_mode m actual sha256 size narrowed index c s
    match_plain m actual (inline expected) narrowed index c s =
        let bytes =
          if is_empty expected && not (is_empty c.request_body)
          then c.request_body
          else if not (is_empty expected)
          then expected
          else c.request_body in
        (body_match m.body_mode actual bytes m.ignored_json_paths, s)
    match_plain m actual _ narrowed index c s = (is_empty actual, s)

    match_redacted :
        Matcher → Bytes → Bool → BTreeSet → BTreeSet → ℕ → MatchCandidate → S → Bool × S
    unfolding load_redacted redacted_match
    match_redacted m actual narrowed json form index c s =
        if not narrowed
        then (false, s)
        else let (expected, s') = load_redacted index c c.body s in
          (redacted_match actual form (BTree.extend m.ignored_json_paths json) expected, s')

    -- `Matcher::body_matches_lazy`
    unfoldable pub body_matches_lazy : Matcher → Bytes → Bool → ℕ → MatchCandidate → S → Bool × S
    unfolding match_redacted match_plain
    body_matches_lazy m actual narrowed index c s =
        let json = redacted_body_json_paths c.flow.redactions false in
        let form = redacted_body_form_keys c.flow.redactions in
        if not (is_empty json) || not (is_empty form)
        then match_redacted m actual narrowed json form index c s
        else match_plain m actual c.body narrowed index c s
