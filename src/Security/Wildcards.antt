-- ===== src/Security/Wildcards.antt =====
-- Redaction and matching together: the markers of `redact_flow` make wildcards for the matcher.
use eggreplay.Prelude.{
  All, List, [], arith, if◌then◌else◌, true, ◌++◌, ◌∷◌, ◌≡◌, nat_eq, list_eq, option_eq, pair_eq,
  ==_iff, ==_refl, map, ◌⊎◌, refl, ◌∙◌, ap, not, retain, is_empty, sym, ==_intro, All-imp,
}
use eggreplay.BTree
use eggreplay.BTree.{BTreeSet, contains-extend, BTreeMap}
use eggreplay.Bytes.{Bytes, codes, lowercase, strip_prefix-append}
use eggreplay.Flow.{HeaderEntry, QueryPair, RedactionMarker, Flow, HttpRequest}
use eggreplay.Matching.Normalize.{
  stripped, has_redaction_marker, redacted_request_headers, redacted_request_query,
  request_headers_prefix, request_query_prefix, normalize_headers, normalize_loop, filter_query,
  normalize,
}
use eggreplay.Matching.Select.{differing}
use eggreplay.Matching.Types.{Matcher, MatchCandidate, CandidateBody}
use eggreplay.Security.Redact.{RedactionConfig, is_sensitive, redact_flow}
use eggreplay.Security.Markers.{
  Masked, redact_query-QueryMasked, redact_headers-Masked, QueryMasked, redact_flow_markers,
}

-- The fields after a prefix are found where a marker has them.
contains-stripped :
    (prefix x : Bytes) (ms : List RedactionMarker)
    → has_redaction_marker ms (prefix ++ x) ≡ true
    → BTree.contains (stripped prefix ms) x ≡ true
unfolding stripped has_redaction_marker BTree.contains
contains-stripped prefix x [] h = cc
contains-stripped prefix x (m ∷ ms) h = ground (
  arith,
  ==_iff m.field (prefix ++ x),
  strip_prefix-append prefix x,
  ==_refl x,
  contains-stripped prefix x ms,
)

contains-map :
    (l : List Bytes) (x : Bytes)
    → BTree.contains l x ≡ true
    → BTree.contains (map lowercase l) (lowercase x) ≡ true
unfolding BTree.contains
contains-map [] x h = cc
contains-map (y ∷ l) x h =
    ground (arith, ==_iff y x, ==_iff (lowercase y) (lowercase x), contains-map l x)

-- The wildcards of a redacted flow cover its sensitive headers.
redacted_request_headers-covers :
    (ms : List RedactionMarker) (name : Bytes)
    → has_redaction_marker ms (request_headers_prefix ++ name) ≡ true
    → BTree.contains (redacted_request_headers ms) (lowercase name) ≡ true
unfolding redacted_request_headers
redacted_request_headers-covers ms name h =
    contains-extend (map lowercase (stripped request_headers_prefix ms)) [] (lowercase name)
    ∙ ground (
      arith,
      contains-map (stripped request_headers_prefix ms) name,
      contains-stripped request_headers_prefix name ms h,
    )

-- Headers that redaction changed are all ignored, so both lists normalise alike.
normalize_loop-Masked :
    (names ignored : BTreeSet) (hs ks : List HeaderEntry) (m : BTreeMap (List Bytes))
    → Masked names hs ks
    → All (λ h. is_sensitive names h ≡ true → BTree.contains ignored (lowercase h.name) ≡ true) hs
    → normalize_loop ks ignored m ≡ normalize_loop hs ignored m
unfolding normalize_loop
normalize_loop-Masked names ignored [] [] m h covers = refl
normalize_loop-Masked names ignored [] (k ∷ ks) m h covers = absurd h
normalize_loop-Masked names ignored (h ∷ hs) [] m e covers = absurd e
normalize_loop-Masked names ignored (h ∷ hs) (k ∷ ks) m e covers =
    normalize_loop-Masked names ignored hs ks _ e.2 covers.1
    ∙ ap (normalize_loop hs ignored) (ground arith)

QueryCovered : BTreeSet → List QueryPair → List QueryPair → Type 0
QueryCovered redacted [] [] = Unit
QueryCovered redacted (p ∷ ps) (q ∷ qs) =
    (q.key ≡ p.key)
    × ((BTree.contains redacted p.key ≡ true) ⊎ (q ≡ p))
    × QueryCovered redacted ps qs
QueryCovered redacted _ _ = ⊥

QueryMasked-QueryCovered :
    (ms : List RedactionMarker) (ps qs : List QueryPair)
    → QueryMasked ps qs ms
    → QueryCovered (redacted_request_query ms) ps qs
unfolding redacted_request_query QueryCovered
QueryMasked-QueryCovered ms [] [] h = tt
QueryMasked-QueryCovered ms [] (q ∷ qs) h = h
QueryMasked-QueryCovered ms (p ∷ ps) [] h = h
QueryMasked-QueryCovered ms (p ∷ ps) (q ∷ qs) h = (
  h.0,
  ground (
    arith,
    contains-extend (stripped request_query_prefix ms) [] p.key,
    contains-stripped request_query_prefix p.key ms,
  ),
  QueryMasked-QueryCovered ms ps qs h.2,
)

QueryCovered-nil : (ps qs : List QueryPair) → QueryCovered [] ps qs → qs ≡ ps
unfolding QueryCovered BTree.contains
QueryCovered-nil [] [] h = refl
QueryCovered-nil [] (q ∷ qs) h = absurd h
QueryCovered-nil (p ∷ ps) [] h = absurd h
QueryCovered-nil (p ∷ ps) (q ∷ qs) h = ground (arith, QueryCovered-nil ps qs h.2)

retain-QueryCovered :
    (redacted : BTreeSet) (ps qs : List QueryPair)
    → QueryCovered redacted ps qs
    → retain (λ pair. not (BTree.contains redacted pair.key)) qs
      ≡ retain (λ pair. not (BTree.contains redacted pair.key)) ps
unfolding QueryCovered
retain-QueryCovered redacted [] [] h = refl
retain-QueryCovered redacted [] (q ∷ qs) h = absurd h
retain-QueryCovered redacted (p ∷ ps) [] h = absurd h
retain-QueryCovered redacted (p ∷ ps) (q ∷ qs) h =
    ground (arith, retain-QueryCovered redacted ps qs h.2)

filter_query-QueryCovered :
    (redacted : BTreeSet) (ps qs : List QueryPair)
    → QueryCovered redacted ps qs
    → filter_query qs redacted ≡ filter_query ps redacted
unfolding filter_query
filter_query-QueryCovered [] ps qs h = QueryCovered-nil ps qs h
filter_query-QueryCovered (k ∷ redacted) ps qs h = retain-QueryCovered (k ∷ redacted) ps qs h

-- Agreement in every part that is compared leaves no dimension.
differing-nil :
    (m : Matcher) (actual : HttpRequest) (c : MatchCandidate)
    → let e = c.flow.request in
      let ignored = BTree.extend m.ignored_headers (redacted_request_headers c.flow.redactions) in
      let redacted = redacted_request_query c.flow.redactions in
      (actual.scheme ≡ e.scheme)
      → actual.authority ≡ e.authority
      → actual.path ≡ e.path
      → actual.method ≡ e.method
      → filter_query e.query redacted ≡ filter_query actual.query redacted
      → normalize_headers e.headers ignored ≡ normalize_headers actual.headers ignored
      → differing m actual c ≡ []
unfolding differing normalize
differing-nil m actual c s a p t q h = rw (
  ==_intro (ap lowercase s),
  ==_intro (ap lowercase a),
  ==_intro (ap (λ (x : Bytes). if is_empty x then codes "/" else x) p),
  ==_intro (sym q),
  ==_intro (sym h),
  ==_intro t,
)

module _ (m : Matcher) (f : Flow) (config : RedactionConfig) (profile : Bytes)
    (body : CandidateBody) (bytes : Bytes) where
  -- The candidate that a replay makes of the redacted flow.
  abbrev redacted_candidate : MatchCandidate
  redacted_candidate = record {
    flow = redact_flow f config profile;
    body = body;
    request_body = bytes;
  }

  abbrev wildcards : BTreeSet
  wildcards =
      BTree.extend m.ignored_headers
        (redacted_request_headers (redact_flow f config profile).redactions)

  wildcards-cover :
      All
        (λ h.
          is_sensitive config.headers h ≡ true → BTree.contains wildcards (lowercase h.name) ≡ true)
        f.request.headers
  wildcards-cover =
      All-imp f.request.headers
        (λ h marked sens.
          let ms = (redact_flow f config profile).redactions in
          let covered = redacted_request_headers-covers ms h.name (marked sens) in
          ground (
            arith,
            contains-extend (redacted_request_headers ms) m.ignored_headers (lowercase h.name),
          ))
        (redact_flow_markers f config profile)

  same_headers :
      normalize_headers (redact_flow f config profile).request.headers wildcards
      ≡ normalize_headers f.request.headers wildcards
  unfolding normalize_headers redact_flow
  same_headers =
      normalize_loop-Masked config.headers wildcards f.request.headers _ []
        (redact_headers-Masked config.headers (codes "request.headers") profile f.request.headers
          f.redactions)
        wildcards-cover

  same_query :
      let redacted = redacted_request_query (redact_flow f config profile).redactions in
      filter_query (redact_flow f config profile).request.query redacted
      ≡ filter_query f.request.query redacted
  unfolding redact_flow
  same_query = filter_query-QueryCovered _ f.request.query _ (
      QueryMasked-QueryCovered _ f.request.query _
        (redact_query-QueryMasked config.query_keys profile f.request.query _))

  -- A recorded flow that was redacted still agrees with its own request, secrets and all, in every
  -- dimension but the body: whatever was redacted, and whatever matcher is used, no dimension differs.
  pub differing-redact_flow : differing m f.request redacted_candidate ≡ []
  unfolding redact_flow
  differing-redact_flow =
      differing-nil m f.request redacted_candidate refl refl refl refl same_query same_headers
