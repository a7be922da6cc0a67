-- ===== src/Security/Secrecy.antt =====
-- What `redact_flow` leaves of a flow's secrets.
use eggreplay.Security.Markers.{Masked, redact_headers-Masked}
use eggreplay.Bytes.{Bytes, codes}
use eggreplay.Flow.{Flow, QueryPair, FlowOutcome, RedactionMarker, error, response, HttpResponse}
use eggreplay.BTree
use eggreplay.BTree.{BTreeSet}
use eggreplay.Prelude.{
  List, [], arith, if◌then◌else◌, refl, ◌∷◌, ◌≡◌, nat_eq, list_eq, option_eq, pair_eq,
}
use eggreplay.Security.Redact.{
  redact_flow, redact_outcome, redact_query, RedactionConfig, redact_headers, redacted_text,
}

-- The query pairs whose keys are sensitive have their values replaced, the others stay.
abbrev pub QueryReplaced : BTreeSet → List QueryPair → List QueryPair → Type 0
QueryReplaced keys [] [] = Unit
QueryReplaced keys (p ∷ ps) (q ∷ qs) =
    (q.key ≡ p.key)
    × (q.value ≡ (if BTree.contains keys p.key then redacted_text else p.value))
    × QueryReplaced keys ps qs
QueryReplaced keys _ _ = ⊥

redact_query-QueryReplaced :
    (keys : BTreeSet) (profile : Bytes) (ps : List QueryPair) (ms : List RedactionMarker)
    → QueryReplaced keys ps (redact_query keys profile ps ms).0
unfolding redact_query
redact_query-QueryReplaced keys profile [] ms = tt
redact_query-QueryReplaced keys profile (p ∷ ps) ms =
    (ground arith, ground arith, redact_query-QueryReplaced keys profile ps _)

-- A response keeps all but its headers and trailers, which are masked; an error is kept.
abbrev pub OutcomeMasked : BTreeSet → FlowOutcome → FlowOutcome → Type 0
OutcomeMasked names (error e) after = after ≡ error e
OutcomeMasked names (response r) after =
    (s : HttpResponse) × (after ≡ response s)
    × Masked names r.headers s.headers
    × Masked names r.trailers s.trailers
    × (s ≡ record r { headers = s.headers; trailers = s.trailers })

redact_outcome-OutcomeMasked :
    (names : BTreeSet) (profile : Bytes) (o : FlowOutcome) (ms : List RedactionMarker)
    → OutcomeMasked names o (redact_outcome names profile o ms).0
unfolding redact_outcome
redact_outcome-OutcomeMasked names profile (error e) ms = refl
redact_outcome-OutcomeMasked names profile (response r) ms = (
  _,
  refl,
  redact_headers-Masked names (codes "response.headers") profile r.headers ms,
  redact_headers-Masked names (codes "response.trailers") profile r.trailers
      (redact_headers names (codes "response.headers") profile r.headers ms).1,
  refl,
)

-- What a redacted flow is: the values of the sensitive headers and trailers on both sides, and of the
-- sensitive query keys, are replaced by the placeholder, the names, keys, order and number of the
-- entries stay, and nothing else of the flow changes but the markers.
pub record IsRedacted (config : RedactionConfig) (before after : Flow) : Type 0 where
  pub headers : Masked config.headers before.request.headers after.request.headers
  pub trailers : Masked config.headers before.request.trailers after.request.trailers
  pub query : QueryReplaced config.query_keys before.request.query after.request.query
  pub outcome : OutcomeMasked config.headers before.outcome after.outcome
  pub request_rest : after.request ≡ record before.request {
    headers = after.request.headers;
    trailers = after.request.trailers;
    query = after.request.query;
  }
  pub rest : after ≡ record before {
    request = after.request;
    outcome = after.outcome;
    redactions = after.redactions;
  }

-- After redaction no sensitive header, trailer or query key keeps its value, whatever it was, and all
-- else of the flow but the list of markers is as it was.
pub redact_flow-IsRedacted :
    (f : Flow) (config : RedactionConfig) (profile : Bytes)
    → IsRedacted config f (redact_flow f config profile)
unfolding redact_flow
redact_flow-IsRedacted f config profile =
    let hs = codes "request.headers" in
    let ts = codes "request.trailers" in
    let m1 = (redact_headers config.headers hs profile f.request.headers f.redactions).1 in
    let m2 = (redact_headers config.headers ts profile f.request.trailers m1).1 in
    let m3 = (redact_outcome config.headers profile f.outcome m2).1 in
    record {
      headers = redact_headers-Masked config.headers hs profile f.request.headers f.redactions;
      trailers = redact_headers-Masked config.headers ts profile f.request.trailers m1;
      query = redact_query-QueryReplaced config.query_keys profile f.request.query m3;
      outcome = redact_outcome-OutcomeMasked config.headers profile f.outcome m2;
      request_rest = refl;
      rest = refl;
    }
