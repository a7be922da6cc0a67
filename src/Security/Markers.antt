-- ===== src/Security/Markers.antt =====
-- Every part of a flow that `redact_flow` redacts has its marker.
use eggreplay.Prelude.{
  All, List, [], arith, if◌then◌else◌, true, ◌++◌, ◌==◌, ◌||◌, ◌∷◌, ◌≡◌, nat_eq, list_eq, option_eq,
  pair_eq, ==_refl, Bool-cases, if_intro, inl, inr, ◌⊎◌, refl, All-imp,
}
use eggreplay.BTree
use eggreplay.BTree.{BTreeSet, contains-extend, BTreeMap}
use eggreplay.Bytes.{Bytes, codes}
use eggreplay.Flow.{HeaderEntry, QueryPair, RedactionMarker, Flow, FlowOutcome, response, error}
use eggreplay.Matching.Normalize.{has_redaction_marker, request_query_prefix}
use eggreplay.Security.Redact.{
  RedactionConfig, redacted_text, is_sensitive, redact_header, redact_headers, redact_query,
  redact_outcome, redact_flow, query_marker, header_marker,
}

-- Every marker of one list is in another.
abbrev pub Keeps : List RedactionMarker → List RedactionMarker → Type 0
Keeps old new =
    (field : Bytes) → has_redaction_marker old field ≡ true → has_redaction_marker new field ≡ true

pub has-append :
    (ms : List RedactionMarker) (m : RedactionMarker) (field : Bytes)
    → has_redaction_marker (ms ++ m ∷ []) field
      ≡ (has_redaction_marker ms field || m.field == field)
unfolding has_redaction_marker
has-append [] m field = ground arith
has-append (n ∷ ms) m field = ground (arith, has-append ms m field)

-- A header list and what redaction makes of it: the names and their order stay, sensitive values are
-- replaced, and the others stay.
abbrev pub Masked : BTreeSet → List HeaderEntry → List HeaderEntry → Type 0
Masked names [] [] = Unit
Masked names (h ∷ hs) (k ∷ ks) =
    (k.name ≡ h.name)
    × (k.value ≡ (if is_sensitive names h then redacted_text else h.value))
    × Masked names hs ks
Masked names _ _ = ⊥

-- Each sensitive header has its marker.
abbrev pub Marked : BTreeSet → Bytes → List HeaderEntry → List RedactionMarker → Type 0
Marked names prefix hs ms =
    All
      (λ h. is_sensitive names h ≡ true → has_redaction_marker ms (prefix ++ b'.' ∷ h.name) ≡ true)
      hs

module _ (names : BTreeSet) (prefix profile : Bytes) where
  pub redact_headers-Masked :
      (hs : List HeaderEntry) (ms : List RedactionMarker)
      → Masked names hs (redact_headers names prefix profile hs ms).0
  unfolding redact_headers
  redact_headers-Masked [] ms = tt
  redact_headers-Masked (h ∷ hs) ms = (ground arith, ground arith, redact_headers-Masked hs _)

  pub redact_header-Keeps :
      (h : HeaderEntry) (ms : List RedactionMarker)
      → Keeps ms (redact_header names prefix profile h ms).1
  unfolding redact_header
  redact_header-Keeps h ms field old =
      ground (arith, has-append ms (header_marker prefix profile h) field)

  redact_header_marks :
      (h : HeaderEntry) (ms : List RedactionMarker)
      → is_sensitive names h ≡ true
      → has_redaction_marker (redact_header names prefix profile h ms).1 (prefix ++ b'.' ∷ h.name)
        ≡ true
  unfolding redact_header
  redact_header_marks h ms sens = ground (
    arith,
    has-append ms (header_marker prefix profile h) (prefix ++ b'.' ∷ h.name),
    ==_refl (prefix ++ b'.' ∷ h.name),
  )

  pub redact_headers-Keeps :
      (hs : List HeaderEntry) (ms : List RedactionMarker)
      → Keeps ms (redact_headers names prefix profile hs ms).1
  unfolding redact_headers
  redact_headers-Keeps [] ms field old = old
  redact_headers-Keeps (h ∷ hs) ms field old =
      redact_headers-Keeps hs _ field (redact_header-Keeps h ms field old)

  pub redact_headers-Marked :
      (hs : List HeaderEntry) (ms : List RedactionMarker)
      → Marked names prefix hs (redact_headers names prefix profile hs ms).1
  unfolding redact_headers
  redact_headers-Marked [] ms = tt
  redact_headers-Marked (h ∷ hs) ms = (
    (λ sens. redact_headers-Keeps hs _ _ (redact_header_marks h ms sens)),
    redact_headers-Marked hs _,
  )

-- The query pairs that redaction replaces have their markers, and the others stay.
abbrev pub QueryMasked : List QueryPair → List QueryPair → List RedactionMarker → Type 0
QueryMasked [] [] final = Unit
QueryMasked (p ∷ ps) (q ∷ qs) final =
    (q.key ≡ p.key)
    × ((has_redaction_marker final (request_query_prefix ++ p.key) ≡ true) ⊎ (q ≡ p))
    × QueryMasked ps qs final
QueryMasked _ _ final = ⊥

module _ (keys : BTreeSet) (profile : Bytes) where
  pub redact_query-Keeps :
      (ps : List QueryPair) (ms : List RedactionMarker)
      → Keeps ms (redact_query keys profile ps ms).1
  unfolding redact_query
  redact_query-Keeps [] ms field old = old
  redact_query-Keeps (p ∷ ps) ms field old = redact_query-Keeps ps _ field (
      if_intro (λ m. has_redaction_marker m field ≡ true) (BTree.contains keys p.key)
        (λ _. ground (arith, has-append ms (query_marker profile p) field)) (λ _. old))

  pub redact_query-QueryMasked :
      (ps : List QueryPair) (ms : List RedactionMarker)
      → let r = redact_query keys profile ps ms in QueryMasked ps r.0 r.1
  unfolding redact_query
  redact_query-QueryMasked [] ms = tt
  redact_query-QueryMasked (p ∷ ps) ms = elim (Bool-cases (BTree.contains keys p.key)) [
    | inl sens ↦
        let field = request_query_prefix ++ p.key in
        let added : has_redaction_marker (ms ++ query_marker profile p ∷ []) field ≡ true =
          ground (arith, has-append ms (query_marker profile p) field, ==_refl field) in
        rw sens (refl, inl (redact_query-Keeps ps _ field added), redact_query-QueryMasked ps _)
    | inr plain ↦ rw plain (refl, inr refl, redact_query-QueryMasked ps ms)
  ]

-- The markers of `redact_flow` hold those of each of its loops.
pub redact_outcome-Keeps :
    (names : BTreeSet) (profile : Bytes) (o : FlowOutcome) (ms : List RedactionMarker)
    → Keeps ms (redact_outcome names profile o ms).1
unfolding redact_outcome
redact_outcome-Keeps names profile (error e) ms field old = old
redact_outcome-Keeps names profile (response r) ms field old =
    redact_headers-Keeps names (codes "response.trailers") profile r.trailers _ field
      (redact_headers-Keeps names (codes "response.headers") profile r.headers ms field old)

pub redact_flow_markers :
    (f : Flow) (config : RedactionConfig) (profile : Bytes)
    → Marked config.headers
        (codes "request.headers")
        f.request.headers
        (redact_flow f config profile).redactions
unfolding redact_flow
redact_flow_markers f config profile =
    All-imp f.request.headers
      (λ h mark sens. redact_query-Keeps config.query_keys profile f.request.query _ _ (
        redact_outcome-Keeps config.headers profile f.outcome _ _ (
          redact_headers-Keeps config.headers (codes "request.trailers") profile f.request.trailers
            _ _ (mark sens))))
      (redact_headers-Marked config.headers (codes "request.headers") profile f.request.headers
        f.redactions)
