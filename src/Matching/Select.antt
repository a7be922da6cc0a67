-- ===== src/Matching/Select.antt =====
-- Selection of a recorded flow: `Matcher::select` and `Matcher::select_with_loader`.
use eggreplay.Prelude.{
  Bool, List, Option, [], false, if◌then◌else◌, is_empty, leb, length, ltb, min, none, not, suc, ℕ,
  ◌&&◌, ◌++◌, ◌==◌, ◌||◌, ◌∷◌, nat_eq, list_eq, option_eq, pair_eq,
}
use eggreplay.BTree
use eggreplay.Bytes.{Bytes, codes}
use eggreplay.External.{External}
use eggreplay.Flow.{HttpRequest, query_eq}
use eggreplay.Matching.Body.{body_matches_lazy}
use eggreplay.Matching.Normalize.{
  normalize, normalize_headers, redacted_request_headers, redacted_request_query, filter_query,
}
use eggreplay.Matching.Session.{MatcherSession, is_available, consume}
use eggreplay.Matching.Types.{
  ConsumptionMode, MatchCandidate, MatchDimension, NearMiss, MatchResult, matched, no_match,
  exhausted, Matcher,
}

push_if : Bool → MatchDimension → List MatchDimension
push_if differs d = if differs then d ∷ [] else []

-- The dimensions in which a candidate differs from the request, its body aside.
unfoldable pub differing : Matcher → HttpRequest → MatchCandidate → List MatchDimension
unfolding push_if
differing m actual c =
    let ignored = BTree.extend m.ignored_headers (redacted_request_headers c.flow.redactions) in
    let redacted = redacted_request_query c.flow.redactions in
    let a = normalize m actual in
    let e = normalize m c.flow.request in
    push_if (not (a.scheme == e.scheme) || not (a.authority == e.authority))
      MatchDimension.authority
    ++ (push_if (not (a.path == e.path)) MatchDimension.path
        ++ (push_if
              (not
                (filter_query actual.query redacted == filter_query c.flow.request.query redacted))
              MatchDimension.query
            ++ (push_if
                  (not (
                    normalize_headers actual.headers ignored
                    == normalize_headers c.flow.request.headers ignored))
                  MatchDimension.headers
                ++ push_if (not (actual.method == c.flow.request.method)) MatchDimension.method)))

-- `near.sort_by_key(|item| (item.cost, item.candidate_index))`
unfoldable pub key_le : NearMiss → NearMiss → Bool
key_le a b = ltb a.cost b.cost || (a.cost == b.cost && leb a.candidate_index b.candidate_index)

unfoldable pub insert_near : NearMiss → List NearMiss → List NearMiss
insert_near a [] = a ∷ []
insert_near a (b ∷ l) = let rest = insert_near a l in if key_le a b then a ∷ b ∷ l else b ∷ rest

unfoldable pub sort_near : List NearMiss → List NearMiss
unfolding insert_near
sort_near [] = []
sort_near (a ∷ l) = insert_near a (sort_near l)

abbrev pub report : ℕ → List MatchDimension → NearMiss
report index dimensions = record {
  candidate_index = index;
  cost = min (length dimensions) 255;
  dimensions = dimensions;
  summary = codes "candidate differs in explicit request dimensions";
}

unfoldable pub note : Matcher → ℕ → List MatchDimension → List NearMiss → List NearMiss
note m index dimensions near =
    if not (is_empty dimensions) && ltb (length near) m.max_near_misses
    then near ++ report index dimensions ∷ []
    else near

unfoldable pub finish : Bool → List NearMiss → MatchResult
finish matching_consumed near =
    if matching_consumed then exhausted (sort_near near) else no_match (sort_near near)

module _ (ext : External) {S : Type 0} (loader : S → ℕ → MatchCandidate → Option Bytes × S)
    (m : Matcher) (actual : HttpRequest) (body : Bytes) (mode : ConsumptionMode) where
  -- The loop over the candidates: the near misses and the flag so far, the session, and the state of
  -- the loader.
  unfoldable pub scan :
      ℕ
      → List MatchCandidate
      → List NearMiss
      → Bool
      → MatcherSession
      → S
      → MatchResult × MatcherSession × S
  scan index [] near matching_consumed session s = (finish matching_consumed near, session, s)
  scan index (c ∷ cs) near matching_consumed session s =
      let dimensions = differing m actual c in
      let narrowed = is_empty dimensions in
      let (body_match, s') = body_matches_lazy ext loader m body narrowed index c s in
      let hit = narrowed && body_match in
      let all_dimensions = dimensions ++ (if body_match then [] else MatchDimension.body ∷ []) in
      let rest =
        scan (suc index) cs (if hit then near else note m index all_dimensions near)
          (hit || matching_consumed) session s' in
      if hit && is_available session index mode
      then (matched index, consume session index mode, s')
      else rest

  -- `Matcher::select_with_loader`
  unfoldable pub select_with_loader :
      List MatchCandidate → MatcherSession → S → MatchResult × MatcherSession × S
  unfolding scan
  select_with_loader candidates session s = scan 0 candidates [] false session s

pub no_loader : Unit {0} → ℕ → MatchCandidate → Option Bytes × Unit {0}
no_loader s index c = (none, s)

-- `Matcher::select`
unfoldable pub select :
    External
    → Matcher
    → HttpRequest
    → Bytes
    → ConsumptionMode
    → List MatchCandidate
    → MatcherSession
    → MatchResult × MatcherSession
unfolding select_with_loader no_loader
select ext m actual body mode candidates session =
    let (result, session', _) =
      select_with_loader ext no_loader m actual body mode candidates session tt in
    (result, session')
