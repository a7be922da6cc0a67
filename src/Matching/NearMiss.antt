-- ===== src/Matching/NearMiss.antt =====
-- The diagnostics of a selection that serves nothing.
use eggreplay.Prelude.{
  All, List, [], length, true, ℕ, ◌++◌, ◌<◌, ◌∷◌, ◌≡◌, ◌≤◌, Bool, Option, is_empty, if◌then◌else◌,
  get_elem?, some,
}
use eggreplay.Bytes.{Bytes}
use eggreplay.External.{External}
use eggreplay.Flow.{HttpRequest}
use eggreplay.Matching.Body.{body_matches_lazy}
use eggreplay.Matching.Select.{differing, key_le}
use eggreplay.Matching.Types.{
  MatchCandidate, MatchDimension, NearMiss, MatchResult, matched, no_match, exhausted, Matcher,
}

-- In the order of cost, and of fixture position among equal costs.
abbrev pub Ordered : List NearMiss → Type 0
Ordered [] = Unit
Ordered (a ∷ l) = All (λ b. key_le a b ≡ true) l × Ordered l

module _ (ext : External) {S : Type 0} (loader : S → ℕ → MatchCandidate → Option Bytes × S)
    (m : Matcher) (actual : HttpRequest) (body : Bytes) (candidates : List MatchCandidate) where
  -- A report on the candidate at its index: its cost is the number of dimensions that it names, of
  -- which there are some, and these are the dimensions in which that candidate differs from the
  -- request, with the body if the comparison of the two bodies failed.
  pub record IsReport (a : NearMiss) : Type 0 where
    pub candidate : MatchCandidate
    pub at_index : get_elem? candidates a.candidate_index ≡ some candidate
    pub loaded : S
    pub same_body : Bool
    pub compared :
        (body_matches_lazy ext loader m body
          (is_empty (differing m actual candidate))
          a.candidate_index
          candidate
          loaded).0
        ≡ same_body
    pub dimensions_are :
        a.dimensions
        ≡ differing m actual candidate ++ (if same_body then [] else MatchDimension.body ∷ [])
    pub some_dimension : 0 < a.cost
    pub cost_is : a.cost ≡ length a.dimensions

  -- At most `limit` reports, in order.
  abbrev pub Reports : ℕ → List NearMiss → Type 0
  Reports limit near = Ordered near × (length near ≤ limit) × All IsReport near

  abbrev pub Diagnosed : ℕ → MatchResult → Type 0
  Diagnosed limit (matched i) = Unit
  Diagnosed limit (no_match near) = Reports limit near
  Diagnosed limit (exhausted near) = Reports limit near

  -- What the scan has noted so far.
  abbrev Noted : List NearMiss → Type 0
  Noted near = (length near ≤ m.max_near_misses) × All IsReport near
