-- ===== src/Matching/Outcome.antt =====
-- What one selection answers, for every request and every list of candidates: proofs about
-- `Matcher::select_with_loader`.
use eggreplay.Prelude.{
  Bool, List, Option, [], false, is_empty, suc, true, ℕ, ◌&&◌, ◌∷◌, ◌≡◌, ◌⊎◌, arith, Bool-cases,
  if◌then◌else◌, inl, inr, refl, ◌++◌, ◌||◌, none,
}
use eggreplay.Bytes.{Bytes}
use eggreplay.External.{External}
use eggreplay.Flow.{HttpRequest}
use eggreplay.Matching.Body.{body_matches_lazy}
use eggreplay.Matching.Select.{differing, finish, scan, note, select, select_with_loader, no_loader}
use eggreplay.Matching.Session.{MatcherSession, is_available, consume}
use eggreplay.Matching.Types.{
  ConsumptionMode, MatchCandidate, MatchResult, matched, no_match, exhausted, Matcher, NearMiss,
  MatchDimension,
}

-- A predicate of every candidate with its index, from a first index on.
abbrev pub Each : (ℕ → MatchCandidate → Type 0) → ℕ → List MatchCandidate → Type 0
Each P base [] = Unit
Each P base (c ∷ cs) = P base c × Each P (suc base) cs

-- Some candidate, with its index, passes a test.
abbrev pub Some : (ℕ → MatchCandidate → Bool) → ℕ → List MatchCandidate → Type 0
Some p base [] = ⊥
Some p base (c ∷ cs) = (p base c ≡ true) ⊎ Some p (suc base) cs

-- The candidate at index `i` passes a test that all before it fail.
abbrev pub First : (ℕ → MatchCandidate → Bool) → ℕ → List MatchCandidate → ℕ → Type 0
First p base [] i = ⊥
First p base (c ∷ cs) i =
    ((p base c ≡ true) × (i ≡ base)) ⊎ ((p base c ≡ false) × First p (suc base) cs i)

-- A loader that only answers, by a function of the candidate and its index.
abbrev pub answering :
    (ℕ → MatchCandidate → Option Bytes) → Unit {0} → ℕ → MatchCandidate → Option Bytes × Unit {0}
answering loads s i c = (loads i c, s)

module _ (ext : External) (loads : ℕ → MatchCandidate → Option Bytes) (m : Matcher)
    (actual : HttpRequest) (body : Bytes) (mode : ConsumptionMode) where
  -- Whether a candidate matches the request, in every dimension and in its body.
  unfoldable pub hit : ℕ → MatchCandidate → Bool
  hit i c =
      let narrowed = is_empty (differing m actual c) in
      narrowed && (body_matches_lazy ext (answering loads) m body narrowed i c tt).0

  unfoldable pub takes : MatcherSession → ℕ → MatchCandidate → Bool
  takes session i c = hit i c && is_available session i mode

  abbrev pub Outcome :
      ℕ → List MatchCandidate → Bool → MatcherSession → MatchResult → MatcherSession → Type 0
  Outcome base cs seen session (matched i) after =
      First (takes session) base cs i × (after ≡ consume session i mode)
  Outcome base cs seen session (exhausted near) after =
      Each (λ i c. takes session i c ≡ false) base cs
      × ((seen ≡ true) ⊎ Some hit base cs)
      × (after ≡ session)
  Outcome base cs seen session (no_match near) after =
      Each (λ i c. hit i c ≡ false) base cs × (seen ≡ false) × (after ≡ session)

  module _ {S : Type 0} (loader : S → ℕ → MatchCandidate → Option Bytes × S)
      (answers : (s : S) (i : ℕ) (c : MatchCandidate) → (loader s i c).0 ≡ loads i c) where
    body_match_lem :
        (narrowed : Bool) (i : ℕ) (c : MatchCandidate) (s : S)
        → (body_matches_lazy ext loader m body narrowed i c s).0
          ≡ (body_matches_lazy ext (answering loads) m body narrowed i c tt).0
    unfolding body_matches_lazy
    body_match_lem narrowed i c s = ground (arith, answers s i c)

    loaded_state : ℕ → MatchCandidate → S → S
    loaded_state i c s =
        (body_matches_lazy ext loader m body (is_empty (differing m actual c)) i c s).1

    near_after : ℕ → MatchCandidate → List NearMiss → S → List NearMiss
    near_after i c near s =
        let narrowed = is_empty (differing m actual c) in
        let same = (body_matches_lazy ext loader m body narrowed i c s).0 in
        if narrowed && same
        then near
        else note m i (differing m actual c ++ (if same then [] else MatchDimension.body ∷ [])) near

    module _ (base : ℕ) (c : MatchCandidate) (cs : List MatchCandidate) (near : List NearMiss)
        (seen : Bool) (session : MatcherSession) (s : S) where
      scan_taken :
          takes session base c ≡ true
          → scan ext loader m actual body mode base (c ∷ cs) near seen session s
            ≡ (matched base, consume session base mode, loaded_state base c s)
      unfolding scan takes hit loaded_state
      scan_taken t = ground (arith, body_match_lem (is_empty (differing m actual c)) base c s)

      scan_passed :
          takes session base c ≡ false
          → scan ext loader m actual body mode base (c ∷ cs) near seen session s
            ≡ scan ext loader m actual body mode
                (suc base)
                cs
                (near_after base c near s)
                (hit base c || seen)
                session
                (loaded_state base c s)
      unfolding scan takes hit loaded_state near_after
      scan_passed t = ground (arith, body_match_lem (is_empty (differing m actual c)) base c s)

      Outcome-cons :
          (result : MatchResult) (after : MatcherSession)
          → takes session base c ≡ false
          → Outcome (suc base) cs (hit base c || seen) session result after
          → Outcome base (c ∷ cs) seen session result after
      unfolding takes
      Outcome-cons (matched i) after t h = ground arith
      Outcome-cons (exhausted l) after t h = ground arith
      Outcome-cons (no_match l) after t h = ground arith

    abbrev Answered :
        ℕ → List MatchCandidate → Bool → MatcherSession → MatchResult × MatcherSession × S → Type 0
    Answered base cs seen session r = Outcome base cs seen session r.0 r.1

    scan-Outcome :
        (base : ℕ) (cs : List MatchCandidate) (near : List NearMiss) (seen : Bool)
        (session : MatcherSession) (s : S)
        → Answered base cs seen session
            (scan ext loader m actual body mode base cs near seen session s)
    scan-Outcome base [] near seen session s = unfold scan finish in ground arith
    scan-Outcome base (c ∷ cs) near seen session s = elim (Bool-cases (takes session base c)) [
      | inl t ↦ rw (scan_taken base c cs near seen session s t) (inl (t, refl), refl)
      | inr t ↦ rw (scan_passed base c cs near seen session s t) (
          Outcome-cons base c cs near seen session s _ _ t
            (scan-Outcome (suc base) cs _ _ session _))
    ]

    -- For a loader whose answers do not depend on its state: a match is the first candidate that
    -- agrees with the request in every dimension and in its body and is still available, and it alone
    -- is consumed; `Exhausted` is answered exactly when candidates agree but none is available, and
    -- `NoMatch` when none agrees, and both leave the session as it was.
    pub select_with_loader-Outcome :
        (candidates : List MatchCandidate) (session : MatcherSession) (s : S)
        → Answered 0 candidates false session
            (select_with_loader ext loader m actual body mode candidates session s)
    unfolding select_with_loader
    select_with_loader-Outcome candidates session s = scan-Outcome 0 candidates [] false session s

-- The same of `Matcher::select`, which loads nothing.
pub select-Outcome :
    (ext : External) (m : Matcher) (actual : HttpRequest) (body : Bytes) (mode : ConsumptionMode)
    (candidates : List MatchCandidate) (session : MatcherSession)
    → let r = select ext m actual body mode candidates session in
      Outcome ext (λ i c. none) m actual body mode 0 candidates false session r.0 r.1
unfolding select
select-Outcome ext m actual body mode candidates session =
    select_with_loader-Outcome ext (λ i c. none) m actual body mode no_loader (λ s i c. refl)
      candidates session tt
