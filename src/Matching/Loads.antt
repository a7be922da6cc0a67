-- ===== src/Matching/Loads.antt =====
-- When the loader of `Matcher::select_with_loader` is asked for a body.
use eggreplay.Matching.Session.{MatcherSession, is_available}
use eggreplay.Prelude.{
  Bool, List, Option, [], inl, is_empty, refl, suc, true, ℕ, ◌∷◌, ◌≡◌, ◌⊎◌, arith, Bool-cases,
  false, if◌then◌else◌, inr, ◌&&◌, ◌++◌, ◌||◌,
}
use eggreplay.Bytes.{Bytes}
use eggreplay.External.{External}
use eggreplay.Flow.{HttpRequest}
use eggreplay.Matching.Body.{body_matches_lazy}
use eggreplay.Matching.Select.{differing, scan, select_with_loader, note}
use eggreplay.Matching.Types.{ConsumptionMode, MatchCandidate, Matcher, NearMiss, MatchDimension}

-- A loader that records the indices that it is asked for, the latest first.
abbrev pub logging :
    (ℕ → MatchCandidate → Option Bytes) → List ℕ → ℕ → MatchCandidate → Option Bytes × List ℕ
logging loads log i c = (loads i c, i ∷ log)

-- The log holds, before `old`, indices of the candidates from `base` on, in descending order, each of
-- a candidate that differs from the request in its body at most.
abbrev pub Logged : (MatchCandidate → Bool) → ℕ → List MatchCandidate → List ℕ → List ℕ → Type 0
Logged narrowed base [] old log = log ≡ old
Logged narrowed base (c ∷ cs) old log =
    Logged narrowed (suc base) cs old log
    ⊎ ((narrowed c ≡ true) × Logged narrowed (suc base) cs (base ∷ old) log)

module _ (ext : External) (loads : ℕ → MatchCandidate → Option Bytes) (m : Matcher)
    (actual : HttpRequest) (body : Bytes) (mode : ConsumptionMode) where
  abbrev pub is_narrowed : MatchCandidate → Bool
  is_narrowed c = is_empty (differing m actual c)

  stop_Logged :
      (base : ℕ) (cs : List MatchCandidate) (log : List ℕ) → Logged is_narrowed base cs log log
  stop_Logged base [] log = refl
  stop_Logged base (c ∷ cs) log = inl (stop_Logged (suc base) cs log)

  -- A comparison asks for nothing, or once for the candidate itself, which is narrowed.
  body_log_lem :
      (narrowed : Bool) (i : ℕ) (c : MatchCandidate) (log : List ℕ)
      → let log' = (body_matches_lazy ext (logging loads) m body narrowed i c log).1 in
        (log' ≡ log) ⊎ ((narrowed ≡ true) × (log' ≡ i ∷ log))
  unfolding body_matches_lazy
  body_log_lem narrowed i c log = ground arith

  Logged-cons :
      (base : ℕ) (c : MatchCandidate) (cs : List MatchCandidate) (log log' final : List ℕ)
      → (log' ≡ log) ⊎ ((is_narrowed c ≡ true) × (log' ≡ base ∷ log))
      → Logged is_narrowed (suc base) cs log' final
      → Logged is_narrowed base (c ∷ cs) log final
  Logged-cons base c cs log log' final (inl e) h = inl (rw e at h)
  Logged-cons base c cs log log' final (inr (n, e)) h = inr (n, rw e at h)

  scan-Logged :
      (base : ℕ) (cs : List MatchCandidate) (near : List NearMiss) (seen : Bool)
      (session : MatcherSession) (log : List ℕ)
      → Logged is_narrowed base cs log
          (scan ext (logging loads) m actual body mode base cs near seen session log).2
  unfolding scan
  scan-Logged base [] near seen session log = refl
  scan-Logged base (c ∷ cs) near seen session log =
      let narrowed = is_narrowed c in
      let (same, log') = body_matches_lazy ext (logging loads) m body narrowed base c log in
      let asked = body_log_lem narrowed base c log in
      let hit = narrowed && same in
      let dimensions = differing m actual c ++ (if same then [] else MatchDimension.body ∷ []) in
      let near' : List NearMiss = if hit then near else note m base dimensions near in
      elim (Bool-cases (hit && is_available session base mode)) [
        | inl t ↦ rw t (Logged-cons base c cs log log' _ asked (stop_Logged (suc base) cs log'))
        | inr t ↦ rw t (
            Logged-cons base c cs log log' _ asked
              (scan-Logged (suc base) cs near' (hit || seen) session log'))
      ]

  -- The loader is asked at most once for each candidate, in fixture order, and never for one that
  -- differs from the request in its method, authority, path, query or headers.
  pub select_with_loader-Logged :
      (candidates : List MatchCandidate) (session : MatcherSession) (log : List ℕ)
      → Logged is_narrowed 0 candidates log
          (select_with_loader ext (logging loads) m actual body mode candidates session log).2
  unfolding select_with_loader
  select_with_loader-Logged candidates session log = scan-Logged 0 candidates [] false session log
