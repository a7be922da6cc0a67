-- ===== src/Matching/Replays.antt =====
-- Whole replay sessions: what the answers to any sequence of requests have in common.
use eggreplay.Prelude.{
  Bool, List, [], arith, inl, inr, suc, true, ℕ, ◌∷◌, ◌≡◌, ◌⊎◌, nat_eq, list_eq, option_eq, pair_eq,
  All, Option, none, some, Distinct,
}
use eggreplay.Bytes.{Bytes}
use eggreplay.External.{External}
use eggreplay.Flow.{HttpRequest}
use eggreplay.Matching.Outcome.{First, takes, select-Outcome}
use eggreplay.Matching.Select.{select}
use eggreplay.Matching.Session.{MatcherSession, new_session, is_available, consume}
use eggreplay.Matching.Types.{
  ConsumptionMode, once, repeat_last, MatchCandidate, matched, no_match, exhausted, Matcher,
  NearMiss,
}

-- `Replay s served`: from a new session, some sequence of requests was answered, the flows at the
-- indices `served` were served, the latest first, and the session is now `s`.
pub data Replay (ext : External) (m : Matcher) (mode : ConsumptionMode)
    (candidates : List MatchCandidate) : MatcherSession → List ℕ → Type 0 where
  start : {s : MatcherSession} → s ≡ new_session → Replay ext m mode candidates s []
  serve :
      {s s' : MatcherSession} {served : List ℕ} (actual : HttpRequest) (body : Bytes) (i : ℕ)
      → Replay ext m mode candidates s served
      → select ext m actual body mode candidates s ≡ (matched i, s')
      → Replay ext m mode candidates s' (i ∷ served)
  refuse :
      {s s' : MatcherSession} {served : List ℕ} (actual : HttpRequest) (body : Bytes)
      (near : List NearMiss)
      → Replay ext m mode candidates s served
      → (select ext m actual body mode candidates s ≡ (no_match near, s'))
        ⊎ (select ext m actual body mode candidates s ≡ (exhausted near, s'))
      → Replay ext m mode candidates s' served

First-passes :
    (p : ℕ → MatchCandidate → Bool) (base : ℕ) (cs : List MatchCandidate) (i : ℕ)
    → First p base cs i
    → (c : MatchCandidate) × (p i c ≡ true)
First-passes p base [] i h = absurd h
First-passes p base (c ∷ cs) i (inl h) = (c, rw h.1 h.0)
First-passes p base (c ∷ cs) i (inr h) = First-passes p (suc base) cs i h.1

module _ (ext : External) (m : Matcher) (mode : ConsumptionMode)
    (candidates : List MatchCandidate) where
  served_lem :
      (actual : HttpRequest) (body : Bytes) (i : ℕ) (s s' : MatcherSession)
      → select ext m actual body mode candidates s ≡ (matched i, s')
      → (is_available s i mode ≡ true) × (s' ≡ consume s i mode)
  unfolding takes
  served_lem actual body i s s' e =
      let o = rw e at (select-Outcome ext m actual body mode candidates s) in
      let (c, t) = First-passes _ 0 candidates i o.0 in (ground arith, o.1)

  refused_lem :
      (actual : HttpRequest) (body : Bytes) (near : List NearMiss) (s s' : MatcherSession)
      → (select ext m actual body mode candidates s ≡ (no_match near, s'))
        ⊎ (select ext m actual body mode candidates s ≡ (exhausted near, s'))
      → s' ≡ s
  refused_lem actual body near s s' (inl e) =
      (rw e at (select-Outcome ext m actual body mode candidates s)).2
  refused_lem actual body near s s' (inr e) =
      (rw e at (select-Outcome ext m actual body mode candidates s)).2

-- The session of the `once` mode has consumed just what was served.
once_invariant :
    (ext : External) (m : Matcher) (candidates : List MatchCandidate) {s : MatcherSession}
    {served : List ℕ}
    → Replay ext m once candidates s served
    → (s.consumed ≡ served) × Distinct served
unfolding new_session is_available consume
once_invariant ext m candidates (start e) = ground arith
once_invariant ext m candidates (serve {s} {s'} actual body i r e) =
    let (old, distinct) = once_invariant ext m candidates r in
    let (free, new) = served_lem ext m once candidates actual body i s s' e in ground arith
once_invariant ext m candidates (refuse {s} {s'} actual body near r e) =
    let (old, distinct) = once_invariant ext m candidates r in
    let same = refused_lem ext m once candidates actual body near s s' e in ground arith

-- In the `once` mode a session never serves a flow twice, whatever requests it is sent.
pub once-Distinct :
    (ext : External) (m : Matcher) (candidates : List MatchCandidate) {s : MatcherSession}
    {served : List ℕ}
    → Replay ext m once candidates s served
    → Distinct served
once-Distinct ext m candidates r = (once_invariant ext m candidates r).1

abbrev pub AllSame : List ℕ → Type 0
AllSame [] = Unit
AllSame (i ∷ l) = All (λ j. j ≡ i) l

-- Once a flow is served in the `repeat_last` mode, the session is pinned to it.
abbrev Pinned : Option ℕ → List ℕ → Type 0
Pinned last [] = last ≡ none
Pinned last (i ∷ l) = last ≡ some i

repeat_invariant :
    (ext : External) (m : Matcher) (candidates : List MatchCandidate) {s : MatcherSession}
    {served : List ℕ}
    → Replay ext m repeat_last candidates s served
    → Pinned s.last served × AllSame served
unfolding new_session is_available consume
repeat_invariant ext m candidates (start e) = ground arith
repeat_invariant ext m candidates (serve {s} {s'} {served} actual body i r e) =
    let old = repeat_invariant ext m candidates r in
    let (free, new) = served_lem ext m repeat_last candidates actual body i s s' e in
    pin served old free new
  where
    pin :
        (l : List ℕ)
        → Pinned s.last l × AllSame l
        → is_available s i repeat_last ≡ true
        → s' ≡ consume s i repeat_last
        → Pinned s'.last (i ∷ l) × AllSame (i ∷ l)
    pin [] (old, same) free new = ground arith
    pin (j ∷ l) (old, same) free new = ground arith
repeat_invariant ext m candidates (refuse {s} {s'} actual body near r e) =
    let old = repeat_invariant ext m candidates r in
    let same = refused_lem ext m repeat_last candidates actual body near s s' e in rw same old

-- In the `repeat_last` mode a session only ever serves one flow, the first that it served, also when
-- later requests match other flows.
pub repeat_last-AllSame :
    (ext : External) (m : Matcher) (candidates : List MatchCandidate) {s : MatcherSession}
    {served : List ℕ}
    → Replay ext m repeat_last candidates s served
    → AllSame served
repeat_last-AllSame ext m candidates r = (repeat_invariant ext m candidates r).1
