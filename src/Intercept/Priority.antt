-- ===== src/Intercept/Priority.antt =====
-- What decides a target: proofs about `TargetPolicy::evaluate`.
use eggreplay.Intercept.Ranks.{
  rank, best_rank, best_rank-improve, rank-outranked, rank-allow, rank-below,
}
use eggreplay.Intercept.Hosts.{IpAddresses, NormalizedHost}
use eggreplay.Prelude.{
  Bool, arith, max, none, some, ℕ, ◌≡◌, Bool-cases, List, [], ap, if◌then◌else◌, inl, inr, refl,
  subst, sym, ◌∙◌, ◌∷◌, All, Any, false, true, ◌≤◌, ◌⊎◌, leb, ◌<◌, All-imp, Any-imp, ◌↔◌, All-Any,
}
use eggreplay.Intercept.Rules.{
  Best, RequestKind, Rule, improve, specificity, rule_matches, allow, find_best, evaluate,
  TargetPolicy, deny, verdict,
}

module _ (ips : IpAddresses) (host : NormalizedHost ips.IpAddr) (port : ℕ)
    (kind : RequestKind) where
  open ips use {IpAddr}

  abbrev applies : Rule IpAddr → Bool
  applies r = rule_matches ips host port kind r

  abbrev rule_rank : Rule IpAddr → ℕ
  rule_rank r = rank (specificity ips r) r.action

  -- The highest rank among a start and the rules that apply.
  abbrev top : List (Rule IpAddr) → ℕ → ℕ
  top [] n = n
  top (r ∷ rs) n = top rs (if applies r then max n (rule_rank r) else n)

  best_rank-find_best :
      (rs : List (Rule IpAddr)) (best : Best)
      → best_rank (find_best ips host port kind rs best) ≡ top rs (best_rank best)
  unfolding find_best
  best_rank-find_best [] best = refl
  best_rank-find_best (r ∷ rs) best = elim (Bool-cases (applies r)) [
    | inr missed ↦ rw missed (best_rank-find_best rs best)
    | inl applied ↦ rw applied (
        best_rank-find_best rs (improve best (specificity ips r) r.action)
        ∙ ap (top rs) (best_rank-improve best (specificity ips r) r.action))
  ]

  -- The order of the rules is of no account.
  top-grows : (rs : List (Rule IpAddr)) (n : ℕ) → n ≤ top rs n
  top-grows [] n = omega arith
  top-grows (r ∷ rs) n = elim (Bool-cases (applies r)) [
    | inr missed ↦ rw missed (top-grows rs n)
    | inl applied ↦ rw applied (omega (arith, top-grows rs (max n (rule_rank r))))
  ]

  top-applied :
      (r : Rule IpAddr) (rs : List (Rule IpAddr)) (n : ℕ)
      → applies r ≡ true
      → top (r ∷ rs) n ≡ top rs (max n (rule_rank r))
  top-applied r rs n applied = rw applied refl

  top-missed :
      (r : Rule IpAddr) (rs : List (Rule IpAddr)) (n : ℕ)
      → applies r ≡ false
      → top (r ∷ rs) n ≡ top rs n
  top-missed r rs n missed = rw missed refl

  -- No rule that applies has a higher rank.
  top-bounds :
      (rs : List (Rule IpAddr)) (n m : ℕ)
      → top rs n ≤ m
      → All (λ q. (applies q ≡ false) ⊎ (rule_rank q ≤ m)) rs
  top-bounds [] n m h = tt
  top-bounds (r ∷ rs) n m h = elim (Bool-cases (applies r)) [
    | inr missed ↦ (inl missed, top-bounds rs n m (subst (λ k. k ≤ m) (top-missed r rs n missed) h))
    | inl applied ↦
        let below = subst (λ k. k ≤ m) (top-applied r rs n applied) h in
        (
          inr (omega (arith, below, top-grows rs (max n (rule_rank r)))),
          top-bounds rs (max n (rule_rank r)) m below,
        )
  ]

  -- The highest rank is that of the start or of a rule that applies.
  top-attained :
      (rs : List (Rule IpAddr)) (n m : ℕ)
      → top rs n ≡ m
      → (m ≡ n) ⊎ Any (λ q. (applies q ≡ true) × (rule_rank q ≡ m)) rs
  top-attained [] n m h = inl (sym h)
  top-attained (r ∷ rs) n m h = elim (Bool-cases (applies r)) [
    | inr missed ↦ elim (top-attained rs n m (sym (top-missed r rs n missed) ∙ h)) [
      | inl same ↦ inl same
      | inr q ↦ inr (inr q)
    ]
    | inl applied ↦
        elim (top-attained rs (max n (rule_rank r)) m (sym (top-applied r rs n applied) ∙ h)) [
          | inr q ↦ inr (inr q)
          | inl same ↦ max-cases r n m rs applied same
        ]
  ]
    where
      max-cases :
          (r : Rule IpAddr) (n m : ℕ) (rs : List (Rule IpAddr))
          → applies r ≡ true
          → m ≡ max n (rule_rank r)
          → (m ≡ n) ⊎ Any (λ q. (applies q ≡ true) × (rule_rank q ≡ m)) (r ∷ rs)
      max-cases r n m rs applied same = elim (Bool-cases (leb (rule_rank r) n)) [
        | inl below ↦ inl (ground arith)
        | inr above ↦ inr (inl (applied, ground arith))
      ]

  -- A rule that a denying one which applies does not outrank: the latter is strictly less specific.
  abbrev Outranks : Rule IpAddr → Rule IpAddr → Type 0
  Outranks r q =
      (applies q ≡ false) ⊎ ((q.action ≡ allow) ⊎ (specificity ips q < specificity ips r))

  -- A rule that allows a target among rules: it applies, and it outranks every one of them.
  abbrev pub Permits : List (Rule IpAddr) → Rule IpAddr → Type 0
  Permits rules r = (applies r ≡ true) × ((r.action ≡ allow) × All (Outranks r) rules)

  top-find_best :
      (rs : List (Rule IpAddr)) (best : Best)
      → find_best ips host port kind rs none ≡ best
      → top rs 0 ≡ best_rank best
  top-find_best rs best h = sym (best_rank-find_best rs none) ∙ ap best_rank h

  -- A rule of the highest rank, which allows, outranks all.
  Permits-top :
      (rs qs : List (Rule IpAddr)) (s : ℕ)
      → top qs 0 ≡ rank s allow
      → Any (λ r. (applies r ≡ true) × (rule_rank r ≡ rank s allow)) rs
      → Any (Permits qs) rs
  Permits-top rs qs s highest = Any-imp rs (λ r (applied, same). (
    applied,
    (
      rank-allow (specificity ips r) s r.action same,
      All-imp qs
          (λ q either. elim either [
            | inl missed ↦ inl missed
            | inr below ↦
                inr (
                  rank-below (specificity ips r) s r.action q.action same (specificity ips q) below)
          ])
          (top-bounds qs 0 (rank s allow) (omega (arith, highest))),
    ),
  ))

  verdict-rank : (best : Best) → verdict best ≡ allow → (s : ℕ) × (best_rank best ≡ rank s allow)
  unfolding verdict
  verdict-rank none h = absurd (cc h)
  verdict-rank (some (s, allow)) h = (s, refl)
  verdict-rank (some (s, deny)) h = absurd (cc h)

  -- A rule that permits has at most the highest rank.
  permitted-rank :
      (rs : List (Rule IpAddr)) (m : ℕ)
      → top rs 0 ≤ m
      → Any (Permits rs) rs
      → (r : Rule IpAddr) × ((rule_rank r ≤ m) × Permits rs r)
  permitted-rank rs m highest permitted =
      let (r, (bound, (applied, allows))) = All-Any rs (top-bounds rs 0 m highest) permitted in
      elim bound [
        | inl missed ↦ absurd (cc (applied, missed))
        | inr below ↦ (r, (below, (applied, allows)))
      ]

  -- Nor does a rule that permits leave the highest rank to one that denies.
  not-outranked :
      (rs : List (Rule IpAddr)) (r : Rule IpAddr) (t : ℕ)
      → Permits rs r
      → rule_rank r ≤ rank t deny
      → Any (λ q. (applies q ≡ true) × (rule_rank q ≡ rank t deny)) rs
      → ⊥
  not-outranked rs r t (applied, (allowed, outranks)) below attained =
      let (q, (either, (hit, same))) = All-Any rs outranks attained in
      elim either [
        | inl missed ↦ cc (missed, hit)
        | inr weaker ↦
            rank-outranked (specificity ips r) t (specificity ips q) q.action same
              (subst (λ a. rank (specificity ips r) a ≤ rank t deny) allowed below) weaker
      ]

  best-permitted :
      (rs : List (Rule IpAddr)) (best : Best)
      → top rs 0 ≡ best_rank best
      → Any (Permits rs) rs
      → verdict best ≡ allow
  unfolding verdict
  best-permitted rs (some (s, allow)) highest permitted = refl
  best-permitted rs none highest permitted =
      let (r, (below, (applied, (allowed, outranks)))) =
        permitted-rank rs 0 (omega (arith, highest)) permitted in
      absurd (omega (arith, subst (λ a. rank (specificity ips r) a ≤ 0) allowed below))
  best-permitted rs (some (s, deny)) highest permitted =
      let (r, (below, permits)) =
        permitted-rank rs (rank s deny) (omega (arith, highest)) permitted in
      elim (top-attained rs 0 (rank s deny) highest) [
        | inl nothing ↦ absurd (omega arith)
        | inr attained ↦ absurd (not-outranked rs r s permits below attained)
      ]

  permitted-best :
      (rs : List (Rule IpAddr)) (best : Best)
      → top rs 0 ≡ best_rank best
      → verdict best ≡ allow
      → Any (Permits rs) rs
  permitted-best rs best highest allowed =
      let (s, same) = verdict-rank best allowed in
      elim (top-attained rs 0 (rank s allow) (highest ∙ same)) [
        | inl nothing ↦ absurd (omega arith)
        | inr attained ↦ Permits-top rs rs s (highest ∙ same) attained
      ]

  -- A policy allows a target exactly if one of its rules applies, allows, and is more specific than
  -- every rule which applies and denies. With no such rule it denies.
  pub evaluate-allow :
      (p : TargetPolicy IpAddr)
      → (evaluate ips p host port kind ≡ allow) ↔ Any (Permits p.rules) p.rules
  unfolding evaluate
  evaluate-allow p =
      let highest = sym (best_rank-find_best p.rules none) in
      (permitted-best p.rules _ highest, best-permitted p.rules _ highest)
