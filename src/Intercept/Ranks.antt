-- ===== src/Intercept/Ranks.antt =====
-- Ranks of rules, by which `TargetPolicy::evaluate` chooses: numbers that order specificity and action.
use eggreplay.Intercept.Rules.{Best, improve, RuleAction, allow, replaces, deny}
use eggreplay.Prelude.{max, none, some, ℕ, ◌*◌, ◌+◌, ◌≡◌, refl, arith, inl, inr, ◌<◌, ◌≤◌, ◌⊎◌}

-- Rules in order of priority: the more specific first, and among equals those that deny.
abbrev pub rank : ℕ → RuleAction → ℕ
rank score allow = 2 * score + 1
rank score deny = 2 * score + 2

abbrev pub best_rank : Best → ℕ
best_rank none = 0
best_rank (some (score, action)) = rank score action

pub best_rank-improve :
    (best : Best) (score : ℕ) (action : RuleAction)
    → best_rank (improve best score action) ≡ max (best_rank best) (rank score action)
unfolding improve replaces
best_rank-improve none score allow = omega arith
best_rank-improve none score deny = omega arith
best_rank-improve (some (s, allow)) score allow = ground arith
best_rank-improve (some (s, allow)) score deny = ground arith
best_rank-improve (some (s, deny)) score allow = ground arith
best_rank-improve (some (s, deny)) score deny = ground arith

-- What has no higher rank than an allowing rule allows, or is less specific.
pub rank-below :
    (s t : ℕ) (a b : RuleAction)
    → rank s a ≡ rank t allow
    → (q : ℕ) → rank q b ≤ rank t allow
    → (b ≡ allow) ⊎ (q < s)
rank-below s t allow allow h q g = inl refl
rank-below s t allow deny h q g = inr (omega arith)
rank-below s t deny b h q g = absurd (omega arith)

pub rank-allow : (s t : ℕ) (a : RuleAction) → rank s a ≡ rank t allow → a ≡ allow
rank-allow s t allow h = refl
rank-allow s t deny h = absurd (omega arith)

-- A rank which a denial attains is not that of a rule more specific than it.
pub rank-outranked :
    (s t q : ℕ) (b : RuleAction)
    → rank q b ≡ rank t deny
    → rank s allow ≤ rank t deny
    → (b ≡ allow) ⊎ (q < s)
    → ⊥
rank-outranked s t q allow h g o = omega arith
rank-outranked s t q deny h g (inl o) = cc o
rank-outranked s t q deny h g (inr o) = omega arith
