-- ===== src/Matching/Session.antt =====
-- Consumption state of one replay session: `MatcherSession`.
use eggreplay.Prelude.{
  Bool, List, Option, [], arith, contains, none, not, refl, some, true, ℕ, ◌&&◌, ◌==◌, ◌∷◌, ◌≡◌,
  nat_eq, list_eq, option_eq, pair_eq,
}
use eggreplay.Matching.Types.{ConsumptionMode, once, repeat_last, unlimited}

-- `consumed` is a set of which only membership is ever asked.
pub record MatcherSession : Type 0 where
  pub consumed : List ℕ
  pub last : Option ℕ

unfoldable pub new_session : MatcherSession
new_session = record { consumed = []; last = none }

pinned_or : Option ℕ → ℕ → Bool → Bool
pinned_or (some last) index free = last == index
pinned_or none index free = free

-- `MatcherSession::is_available`
unfoldable pub is_available : MatcherSession → ℕ → ConsumptionMode → Bool
unfolding pinned_or
is_available s index once = not (contains s.consumed index)
is_available s index repeat_last = pinned_or s.last index (not (contains s.consumed index))
is_available s index unlimited = true

-- `MatcherSession::consume`
unfoldable pub consume : MatcherSession → ℕ → ConsumptionMode → MatcherSession
consume s index once = record s { consumed = index ∷ s.consumed }
consume s index repeat_last = record { consumed = index ∷ s.consumed; last = some index }
consume s index unlimited = s

-- What a consumed index means for later requests, in each mode.
pub is_available-consume :
    (s : MatcherSession) (i j : ℕ) (mode : ConsumptionMode)
    → is_available (consume s i mode) j mode ≡ elim mode [
      | once ↦ not (i == j) && is_available s j once
      | repeat_last ↦ i == j
      | unlimited ↦ true
    ]
unfolding is_available consume contains
is_available-consume s i j once = ground arith
is_available-consume s i j repeat_last = refl
is_available-consume s i j unlimited = refl
