-- ===== src/Stream/Order.antt =====
-- `timeline_order_offsets`, and a proof that it orders every flow once.
use eggreplay.Prelude.{
  Bool, List, Message, Result, [], any, if◌then◌else◌, leb, ltb, map, ok, reject_if, suc, text, ℕ,
  ◌&&◌, ◌==◌, ◌||◌, ◌∷◌, nat_eq, list_eq, option_eq, pair_eq, ◌>>◌, All, Bool-cases, arith, false,
  inl, inr, refl, true, ◌+◌, ◌≡◌, ==_iff, All-imp, any-All-not, ap, get_elem?, length, ltb→le,
  ok-inj, reject_if-eq-ok, some, sym, zero, ◌<◌, ◌∙◌, ◌≤◌, ◌⊎◌, subst,
}
use eggreplay.Stream.Types.{max_stream_total_delay_ns}

-- The sort key: the offset and then the index. The indices come with their offsets.
unfoldable pub before : ℕ × ℕ → ℕ × ℕ → Bool
before (o, i) (p, j) = ltb o p || (o == p && leb i j)

unfoldable pub insert_offset : ℕ × ℕ → List (ℕ × ℕ) → List (ℕ × ℕ)
unfolding before
insert_offset a [] = a ∷ []
insert_offset a (b ∷ l) = let rest = insert_offset a l in if before a b then a ∷ b ∷ l else b ∷ rest

unfoldable pub sort_offsets : List (ℕ × ℕ) → List (ℕ × ℕ)
unfolding insert_offset
sort_offsets [] = []
sort_offsets (a ∷ l) = insert_offset a (sort_offsets l)

-- The offsets with their indices, from an index on.
unfoldable pub enumerate_from : ℕ → List ℕ → List (ℕ × ℕ)
enumerate_from i [] = []
enumerate_from i (o ∷ os) = (o, i) ∷ enumerate_from (suc i) os

-- `timeline_order_offsets`
unfoldable pub timeline_order_offsets : List ℕ → ℕ → Result (List ℕ) Message
unfolding sort_offsets enumerate_from
timeline_order_offsets offsets max_concurrency = do
  reject_if (max_concurrency == 0 || ltb 1024 max_concurrency)
      (text "maximum timeline concurrency must be within 1..=1024")
  reject_if (any (ltb max_stream_total_delay_ns) offsets)
      (text "timeline start offset exceeds configured limit")
  ok (map (λ a. a.1) (sort_offsets (enumerate_from 0 offsets)))

-- In the order of the keys.
abbrev Ordered : List (ℕ × ℕ) → Type 0
Ordered [] = Unit
Ordered (a ∷ l) = All (λ b. before a b ≡ true) l × Ordered l

before_trans : (a b c : ℕ × ℕ) → before a b ≡ true → before b c ≡ true → before a c ≡ true
unfolding before
before_trans (o, i) (p, j) (q, k) h g = ground arith

before_total : (a b : ℕ × ℕ) → before a b ≡ false → before b a ≡ true
unfolding before
before_total (o, i) (p, j) h = ground arith

All-before :
    (a b : ℕ × ℕ) (l : List (ℕ × ℕ))
    → before a b ≡ true
    → All (λ c. before b c ≡ true) l
    → All (λ c. before a c ≡ true) l
All-before a b [] h g = tt
All-before a b (c ∷ l) h g = (before_trans a b c h g.0, All-before a b l h g.1)

All-insert :
    (P : ℕ × ℕ → Type 0) (a : ℕ × ℕ) (l : List (ℕ × ℕ)) → P a → All P l → All P (insert_offset a l)
unfolding insert_offset
All-insert P a [] p h = (p, tt)
All-insert P a (b ∷ l) p h = elim (Bool-cases (before a b)) [
  | inl t ↦ rw t (p, h)
  | inr t ↦ rw t (h.0, All-insert P a l p h.1)
]

Ordered-insert : (a : ℕ × ℕ) (l : List (ℕ × ℕ)) → Ordered l → Ordered (insert_offset a l)
unfolding insert_offset
Ordered-insert a [] h = (tt, tt)
Ordered-insert a (b ∷ l) h = elim (Bool-cases (before a b)) [
  | inl t ↦ rw t ((t, All-before a b l t h.0), h)
  | inr t ↦
      rw t
        (All-insert (λ c. before b c ≡ true) a l (before_total a b t) h.0, Ordered-insert a l h.1)
]

Ordered-sort : (l : List (ℕ × ℕ)) → Ordered (sort_offsets l)
unfolding sort_offsets
Ordered-sort [] = tt
Ordered-sort (a ∷ l) = Ordered-insert a (sort_offsets l) (Ordered-sort l)

-- How often a pair occurs.
unfoldable pub count_of : ℕ × ℕ → List (ℕ × ℕ) → ℕ
count_of a [] = 0
count_of a (b ∷ l) = (if b == a then 1 else 0) + count_of a l

count-insert :
    (a b : ℕ × ℕ) (l : List (ℕ × ℕ))
    → count_of b (insert_offset a l) ≡ (if a == b then 1 else 0) + count_of b l
unfolding insert_offset count_of
count-insert a b [] = ground arith
count-insert a b (c ∷ l) = ground (arith, count-insert a b l)

count-sort : (b : ℕ × ℕ) (l : List (ℕ × ℕ)) → count_of b (sort_offsets l) ≡ count_of b l
unfolding sort_offsets count_of
count-sort b [] = refl
count-sort b (a ∷ l) = ground (arith, count-insert a b (sort_offsets l), count-sort b l)

-- In the order of the offsets, and of the indices among equal offsets.
abbrev pub Earlier : ℕ × ℕ → ℕ × ℕ → Type 0
Earlier a b = (a.0 < b.0) ⊎ ((a.0 ≡ b.0) × (a.1 ≤ b.1))

abbrev pub InOrder : List (ℕ × ℕ) → Type 0
InOrder [] = Unit
InOrder (a ∷ l) = All (Earlier a) l × InOrder l

before-Earlier : (a b : ℕ × ℕ) → before a b ≡ true → Earlier a b
unfolding before
before-Earlier (o, i) (p, j) h = ground (arith, ==_iff o p)

Ordered-InOrder : (l : List (ℕ × ℕ)) → Ordered l → InOrder l
Ordered-InOrder [] h = tt
Ordered-InOrder (a ∷ l) h = (All-imp l (before-Earlier a) h.0, Ordered-InOrder l h.1)

-- The indices from `k` on are given once each, with their offsets.
apart_index : (x o k i : ℕ) → (k ≡ i → ⊥) → ◌==◌ {A = ℕ × ℕ} (x, k) (o, i) ≡ false
apart_index x o k i apart = elim (Bool-cases (◌==◌ {A = ℕ × ℕ} (x, k) (o, i))) [
  | inr other ↦ other
  | inl same ↦ absurd (apart (ap (λ (q : ℕ × ℕ). q.1) ((==_iff {A = ℕ × ℕ} (x, k) (o, i)).0 same)))
]

same_index : (x o k i : ℕ) → x ≡ o → k ≡ i → ◌==◌ {A = ℕ × ℕ} (x, k) (o, i) ≡ true
same_index x o k i h g = (==_iff {A = ℕ × ℕ} (x, k) (o, i)).1 (cc (h, g))

count-below :
    (offsets : List ℕ) (o i k : ℕ) → i < k → count_of (o, i) (enumerate_from k offsets) ≡ 0
unfolding count_of enumerate_from
count-below [] o i k lt = refl
count-below (x ∷ offsets) o i k lt =
    rw (apart_index x o k i (omega arith)) (omega (arith, count-below offsets o i (suc k)))

count-enumerate :
    (offsets : List ℕ) (o j k : ℕ)
    → get_elem? offsets j ≡ some o
    → count_of (o, k + j) (enumerate_from k offsets) ≡ 1
unfolding count_of enumerate_from
count-enumerate [] o j k h = absurd (cc h)
count-enumerate (x ∷ offsets) o zero k h =
    rw (same_index x o k (k + 0) (cc h) (omega arith))
      (omega (arith, count-below offsets o (k + 0) (suc k)))
count-enumerate (x ∷ offsets) o (suc j) k h =
    let here : suc k + j ≡ k + suc j = omega arith in
    rw (apart_index x o k (k + suc j) (λ e. omega (arith, e))) (
      subst (λ n. 0 + count_of (o, n) (enumerate_from (suc k) offsets) ≡ 1) here
        (omega (arith, count-enumerate offsets o j (suc k) h)))

length-insert : (a : ℕ × ℕ) (l : List (ℕ × ℕ)) → length (insert_offset a l) ≡ suc (length l)
unfolding insert_offset
length-insert a [] = refl
length-insert a (b ∷ l) = ground (arith, length-insert a l)

length-sort : (l : List (ℕ × ℕ)) → length (sort_offsets l) ≡ length l
unfolding sort_offsets
length-sort [] = refl
length-sort (a ∷ l) = omega (arith, length-insert a (sort_offsets l), length-sort l)

zero_plus : (n : ℕ) → 0 + n ≡ n
zero_plus n = omega arith

length-enumerate : (k : ℕ) (os : List ℕ) → length (enumerate_from k os) ≡ length os
unfolding enumerate_from
length-enumerate k [] = refl
length-enumerate k (o ∷ os) = omega (arith, length-enumerate (suc k) os)

-- An accepted timeline has a concurrency of 1 to 1024 and no offset above the limit on delays, and it
-- orders the flows by start: it is what remains of a list of offsets with their indices, as long as the
-- offsets, in which every index stands once with its offset, in the order of the offsets, and of the
-- indices among equal offsets.
pub timeline_order_offsets_lem :
    (offsets : List ℕ) (max_concurrency : ℕ) {order : List ℕ}
    → timeline_order_offsets offsets max_concurrency ≡ ok order
    → (0 < max_concurrency)
      × (max_concurrency ≤ 1024)
      × All (λ o. o ≤ max_stream_total_delay_ns) offsets
      × ((keyed : List (ℕ × ℕ)) × (order ≡ map (λ a. a.1) keyed)
          × (length keyed ≡ length offsets)
          × InOrder keyed
          × ((i o : ℕ) → get_elem? offsets i ≡ some o → count_of (o, i) keyed ≡ 1))
unfolding timeline_order_offsets
timeline_order_offsets_lem offsets max_concurrency {order} h =
    let (slots, h) = reject_if-eq-ok (max_concurrency == 0 || ltb 1024 max_concurrency) _ _ h in
    let (early, h) = reject_if-eq-ok (any (ltb max_stream_total_delay_ns) offsets) _ _ h in
    let pairs = enumerate_from 0 offsets in
    (
      grind (arith, slots),
      grind (arith, slots),
      All-imp offsets (λ o. ltb→le max_stream_total_delay_ns o)
          (any-All-not (ltb max_stream_total_delay_ns) offsets early),
      (
        sort_offsets pairs,
        sym (ok-inj h),
        length-sort pairs ∙ length-enumerate 0 offsets,
        Ordered-InOrder (sort_offsets pairs) (Ordered-sort pairs),
        λ i o at.
            count-sort (o, i) pairs
            ∙ subst (λ n. count_of (o, n) pairs ≡ 1) (zero_plus i)
                (count-enumerate offsets o i 0 at),
      ),
    )
