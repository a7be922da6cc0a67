-- ===== src/BTree.antt =====
-- `BTreeMap<String, V>` and `BTreeSet<String>`: association lists that insertion keeps in the byte
-- order of their keys.
use Prim.Native.Nat.{compare, Ordering}
use eggreplay.Prelude.{
  ◌+◌, ◌≤◌, ◌≡◌, refl, Bool, false, ◌||◌, List, [], ◌∷◌, Option, none, some, arith, ◌==◌, ==_iff,
  nat_eq, list_eq, if◌then◌else◌, length, All, All-imp, inl, inr, ◌⊎◌, option_eq, pair_eq,
}
use eggreplay.Bytes.{Bytes}

-- `Ord for str`: lexicographic by bytes.
unfoldable pub compare_bytes : Bytes → Bytes → Ordering
compare_bytes [] [] = Ordering.eq
compare_bytes [] (d ∷ t) = Ordering.lt
compare_bytes (c ∷ s) [] = Ordering.gt
compare_bytes (c ∷ s) (d ∷ t) =
    let rest = compare_bytes s t in
    elim (compare c d) [
      | Ordering.lt ↦ Ordering.lt
      | Ordering.eq ↦ rest
      | Ordering.gt ↦ Ordering.gt
    ]

pub compare_bytes_eq : (s t : Bytes) → compare_bytes s t ≡ Ordering.eq → s ≡ t
unfolding compare_bytes
compare_bytes_eq [] [] h = refl
compare_bytes_eq [] (d ∷ t) h = cc
compare_bytes_eq (c ∷ s) [] h = cc
compare_bytes_eq (c ∷ s) (d ∷ t) h = ground (arith, compare_bytes_eq s t)

compare_bytes_self : (s t : Bytes) → s ≡ t → compare_bytes s t ≡ Ordering.eq
unfolding compare_bytes
compare_bytes_self [] [] h = refl
compare_bytes_self [] (d ∷ t) h = cc
compare_bytes_self (c ∷ s) [] h = cc
compare_bytes_self (c ∷ s) (d ∷ t) h = ground (arith, compare_bytes_self s t)

abbrev pub BTreeMap {ℓ} : Type ℓ → Type ℓ
BTreeMap V = List (Bytes × V)

module _ {ℓ} {V : Type ℓ} where
  unfoldable pub get : BTreeMap V → Bytes → Option V
  get [] k = none
  get ((j, v) ∷ m) k = if j == k then some v else get m k

  unfoldable pub insert : Bytes → V → BTreeMap V → BTreeMap V
  insert k v [] = (k, v) ∷ []
  insert k v ((j, w) ∷ m) =
      let rest = insert k v m in
      elim (compare_bytes k j) [
        | Ordering.lt ↦ (k, v) ∷ (j, w) ∷ m
        | Ordering.eq ↦ (k, v) ∷ m
        | Ordering.gt ↦ (j, w) ∷ rest
      ]

  pub get-insert :
      (k j : Bytes) (v : V) (m : BTreeMap V)
      → get (insert k v m) j ≡ (if k == j then some v else get m j)
  unfolding get insert
  get-insert k j v [] = refl
  get-insert k j v ((i, w) ∷ m) = ground (
    arith,
    ==_iff k j,
    ==_iff i j,
    compare_bytes_eq k i,
    compare_bytes_self k i,
    get-insert k j v m,
  )

  pub length-insert : (k : Bytes) (v : V) (m : BTreeMap V) → length (insert k v m) ≤ length m + 1
  unfolding insert
  length-insert k v [] = omega arith
  length-insert k v ((i, w) ∷ m) = ground (arith, length-insert k v m)

-- Sets of strings. `add` returns the set after `insert`; `contains` says beforehand what `insert`
-- would return.
abbrev pub BTreeSet : Type 0
BTreeSet = List Bytes

unfoldable pub contains : BTreeSet → Bytes → Bool
contains [] k = false
contains (j ∷ s) k = j == k || contains s k

unfoldable pub add : Bytes → BTreeSet → BTreeSet
add k [] = k ∷ []
add k (j ∷ s) =
    let rest = add k s in
    elim (compare_bytes k j) [
      | Ordering.lt ↦ k ∷ j ∷ s
      | Ordering.eq ↦ j ∷ s
      | Ordering.gt ↦ j ∷ rest
    ]

pub contains-add : (k j : Bytes) (s : BTreeSet) → contains (add k s) j ≡ ((k == j) || contains s j)
unfolding contains add
contains-add k j [] = refl
contains-add k j (i ∷ s) =
    ground (arith, ==_iff k j, ==_iff i j, compare_bytes_eq k i, contains-add k j s)

-- `extend`, `collect`
unfoldable pub extend : BTreeSet → List Bytes → BTreeSet
extend s [] = s
extend s (k ∷ ks) = extend (add k s) ks

pub contains-extend :
    (ks : List Bytes) (s : BTreeSet) (j : Bytes)
    → contains (extend s ks) j ≡ (contains s j || contains ks j)
unfolding contains extend
contains-extend [] s j = ground arith
contains-extend (k ∷ ks) s j = ground (arith, contains-extend ks (add k s) j, contains-add k j s)

-- The order of strings is transitive, and what is not below or equal is above.
compare_bytes_trans :
    (s t u : Bytes)
    → compare_bytes s t ≡ Ordering.lt
    → compare_bytes t u ≡ Ordering.lt
    → compare_bytes s u ≡ Ordering.lt
unfolding compare_bytes
compare_bytes_trans [] [] u h g = g
compare_bytes_trans [] (d ∷ t) [] h g = cc g
compare_bytes_trans [] (d ∷ t) (e ∷ u) h g = refl
compare_bytes_trans (c ∷ s) [] u h g = cc h
compare_bytes_trans (c ∷ s) (d ∷ t) [] h g = cc g
compare_bytes_trans (c ∷ s) (d ∷ t) (e ∷ u) h g = ground (arith, compare_bytes_trans s t u)

compare_bytes_flip :
    (s t : Bytes) → compare_bytes s t ≡ Ordering.gt → compare_bytes t s ≡ Ordering.lt
unfolding compare_bytes
compare_bytes_flip [] [] h = cc h
compare_bytes_flip [] (d ∷ t) h = cc h
compare_bytes_flip (c ∷ s) [] h = refl
compare_bytes_flip (c ∷ s) (d ∷ t) h = ground (arith, compare_bytes_flip s t)

-- In the order of strings, each once.
abbrev pub Above : Bytes → BTreeSet → Type 0
Above k s = All (λ j. compare_bytes k j ≡ Ordering.lt) s

abbrev pub Ascending : BTreeSet → Type 0
Ascending [] = Unit
Ascending (k ∷ s) = Above k s × Ascending s

Above-add :
    (i k : Bytes) (s : BTreeSet) → compare_bytes i k ≡ Ordering.lt → Above i s → Above i (add k s)
unfolding add
Above-add i k [] lt above = (lt, tt)
Above-add i k (j ∷ s) lt above = ground (arith, Above-add i k s)

Ordering-cases : (o : Ordering) → (o ≡ Ordering.lt) ⊎ ((o ≡ Ordering.eq) ⊎ (o ≡ Ordering.gt))
Ordering-cases Ordering.lt = inl refl
Ordering-cases Ordering.eq = inr (inl refl)
Ordering-cases Ordering.gt = inr (inr refl)

Above-trans : (k j : Bytes) (s : BTreeSet) → compare_bytes k j ≡ Ordering.lt → Above j s → Above k s
Above-trans k j s lt above = All-imp s (λ i. compare_bytes_trans k j i lt) above

Ascending-add : (k : Bytes) (s : BTreeSet) → Ascending s → Ascending (add k s)
unfolding add
Ascending-add k [] h = (tt, tt)
Ascending-add k (j ∷ s) (above, h) = elim (Ordering-cases (compare_bytes k j)) [
  | inl lt ↦ rw (add, lt) ((lt, Above-trans k j s lt above), (above, h))
  | inr (inl eq) ↦ rw (add, eq) (above, h)
  | inr (inr gt) ↦
      rw (add, gt) (Above-add j k s (compare_bytes_flip k j gt) above, Ascending-add k s h)
]

pub Ascending-extend : (ks : List Bytes) (s : BTreeSet) → Ascending s → Ascending (extend s ks)
unfolding extend
Ascending-extend [] s h = h
Ascending-extend (k ∷ ks) s h = Ascending-extend ks (add k s) (Ascending-add k s h)
