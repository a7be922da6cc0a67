-- ===== src/Prelude/Lists.antt =====
-- Lists measured and indexed by native numbers, under the library's names.
use Prim.Native.Nat.{ℕ, zero, suc, ◌+◌, ◌-◌, min}
use mathlib.Core.Path.{◌≡◌, refl, subst}
use mathlib.Core.Bool.{Bool, true, false, ◌&&◌, ◌||◌}
use mathlib.Core.List.{List, [], ◌∷◌, ◌++◌, map}
use mathlib.Core.Option.{Option, none, some}
use mathlib.Core.Logic.{◌⊎◌, inl, inr}
use native.Mathlib.Omega.{arith}
use eggreplay.Prelude.Tests.{if◌then◌else◌, Eq, ◌==◌, Bool-cases, ==_iff}

module _ {ℓ} {A : Type ℓ} where
  abbrev pub length : List A → ℕ
  length [] = 0
  length (x ∷ xs) = suc (length xs)

  abbrev pub get_elem? : List A → ℕ → Option A
  get_elem? [] i = none
  get_elem? (x ∷ xs) zero = some x
  get_elem? (x ∷ xs) (suc i) = get_elem? xs i

  abbrev pub take : ℕ → List A → List A
  take zero xs = []
  take (suc n) [] = []
  take (suc n) (x ∷ xs) = x ∷ take n xs

  abbrev pub drop : ℕ → List A → List A
  drop zero xs = xs
  drop (suc n) [] = []
  drop (suc n) (x ∷ xs) = drop n xs

  -- `iter().all`, `iter().any`, `iter().find`, `is_empty`, `last`
  abbrev pub all : (A → Bool) → List A → Bool
  all p [] = true
  all p (x ∷ xs) = p x && all p xs

  abbrev pub any : (A → Bool) → List A → Bool
  any p [] = false
  any p (x ∷ xs) = p x || any p xs

  abbrev pub find : (A → Bool) → List A → Option A
  find p [] = none
  find p (x ∷ xs) = if p x then some x else find p xs

  abbrev pub retain : (A → Bool) → List A → List A
  retain p [] = []
  retain p (x ∷ xs) = let rest = retain p xs in if p x then x ∷ rest else rest

  abbrev pub is_empty : List A → Bool
  is_empty [] = true
  is_empty (x ∷ xs) = false

  abbrev pub get_last? : List A → Option A
  get_last? [] = none
  get_last? (x ∷ []) = some x
  get_last? (x ∷ y ∷ ys) = get_last? (y ∷ ys)

  pub length-append : (xs ys : List A) → length (xs ++ ys) ≡ length xs + length ys
  length-append [] ys = omega arith
  length-append (x ∷ xs) ys = omega (arith, length-append xs ys)

  pub take-append-drop : (n : ℕ) (xs : List A) → take n xs ++ drop n xs ≡ xs
  take-append-drop zero xs = refl
  take-append-drop (suc n) [] = refl
  take-append-drop (suc n) (x ∷ xs) = rw (take-append-drop n xs)

module _ {ℓ} {A : Type ℓ} where
  pub length-take : (n : ℕ) (xs : List A) → length (take n xs) ≡ min n (length xs)
  length-take zero xs = omega arith
  length-take (suc n) [] = omega arith
  length-take (suc n) (x ∷ xs) = omega (arith, length-take n xs)

  pub length-drop : (n : ℕ) (xs : List A) → length (drop n xs) ≡ length xs - n
  length-drop zero xs = omega arith
  length-drop (suc n) [] = omega arith
  length-drop (suc n) (x ∷ xs) = omega (arith, length-drop n xs)

  -- Every element satisfies a predicate.
  abbrev pub All {κ} : (A → Type κ) → List A → Type κ
  All P [] = Unit
  All P (x ∷ xs) = P x × All P xs

-- `slice.contains(&x)`
module _ {ℓ} {A : Type ℓ} ⦃e : Eq A⦄ where
  unfoldable pub contains : List A → A → Bool
  contains [] a = false
  contains (x ∷ xs) a = x == a || contains xs a

  -- No element occurs twice.
  abbrev pub Distinct : List A → Type 0
  Distinct [] = Unit
  Distinct (x ∷ xs) = (contains xs x ≡ false) × Distinct xs

module _ {ℓ} {A : Type ℓ} where
  -- Some element satisfies a predicate.
  abbrev pub Any : (A → Type 0) → List A → Type 0
  Any P [] = ⊥
  Any P (x ∷ xs) = P x ⊎ Any P xs

  pub any-Any : (p : A → Bool) (l : List A) → any p l ≡ true → Any (λ x. p x ≡ true) l
  any-Any p [] h = absurd (cc h)
  any-Any p (x ∷ xs) h = ground (arith, any-Any p xs)

  pub Any-any : (p : A → Bool) (l : List A) → Any (λ x. p x ≡ true) l → any p l ≡ true
  Any-any p [] h = absurd h
  Any-any p (x ∷ xs) (inl h) = ground arith
  Any-any p (x ∷ xs) (inr h) = ground (arith, Any-any p xs h)

  pub all-All : (p : A → Bool) (l : List A) → all p l ≡ true → All (λ x. p x ≡ true) l
  all-All p [] h = tt
  all-All p (x ∷ xs) h = (ground arith, all-All p xs (ground arith))

  pub All-all : (p : A → Bool) (l : List A) → All (λ x. p x ≡ true) l → all p l ≡ true
  All-all p [] h = refl
  All-all p (x ∷ xs) h = ground (arith, All-all p xs h.1)

  pub any-All-not : (p : A → Bool) (l : List A) → any p l ≡ false → All (λ x. p x ≡ false) l
  any-All-not p [] h = tt
  any-All-not p (x ∷ xs) h = (ground arith, any-All-not p xs (ground arith))

  -- What holds of every element holds of the one that is found.
  pub All-Any {κ} :
      {P : A → Type κ} {Q : A → Type 0} (l : List A) → All P l → Any Q l → (x : A) × (P x × Q x)
  All-Any [] h q = absurd q
  All-Any (x ∷ xs) h (inl q) = (x, (h.0, q))
  All-Any (x ∷ xs) h (inr q) = All-Any xs h.1 q

  pub All-imp {κ μ} :
      {P : A → Type κ} {Q : A → Type μ} (l : List A) → ((x : A) → P x → Q x) → All P l → All Q l
  All-imp [] f h = tt
  All-imp (x ∷ xs) f h = (f x h.0, All-imp xs f h.1)

  pub Any-imp :
      {P : A → Type 0} {Q : A → Type 0} (l : List A) → ((x : A) → P x → Q x) → Any P l → Any Q l
  Any-imp [] f h = h
  Any-imp (x ∷ xs) f (inl h) = inl (f x h)
  Any-imp (x ∷ xs) f (inr h) = inr (Any-imp xs f h)

  pub All-append {κ} : (P : A → Type κ) (xs ys : List A) → All P xs → All P ys → All P (xs ++ ys)
  All-append P [] ys h g = g
  All-append P (x ∷ xs) ys h g = (h.0, All-append P xs ys h.1 g)

  pub Any-and :
      (P : A → Type 0) (Q : A → Type 0) (l : List A) → All P l → Any Q l → Any (λ x. P x × Q x) l
  Any-and P Q [] h q = absurd q
  Any-and P Q (x ∷ xs) h (inl q) = inl (h.0, q)
  Any-and P Q (x ∷ xs) h (inr q) = inr (Any-and P Q xs h.1 q)

module _ {ℓ κ} {A : Type ℓ} {B : Type κ} where
  pub Any-map : (P : B → Type 0) (f : A → B) (l : List A) → Any P (map f l) → Any (λ x. P (f x)) l
  Any-map P f [] h = h
  Any-map P f (x ∷ xs) (inl h) = inl h
  Any-map P f (x ∷ xs) (inr h) = inr (Any-map P f xs h)

  pub length-map : (f : A → B) (l : List A) → length (map f l) ≡ length l
  length-map f [] = refl
  length-map f (x ∷ xs) = omega (arith, length-map f xs)

module _ {ℓ} {A : Type ℓ} ⦃e : Eq A⦄ where
  -- What holds of every element holds of one that is contained.
  pub contains-All {κ} :
      (P : A → Type κ) (xs : List A) (a : A) → contains xs a ≡ true → All P xs → P a
  unfolding contains
  contains-All P [] a h all_of = absurd (cc h)
  contains-All P (x ∷ xs) a h all_of = elim (Bool-cases (x == a)) [
    | inl same ↦ subst P ((==_iff x a).0 same) all_of.0
    | inr other ↦ contains-All P xs a (ground arith) all_of.1
  ]

  pub contains-append :
      (xs ys : List A) (a : A) → contains (xs ++ ys) a ≡ contains xs a || contains ys a
  unfolding contains
  contains-append [] ys a = refl
  contains-append (x ∷ xs) ys a = ground (arith, contains-append xs ys a)
