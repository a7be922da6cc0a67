-- ===== src/Sorting.antt =====
-- `sort_by`: the stable sort of the standard library, by a test of whether one element may come
-- before another.
use mathlib.Core.List.{Permᴰ}
use mathlib.Core.List.Permᴰ
use eggreplay.Prelude.{
  List, Bool, Bool-cases, [], false, if◌then◌else◌, inl, inr, refl, true, ◌∷◌, ◌≡◌, subst, if_intro,
  is_empty,
}

module _ {ℓ} {A : Type ℓ} (may_precede : A → A → Bool) where
  unfoldable pub insert_sorted : A → List A → List A
  insert_sorted a [] = a ∷ []
  insert_sorted a (b ∷ l) =
      let rest = insert_sorted a l in if may_precede a b then a ∷ b ∷ l else b ∷ rest

  -- Elements neither of which has to come first keep their order.
  unfoldable pub sort_by : List A → List A
  sort_by [] = []
  sort_by (a ∷ l) = insert_sorted a (sort_by l)

  -- No element may only come before the one in front of it.
  abbrev pub IsChain : List A → Type 0
  IsChain [] = Unit
  IsChain (a ∷ []) = Unit
  IsChain (a ∷ b ∷ l) = (may_precede a b ≡ true) × IsChain (b ∷ l)

  insert_sorted-IsChain :
      ((a b : A) → may_precede a b ≡ false → may_precede b a ≡ true)
      → (a : A) (l : List A) → IsChain l
      → IsChain (insert_sorted a l)
  unfolding insert_sorted
  insert_sorted-IsChain total a [] h = tt
  insert_sorted-IsChain total a (b ∷ []) h = elim (Bool-cases (may_precede a b)) [
    | inl first ↦ rw first (first, tt)
    | inr second ↦ rw second (total a b second, tt)
  ]
  insert_sorted-IsChain total a (b ∷ c ∷ l) h = elim (Bool-cases (may_precede a b)) [
    | inl first ↦ rw first (first, h)
    | inr second ↦ rw second (elim (Bool-cases (may_precede a c)) [
      | inl next ↦ rw next (total a b second, (next, h.1))
      | inr later ↦
          let rest = insert_sorted-IsChain total a (c ∷ l) h.1 in
          rw later (h.0, subst IsChain (insert_later later) rest)
    ])
  ]
    where
      insert_later : may_precede a c ≡ false → insert_sorted a (c ∷ l) ≡ c ∷ insert_sorted a l
      insert_later later = rw later refl

  pub sort_by-IsChain :
      ((a b : A) → may_precede a b ≡ false → may_precede b a ≡ true)
      → (l : List A) → IsChain (sort_by l)
  unfolding sort_by
  sort_by-IsChain total [] = tt
  sort_by-IsChain total (a ∷ l) =
      insert_sorted-IsChain total a (sort_by l) (sort_by-IsChain total l)

  insert_sorted-perm : (a : A) (l : List A) → Permᴰ (insert_sorted a l) (a ∷ l)
  unfolding insert_sorted
  insert_sorted-perm a [] = Permᴰ.cons refl Permᴰ.nil
  insert_sorted-perm a (b ∷ l) = elim (Bool-cases (may_precede a b)) [
    | inl first ↦ rw first (Permᴰ.refl (a ∷ b ∷ l))
    | inr second ↦
        rw second (Permᴰ.trans (Permᴰ.cons refl (insert_sorted-perm a l)) (Permᴰ.swap refl refl))
  ]

  pub sort_by-perm : (l : List A) → Permᴰ (sort_by l) l
  unfolding sort_by
  sort_by-perm [] = Permᴰ.nil
  sort_by-perm (a ∷ l) =
      Permᴰ.trans (insert_sorted-perm a (sort_by l)) (Permᴰ.cons refl (sort_by-perm l))

  is_empty-insert_sorted : (a : A) (l : List A) → is_empty (insert_sorted a l) ≡ false
  unfolding insert_sorted
  is_empty-insert_sorted a [] = refl
  is_empty-insert_sorted a (b ∷ l) =
      if_intro (λ (r : List A). is_empty r ≡ false) (may_precede a b) (λ h. refl) (λ h. refl)

  pub is_empty-sort_by : (l : List A) → is_empty (sort_by l) ≡ is_empty l
  unfolding sort_by
  is_empty-sort_by [] = refl
  is_empty-sort_by (a ∷ l) = is_empty-insert_sorted a (sort_by l)
