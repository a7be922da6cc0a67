-- ===== src/Intercept/Removed.antt =====
-- What the proxy reports of the headers it removes: proofs about `apply_side_effects` and its loop.
use eggreplay.Prelude.{
  ==_iff, Bool, Bool-cases, List, Option, [], arith, contains, contains-append, false, inl, inr,
  none, not, some, subst, true, ◌&&◌, ◌==◌, ◌||◌, ◌∷◌, ◌≡◌, nat_eq, list_eq, option_eq, pair_eq, ap,
  sym, ◌∙◌,
}
use eggreplay.Bytes.{Bytes, lowercase}
use eggreplay.Intercept.Headers.{
  HeaderMaps, filter_items, push_removed, apply_side_effects, ProxyFilterOutcome,
  filter_proxy_headers, is_forwarded,
}

-- The names that an iteration gives, in lower case.
abbrev pub names_of : {V : Type 0} → List (Option Bytes × V) → List Bytes
names_of [] = []
names_of ((none, value) ∷ items) = names_of items
names_of ((some name, value) ∷ items) = lowercase name ∷ names_of items

contains-push_removed :
    (l : List Bytes) (name key : Bytes)
    → contains (push_removed l name) key ≡ contains l key || name == key
unfolding push_removed contains
contains-push_removed l name key = elim (Bool-cases (contains l name)) [
  | inr new ↦ rw (new, push_removed) (rw (contains-append l (name ∷ []) key) (ground arith))
  | inl known ↦
      rw (known, push_removed)
        (elim (Bool-cases (name == key)) [
          | inr other ↦ ground arith
          | inl same ↦
              ground (arith, subst (λ k. contains l k ≡ true) ((==_iff name key).0 same) known)
        ])
]

-- The decision on a name is that on a key equal to it.
decided :
    (keeps : Bytes → Bool) (key lower : Bytes) (b : Bool)
    → keeps lower ≡ b
    → (lower == key) ≡ true
    → keeps key ≡ b
decided keeps key lower b h same = ap keeps (sym ((==_iff lower key).0 same)) ∙ h

after_kept :
    (keeps : Bytes → Bool) (key lower : Bytes) (c r : Bool)
    → keeps lower ≡ true
    → r || (c && not (keeps key)) ≡ r || ((lower == key || c) && not (keeps key))
after_kept keeps key lower c r h = elim (Bool-cases (lower == key)) [
  | inl same ↦ ground (arith, decided keeps key lower true h same)
  | inr other ↦ ground arith
]

after_dropped :
    (keeps : Bytes → Bool) (key lower : Bytes) (c r : Bool)
    → keeps lower ≡ false
    → (r || lower == key) || (c && not (keeps key)) ≡ r || ((lower == key || c) && not (keeps key))
after_dropped keeps key lower c r h = elim (Bool-cases (lower == key)) [
  | inl same ↦ ground (arith, decided keeps key lower false h same)
  | inr other ↦ ground arith
]

module _ (maps : HeaderMaps) where
  open maps use {HeaderMap, HeaderValue, into_iter}

  removed-filter_items :
      (keeps : Bytes → Bool) (key : Bytes) (items : List (Option Bytes × HeaderValue))
      (current : Option (Bytes × Bool)) (out : ProxyFilterOutcome maps)
      → contains (filter_items maps keeps items current out).stripped.removed key
        ≡ contains out.stripped.removed key || (contains (names_of items) key && not (keeps key))
  unfolding filter_items apply_side_effects contains
  removed-filter_items keeps key [] current out = ground arith
  removed-filter_items keeps key ((none, value) ∷ items) none out =
      removed-filter_items keeps key items none out
  removed-filter_items keeps key ((none, value) ∷ items) (some (name, true)) out =
      removed-filter_items keeps key items (some (name, true)) _
  removed-filter_items keeps key ((none, value) ∷ items) (some (name, false)) out =
      removed-filter_items keeps key items (some (name, false)) _
  removed-filter_items keeps key ((some name, value) ∷ items) current out =
      elim (Bool-cases (keeps (lowercase name))) [
        | inl kept ↦
            rw (filter_items, kept)
              (removed-filter_items keeps key items (some (name, true)) _
                ∙ after_kept keeps key (lowercase name) (contains (names_of items) key) _ kept)
        | inr dropped ↦
            rw (filter_items, dropped)
              (removed-filter_items keeps key items (some (name, false)) _
                ∙ ap (λ b. b || (contains (names_of items) key && not (keeps key)))
                    (contains-push_removed out.stripped.removed (lowercase name) key)
                ∙ after_dropped keeps key (lowercase name) (contains (names_of items) key) _
                    dropped)
      ]

  -- The removed names are those present that may not be forwarded.
  pub removed-filter_proxy_headers :
      (headers : HeaderMap) (key : Bytes)
      → contains (filter_proxy_headers maps headers).stripped.removed key
        ≡ contains (names_of (into_iter headers)) key && not (is_forwarded maps headers key)
  unfolding filter_proxy_headers contains
  removed-filter_proxy_headers headers key =
      removed-filter_items (is_forwarded maps headers) key (into_iter headers) none _
