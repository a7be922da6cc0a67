-- ===== src/Report/Agreement.antt =====
-- What `header_map` holds, and when `compare_headers` finds a difference.
use eggreplay.Report.Types.{ComparisonPolicy, is_volatile, DiffFinding, DiffKind}
use eggreplay.Report.HeaderDiff.{
  push_headers, header_map, values_at, push_header_value, all_names, or_default, push, Diff,
  compare_names, compare_values, push_suppressed, compare_headers,
}
use eggreplay.Prelude.{
  List, [], if◌then◌else◌, ◌==◌, ◌∷◌, nat_eq, list_eq, option_eq, pair_eq, ==_iff, Bool-cases, ap,
  arith, false, inl, inr, is_empty, map, refl, sym, true, ◌++◌, ◌∙◌, ◌≡◌, ◌&&◌, Bool, all, not,
  ◌||◌, ◌↔◌, ◌⊎◌, ap₂, subst,
}
use mathlib.Core.List.{append-nil, append_assoc}
use eggreplay.BTree
use eggreplay.BTree.{BTreeMap}
use eggreplay.Bytes.{Bytes, lowercase}
use eggreplay.Flow.{HeaderEntry}

-- The values of the headers of a name, in their order; the name is in lower case.
abbrev pub values_named : Bytes → List HeaderEntry → List Bytes
values_named name [] = []
values_named name (h ∷ hs) =
    let rest = values_named name hs in if lowercase h.name == name then h.value ∷ rest else rest

values_at-push_header_value :
    (name value key : Bytes) (m : BTreeMap (List Bytes))
    → values_at (push_header_value name value m) key
      ≡ (if name == key then values_at m key ++ value ∷ [] else values_at m key)
unfolding values_at push_header_value
values_at-push_header_value name value key m =
    ap or_default (BTree.get-insert name key _ m) ∙ elim (Bool-cases (name == key)) [
      | inl same ↦ rw same (ap (λ k. values_at m k ++ value ∷ []) ((==_iff name key).0 same))
      | inr other ↦ rw other refl
    ]

values_at-push_headers :
    (hs : List HeaderEntry) (m : BTreeMap (List Bytes)) (key : Bytes)
    → values_at (push_headers hs m) key ≡ values_at m key ++ values_named key hs
unfolding push_headers
values_at-push_headers [] m key = sym (append-nil (values_at m key))
values_at-push_headers (h ∷ hs) m key =
    values_at-push_headers hs (push_header_value (lowercase h.name) h.value m) key
    ∙ rw (values_at-push_header_value (lowercase h.name) h.value key m)
        (elim (Bool-cases (lowercase h.name == key)) [
          | inl same ↦ rw same (append_assoc (values_at m key) (h.value ∷ []) (values_named key hs))
          | inr other ↦ rw other refl
        ])

-- The map holds the values of every name in their order.
pub values_at-header_map :
    (hs : List HeaderEntry) (key : Bytes) → values_at (header_map hs) key ≡ values_named key hs
unfolding header_map values_at BTree.get
values_at-header_map hs key = values_at-push_headers hs [] key

-- A name with values is a key.
contains-keys :
    (m : BTreeMap (List Bytes)) (key : Bytes)
    → is_empty (values_at m key) ≡ false
    → BTree.contains (map (λ e. e.0) m) key ≡ true
unfolding values_at BTree.get BTree.contains
contains-keys [] key h = absurd (cc h)
contains-keys ((j, v) ∷ m) key h = elim (Bool-cases (j == key)) [
  | inl same ↦ ground arith
  | inr other ↦ ground (arith, contains-keys m key)
]

contains-append-keys :
    (l r : List Bytes) (key : Bytes)
    → BTree.contains (l ++ r) key ≡ BTree.contains l key || BTree.contains r key
unfolding BTree.contains
contains-append-keys [] r key = refl
contains-append-keys (x ∷ l) r key = ground (arith, contains-append-keys l r key)

-- Every name with values on one side is looked at.
contains-all_names :
    (left right : BTreeMap (List Bytes)) (key : Bytes)
    → is_empty (values_at left key) && is_empty (values_at right key) ≡ false
    → BTree.contains (all_names left right) key ≡ true
unfolding all_names BTree.contains
contains-all_names left right key h =
    rw (BTree.contains-extend (map (λ e. e.0) left ++ map (λ e. e.0) right) [] key) (
      rw (contains-append-keys (map (λ e. e.0) left) (map (λ e. e.0) right) key)
        (ground (arith, contains-keys left key, contains-keys right key)))

-- Two lists of values of a name that give no finding: they are the same, or the name is volatile and
-- both have a value.
abbrev pub Agrees : ComparisonPolicy → Bytes → List Bytes → List Bytes → Type 0
Agrees policy name a b =
    ((is_volatile policy name && not (is_empty a) && not (is_empty b)) ≡ true) ⊎ (a ≡ b)

agrees : ComparisonPolicy → Bytes → List Bytes → List Bytes → Bool
agrees policy name a b = (is_volatile policy name && not (is_empty a) && not (is_empty b)) || a == b

agrees-Agrees :
    (policy : ComparisonPolicy) (name : Bytes) (a b : List Bytes)
    → (agrees policy name a b ≡ true) ↔ Agrees policy name a b
unfolding agrees
agrees-Agrees policy name a b = ground (arith, ==_iff a b)

-- Nothing is found once something is pushed.
pub findings-push : (f : DiffFinding) (d : Diff) → is_empty (push f d).findings ≡ false
unfolding push
findings-push f d = nonempty d.findings
  where
    nonempty : (l : List DiffFinding) → is_empty (l ++ f ∷ []) ≡ false
    nonempty [] = refl
    nonempty (x ∷ l) = refl

-- A finding that is pushed unless a test holds.
pub findings-unless :
    (t : Bool) (f : DiffFinding) (d : Diff)
    → is_empty (if t then d else push f d).findings ≡ is_empty d.findings && t
findings-unless true f d = ground arith
findings-unless false f d = ground (arith, findings-push f d)

all-contains :
    (p : Bytes → Bool) (l : List Bytes) (key : Bytes)
    → all p l ≡ true
    → BTree.contains l key ≡ true
    → p key ≡ true
unfolding BTree.contains
all-contains p [] key h c = absurd (cc c)
all-contains p (x ∷ l) key h c = elim (Bool-cases (x == key)) [
  | inl same ↦ ground (arith, ap p ((==_iff x key).0 same))
  | inr other ↦ ground (arith, all-contains p l key)
]

all-everywhere :
    (p : Bytes → Bool) (l : List Bytes) → ((key : Bytes) → p key ≡ true) → all p l ≡ true
all-everywhere p [] h = refl
all-everywhere p (x ∷ l) h = ground (arith, h x, all-everywhere p l h)

-- The values of two lists of headers agree at every name.
abbrev pub HeadersAgree : ComparisonPolicy → List HeaderEntry → List HeaderEntry → Type 0
HeadersAgree policy l r =
    (name : Bytes) → Agrees policy name (values_named name l) (values_named name r)

module _ (policy : ComparisonPolicy) (prefix : Bytes) (kind : DiffKind) where
  findings-compare_values :
      (name : Bytes) (a b : List Bytes) (d : Diff)
      → is_empty (compare_values policy prefix kind name a b d).findings
        ≡ is_empty d.findings && agrees policy name a b
  unfolding compare_values agrees push_suppressed
  findings-compare_values name a b d =
      elim (Bool-cases (is_volatile policy name && not (is_empty a) && not (is_empty b))) [
        | inl tolerated ↦ rw (tolerated, compare_values) (ground (arith, tolerated))
        | inr compared ↦
            rw (compared, compare_values) (findings-unless (a == b) _ d ∙ ground (arith, compared))
      ]

  findings-compare_names :
      (left right : BTreeMap (List Bytes)) (names : List Bytes) (d : Diff)
      → is_empty (compare_names policy prefix kind left right names d).findings
        ≡ is_empty d.findings
          && all (λ n. agrees policy n (values_at left n) (values_at right n)) names
  unfolding compare_names
  findings-compare_names left right [] d = ground arith
  findings-compare_names left right (n ∷ names) d =
      findings-compare_names left right names _
      ∙ rw (findings-compare_values n (values_at left n) (values_at right n) d) (ground arith)

  agrees-nothing :
      (name : Bytes) (a b : List Bytes)
      → is_empty a && is_empty b ≡ true
      → agrees policy name a b ≡ true
  agrees-nothing name [] [] h = (agrees-Agrees policy name [] []).1 (inr refl)
  agrees-nothing name [] (y ∷ b) h = absurd (cc h)
  agrees-nothing name (x ∷ a) b h = absurd (cc h)

  -- The values agree at all names once they agree at those of the maps: at others there are none.
  agrees-everywhere :
      (left right : BTreeMap (List Bytes))
      → all (λ n. agrees policy n (values_at left n) (values_at right n)) (all_names left right)
        ≡ true
      → (name : Bytes) → agrees policy name (values_at left name) (values_at right name) ≡ true
  agrees-everywhere left right h name =
      elim (Bool-cases (is_empty (values_at left name) && is_empty (values_at right name))) [
        | inl neither ↦ agrees-nothing name (values_at left name) (values_at right name) neither
        | inr either ↦
            all-contains (λ n. agrees policy n (values_at left n) (values_at right n))
              (all_names left right) name h (contains-all_names left right name either)
      ]

  -- No header is found to differ exactly if the values agree at every name.
  pub findings-compare_headers :
      (baseline candidate : List HeaderEntry) (d : Diff)
      → (is_empty (compare_headers policy prefix kind baseline candidate d).findings ≡ true)
        ↔ ((is_empty d.findings ≡ true) × HeadersAgree policy baseline candidate)
  unfolding compare_headers
  findings-compare_headers baseline candidate d =
      let left = header_map baseline in
      let right = header_map candidate in
      let found = findings-compare_names left right (all_names left right) d in
      let same_agreement : (name : Bytes)
          → Agrees policy name (values_at left name) (values_at right name)
            ≡ Agrees policy name (values_named name baseline) (values_named name candidate) =
        λ name.
          ap₂ (Agrees policy name) (values_at-header_map baseline name)
            (values_at-header_map candidate name) in
      (
        λ h. (
          ground (arith, found),
          λ name.
              subst (λ (T : Type 0). T) (same_agreement name)
                ((agrees-Agrees policy name _ _).0
                  (agrees-everywhere left right (ground (arith, found)) name)),
        ),
        λ (h, g). ground (
          arith,
          found,
          all-everywhere _ (all_names left right) λ name.
              (agrees-Agrees policy name (values_at left name) (values_at right name)).1
                (subst (λ (T : Type 0). T) (sym (same_agreement name)) (g name)),
        ),
      )
