-- ===== src/Report/Accounted.antt =====
-- What `compare_headers` reports: every name is compared, found to differ, or suppressed.
use eggreplay.Report.Agreement.{values_named, values_at-header_map}
use eggreplay.Flow.{HeaderEntry}
use eggreplay.BTree
use eggreplay.BTree.{BTreeMap}
use eggreplay.Prelude.{
  Bool, Bool-cases, List, [], false, if◌then◌else◌, inl, inr, is_empty, map, not, refl, sym, true,
  ◌&&◌, ◌++◌, ◌==◌, ◌∷◌, ◌≡◌, nat_eq, list_eq, option_eq, pair_eq, ap, retain, ◌∙◌, ==_iff, any,
  arith, contains, contains-append, ◌||◌,
}
use eggreplay.Bytes.{Bytes, lowercase}
use eggreplay.Report.HeaderDiff.{
  Diff, compare_values, header_field, push_suppressed, presence, push, compare_names,
  compare_headers, values_at, all_names, header_map, push_headers, push_header_value,
}
use eggreplay.Report.Types.{
  ComparisonPolicy, DiffFinding, DiffKind, is_volatile, SuppressedHeader, volatile_header,
}
use mathlib.Core.List.{append-nil, append_assoc}

-- A header has a name, which is given in lower case.
abbrev pub is_named : Bytes → HeaderEntry → Bool
is_named n h = lowercase h.name == n

contains-insert :
    (k j : Bytes) (v : List Bytes) (m : BTreeMap (List Bytes))
    → contains (map (λ e. e.0) (BTree.insert k v m)) j ≡ ((k == j) || contains (map (λ e. e.0) m) j)
unfolding contains BTree.insert
contains-insert k j v [] = refl
contains-insert k j v ((i, w) ∷ m) =
    ground (arith, ==_iff k j, ==_iff i j, BTree.compare_bytes_eq k i, contains-insert k j v m)

-- The keys of the map are the names of the headers.
contains-push_headers :
    (hs : List HeaderEntry) (m : BTreeMap (List Bytes)) (n : Bytes)
    → contains (map (λ e. e.0) (push_headers hs m)) n
      ≡ (contains (map (λ e. e.0) m) n || any (is_named n) hs)
unfolding push_headers push_header_value
contains-push_headers [] m n = ground arith
contains-push_headers (h ∷ hs) m n = ground (
  arith,
  contains-push_headers hs (push_header_value (lowercase h.name) h.value m) n,
  contains-insert (lowercase h.name) n (values_at m (lowercase h.name) ++ h.value ∷ []) m,
)

contains-header_map :
    (hs : List HeaderEntry) (n : Bytes)
    → contains (map (λ e. e.0) (header_map hs)) n ≡ any (is_named n) hs
unfolding header_map contains
contains-header_map hs n = contains-push_headers hs [] n

contains-set : (set : List Bytes) (n : Bytes) → contains set n ≡ BTree.contains set n
unfolding contains BTree.contains
contains-set [] n = refl
contains-set (j ∷ set) n = ground (arith, contains-set set n)

any-both :
    (n : Bytes) (l r : List HeaderEntry)
    → any (is_named n) (l ++ r) ≡ (any (is_named n) l || any (is_named n) r)
any-both n [] r = refl
any-both n (h ∷ l) r = ground (arith, any-both n l r)

contains-names :
    (baseline candidate : List HeaderEntry) (n : Bytes)
    → contains (all_names (header_map baseline) (header_map candidate)) n
      ≡ any (is_named n) (baseline ++ candidate)
unfolding all_names BTree.contains
contains-names baseline candidate n =
    let left = map (λ e. e.0) (header_map baseline) in
    let right = map (λ e. e.0) (header_map candidate) in
    ground (
      arith,
      contains-set (BTree.extend [] (left ++ right)) n,
      BTree.contains-extend (left ++ right) [] n,
      contains-set (left ++ right) n,
      contains-append left right n,
      contains-header_map baseline n,
      contains-header_map candidate n,
      any-both n baseline candidate,
    )

module _ (policy : ComparisonPolicy) (prefix : Bytes) (kind : DiffKind) where
  -- A name is tolerated if it is volatile and both sides have a value; it differs if it is not
  -- tolerated and the values are not the same.
  abbrev pub tolerated : List Bytes → List Bytes → Bytes → Bool
  tolerated a b name = is_volatile policy name && not (is_empty a) && not (is_empty b)

  abbrev pub differs : List Bytes → List Bytes → Bytes → Bool
  differs a b name = not (tolerated a b name) && not (a == b)

  abbrev pub suppression : Bytes → SuppressedHeader
  suppression name = record { field = header_field prefix name; reason = volatile_header }

  abbrev pub difference : List Bytes → List Bytes → Bytes → DiffFinding
  difference a b name = record {
    kind = kind;
    field = header_field prefix name;
    baseline = presence a;
    candidate = presence b;
  }

  suppressed-compare_values :
      (name : Bytes) (a b : List Bytes) (d : Diff)
      → (compare_values policy prefix kind name a b d).suppressed
        ≡ d.suppressed ++ (if tolerated a b name then suppression name ∷ [] else [])
  unfolding compare_values push_suppressed push
  suppressed-compare_values name a b d = elim (Bool-cases (tolerated a b name)) [
    | inl yes_tolerated ↦ rw (yes_tolerated, compare_values) refl
    | inr compared ↦
        rw (compared, compare_values)
          (elim (Bool-cases (a == b)) [
            | inl same ↦ rw same (sym (append-nil d.suppressed))
            | inr other ↦ rw other (sym (append-nil d.suppressed))
          ])
  ]

  findings-compare_values :
      (name : Bytes) (a b : List Bytes) (d : Diff)
      → (compare_values policy prefix kind name a b d).findings
        ≡ d.findings ++ (if differs a b name then difference a b name ∷ [] else [])
  unfolding compare_values push_suppressed push
  findings-compare_values name a b d = elim (Bool-cases (tolerated a b name)) [
    | inl yes_tolerated ↦ rw (yes_tolerated, compare_values) (sym (append-nil d.findings))
    | inr compared ↦
        rw (compared, compare_values)
          (elim (Bool-cases (a == b)) [
            | inl same ↦ rw same (sym (append-nil d.findings))
            | inr other ↦ rw other refl
          ])
  ]

  -- One element in front of those kept, or none.
  kept-step :
      {A : Type 0} (t : Bool) (f : Bytes → A) (l : List A) (name : Bytes) (rest : List Bytes)
      → (l ++ (if t then f name ∷ [] else [])) ++ map f rest
        ≡ l ++ map f (if t then name ∷ rest else rest)
  kept-step true f l name rest = append_assoc l (f name ∷ []) (map f rest)
  kept-step false f l name rest = append_assoc l [] (map f rest)

  suppressed-compare_names :
      (left right : BTreeMap (List Bytes)) (names : List Bytes) (d : Diff)
      → (compare_names policy prefix kind left right names d).suppressed
        ≡ d.suppressed
          ++ map suppression
              (retain (λ n. tolerated (values_at left n) (values_at right n) n) names)
  unfolding compare_names
  suppressed-compare_names left right [] d = sym (append-nil d.suppressed)
  suppressed-compare_names left right (n ∷ names) d =
      suppressed-compare_names left right names _
      ∙ rw (suppressed-compare_values n (values_at left n) (values_at right n) d) (
          kept-step (tolerated (values_at left n) (values_at right n) n) suppression d.suppressed n
            _)

  findings-compare_names :
      (left right : BTreeMap (List Bytes)) (names : List Bytes) (d : Diff)
      → (compare_names policy prefix kind left right names d).findings
        ≡ d.findings
          ++ map
              (λ n. difference (values_at left n) (values_at right n) n)
              (retain (λ n. differs (values_at left n) (values_at right n) n) names)
  unfolding compare_names
  findings-compare_names left right [] d = sym (append-nil d.findings)
  findings-compare_names left right (n ∷ names) d =
      findings-compare_names left right names _
      ∙ rw (findings-compare_values n (values_at left n) (values_at right n) d) (
          kept-step (differs (values_at left n) (values_at right n) n)
            (λ n. difference (values_at left n) (values_at right n) n) d.findings n _)

  -- What is reported is about a list of names in the order of strings, each once: the names, in lower
  -- case, that a header has on either side. Those with a value on both sides which are volatile are
  -- suppressed, and of the others those whose values are not the same are found to differ.
  pub compare_headers-reports :
      (baseline candidate : List HeaderEntry) (d : Diff)
      → (names : List Bytes) × BTree.Ascending names
        × ((n : Bytes) → contains names n ≡ any (is_named n) (baseline ++ candidate))
        × ((compare_headers policy prefix kind baseline candidate d).suppressed
            ≡ d.suppressed
              ++ map suppression (
                  retain
                    (λ n. tolerated (values_named n baseline) (values_named n candidate) n)
                    names))
        × ((compare_headers policy prefix kind baseline candidate d).findings
            ≡ d.findings
              ++ map
                  (λ n. difference (values_named n baseline) (values_named n candidate) n)
                  (retain
                    (λ n. differs (values_named n baseline) (values_named n candidate) n)
                    names))
  unfolding compare_headers all_names
  compare_headers-reports baseline candidate d =
      let names = all_names (header_map baseline) (header_map candidate) in
      (
        names,
        BTree.Ascending-extend
            (map (λ e. e.0) (header_map baseline) ++ map (λ e. e.0) (header_map candidate)) [] tt,
        contains-names baseline candidate,
        suppressed-compare_names (header_map baseline) (header_map candidate) names d
            ∙ ap
                (λ (f : Bytes → List HeaderEntry → List Bytes).
                  d.suppressed
                  ++ map suppression
                      (retain (λ n. tolerated (f n baseline) (f n candidate) n) names))
                held,
        findings-compare_names (header_map baseline) (header_map candidate) names d
            ∙ ap
                (λ (f : Bytes → List HeaderEntry → List Bytes).
                  d.findings
                  ++ map (λ n. difference (f n baseline) (f n candidate) n)
                      (retain (λ n. differs (f n baseline) (f n candidate) n) names))
                held,
      )
    where
      held :
          ◌≡◌ {A = Bytes → List HeaderEntry → List Bytes}
            (λ n l. values_at (header_map l) n)
            (λ n l. values_named n l)
      held = λ i n l. values_at-header_map l n i
