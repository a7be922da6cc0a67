-- ===== src/Report/HeaderDiff.antt =====
-- The comparison of headers: `header_map` and `compare_headers`.
use eggreplay.Prelude.{
  List, [], if◌then◌else◌, is_empty, map, none, not, some, ◌&&◌, ◌++◌, ◌==◌, ◌∷◌, nat_eq, list_eq,
  option_eq, pair_eq, Option,
}
use eggreplay.BTree
use eggreplay.BTree.{BTreeMap}
use eggreplay.Bytes.{Bytes, codes, lowercase}
use eggreplay.Flow.{HeaderEntry}
use eggreplay.Report.Types.{
  ComparisonPolicy, DiffFinding, DiffKind, SuppressedHeader, Summary, is_volatile, words,
  volatile_header,
}

-- What the comparison has pushed so far.
pub record Diff : Type 0 where
  pub findings : List DiffFinding
  pub suppressed : List SuppressedHeader

abbrev pub no_diff : Diff
no_diff = record { findings = []; suppressed = [] }

unfoldable pub push : DiffFinding → Diff → Diff
push f d = record { findings = d.findings ++ f ∷ []; suppressed = d.suppressed }

unfoldable pub push_suppressed : SuppressedHeader → Diff → Diff
push_suppressed s d = record { findings = d.findings; suppressed = d.suppressed ++ s ∷ [] }

-- `unwrap_or_default`
abbrev pub or_default : Option (List Bytes) → List Bytes
or_default none = []
or_default (some values) = values

-- `get(&name).cloned().unwrap_or_default()`
unfoldable pub values_at : BTreeMap (List Bytes) → Bytes → List Bytes
values_at m name = or_default (BTree.get m name)

-- `entry(name).or_insert_with(Vec::new).push(value)`
unfoldable pub push_header_value : Bytes → Bytes → BTreeMap (List Bytes) → BTreeMap (List Bytes)
push_header_value name value m = BTree.insert name (values_at m name ++ value ∷ []) m

-- The loop of `header_map`.
unfoldable pub push_headers : List HeaderEntry → BTreeMap (List Bytes) → BTreeMap (List Bytes)
push_headers [] m = m
push_headers (h ∷ hs) m = push_headers hs (push_header_value (lowercase h.name) h.value m)

-- `header_map`
unfoldable pub header_map : List HeaderEntry → BTreeMap (List Bytes)
header_map headers = push_headers headers []

abbrev pub header_field : Bytes → Bytes → Bytes
header_field prefix name = prefix ++ b'.' ∷ name

abbrev pub presence : List Bytes → Summary
presence values = if is_empty values then words (codes "<absent>") else words (codes "<present>")

-- The body of the loop over the names, for the values of both sides.
unfoldable pub compare_values :
    ComparisonPolicy → Bytes → DiffKind → Bytes → List Bytes → List Bytes → Diff → Diff
compare_values policy prefix kind name a b d =
    if is_volatile policy name && not (is_empty a) && not (is_empty b)
    then push_suppressed (record { field = header_field prefix name; reason = volatile_header }) d
    else if a == b
    then d
    else push
        (record {
          kind = kind;
          field = header_field prefix name;
          baseline = presence a;
          candidate = presence b;
        })
        d

unfoldable pub compare_names :
    ComparisonPolicy
    → Bytes
    → DiffKind
    → BTreeMap (List Bytes)
    → BTreeMap (List Bytes)
    → List Bytes
    → Diff
    → Diff
compare_names policy prefix kind left right [] d = d
compare_names policy prefix kind left right (name ∷ names) d =
    compare_names policy prefix kind left right names
      (compare_values policy prefix kind name (values_at left name) (values_at right name) d)

-- The names of both sides, as a `BTreeSet`.
unfoldable pub all_names : BTreeMap (List Bytes) → BTreeMap (List Bytes) → List Bytes
all_names left right = BTree.extend [] (map (λ e. e.0) left ++ map (λ e. e.0) right)

-- `compare_headers`
unfoldable pub compare_headers :
    ComparisonPolicy → Bytes → DiffKind → List HeaderEntry → List HeaderEntry → Diff → Diff
compare_headers policy prefix kind baseline candidate d =
    let left = header_map baseline in
    let right = header_map candidate in
    compare_names policy prefix kind left right (all_names left right) d
