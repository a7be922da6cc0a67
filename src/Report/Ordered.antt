-- ===== src/Report/Ordered.antt =====
-- The order of a report: proofs about the sorting of its findings.
use eggreplay.Report.HeaderDiff.{no_diff}
use eggreplay.Flow.{Flow}
use eggreplay.External.{External}
use eggreplay.Report.Compare.{
  bytes_precede, compare_flows_with_timing_and_policy, finding_precedes, check_timing,
  compare_outcomes,
}
use eggreplay.Prelude.{Option, [], arith, false, refl, true, ◌∷◌, ◌≡◌}
use Prim.Native.Nat.{Ordering}
use eggreplay.BTree.{compare_bytes}
use eggreplay.Bytes.{Bytes}
use eggreplay.Report.Types.{
  DiffFinding, kind_debug, ReportScheduler, TimingAssertion, ComparisonPolicy,
}
use eggreplay.Sorting.{IsChain, sort_by-IsChain, sort_by-perm}
use mathlib.Core.List.{Permᴰ}

abbrev flip : Ordering → Ordering
flip Ordering.lt = Ordering.gt
flip Ordering.eq = Ordering.eq
flip Ordering.gt = Ordering.lt

compare_bytes-flip : (a b : Bytes) → compare_bytes b a ≡ flip (compare_bytes a b)
unfolding compare_bytes
compare_bytes-flip [] [] = refl
compare_bytes-flip [] (d ∷ t) = refl
compare_bytes-flip (c ∷ s) [] = refl
compare_bytes-flip (c ∷ s) (d ∷ t) = ground (arith, compare_bytes-flip s t)

bytes_precede-total : (a b : Bytes) → bytes_precede a b ≡ false → bytes_precede b a ≡ true
unfolding bytes_precede
bytes_precede-total a b h = ground (arith, compare_bytes-flip a b)

finding_precedes-total :
    (f g : DiffFinding) → finding_precedes f g ≡ false → finding_precedes g f ≡ true
unfolding finding_precedes
finding_precedes-total f g h = ground (
  arith,
  compare_bytes-flip (kind_debug f.kind) (kind_debug g.kind),
  bytes_precede-total f.field g.field,
)

-- The findings of a report are in the order of the names of their kinds and then of their fields, and
-- are those that the comparison of the outcomes and of the time pushes, each as often as it does.
pub findings-sorted :
    (ext : External) (x y : Flow) (a b : Bytes) (scheduler : ReportScheduler)
    (timing : Option TimingAssertion) (policy : ComparisonPolicy)
    → IsChain finding_precedes
        (compare_flows_with_timing_and_policy ext x y a b scheduler timing policy).findings
      × Permᴰ
          (compare_flows_with_timing_and_policy ext x y a b scheduler timing policy).findings
          (check_timing ext timing y
            (compare_outcomes ext policy x.outcome y.outcome a b no_diff)).findings
unfolding compare_flows_with_timing_and_policy
findings-sorted ext x y a b scheduler timing policy =
    (sort_by-IsChain finding_precedes finding_precedes-total _, sort_by-perm finding_precedes _)
