-- ===== src/Security/Headers.antt =====
-- `reconcile_headers_after_body_redaction`.
use eggreplay.Prelude.{
  Bool, List, [], contains, false, if◌then◌else◌, none, not, some, true, ℕ, ◌++◌, ◌==◌, ◌∷◌, nat_eq,
  list_eq, option_eq, pair_eq,
}
use eggreplay.Bytes.{Bytes, codes, lowercase, trim_start, strip_prefix, decimal}
use eggreplay.Flow.{HeaderEntry, RedactionMarker}

-- What is found while the headers are filtered.
pub record Reconciled : Type 0 where
  pub headers : List HeaderEntry
  pub markers : List RedactionMarker
  pub annotations : List (Bytes × Bytes)

-- The digests and signatures that a changed body invalidates.
abbrev pub invalidated : List Bytes
invalidated =
    codes "content-md5"
    ∷ codes "content-digest"
    ∷ codes "digest"
    ∷ codes "signature"
    ∷ codes "signature-input"
    ∷ []

abbrev pub is_weak : Bytes → Bool
is_weak value = elim (strip_prefix (codes "W/") (trim_start value)) [ none ↦ false | some r ↦ true ]

-- The closure that `retain` calls on a header, which appends what it finds.
unfoldable pub reconcile_header : Bytes → HeaderEntry → Reconciled → Reconciled
reconcile_header profile h r =
    let name = lowercase h.name in
    let marked = λ (field : Bytes). record r {
      markers = r.markers ++ (record { field = field; profile = profile } ∷ []);
    } in
    if name == codes "content-length"
    then r
    else if contains invalidated name
    then marked (codes "headers." ++ (name ++ codes ".removed-after-redaction"))
    else if not (name == codes "etag")
    then record r { headers = r.headers ++ h ∷ [] }
    else if is_weak h.value
    then record r {
      headers = r.headers ++ h ∷ [];
      annotations =
          r.annotations ++ (codes "redaction", codes "weak-etag-preserved-after-redaction") ∷ [];
    }
    else marked (codes "headers.etag.removed-after-redaction")

-- `retain` calls its closure on the headers in order.
unfoldable pub reconcile_loop : Bytes → List HeaderEntry → Reconciled → Reconciled
unfolding reconcile_header
reconcile_loop profile [] r = r
reconcile_loop profile (h ∷ hs) r = reconcile_loop profile hs (reconcile_header profile h r)

-- `reconcile_headers_after_body_redaction`
unfoldable pub reconcile_headers : List HeaderEntry → ℕ → Bytes → Reconciled
unfolding reconcile_loop
reconcile_headers headers new_len profile =
    let r =
      reconcile_loop profile headers (record { headers = []; markers = []; annotations = [] }) in
    record r {
      headers =
          r.headers ++ (record { name = codes "content-length"; value = decimal new_len } ∷ []);
    }
