-- ===== src/Security/Reconciled.antt =====
-- Proofs about `reconcile_headers_after_body_redaction`.
use eggreplay.Stream.Sse.{is_some}
use eggreplay.Bytes.{Bytes, lowercase, codes, decimal, trim_start, strip_prefix}
use eggreplay.Flow.{HeaderEntry}
use eggreplay.Prelude.{
  Bool, Bool-cases, List, [], contains, if◌then◌else◌, inl, inr, not, refl, retain, sym, ℕ, ◌&&◌,
  ◌++◌, ◌==◌, ◌||◌, ◌∙◌, ◌∷◌, ◌≡◌, nat_eq, list_eq, option_eq, pair_eq, arith, take, ◌>>◌, ◌>>=◌,
  ==_iff, ap, list_beq,
}
use mathlib.Core.List.{append-nil, append_assoc}
use eggreplay.Security.Headers.{
  reconcile_headers, reconcile_loop, reconcile_header, Reconciled, invalidated, is_weak,
}

-- What speaks of the body as it was: its length, its digests, and the signatures over them.
abbrev pub about_the_body : List Bytes
about_the_body =
    codes "content-length"
    ∷ codes "content-md5"
    ∷ codes "content-digest"
    ∷ codes "digest"
    ∷ codes "signature"
    ∷ codes "signature-input"
    ∷ []

-- The headers that stay true of a changed body: those that do not speak of it, and of entity tags those
-- that begin with the mark of a weak one after white space.
unfoldable pub survives : HeaderEntry → Bool
survives h =
    not (contains about_the_body (lowercase h.name))
    && (not (lowercase h.name == codes "etag") || take 2 (trim_start h.value) == codes "W/")

take-strip_prefix : (s : Bytes) → is_some (strip_prefix (codes "W/") s) ≡ (take 2 s == codes "W/")
unfolding strip_prefix is_some eggreplay.Prelude.list_beq
take-strip_prefix [] = refl
take-strip_prefix (c ∷ []) = ground arith
take-strip_prefix (c ∷ d ∷ s) = ground arith

is_weak_lem : (value : Bytes) → is_weak value ≡ (take 2 (trim_start value) == codes "W/")
unfolding is_some
is_weak_lem value = take-strip_prefix (trim_start value)

==_comm : (a b : Bytes) → (a == b) ≡ (b == a)
==_comm a b = ground (arith, ==_iff a b, ==_iff b a)

about_the_body_lem :
    (name : Bytes)
    → contains about_the_body name ≡ ((name == codes "content-length") || contains invalidated name)
unfolding contains
about_the_body_lem name =
    ap (λ t. t || contains invalidated name) (==_comm (codes "content-length") name)

reconcile_header_lem :
    (profile : Bytes) (h : HeaderEntry) (r : Reconciled)
    → (reconcile_header profile h r).headers
      ≡ (if survives h then r.headers ++ h ∷ [] else r.headers)
unfolding reconcile_header survives
reconcile_header_lem profile h r = rw (about_the_body_lem (lowercase h.name)) (
    rw (← is_weak_lem h.value) (elim (Bool-cases (lowercase h.name == codes "content-length")) [
      | inl a ↦ rw a refl
      | inr a ↦ elim (Bool-cases (contains invalidated (lowercase h.name))) [
        | inl b ↦ rw (a, b) refl
        | inr b ↦ elim (Bool-cases (lowercase h.name == codes "etag")) [
          | inr c ↦ rw (a, b, c) refl
          | inl c ↦ elim (Bool-cases (is_weak h.value)) [
            | inl d ↦ rw (a, b, c, d) refl
            | inr d ↦ rw (a, b, c, d) refl
          ]
        ]
      ]
    ]))

reconcile_loop_lem :
    (profile : Bytes) (hs : List HeaderEntry) (r : Reconciled)
    → (reconcile_loop profile hs r).headers ≡ r.headers ++ retain survives hs
unfolding reconcile_loop
reconcile_loop_lem profile [] r = sym (append-nil r.headers)
reconcile_loop_lem profile (h ∷ hs) r =
    let next = reconcile_header profile h r in
    reconcile_loop_lem profile hs next ∙ elim (Bool-cases (survives h)) [
      | inl t ↦
          rw (reconcile_header_lem profile h r, t)
            (append_assoc r.headers (h ∷ []) (retain survives hs))
      | inr t ↦ rw (reconcile_header_lem profile h r, t) refl
    ]

-- After a body was redacted, the headers are, in order, those that are neither a content length, a
-- digest or a signature nor an entity tag without the mark of a weak one, and then one content length,
-- of the new body.
pub reconcile_headers_lem :
    (headers : List HeaderEntry) (new_len : ℕ) (profile : Bytes)
    → (reconcile_headers headers new_len profile).headers
      ≡ retain survives headers
        ++ (record { name = codes "content-length"; value = decimal new_len } ∷ [])
unfolding reconcile_headers
reconcile_headers_lem headers new_len profile =
    rw
      (reconcile_loop_lem profile headers (record { headers = []; markers = []; annotations = [] }))
      refl
