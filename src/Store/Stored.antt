-- ===== src/Store/Stored.antt =====
-- What a body is that `read_blob_from_root` reads.
use eggreplay.Bytes.{Bytes}
use eggreplay.Flow.{BlobRef}
use eggreplay.Store.Types.{StoreError, StoreLimits, validate_digest, integrity}
use eggreplay.Store.Blobs.{
  BlobEntry, contents, read_blob_file, read_blob_from_root, file, verify_entry, verify_blob_file,
  read_entry, symlink,
}
use eggreplay.Prelude.{
  List, Option, ℕ, [], leb, length, ltb, ok, refl, reject_if-eq-ok, ◌++◌, ◌+◌, ◌<◌, ◌^◌, ◌∷◌, ◌≡◌,
  ◌≤◌, ap, arith, length-append, ok-inj, reject_if-intro, some, sym, ◌↔◌, ◌∙◌, ==_iff, Bool-cases,
  bind-eq-ok, bind-intro, inl, inr, none, not, reject_if, subst, then-eq-ok, ◌==◌, ◌||◌, nat_eq,
  list_eq, option_eq, pair_eq, then-intro,
}

append_assoc : (a b c : Bytes) → (a ++ b) ++ c ≡ a ++ (b ++ c)
append_assoc [] b c = refl
append_assoc (x ∷ a) b c = cc (append_assoc a b c)

append_nil : (a : Bytes) → a ++ [] ≡ a
append_nil [] = refl
append_nil (x ∷ a) = cc (append_nil a)

plus_zero : (n : ℕ) → n ≡ n + 0
plus_zero n = omega arith

length-sum : (n : ℕ) (x y : Bytes) → n + length x + length y ≡ n + length (x ++ y)
length-sum n x y = omega (arith, length-append x y)

-- What the loop has when it ends, and after a read.
at_end :
    (total : ℕ) (hashed : Bytes) → ◌≡◌ {A = ℕ × Bytes} (total, hashed) (total + 0, hashed ++ [])
at_end total hashed = cc (plus_zero total, append_nil hashed)

zero_plus : (n : ℕ) → 0 + n ≡ n
zero_plus n = omega arith

whole : (bytes : Bytes) → ◌≡◌ {A = ℕ × Bytes} (0 + length bytes, [] ++ bytes) (length bytes, bytes)
whole bytes = cc (zero_plus (length bytes))

after_read :
    (total : ℕ) (hashed x y : Bytes)
    → ◌≡◌ {A = ℕ × Bytes}
        (total + length x + length y, (hashed ++ x) ++ y)
        (total + length (x ++ y), hashed ++ (x ++ y))
after_read total hashed x y = cc (length-sum total x y, append_assoc hashed x y)

-- The loop gives the whole contents, and their length, if that is not above the recorded one.
read_blob_file-contents :
    (blob : BlobRef) (reads : List Bytes) (total : ℕ) (hashed : Bytes)
    → blob.length < 2 ^ 64
    → total + length (contents reads) ≤ blob.length
    → read_blob_file blob total hashed reads
      ≡ ok (total + length (contents reads), hashed ++ contents reads)
unfolding read_blob_file contents
read_blob_file-contents blob [] total hashed fits room = ap ok (at_end total hashed)
read_blob_file-contents blob ([] ∷ reads) total hashed fits room = ap ok (at_end total hashed)
read_blob_file-contents blob ((c ∷ cs) ∷ reads) total hashed fits room =
    reject_if-intro (leb (2 ^ 64) (total + length (c ∷ cs))) _ _
      (grind (arith, room, length-append (c ∷ cs) (contents reads)))
      (reject_if-intro (ltb blob.length (total + length (c ∷ cs))) _ _
        (grind (arith, room, length-append (c ∷ cs) (contents reads)))
        (read_blob_file-contents blob reads (total + length (c ∷ cs)) (hashed ++ c ∷ cs) fits
            (omega (arith, room, length-append (c ∷ cs) (contents reads)))
          ∙ ap ok (after_read total hashed (c ∷ cs) (contents reads))))

-- Whatever the loop gives is that.
read_blob_file_sound :
    (blob : BlobRef) (reads : List Bytes) (total : ℕ) (hashed : Bytes) (r : ℕ × Bytes)
    → read_blob_file blob total hashed reads ≡ ok r
    → r ≡ (total + length (contents reads), hashed ++ contents reads)
unfolding read_blob_file contents
read_blob_file_sound blob [] total hashed r h = sym (ok-inj h) ∙ at_end total hashed
read_blob_file_sound blob ([] ∷ reads) total hashed r h = sym (ok-inj h) ∙ at_end total hashed
read_blob_file_sound blob ((c ∷ cs) ∷ reads) total hashed r h =
    let (wrap, h) = reject_if-eq-ok (leb (2 ^ 64) (total + length (c ∷ cs))) _ _ h in
    let (over, h) = reject_if-eq-ok (ltb blob.length (total + length (c ∷ cs))) _ _ h in
    read_blob_file_sound blob reads _ _ r h ∙ after_read total hashed (c ∷ cs) (contents reads)

module _ (blobs : Bytes → Option BlobEntry) (sha256_hex : Bytes → Bytes) where
  -- The digest is well formed, the length is within the limit, and the file of that name has this length
  -- and this digest.
  pub record IsBlob (blob : BlobRef) (limits : StoreLimits) (bytes : Bytes) : Type 0 where
    pub digest_valid : validate_digest blob.sha256 ≡ ok tt
    pub within_limit : blob.length ≤ limits.max_blob_bytes
    pub stored :
        (reads : List Bytes) × ((blobs blob.sha256 ≡ some (file reads)) × (contents reads ≡ bytes))
    pub length_agrees : length bytes ≡ blob.length
    pub digest_agrees : sha256_hex bytes ≡ blob.sha256

  -- The last test of `verify_entry`.
  reject_if-agrees :
      (blob : BlobRef) (total : ℕ) (bytes : Bytes) (e : StoreError)
      → (reject_if (not (total == blob.length) || not (sha256_hex bytes == blob.sha256)) e ≡ ok tt)
        ↔ ((total ≡ blob.length) × (sha256_hex bytes ≡ blob.sha256))
  reject_if-agrees blob total bytes e = elim (Bool-cases (total == blob.length)) [
    | inr differ ↦
        rw differ
          ((λ h. absurd (cc h)), (λ h. absurd (cc (differ, (==_iff total blob.length).1 h.0))))
    | inl same ↦ elim (Bool-cases (sha256_hex bytes == blob.sha256)) [
      | inl agree ↦
          rw (same, agree)
            (
              (λ h. (
                (==_iff total blob.length).0 same,
                (==_iff (sha256_hex bytes) blob.sha256).0 agree,
              )),
              (λ h. refl),
            )
      | inr differ ↦
          rw (same, differ)
            (
              (λ h. absurd (cc h)),
              (λ h. absurd (cc (differ, (==_iff (sha256_hex bytes) blob.sha256).1 h.1))),
            )
    ]
  ]

  -- A file passes `verify_entry` exactly if its contents have the length and the digest.
  verify_entry_iff :
      (blob : BlobRef) (reads : List Bytes)
      → blob.length < 2 ^ 64
      → (verify_entry blobs sha256_hex blob (some (file reads)) ≡ ok tt)
        ↔ ((length (contents reads) ≡ blob.length) × (sha256_hex (contents reads) ≡ blob.sha256))
  unfolding verify_entry
  verify_entry_iff blob reads fits = (
    (λ h.
        let (r, read, test) = bind-eq-ok (read_blob_file blob 0 [] reads) _ h in
        (reject_if-agrees blob (length (contents reads)) (contents reads) (integrity blob.sha256)).0
          (subst
            (λ (r : ℕ × Bytes).
              reject_if (not (r.0 == blob.length) || not (sha256_hex r.1 == blob.sha256))
                (integrity blob.sha256)
              ≡ ok tt)
            (read_blob_file_sound blob reads 0 [] r read ∙ whole (contents reads)) test)),
    (λ h.
        bind-intro (read_blob_file blob 0 [] reads) _
          (read_blob_file-contents blob reads 0 [] fits (omega (arith, h.0))
            ∙ ap ok (whole (contents reads)))
          ((reject_if-agrees blob (length (contents reads)) (contents reads)
              (integrity blob.sha256)).1
            h)),
  )

  -- For a recorded length of 64 bits, `read_blob_from_root` returns some bytes exactly if they are the
  -- blob's: the file named by the blob's digest holds them, their number and digest are the recorded
  -- ones, the digest is well formed and the length within the limit. How many bytes each `read` gives is
  -- of no account.
  pub read_blob_from_root-IsBlob :
      (blob : BlobRef) (limits : StoreLimits) (bytes : Bytes)
      → blob.length < 2 ^ 64
      → (read_blob_from_root blobs sha256_hex blob limits ≡ ok bytes) ↔ IsBlob blob limits bytes
  unfolding read_blob_from_root verify_blob_file read_entry
  read_blob_from_root-IsBlob blob limits bytes fits = (to, from)
    where
      to : read_blob_from_root blobs sha256_hex blob limits ≡ ok bytes → IsBlob blob limits bytes
      to h =
          let (verified, read) = then-eq-ok (verify_blob_file blobs sha256_hex blob limits) _ h in
          let (valid, verified) = then-eq-ok (validate_digest blob.sha256) _ verified in
          let (within, verified) =
            reject_if-eq-ok (ltb limits.max_blob_bytes blob.length) _ _ verified in
          let (reads, (at, same)) = stored_at (blobs blob.sha256) refl read in
          let (len, digest) =
            (verify_entry_iff blob reads fits).0
              (subst (λ o. verify_entry blobs sha256_hex blob o ≡ ok tt) at verified) in
          record {
            digest_valid = valid;
            within_limit = grind (arith, within);
            stored = (reads, (at, same));
            length_agrees = subst (λ b. length b ≡ blob.length) same len;
            digest_agrees = subst (λ b. sha256_hex b ≡ blob.sha256) same digest;
          }
        where
          stored_at :
              (o : Option BlobEntry)
              → blobs blob.sha256 ≡ o
              → read_entry blobs sha256_hex o ≡ ok bytes
              → (reads : List Bytes) × ((blobs blob.sha256 ≡ some (file reads))
                  × (contents reads ≡ bytes))
          stored_at none at h = absurd (cc h)
          stored_at (some symlink) at h = absurd (cc h)
          stored_at (some (file reads)) at h = (reads, (at, ok-inj h))

      from : IsBlob blob limits bytes → read_blob_from_root blobs sha256_hex blob limits ≡ ok bytes
      from is =
          let (reads, (at, same)) = is.stored in
          then-intro (verify_blob_file blobs sha256_hex blob limits) _
            (then-intro (validate_digest blob.sha256) _ is.digest_valid (
              reject_if-intro (ltb limits.max_blob_bytes blob.length) _ _
                (grind (arith, is.within_limit))
                (subst (λ o. verify_entry blobs sha256_hex blob o ≡ ok tt) (sym at)
                  ((verify_entry_iff blob reads fits).1 (
                    subst (λ b. (length b ≡ blob.length) × (sha256_hex b ≡ blob.sha256)) (sym same)
                      (is.length_agrees, is.digest_agrees))))))
            (subst (λ o. read_entry blobs sha256_hex o ≡ ok bytes) (sym at) (ap ok same))
