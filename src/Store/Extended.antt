-- ===== src/Store/Extended.antt =====
-- What is written as extensions is accepted: `write_extension_file` and `validate_extensions`.
use eggreplay.Store.Conversations.{max_extension_bytes}
use eggreplay.Stream.Sse.{is_some}
use eggreplay.Prelude.{
  ==_iff, Bool-cases, List, Option, Result, [], any, arith, bind-imp, bind-intro, then-intro,
  reject_if-intro, contains, err, false, inl, inr, leb, length, ltb, none, ok, reject_if-imp, some,
  subst, text, then-imp, ℕ, ◌++◌, ◌+◌, ◌==◌, ◌^◌, ◌||◌, ◌∷◌, ◌≡◌, ◌≤◌, nat_eq, list_eq, option_eq,
  pair_eq, refl, reject_if-eq-ok, saturating_add, then-eq-ok, length-append, ok-inj, bind-eq-ok,
  sym, ◌↔◌, ◌∙◌,
}
use eggreplay.Bytes.{Bytes}
use eggreplay.Store.Extensions.{
  Directory, ExtensionDescriptor, ExtensionReaders, regular_at, check_extensions, len_at,
  current_total, entry_at, entry_len, validate_extension_path, regular_file, same_place, Entry,
  other_entry, max_total_extension_bytes, check_contents, validate_extensions, write_extension_file,
  max_extensions,
}
use eggreplay.Store.Types.{StoreError, validate_extension_name, io, invalid}

-- A directory has the entries of another one.
abbrev Extends : Directory → Directory → Type 0
Extends dir dir' =
    (path bytes : Bytes) → regular_at dir path ≡ ok bytes → regular_at dir' path ≡ ok bytes

-- An entry under a new name hides none.
Extends-new :
    (dir : Directory) (path bytes : Bytes)
    → is_some (entry_at dir path) ≡ false
    → Extends dir ((path, regular_file bytes) ∷ dir)
unfolding regular_at entry_at is_some
Extends-new dir path bytes new other found h = elim (Bool-cases (path == other)) [
  | inr apart ↦ rw (regular_at, apart) h
  | inl same ↦ absurd (
      hidden (entry_at dir other) h
        (subst (λ p. is_some (entry_at dir p) ≡ false) ((==_iff path other).0 same) new))
]
  where
    hidden :
        (o : Option Entry)
        → (elim o as (λ x. Result Bytes StoreError) [
          | none ↦ err io
          | some (regular_file b) ↦ ok b
          | some (other_entry n) ↦
              err (invalid (text "extension must be a regular non-symlink file"))
        ])
          ≡ ok found
        → is_some o ≡ false
        → ⊥
    hidden none h g = cc h
    hidden (some e) h g = cc g

regular_at-new :
    (dir : Directory) (path bytes : Bytes)
    → regular_at ((path, regular_file bytes) ∷ dir) path ≡ ok bytes
unfolding regular_at entry_at
regular_at-new dir path bytes = rw (regular_at, entry_at, (==_iff path path).1 refl) refl

len_at-regular :
    (dir : Directory) (path bytes : Bytes)
    → regular_at dir path ≡ ok bytes
    → len_at dir path ≡ length bytes
unfolding regular_at len_at
len_at-regular dir path bytes h = sized (entry_at dir path) h
  where
    sized :
        (o : Option Entry)
        → (elim o as (λ x. Result Bytes StoreError) [
          | none ↦ err io
          | some (regular_file b) ↦ ok b
          | some (other_entry n) ↦
              err (invalid (text "extension must be a regular non-symlink file"))
        ])
          ≡ ok bytes
        → elim o as (λ x. ℕ) [ none ↦ 0 | some entry ↦ entry_len entry ] ≡ length bytes
    sized none g = absurd (cc g)
    sized (some (regular_file b)) g = cc g
    sized (some (other_entry n)) g = absurd (cc g)

module _ (readers : ExtensionReaders) where
  check_extensions-append :
      (dir dir' : Directory) (names paths : List Bytes) (total : ℕ) (es : List ExtensionDescriptor)
      (e : ExtensionDescriptor) (bytes : Bytes)
      → Extends dir dir'
      → validate_extension_name e.name ≡ ok tt
      → validate_extension_path readers e.path ≡ ok tt
      → (e.schema_version == 0) ≡ false
      → contains names e.name ≡ false
      → contains paths e.path ≡ false
      → any (same_place e.name e.path) es ≡ false
      → regular_at dir' e.path ≡ ok bytes
      → ltb max_extension_bytes (length bytes) ≡ false
      → total + (current_total dir es + length bytes) ≤ max_total_extension_bytes
      → check_contents readers e bytes ≡ ok tt
      → check_extensions readers dir names paths total es ≡ ok tt
      → check_extensions readers dir' names paths total (es ++ e ∷ []) ≡ ok tt
  unfolding check_extensions contains current_total
  check_extensions-append dir dir' names paths total [] e bytes ext name path version new_name
        new_path apart found size room contents h =
      then-intro (validate_extension_name e.name) _ name (
        then-intro (validate_extension_path readers e.path) _ path (
          reject_if-intro (e.schema_version == 0 || contains names e.name || contains paths e.path)
            _ _ (rw (version, new_name, new_path) refl)
            (bind-intro (regular_at dir' e.path) _ found (
              reject_if-intro (ltb max_extension_bytes (length bytes)) _ _ size (
                reject_if-intro (leb (2 ^ 64) (total + length bytes)) _ _ (grind arith) (
                  reject_if-intro (ltb max_total_extension_bytes (total + length bytes)) _ _
                    (grind arith)
                    (then-intro (check_contents readers e bytes) _ contents refl)))))))
  check_extensions-append dir dir' names paths total (x ∷ es) e bytes ext name path version new_name
        new_path apart found size room contents h =
      then-imp (validate_extension_name x.name) _ _
        (then-imp (validate_extension_path readers x.path) _ _ (
          reject_if-imp (x.schema_version == 0 || contains names x.name || contains paths x.path) _
            _ _ _ (λ g. g)
            (bind-imp (regular_at dir x.path) (regular_at dir' x.path) _ _ (ext x.path)
              λ found_x known.
                reject_if-imp (ltb max_extension_bytes (length found_x)) _ _ _ _ (λ g. g)
                  (reject_if-imp (leb (2 ^ 64) (total + length found_x)) _ _ _ _ (λ g. g)
                    (reject_if-imp (ltb max_total_extension_bytes (total + length found_x)) _ _ _ _
                      (λ g. g)
                      (then-imp (check_contents readers x found_x) _ _ (
                        check_extensions-append dir dir' (x.name ∷ names) (x.path ∷ paths)
                          (total + length found_x) es e bytes ext name path version (ground arith)
                          (ground arith) (ground arith) found size
                          (omega (arith, room, len_at-regular dir x.path found_x known))
                          contents)))))))
        h

  -- The last extension of a registry that is accepted has the contents that its name asks for.
  check_extensions-last :
      (dir : Directory) (names paths : List Bytes) (total : ℕ) (es : List ExtensionDescriptor)
      (e : ExtensionDescriptor) (bytes : Bytes)
      → regular_at dir e.path ≡ ok bytes
      → check_extensions readers dir names paths total (es ++ e ∷ []) ≡ ok tt
      → check_contents readers e bytes ≡ ok tt
  unfolding check_extensions
  check_extensions-last dir names paths total [] e bytes found h =
      let (name, h) = then-eq-ok (validate_extension_name e.name) _ h in
      let (path, h) = then-eq-ok (validate_extension_path readers e.path) _ h in
      let (fresh, h) =
        reject_if-eq-ok (e.schema_version == 0 || contains names e.name || contains paths e.path) _
          _ h in
      let (read, same, h) = bind-eq-ok (regular_at dir e.path) _ h in
      let (small, h) = reject_if-eq-ok (ltb max_extension_bytes (length read)) _ _ h in
      let (fits, h) = reject_if-eq-ok (leb (2 ^ 64) (total + length read)) _ _ h in
      let (room, h) = reject_if-eq-ok (ltb max_total_extension_bytes (total + length read)) _ _ h in
      subst (λ b. check_contents readers e b ≡ ok tt) (ok-inj (sym same ∙ found))
        (then-eq-ok (check_contents readers e read) _ h).0
  check_extensions-last dir names paths total (x ∷ es) e bytes found h =
      let (name, h) = then-eq-ok (validate_extension_name x.name) _ h in
      let (path, h) = then-eq-ok (validate_extension_path readers x.path) _ h in
      let (fresh, h) =
        reject_if-eq-ok (x.schema_version == 0 || contains names x.name || contains paths x.path) _
          _ h in
      let (read, same, h) = bind-eq-ok (regular_at dir x.path) _ h in
      let (small, h) = reject_if-eq-ok (ltb max_extension_bytes (length read)) _ _ h in
      let (fits, h) = reject_if-eq-ok (leb (2 ^ 64) (total + length read)) _ _ h in
      let (room, h) = reject_if-eq-ok (ltb max_total_extension_bytes (total + length read)) _ _ h in
      check_extensions-last dir (x.name ∷ names) (x.path ∷ paths) (total + length read) es e bytes
        found (then-eq-ok (check_contents readers x read) _ h).1

  -- Let `validate_extensions` accept a root and its registry, and let `write_extension_file` write one
  -- more extension. Then `validate_extensions` accepts the new root and registry exactly if the new
  -- extension passes `check_contents`: it has a known name if it is required, and if it has one of the
  -- three names with a format of their own, the schema version, the descriptor and the contents of that
  -- format. All else that is validated, `write_extension_file` ensures.
  pub write_extension_file-validate_extensions :
      (dir dir' : Directory) (es es' : List ExtensionDescriptor) (e : ExtensionDescriptor)
      (bytes : Bytes)
      → validate_extensions readers dir es ≡ ok tt
      → write_extension_file readers dir es e bytes ≡ ok (dir', es')
      → (validate_extensions readers dir' es' ≡ ok tt) ↔ (check_contents readers e bytes ≡ ok tt)
  unfolding validate_extensions write_extension_file contains
  write_extension_file-validate_extensions dir dir' es es' e bytes valid h =
      let (name, h) = then-eq-ok (validate_extension_name e.name) _ h in
      let (path, h) = then-eq-ok (validate_extension_path readers e.path) _ h in
      let (version, h) = reject_if-eq-ok (e.schema_version == 0) _ _ h in
      let (count, h) = reject_if-eq-ok (leb max_extensions (length es)) _ _ h in
      let (size, h) = reject_if-eq-ok (ltb max_extension_bytes (length bytes)) _ _ h in
      let (apart, h) = reject_if-eq-ok (any (same_place e.name e.path) es) _ _ h in
      let (room, h) =
        reject_if-eq-ok
          (ltb max_total_extension_bytes (saturating_add (current_total dir es) (length bytes))) _ _
          h in
      let (new, h) = reject_if-eq-ok (is_some (entry_at dir e.path)) _ _ h in
      let dir_after : Directory = (e.path, regular_file bytes) ∷ dir in
      let was = (reject_if-eq-ok (ltb max_extensions (length es)) _ _ valid).1 in
      let accepted : (validate_extensions readers dir_after (es ++ e ∷ []) ≡ ok tt)
          ↔ (check_contents readers e bytes ≡ ok tt) =
        (
          (λ whole.
              check_extensions-last dir_after [] [] 0 es e bytes (regular_at-new dir e.path bytes)
                (reject_if-eq-ok (ltb max_extensions (length (es ++ e ∷ []))) _ _ whole).1),
          (λ contents.
              reject_if-intro (ltb max_extensions (length (es ++ e ∷ []))) _ _
                (grind (arith, count, length-append es (e ∷ [])))
                (check_extensions-append dir dir_after [] [] 0 es e bytes
                  (Extends-new dir e.path bytes new) name path version refl refl apart
                  (regular_at-new dir e.path bytes) size (grind (arith, room)) contents was)),
        ) in
      subst
        (λ r.
          (validate_extensions readers r.0 r.1 ≡ ok tt) ↔ (check_contents readers e bytes ≡ ok tt))
        (ok-inj h) accepted
