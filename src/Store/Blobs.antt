-- ===== src/Store/Blobs.antt =====
-- The bodies of a fixture: `verify_blob_file` and `read_blob_from_root`.
use eggreplay.Bytes.{Bytes}
use eggreplay.Flow.{BlobRef}
use eggreplay.Store.Types.{StoreError, StoreLimits, validate_digest, invalid, integrity, io}
use eggreplay.Prelude.{
  List, Option, Result, ℕ, [], err, leb, length, ltb, none, not, ok, reject_if, some, text, ◌++◌,
  ◌+◌, ◌==◌, ◌^◌, ◌||◌, ◌∷◌, nat_eq, list_eq, option_eq, pair_eq, ◌>>◌, ◌>>=◌,
}

-- An entry of the directory `blobs`: a symbolic link, or a file by what successive calls of `read` on it
-- return. Nothing is read at its end.
pub data BlobEntry : Type 0 where
  symlink : BlobEntry
  file : List Bytes → BlobEntry

-- What `read` returns until it returns nothing, which is also what `read_to_end` reads.
unfoldable pub contents : List Bytes → Bytes
contents [] = []
contents ([] ∷ reads) = []
contents ((c ∷ cs) ∷ reads) = (c ∷ cs) ++ contents reads

-- The loop of `verify_blob_file`: the length so far, and the bytes that the hasher was given.
unfoldable pub read_blob_file : BlobRef → ℕ → Bytes → List Bytes → Result (ℕ × Bytes) StoreError
read_blob_file blob total hashed [] = ok (total, hashed)
read_blob_file blob total hashed ([] ∷ reads) = ok (total, hashed)
read_blob_file blob total hashed ((c ∷ cs) ∷ reads) = do
  reject_if (leb (2 ^ 64) (total + length (c ∷ cs))) (integrity blob.sha256)
  reject_if (ltb blob.length (total + length (c ∷ cs))) (integrity blob.sha256)
  read_blob_file blob (total + length (c ∷ cs)) (hashed ++ c ∷ cs) reads

-- The directory `blobs` by file names, and the hexadecimal SHA-256 digest.
module _ (blobs : Bytes → Option BlobEntry) (sha256_hex : Bytes → Bytes) where
  -- The checks after the digest and the length were checked.
  unfoldable pub verify_entry : BlobRef → Option BlobEntry → Result (Unit {0}) StoreError
  verify_entry blob none = err io
  verify_entry blob (some symlink) = err (invalid (text "symlinked blob is not allowed"))
  verify_entry blob (some (file reads)) = do
    (total, hashed) ← read_blob_file blob 0 [] reads
    reject_if (not (total == blob.length) || not (sha256_hex hashed == blob.sha256))
        (integrity blob.sha256)

  -- `verify_blob_file`
  unfoldable pub verify_blob_file : BlobRef → StoreLimits → Result (Unit {0}) StoreError
  verify_blob_file blob limits = do
    validate_digest blob.sha256
    reject_if (ltb limits.max_blob_bytes blob.length)
        (invalid (text "blob exceeds configured limit"))
    verify_entry blob (blobs blob.sha256)

  -- `read_to_end` of the file, to which a link is not followed here: it has been refused.
  unfoldable pub read_entry : Option BlobEntry → Result Bytes StoreError
  read_entry none = err io
  read_entry (some symlink) = err io
  read_entry (some (file reads)) = ok (contents reads)

  -- `read_blob_from_root`
  unfoldable pub read_blob_from_root : BlobRef → StoreLimits → Result Bytes StoreError
  read_blob_from_root blob limits = do verify_blob_file blob limits; read_entry (blobs blob.sha256)
