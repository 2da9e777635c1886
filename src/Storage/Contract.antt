-- ===== src/Storage/Contract.antt =====
-- What a client of a storage driver relies on: the driver keeps, for each bucket and path, at most
-- one object, and its methods read and change that map and nothing else of it.
use emporium.Prelude.{
  ◌≡◌, String, Bool, true, false, ◌&&◌, Option, none, some, List, [], ◌∷◌, ◌||◌, ok, err, ◌==◌,
  string_eq, length, list_eq, if◌then◌else◌, map_err, map_ok,
}
use emporium.Std.Path.{FilePath, component_eq, starts_with}
use emporium.StorageDriver.{
  Driver, Bytes, Writer, Report, bucket_not_found, path_not_found, storage_error, write_all,
}

unfoldable pub is_some {ℓ} : {A : Type ℓ} → Option A → Bool
is_some none = false
is_some (some _) = true

-- the filter of `list`
unfoldable pub has_prefix : Option FilePath → FilePath → Bool
has_prefix none path = true
has_prefix (some prefix) path = starts_with path prefix

-- `Vec::contains`
unfoldable pub contains : FilePath → List FilePath → Bool
contains p [] = false
contains p (q ∷ ps) = q == p || contains p ps

-- why there is no object at a path
unfoldable pub missing : {S : Type 0} → (String → S → Bool) → String → FilePath → S → Report
missing has_bucket b p s = if has_bucket b s then path_not_found p else bucket_not_found b

-- The bytes that an upload gave, or an error, are in `contents`; a bucket exists where
-- `has_bucket` says so.
pub record IsStore {S : Type 0} (d : Driver S) (contents : String → FilePath → S → Option Bytes)
    (has_bucket : String → S → Bool) : Type 0 where
  pub upload_ok :
      (b : String) (p : FilePath) (bytes : Bytes) (s : S) → (d.upload b p (ok bytes) s).0 ≡ ok tt
  pub upload_contents :
      (b c : String) (p q : FilePath) (bytes : Bytes) (s : S)
      → contents c q (d.upload b p (ok bytes) s).1
        ≡ (if b == c && p == q then some bytes else contents c q s)
  pub upload_bucket :
      (b c : String) (p : FilePath) (bytes : Bytes) (s : S)
      → has_bucket c (d.upload b p (ok bytes) s).1 ≡ (b == c || has_bucket c s)
  pub delete_contents :
      (b c : String) (p q : FilePath) (s : S)
      → has_bucket b s ≡ true
      → ((d.delete b p s).0 ≡ ok tt)
        × (contents c q (d.delete b p s).1 ≡ (if b == c && p == q then none else contents c q s))
        × (has_bucket c (d.delete b p s).1 ≡ has_bucket c s)
  pub delete_missing :
      (b : String) (p : FilePath) (s : S)
      → has_bucket b s ≡ false
      → d.delete b p s ≡ (err (storage_error d.name (bucket_not_found b)), s)
  pub download_some :
      (b : String) (p : FilePath) (w : Writer) (bytes : Bytes) (s : S)
      → contents b p s ≡ some bytes
      → d.download b p w s ≡ map_err (storage_error d.name) (write_all w bytes)
  pub download_none :
      (b : String) (p : FilePath) (w : Writer) (s : S)
      → contents b p s ≡ none
      → d.download b p w s ≡ err (storage_error d.name (missing has_bucket b p s))
  pub metadata_some :
      (b : String) (p : FilePath) (bytes : Bytes) (s : S)
      → contents b p s ≡ some bytes
      → map_ok (λ m. m.size) (d.metadata b p s) ≡ ok (length bytes)
  pub metadata_none :
      (b : String) (p : FilePath) (s : S)
      → contents b p s ≡ none
      → d.metadata b p s ≡ err (storage_error d.name (missing has_bucket b p s))
  pub list_ok :
      (b : String) (prefix : Option FilePath) (s : S)
      → has_bucket b s ≡ true
      → (ps : List FilePath) × (d.list b prefix s ≡ ok ps)
        × ((q : FilePath) → contains q ps ≡ (has_prefix prefix q && is_some (contents b q s)))
  pub list_missing :
      (b : String) (prefix : Option FilePath) (s : S)
      → has_bucket b s ≡ false
      → d.list b prefix s ≡ err (storage_error d.name (bucket_not_found b))
