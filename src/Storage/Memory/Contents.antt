-- ===== src/Storage/Memory/Contents.antt =====
-- The driver in memory keeps the contract of a store.
use emporium.Prelude.{
  ◌≡◌, refl, String, Bool, true, ◌&&◌, ◌||◌, Option, none, some, List, [], ◌∷◌, ok, arith, ◌==◌,
  ==_iff, string_eq, list_eq, if◌then◌else◌,
}
use mathlib.Core.Option.{get_or}
use emporium.Std.HashMap
use emporium.Std.HashMap.{HashMap, get-insert, get-remove}
use emporium.Std.Path.{FilePath, component_eq}
use emporium.StorageDriver.{Bytes, storage_error}
use emporium.Storage.Contract.{IsStore, has_prefix, is_some, contains, missing}
use emporium.Storage.Memory.{
  MemoryStorage, MemoryFileItem, driver, upload, delete, download, metadata, list, select_keys,
}

bytes_of : Option MemoryFileItem → Option Bytes
bytes_of none = none
bytes_of (some item) = some item.data_bytes

item_bytes : FilePath → Option (HashMap FilePath MemoryFileItem) → Option Bytes
unfolding bytes_of
item_bytes p none = none
item_bytes p (some items) = bytes_of (HashMap.get p items)

-- the bytes at a path of a bucket
unfoldable pub contents : String → FilePath → MemoryStorage → Option Bytes
unfolding item_bytes
contents b p s = item_bytes p (HashMap.get b s.buckets)

unfoldable pub has_bucket : String → MemoryStorage → Bool
unfolding is_some
has_bucket b s = is_some (HashMap.get b s.buckets)

contains-select_keys :
    (prefix : Option FilePath) (q : FilePath) (ps : List FilePath)
    → contains q (select_keys prefix ps) ≡ (has_prefix prefix q && contains q ps)
unfolding contains select_keys has_prefix
contains-select_keys none q [] = refl
contains-select_keys none q (p ∷ ps) = ground (arith, contains-select_keys none q ps)
contains-select_keys (some prefix) q [] = ground arith
contains-select_keys (some prefix) q (p ∷ ps) =
    ground (arith, contains-select_keys (some prefix) q ps, ==_iff p q)

contains-keys :
    (q : FilePath) (items : HashMap FilePath MemoryFileItem)
    → contains q (HashMap.keys items) ≡ is_some (bytes_of (HashMap.get q items))
unfolding contains HashMap.keys HashMap.get is_some bytes_of
contains-keys q [] = refl
contains-keys q ((p, item) ∷ items) = ground (arith, contains-keys q items)

-- the objects of a bucket before and after an insertion
items_of : String → MemoryStorage → HashMap FilePath MemoryFileItem
items_of b s = get_or (HashMap.get b s.buckets) []

upload_contents :
    (b c : String) (p q : FilePath) (bytes : Bytes) (s : MemoryStorage)
    → contents c q (upload b p (ok bytes) s).1
      ≡ (if b == c && p == q then some bytes else contents c q s)
unfolding upload contents HashMap.get items_of
upload_contents b c p q bytes s =
    let item : MemoryFileItem = record { created = s.clock; data_bytes = bytes } in
    ground (
      arith,
      get-insert b c (HashMap.insert p item (items_of b s)) s.buckets,
      get-insert p q item (items_of b s),
      ==_iff b c,
    )

upload_bucket :
    (b c : String) (p : FilePath) (bytes : Bytes) (s : MemoryStorage)
    → has_bucket c (upload b p (ok bytes) s).1 ≡ (b == c || has_bucket c s)
unfolding upload has_bucket items_of
upload_bucket b c p bytes s =
    let item : MemoryFileItem = record { created = s.clock; data_bytes = bytes } in
    ground (arith, get-insert b c (HashMap.insert p item (items_of b s)) s.buckets)

delete_contents :
    (b c : String) (p q : FilePath) (s : MemoryStorage)
    → has_bucket b s ≡ true
    → ((delete b p s).0 ≡ ok tt)
      × (contents c q (delete b p s).1 ≡ (if b == c && p == q then none else contents c q s))
      × (has_bucket c (delete b p s).1 ≡ has_bucket c s)
unfolding delete contents has_bucket items_of
delete_contents b c p q s h = ground (
  arith,
  get-insert b c (HashMap.remove p (items_of b s)) s.buckets,
  get-remove p q (items_of b s),
  ==_iff b c,
)

pub memory-IsStore : IsStore driver contents has_bucket
unfolding upload delete download metadata list contents has_bucket storage_error missing items_of
memory-IsStore = record {
  upload_ok = λ b p bytes s. refl;
  upload_contents = upload_contents;
  upload_bucket = upload_bucket;
  delete_contents = delete_contents;
  delete_missing = λ b p s h. ground arith;
  download_some = λ b p w bytes s h. ground arith;
  download_none = λ b p w s h. ground arith;
  metadata_some = λ b p bytes s h. ground arith;
  metadata_none = λ b p s h. ground arith;
  list_ok = λ b prefix s h. (
    select_keys prefix (HashMap.keys (items_of b s)),
    ground arith,
    λ q. ground (
      arith,
      contains-select_keys prefix q (HashMap.keys (items_of b s)),
      contains-keys q (items_of b s),
    ),
  );
  list_missing = λ b prefix s h. ground arith;
}
