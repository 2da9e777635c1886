-- ===== src/Storage/Memory.antt =====
-- storage/src/memory.rs: the driver that keeps its objects in memory.
pub mod Contents
use emporium.Prelude.{
  ℕ, String, Bool, true, false, Option, none, some, List, [], ◌∷◌, Result, ok, err, ◌>>=◌, ok_or,
  map_err, string_eq, list_eq, length, if◌then◌else◌,
}
use mathlib.Core.Option.{get_or}
use emporium.Std.HashMap
use emporium.Std.HashMap.{HashMap}
use emporium.Std.Path.{FilePath, Component, component_eq, starts_with}
use emporium.StorageDriver.{
  Driver, Bytes, Reader, Writer, Metadata, StorageError, storage_error, write_all, bucket_not_found,
  path_not_found,
}

pub record MemoryFileItem : Type 0 where
  pub created : ℕ
  pub data_bytes : Bytes

-- The buckets behind the lock, and the clock that `Utc::now` reads.
pub record MemoryStorage : Type 0 where
  pub buckets : HashMap String (HashMap FilePath MemoryFileItem)
  pub clock : ℕ

-- `MemoryStorage::new`
unfoldable pub new : ℕ → MemoryStorage
new now = record { buckets = []; clock = now }

insert_empty :
    List String
    → HashMap String (HashMap FilePath MemoryFileItem)
    → HashMap String (HashMap FilePath MemoryFileItem)
insert_empty [] m = m
insert_empty (bucket ∷ rest) m = insert_empty rest (HashMap.insert bucket [] m)

unfoldable pub with_buckets : List String → ℕ → MemoryStorage
unfolding insert_empty
with_buckets buckets now = record { buckets = insert_empty buckets []; clock = now }

unfoldable pub create_bucket : String → MemoryStorage → MemoryStorage
create_bucket bucket s = record s { buckets = HashMap.insert bucket [] s.buckets }

-- `buckets.get(bucket).ok_or(..).map_err(..)`, as every method but `upload` begins
unfoldable pub get_bucket :
    String → MemoryStorage → Result (HashMap FilePath MemoryFileItem) StorageError
get_bucket bucket s =
    ok_or (HashMap.get bucket s.buckets) (storage_error "memory" (bucket_not_found bucket))

unfoldable pub get_item : String → FilePath → MemoryStorage → Result MemoryFileItem StorageError
unfolding get_bucket
get_item bucket remote s = do
  items ← get_bucket bucket s
  ok_or (HashMap.get remote items) (storage_error "memory" (path_not_found remote))

-- `impl From<&MemoryFileItem> for Metadata`
unfoldable pub item_metadata : MemoryFileItem → Metadata
item_metadata item = record { size = length item.data_bytes; created = item.created }

unfoldable pub metadata : String → FilePath → MemoryStorage → Result Metadata StorageError
unfolding get_item item_metadata
metadata bucket remote s = do item ← get_item bucket remote s; ok (item_metadata item)

unfoldable pub delete :
    String → FilePath → MemoryStorage → Result (Unit {0}) StorageError × MemoryStorage
unfolding get_bucket
delete bucket remote s = elim (get_bucket bucket s) [
  | err e ↦ (err e, s)
  | ok items ↦
      (ok tt, record s { buckets = HashMap.insert bucket (HashMap.remove remote items) s.buckets })
]

unfoldable pub upload :
    String → FilePath → Reader → MemoryStorage → Result (Unit {0}) StorageError × MemoryStorage
upload bucket remote local s = elim (map_err (storage_error "memory") local) [
  | err e ↦ (err e, s)
  | ok bytes ↦
      let items = get_or (HashMap.get bucket s.buckets) [] in
      let item : MemoryFileItem = record { created = s.clock; data_bytes = bytes } in
      (
        ok tt,
        record s { buckets = HashMap.insert bucket (HashMap.insert remote item items) s.buckets },
      )
]

unfoldable pub download : String → FilePath → Writer → MemoryStorage → Result Writer StorageError
unfolding get_item
download bucket remote local s = do
  item ← get_item bucket remote s
  map_err (storage_error "memory") (write_all local item.data_bytes)

-- the loop over the keys
unfoldable pub select_keys : Option FilePath → List FilePath → List FilePath
select_keys prefix [] = []
select_keys none (path ∷ rest) = path ∷ select_keys none rest
select_keys (some prefix) (path ∷ rest) =
    let others = select_keys (some prefix) rest in
    if starts_with path prefix then path ∷ others else others

unfoldable pub list : String → Option FilePath → MemoryStorage → Result (List FilePath) StorageError
unfolding get_bucket select_keys
list bucket prefix s = do items ← get_bucket bucket s; ok (select_keys prefix (HashMap.keys items))

-- `impl Driver for MemoryStorage`
abbrev pub driver : Driver MemoryStorage
driver = record {
  name = "memory";
  scheme = "memory";
  delete = delete;
  metadata = metadata;
  upload = upload;
  download = download;
  list = list;
}
