-- ===== src/Tests/Shelves.antt =====
-- A bookshelf over the driver in memory.
use emporium.Prelude.{
  ℕ, ◌≡◌, ◌↔◌, refl, ap, true, false, some, none, ok, List, [], ◌∷◌, ◌==◌, string_eq, list_eq, any,
}
use emporium.Std.Ord.{nat_ord}
use emporium.Std.Path.{FilePath, component_eq, normal, push, starts_with}
use emporium.Storage
use emporium.Storage.{Storage}
use emporium.Std.HashMap
use emporium.Std.BTreeMap
use emporium.Std.Num.{parse_usize}
use emporium.Storage.Memory
use emporium.Storage.Memory.{MemoryStorage, driver}
use emporium.Storage.Memory.Contents.{contents, has_bucket, memory-IsStore}
use emporium.Bookshelf.Volume.{
  Volume, delete_targets, entry_exists, entry_upload, to_path, new_entry, new_volume,
}
use emporium.Bookshelf.Shelf.{
  Bookshelf, cached_or_listed, candidate, candidates, component_epoch, insert_sorted, sort,
  config_of, find_volume, list, process_list, skip_first_normal, volume,
}
use emporium.Bookshelf.Shelf.Filing.{filed, paths_of, process_list-filed}
use emporium.Bookshelf.Shelf.Entries.{HasNoEpoch, candidate-entry, has, inner_path}
use emporium.Bookshelf.Shelf.Lookup.{volume-entry_exists}
use emporium.Bookshelf.Shelf.Upload.{upload-volume}
use emporium.Bookshelf.Shelf.Deletion.{delete_targets-entry_iff}
use emporium.Bookshelf.Shelf.Cache.{Use, asks, list-use_all, use_all}
use emporium.Bookshelf.Shelf.Cache as Cache
use emporium.Bookshelf.Shelf.Suffixes.{paths_of-process_list}
use emporium.Tests.Books.{storage, prefix, epoch, config, three_objects}
use emporium.Tests.Data.{calendar}

abbrev name : FilePath
name = normal "shelf" ∷ normal "parts" ∷ []

abbrev file_name : FilePath
file_name = normal "foo" ∷ []

abbrev shelf : Bookshelf MemoryStorage ℕ
shelf = record { storage = storage; bucket = "bucket"; prefix = some prefix; volumes = none }

abbrev foo_path : FilePath
foo_path = normal "prefix" ∷ normal "shelf" ∷ normal "parts" ∷ normal "20200101" ∷ normal "foo" ∷ []

abbrev listed : List FilePath
listed = foo_path ∷ []

abbrev stored : MemoryStorage
stored = record {
  buckets = ("bucket", (foo_path, record { created = 0; data_bytes = 1 ∷ [] }) ∷ []) ∷ [];
  clock = 0;
}

undated : HasNoEpoch calendar name
unfolding component_epoch parse_usize
undated = (refl, (refl, tt))

dated : calendar.parse_from_str (calendar.format epoch) ≡ some epoch
unfolding parse_usize
dated = refl

process_list-filed_example :
    paths_of epoch (find_volume name (process_list calendar shelf listed))
    ≡ filed name epoch (candidates calendar (some prefix) listed)
process_list-filed_example = process_list-filed calendar shelf listed name epoch

abbrev parts : Volume MemoryStorage ℕ
parts = record {
  config = record { storage = storage; bucket = "bucket"; prefix = some prefix };
  paths = [];
  name = name;
  path = normal "prefix" ∷ name;
}

candidate-entry_example :
    candidate calendar (some prefix) (new_entry calendar parts epoch file_name).path
    ≡ some (name, epoch, skip_first_normal (inner_path calendar name epoch file_name))
candidate-entry_example = candidate-entry calendar parts epoch file_name tt tt undated dated

lists : Storage.list storage "bucket" (some prefix) stored ≡ ok listed
unfolding Storage.list Memory.list Memory.get_bucket HashMap.get HashMap.keys Memory.select_keys
    starts_with
lists = refl

is_listed :
    has (new_entry calendar (new_volume (config_of shelf) name []) epoch file_name).path listed
    ≡ true
unfolding any new_entry new_volume config_of push to_path
is_listed = refl

volume-entry_exists_example :
    (v : Volume MemoryStorage ℕ) × ((volume calendar shelf name stored).0 ≡ ok v)
    × (entry_exists (new_entry calendar v epoch file_name) ≡ true)
volume-entry_exists_example =
    volume-entry_exists calendar shelf name epoch file_name listed stored tt tt undated dated refl
      lists is_listed

upload-volume_example :
    ((entry_upload
        (new_entry calendar (new_volume (config_of shelf) name []) epoch file_name)
        (ok (1 ∷ []))
        stored).0
      ≡ ok tt)
    × (v : Volume MemoryStorage ℕ) × ((volume calendar shelf name
          (entry_upload
            (new_entry calendar (new_volume (config_of shelf) name []) epoch file_name)
            (ok (1 ∷ []))
            stored).1).0
        ≡ ok v)
    × (entry_exists (new_entry calendar v epoch file_name) ≡ true)
upload-volume_example =
    upload-volume calendar shelf contents has_bucket name epoch file_name (1 ∷ []) stored
      memory-IsStore tt tt undated dated refl

delete_targets-entry_iff_example :
    (delete_targets
        (new_volume {Epoch = ℕ} config name []).path
        (skip_first_normal (inner_path calendar name epoch file_name) ∷ [])
      ≡ (new_entry calendar (new_volume config name []) epoch file_name).path ∷ [])
    ↔ ((normal "parts" ∷ []) ≡ [])
delete_targets-entry_iff_example =
    delete_targets-entry_iff calendar config [] "shelf" (normal "parts" ∷ []) epoch file_name tt tt

lists_shelves : (list calendar shelf stored).0 ≡ ok (process_list calendar shelf listed)
unfolding list cached_or_listed sort insert_sorted
lists_shelves = ap (λ r. (cached_or_listed calendar shelf none r).0) lists

-- the volume of the name is among those that were listed
abbrev listed_parts : Volume MemoryStorage ℕ
listed_parts =
    new_volume config name
      ((epoch, (normal "parts" ∷ normal "20200101" ∷ normal "foo" ∷ []) ∷ []) ∷ [])

finds_parts : find_volume name (process_list calendar shelf listed) ≡ some listed_parts
unfolding find_volume process_list candidate emporium.Std.Path.strip_prefix
    emporium.Bookshelf.Shelf.split_path parse_usize BTreeMap.upsert new_volume config_of
    skip_first_normal push
finds_parts = refl

-- once three other objects are stored, the volumes are asked for again
abbrev uses : List (Use MemoryStorage)
uses = asks name three_objects ∷ Cache.lists three_objects ∷ []

list-use_all_example :
    list calendar (use_all calendar uses (list calendar shelf stored).1) three_objects
    ≡ (ok (process_list calendar shelf listed), (list calendar shelf stored).1)
list-use_all_example =
    list-use_all calendar shelf stored three_objects (process_list calendar shelf listed) uses
      lists_shelves ((listed_parts, finds_parts), (tt, tt))

paths_of-process_list_example :
    (paths_of epoch (
        find_volume name (
          process_list calendar shelf (
            (new_entry calendar (new_volume (config_of shelf) name []) epoch file_name).path ∷ [])))
      ≡ skip_first_normal (inner_path calendar name epoch file_name) ∷ [])
    × (any
          (λ p. p == file_name)
          (paths_of epoch (
            find_volume name (
              process_list calendar shelf (
                (new_entry calendar (new_volume (config_of shelf) name []) epoch file_name).path
                ∷ []))))
        ≡ false)
paths_of-process_list_example =
    paths_of-process_list calendar shelf "shelf" (normal "parts" ∷ []) epoch file_name tt undated
      dated
