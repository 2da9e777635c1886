-- ===== src/Bookshelf/Shelf.antt =====
-- `Bookshelf` of bookshelf/src/lib.rs: the volumes of a bucket, found by the dates in its paths.
pub mod Filing
pub mod Entries
pub mod Lookup
pub mod Upload
pub mod Suffixes
pub mod Deletion
pub mod Cache
use emporium.Prelude.{
  ℕ, suc, ◌≡◌, String, Bool, true, false, Option, none, some, List, [], ◌∷◌, ◌++◌, map, Result, ok,
  err, ◌==◌, list_eq, take, if◌then◌else◌, Ordering,
}
use mathlib.Core.Option.{get_or}
use emporium.Chrono.{Calendar}
use emporium.Std.Ord.{Ord, list_ord}
use emporium.Std.BTreeMap.{BTreeMap, upsert}
use emporium.Std.Path.{
  FilePath, Component, component_eq, component_ord, root_dir, cur_dir, parent_dir, normal, push,
  strip_prefix,
}
use emporium.StorageDriver.{StorageError}
use emporium.Storage
use emporium.Storage.{Storage}
use emporium.Bookshelf.Volume.{Volume, VolumeConfig, Paths, Error, storage_failed, new_volume}

-- `Bookshelf`, with the volumes behind its lock
pub record Bookshelf (S Epoch : Type 0) : Type 0 where
  pub storage : Storage S
  pub bucket : String
  pub prefix : Option FilePath
  pub volumes : Option (List (Volume S Epoch))

-- what is left of a path when the prefix is stripped
unfoldable pub strip : Option FilePath → FilePath → Option FilePath
strip none path = some path
strip (some base) path = strip_prefix path base

-- `skip_while(not Normal).skip(1)`
unfoldable pub skip_first_normal : FilePath → FilePath
skip_first_normal [] = []
skip_first_normal (normal s ∷ path) = path
skip_first_normal (root_dir ∷ path) = skip_first_normal path
skip_first_normal (cur_dir ∷ path) = skip_first_normal path
skip_first_normal (parent_dir ∷ path) = skip_first_normal path

module _ {Epoch : Type 0} (cal : Calendar Epoch) where
  -- a component that is a valid epoch
  unfoldable pub component_epoch : Component → Option Epoch
  component_epoch (normal s) = cal.parse_from_str s
  component_epoch root_dir = none
  component_epoch cur_dir = none
  component_epoch parent_dir = none

  -- the index and the value of the first valid epoch
  unfoldable pub find_epoch : ℕ → FilePath → Option (ℕ × Epoch)
  unfolding component_epoch
  find_epoch i [] = none
  find_epoch i (c ∷ path) =
      let rest = find_epoch (suc i) path in
      elim (component_epoch c) [ some e ↦ some (i, e) | none ↦ rest ]

  -- the closure of `filter_map`, after the prefix is stripped
  unfoldable pub split_path : FilePath → Option (FilePath × Epoch × FilePath)
  unfolding find_epoch
  split_path path = elim (find_epoch 0 path) [
    | none ↦ none
    | some (i, epoch) ↦ some (take i path, epoch, skip_first_normal path)
  ]

  unfoldable pub candidate : Option FilePath → FilePath → Option (FilePath × Epoch × FilePath)
  unfolding strip
  candidate prefix path = elim (strip prefix path) [ none ↦ none | some rest ↦ split_path rest ]

  unfoldable pub candidates : Option FilePath → List FilePath → List (FilePath × Epoch × FilePath)
  candidates prefix [] = []
  candidates prefix (path ∷ rest) =
      let others = candidates prefix rest in
      elim (candidate prefix path) [ none ↦ others | some c ↦ c ∷ others ]

abbrev pub Shelves : Type 0 → Type 0
Shelves Epoch = BTreeMap FilePath (Paths Epoch)

module _ {Epoch : Type 0} ⦃o : Ord Epoch⦄ where
  -- `.entry(epoch).or_default().push(path)`
  unfoldable pub push_path : Epoch → FilePath → Option (Paths Epoch) → Paths Epoch
  push_path epoch path paths = upsert epoch (λ ps. get_or ps [] ++ path ∷ []) (get_or paths [])

  -- the loop over the candidates
  unfoldable pub file_all : List (FilePath × Epoch × FilePath) → Shelves Epoch → Shelves Epoch
  unfolding push_path
  file_all [] shelves = shelves
  file_all ((name, epoch, path) ∷ rest) shelves =
      file_all rest (upsert name (push_path epoch path) shelves)

module _ {S Epoch : Type 0} where
  unfoldable pub config_of : Bookshelf S Epoch → VolumeConfig S
  config_of b = record { storage = b.storage; bucket = b.bucket; prefix = b.prefix }

  -- `Bookshelf::new`
  unfoldable pub new : Storage S → String → Option FilePath → Bookshelf S Epoch
  new storage bucket prefix = record {
    storage = storage;
    bucket = bucket;
    prefix = prefix;
    volumes = none;
  }

  -- `Bookshelf::with_prefix`, `Bookshelf::join`
  unfoldable pub with_prefix : Bookshelf S Epoch → FilePath → Bookshelf S Epoch
  with_prefix b p = record b { prefix = some p }

  unfoldable pub join : Bookshelf S Epoch → FilePath → Bookshelf S Epoch
  join b path = elim b.prefix [
    | none ↦ record b { prefix = some path }
    | some p ↦ record b { prefix = some (push p path) }
  ]

  unfoldable pub clear_volume_cache : Bookshelf S Epoch → Bookshelf S Epoch
  clear_volume_cache b = record b { volumes = none }

  unfoldable pub find_volume : FilePath → List (Volume S Epoch) → Option (Volume S Epoch)
  find_volume name [] = none
  find_volume name (v ∷ vs) = if v.name == name then some v else find_volume name vs

  -- `unwrap_or_else` of `Bookshelf::volume`
  unfoldable pub volume_or_new :
      FilePath → Bookshelf S Epoch → Option (Volume S Epoch) → Volume S Epoch × Bookshelf S Epoch
  volume_or_new name b (some v) = (v, b)
  volume_or_new name b none = (new_volume (config_of b) name [], clear_volume_cache b)

-- `list.sort()`
unfoldable pub insert_sorted : FilePath → List FilePath → List FilePath
insert_sorted p [] = p ∷ []
insert_sorted p (q ∷ ps) =
    let rest = insert_sorted p ps in
    elim ((list_ord {A = Component}).cmp p q) [ Ordering.gt ↦ q ∷ rest | _ ↦ p ∷ q ∷ ps ]

unfoldable pub sort : List FilePath → List FilePath
unfolding insert_sorted
sort [] = []
sort (p ∷ ps) = insert_sorted p (sort ps)

module _ {S Epoch : Type 0} ⦃o : Ord Epoch⦄ (cal : Calendar Epoch) where
  -- `Bookshelf::process_list`
  unfoldable pub process_list : Bookshelf S Epoch → List FilePath → List (Volume S Epoch)
  unfolding candidates file_all
  process_list b paths =
      map (λ shelf. new_volume (config_of b) shelf.0 shelf.1)
        (file_all (candidates cal b.prefix paths) [])

  -- what `list` returns and caches, by what is cached and what the storage lists
  unfoldable pub cached_or_listed :
      Bookshelf S Epoch
      → Option (List (Volume S Epoch))
      → Result (List FilePath) StorageError
      → Result (List (Volume S Epoch)) Error × Bookshelf S Epoch
  unfolding process_list
  cached_or_listed b (some volumes) r = (ok volumes, b)
  cached_or_listed b none (err e) = (err (storage_failed e), b)
  cached_or_listed b none (ok paths) =
      let shelves = process_list b (sort paths) in (ok shelves, record b { volumes = some shelves })

  -- `Bookshelf::list`
  unfoldable pub list :
      Bookshelf S Epoch → S → Result (List (Volume S Epoch)) Error × Bookshelf S Epoch
  unfolding cached_or_listed
  list b s = cached_or_listed b b.volumes (Storage.list b.storage b.bucket b.prefix s)

  -- `Bookshelf::volume`
  unfoldable pub volume :
      Bookshelf S Epoch → FilePath → S → Result (Volume S Epoch) Error × Bookshelf S Epoch
  unfolding list find_volume volume_or_new
  volume b name s =
      let (r, c) = list b s in
      elim r [
        | err e ↦ (err e, c)
        | ok shelves ↦ let (v, d) = volume_or_new name c (find_volume name shelves) in (ok v, d)
      ]
