-- ===== src/Bookshelf/Volume.antt =====
-- `Volume`, `Book` and `Entry` of bookshelf/src/lib.rs.
use emporium.Prelude.{
  String, Bool, Option, none, some, List, [], ◌∷◌, Result, ok, err, ◌==◌, list_eq, any, map_err,
}
use mathlib.Core.Option.{get_or}
use emporium.Chrono.{Calendar}
use emporium.Std.Ord.{Ord}
use emporium.Std.BTreeMap
use emporium.Std.BTreeMap.{BTreeMap, BTreeSet}
use emporium.Std.Path.{FilePath, component_eq, normal, push, ends_with}
use emporium.StorageDriver.{StorageError, Reader, Writer}
use emporium.Storage
use emporium.Storage.{Storage}
use emporium.Bookshelf.Epoch.{EpochSelector, find, next, last}

-- `Error`
pub data Error : Type 0 where
  not_found : String → Error
  storage_failed : StorageError → Error

-- `Paths`
abbrev pub Paths : Type 0 → Type 0
Paths Epoch = BTreeMap Epoch (List FilePath)

pub record VolumeConfig (S : Type 0) : Type 0 where
  pub storage : Storage S
  pub bucket : String
  pub prefix : Option FilePath

-- `Volume`, with its `InnerVolume`
pub record Volume (S Epoch : Type 0) : Type 0 where
  pub config : VolumeConfig S
  pub paths : Paths Epoch
  pub name : FilePath
  pub path : FilePath

pub record Book (S Epoch : Type 0) : Type 0 where
  pub volume : Volume S Epoch
  pub epoch : Epoch

pub record Entry (S Epoch : Type 0) : Type 0 where
  pub volume : Volume S Epoch
  pub epoch : Epoch
  pub path : FilePath

-- `p.join(&name)` under a prefix, the name alone without one
unfoldable pub under_prefix : Option FilePath → FilePath → FilePath
under_prefix none name = name
under_prefix (some p) name = push p name

module _ {S Epoch : Type 0} where
  -- `InnerVolume::new`
  unfoldable pub new_volume : VolumeConfig S → FilePath → Paths Epoch → Volume S Epoch
  unfolding under_prefix
  new_volume config name paths = record {
    config = config;
    paths = paths;
    name = name;
    path = under_prefix config.prefix name;
  }

  -- `Volume::book`
  unfoldable pub book : Volume S Epoch → Epoch → Book S Epoch
  book v epoch = record { volume = v; epoch = epoch }

  book_of : Volume S Epoch → Option Epoch → Option (Book S Epoch)
  unfolding book
  book_of v none = none
  book_of v (some epoch) = some (book v epoch)

  -- `Volume::earliest`, `Volume::latest`
  unfoldable pub earliest_book : Volume S Epoch → Option (Book S Epoch)
  unfolding book_of next
  earliest_book v = book_of v (next (BTreeMap.keys v.paths))

  unfoldable pub latest_book : Volume S Epoch → Option (Book S Epoch)
  unfolding book_of last
  latest_book v = book_of v (last (BTreeMap.keys v.paths))

module _ {S Epoch : Type 0} ⦃o : Ord Epoch⦄ where
  -- `Volume::list`
  unfoldable pub volume_list : Volume S Epoch → BTreeSet Epoch
  volume_list v = BTreeMap.collect (BTreeMap.keys v.paths)

  -- `Volume::exists`
  unfoldable pub volume_exists : Volume S Epoch → Epoch → Bool
  volume_exists v epoch = BTreeMap.contains_key epoch v.paths

  -- `Volume::get`
  unfoldable pub volume_get : Volume S Epoch → EpochSelector Epoch → Option (Book S Epoch)
  unfolding book_of
  volume_get v selector = book_of v (find selector v.paths)

  -- `Book::list`
  unfoldable pub book_list : Book S Epoch → List FilePath
  book_list b = get_or (BTreeMap.get b.epoch b.volume.paths) []

  -- `Book::exists`
  unfoldable pub book_exists : Book S Epoch → Bool
  unfolding volume_exists
  book_exists b = volume_exists b.volume b.epoch

  -- `Book::contains`
  unfoldable pub book_contains : Book S Epoch → FilePath → Bool
  unfolding book_list
  book_contains b path = any (λ p. p == path) (book_list b)

-- `Epoch::to_path`
unfoldable pub to_path : {Epoch : Type 0} → Calendar Epoch → Epoch → FilePath
to_path cal epoch = normal (cal.format epoch) ∷ []

unfoldable pub entry_error : Result (Unit {0}) StorageError → Result (Unit {0}) Error
entry_error = map_err storage_failed

-- the keys that `Book::delete` deletes
unfoldable pub delete_targets : FilePath → List FilePath → List FilePath
delete_targets base [] = []
delete_targets base (path ∷ rest) = push base path ∷ delete_targets base rest

-- `try_join_all` of the deletions, run one after the other up to the first error.
unfoldable pub delete_each :
    {S : Type 0} → Storage S → String → List FilePath → S → Result (Unit {0}) Error × S
delete_each storage bucket [] s = (ok tt, s)
delete_each storage bucket (path ∷ rest) s =
    let (r, t) = Storage.delete storage bucket path s in
    let others = delete_each storage bucket rest t in
    elim r [ ok _ ↦ others | err e ↦ (err (storage_failed e), t) ]

-- `Entry::new`
unfoldable pub new_entry :
    {S Epoch : Type 0} → Calendar Epoch → Volume S Epoch → Epoch → FilePath → Entry S Epoch
unfolding to_path
new_entry cal v epoch suffix =
    let base = get_or v.config.prefix [] in
    record {
      volume = v;
      epoch = epoch;
      path = push (push (push base v.name) (to_path cal epoch)) suffix;
    }

module _ {S Epoch : Type 0} ⦃o : Ord Epoch⦄ where
  -- `Book::delete`
  unfoldable pub book_delete : Book S Epoch → S → Result (Unit {0}) Error × S
  unfolding book_list delete_targets delete_each
  book_delete b =
      delete_each b.volume.config.storage b.volume.config.bucket
        (delete_targets b.volume.path (book_list b))

  -- `Entry::exists`
  unfoldable pub entry_exists : Entry S Epoch → Bool
  entry_exists e = any (λ p. ends_with e.path p) (get_or (BTreeMap.get e.epoch e.volume.paths) [])

module _ {S Epoch : Type 0} where
  unfoldable pub entry_upload : Entry S Epoch → Reader → S → Result (Unit {0}) Error × S
  unfolding entry_error
  entry_upload e source s =
      let (r, t) = Storage.upload e.volume.config.storage e.volume.config.bucket e.path source s in
      (entry_error r, t)

  unfoldable pub entry_download : Entry S Epoch → Writer → S → Result Writer Error
  entry_download e destination s =
      map_err storage_failed
        (Storage.download e.volume.config.storage e.volume.config.bucket e.path destination s)

  unfoldable pub entry_delete : Entry S Epoch → S → Result (Unit {0}) Error × S
  unfolding entry_error
  entry_delete e s =
      let (r, t) = Storage.delete e.volume.config.storage e.volume.config.bucket e.path s in
      (entry_error r, t)
