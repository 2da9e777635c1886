-- ===== src/Bookshelf/Shelf/Upload.antt =====
-- Uploading an entry and finding it again, over any storage driver that keeps what it is given.
use emporium.Prelude.{
  ◌≡◌, refl, ap, ap₂, ◌∙◌, Option, none, some, List, [], ◌∷◌, ◌++◌, ◌&&◌, ◌||◌, true, Bool, any,
  String, ok, ◌==◌, ==_refl, string_eq, list_eq,
}
use mathlib.Core.Option.{get_or}
use emporium.Chrono.{Calendar}
use emporium.Std.Ord.{Ord}
use emporium.Std.Path.{FilePath, component_eq}
use emporium.Std.Path.Laws.{IsRelative, starts_with-append}
use emporium.StorageDriver.{Bytes, Driver}
use emporium.Storage
use emporium.Storage.{Storage}
use emporium.Storage.Contract.{IsStore, contains, has_prefix, is_some}
use emporium.Bookshelf.Volume.{
  Volume, new_volume, new_entry, entry_exists, entry_upload, entry_error,
}
use emporium.Bookshelf.Shelf.{Bookshelf, config_of, volume}
use emporium.Bookshelf.Shelf.Entries.{HasNoEpoch, has, entry_path, inner_path}
use emporium.Bookshelf.Shelf.Lookup.{volume-entry_exists}

has-contains : (path : FilePath) (ps : List FilePath) → has path ps ≡ contains path ps
unfolding any contains
has-contains path [] = refl
has-contains path (p ∷ ps) = ap (λ b. (p == path) || b) (has-contains path ps)

has_prefix-append :
    (prefix : Option FilePath) (path : FilePath)
    → has_prefix prefix (get_or prefix [] ++ path) ≡ true
unfolding has_prefix
has_prefix-append none path = refl
has_prefix-append (some p) path = starts_with-append p path

-- what was uploaded below a prefix is listed below it
upload_listed :
    {S : Type 0} (d : Driver S) (contents : String → FilePath → S → Option Bytes)
    (has_bucket : String → S → Bool) (bucket : String) (prefix : Option FilePath) (path : FilePath)
    (bytes : Bytes) (s : S)
    → IsStore d contents has_bucket
    → has_prefix prefix path ≡ true
    → (paths : List FilePath) × (d.list bucket prefix (d.upload bucket path (ok bytes) s).1
        ≡ ok paths)
      × (has path paths ≡ true)
unfolding is_some
upload_listed d contents has_bucket bucket prefix path bytes s store below =
    let after = (d.upload bucket path (ok bytes) s).1 in
    let open_bucket : has_bucket bucket after ≡ true =
      rw (store.upload_bucket bucket bucket path bytes s, ==_refl bucket) refl in
    let kept : contents bucket path after ≡ some bytes =
      rw (store.upload_contents bucket bucket path path bytes s, ==_refl bucket, ==_refl path)
        refl in
    let (paths, listed, exact) = store.list_ok bucket prefix after open_bucket in
    (paths, listed, has-contains path paths ∙ exact path ∙ ap₂ (λ a o. a && is_some o) below kept)

module _ {S Epoch : Type 0} ⦃o : Ord Epoch⦄ (cal : Calendar Epoch) where
  -- Over a driver that keeps what it is given, a bookshelf with nothing cached that uploads an entry
  -- succeeds, and `volume` of the entry's volume name then returns a volume in which the entry
  -- exists. The name and the rest of the path are relative, no component of the name reads as a
  -- date, and the date is read back from its text.
  pub upload-volume :
      (b : Bookshelf S Epoch) (contents : String → FilePath → S → Option Bytes)
      (has_bucket : String → S → Bool) (name : FilePath) (epoch : Epoch) (suffix : FilePath)
      (bytes : Bytes) (s : S)
      → IsStore b.storage.driver contents has_bucket
      → IsRelative name
      → IsRelative suffix
      → HasNoEpoch cal name
      → cal.parse_from_str (cal.format epoch) ≡ some epoch
      → b.volumes ≡ none
      → ((entry_upload
            (new_entry cal (new_volume (config_of b) name []) epoch suffix)
            (ok bytes)
            s).0
          ≡ ok tt)
        × (v : Volume S Epoch) × ((volume cal b name
              (entry_upload
                (new_entry cal (new_volume (config_of b) name []) epoch suffix)
                (ok bytes)
                s).1).0
            ≡ ok v)
        × (entry_exists (new_entry cal v epoch suffix) ≡ true)
  unfolding entry_upload entry_error Storage.upload Storage.list new_volume config_of new_entry
  upload-volume b contents has_bucket name epoch suffix bytes s store n r e p c =
      let entry = new_entry cal (new_volume (config_of b) name []) epoch suffix in
      let below : has_prefix b.prefix entry.path ≡ true =
        ap (has_prefix b.prefix)
          (entry_path cal (new_volume (config_of b) name []) epoch suffix n r)
        ∙ has_prefix-append b.prefix (inner_path cal name epoch suffix) in
      let (paths, listed, there) =
        upload_listed b.storage.driver contents has_bucket b.bucket b.prefix entry.path bytes s
          store below in
      let (v, found, kept) =
        volume-entry_exists cal b name epoch suffix paths (entry_upload entry (ok bytes) s).1 n r e
          p c listed there in
      (ap entry_error (store.upload_ok b.bucket entry.path bytes s), v, found, kept)
