-- ===== src/Bookshelf/Shelf/Lookup.antt =====
-- `Bookshelf::volume` of bookshelf/src/lib.rs finds what the storage lists.
use emporium.Prelude.{
  ◌≡◌, ◌≢◌, refl, ap, ◌∙◌, sym, Option, none, some, List, [], ◌∷◌, arith, ◌||◌, true, if◌then◌else◌,
  Bool, any, ==_iff, list_eq, ◌==◌, ok, Bool-cases, Option-cases, inl, inr, map,
}
use mathlib.Core.Option.{get_or, some_inj}
use emporium.Chrono.{Calendar}
use emporium.Std.Ord.{Ord, list_ord}
use emporium.Std.Path.{FilePath, component_eq, component_ord, ends_with}
use emporium.Std.Path.Laws.{IsRelative}
use emporium.Storage
use emporium.Bookshelf.Volume.{
  Volume, VolumeConfig, Paths, new_volume, book, book_list, new_entry, entry_exists,
}
use emporium.Bookshelf.Shelf.{
  Bookshelf, Shelves, cached_or_listed, candidates, config_of, file_all, find_volume, insert_sorted,
  list, process_list, skip_first_normal, sort, volume, volume_or_new,
}
use emporium.Bookshelf.Shelf.Filing.{paths_of, process_list-filed}
use emporium.Bookshelf.Shelf.Entries.{
  HasNoEpoch, inner_path, entry_path, candidate-entry, candidates-filed, has,
  ends_with-skip_first_normal,
}

has-insert_sorted :
    (path p : FilePath) (ps : List FilePath) → has path (insert_sorted p ps) ≡ has path (p ∷ ps)
unfolding insert_sorted any
has-insert_sorted path p [] = refl
has-insert_sorted path p (q ∷ ps) = ground (arith, has-insert_sorted path p ps)

has-sort : (path : FilePath) (ps : List FilePath) → has path (sort ps) ≡ has path ps
unfolding sort any
has-sort path [] = refl
has-sort path (p ∷ ps) =
    has-insert_sorted path p (sort ps) ∙ ap (λ b. (p == path) || b) (has-sort path ps)

any-ends_with :
    (path suffix : FilePath) (ps : List FilePath)
    → ends_with path suffix ≡ true
    → has suffix ps ≡ true
    → any (λ p. ends_with path p) ps ≡ true
unfolding any
any-ends_with path suffix [] e h = cc
any-ends_with path suffix (p ∷ ps) e h =
    ground (arith, any-ends_with path suffix ps e, ==_iff p suffix)

module _ {S Epoch : Type 0} ⦃o : Ord Epoch⦄ where
  has_volume :
      (epoch : Epoch) (path : FilePath) (v : Option (Volume S Epoch))
      → has path (paths_of epoch v) ≡ true
      → v ≢ none
  unfolding any
  has_volume epoch path none h e = cc
  has_volume epoch path (some v) h e = cc

  find_volume-some :
      (config : VolumeConfig S) (name : FilePath) (v : Volume S Epoch) (shelves : Shelves Epoch)
      → find_volume name (map (λ shelf. new_volume config shelf.0 shelf.1) shelves) ≡ some v
      → (paths : Paths Epoch) × (v ≡ new_volume config name paths)
  unfolding find_volume new_volume
  find_volume-some config name v [] h = cc
  find_volume-some config name v ((n, paths) ∷ shelves) h =
      let later = find_volume name (map (λ shelf. new_volume config shelf.0 shelf.1) shelves) in
      let test : Bool → Option (Volume S Epoch) =
        λ t. if t then some (new_volume config n paths) else later in
      elim (Bool-cases (n == name)) [
        | inl t ↦ (
          paths,
          sym (some_inj.0 (ap test (sym t) ∙ h))
              ∙ ap (λ m. new_volume config m paths) ((==_iff n name).0 t),
        )
        | inr t ↦ find_volume-some config name v shelves (ap test (sym t) ∙ h)
      ]

  -- the path of an entry ends with what its volume keeps of it
  found_entry :
      (cal : Calendar Epoch) (v : Volume S Epoch) (epoch : Epoch) (suffix : FilePath)
      → IsRelative v.name
      → IsRelative suffix
      → has (skip_first_normal (inner_path cal v.name epoch suffix)) (book_list (book v epoch))
        ≡ true
      → entry_exists (new_entry cal v epoch suffix) ≡ true
  unfolding entry_exists new_entry book_list book
  found_entry cal v epoch suffix n r h =
      let path = inner_path cal v.name epoch suffix in
      any-ends_with (new_entry cal v epoch suffix).path (skip_first_normal path)
        (book_list (book v epoch))
        (ap (λ p. ends_with p (skip_first_normal path)) (entry_path cal v epoch suffix n r)
          ∙ ends_with-skip_first_normal (get_or v.config.prefix []) path)
        h

  -- the volume of a name in `process_list`, when an entry of it is among the paths
  find_volume-process_list :
      (cal : Calendar Epoch) (b : Bookshelf S Epoch) (name : FilePath) (epoch : Epoch)
      (suffix : FilePath) (paths : List FilePath)
      → IsRelative name
      → IsRelative suffix
      → HasNoEpoch cal name
      → cal.parse_from_str (cal.format epoch) ≡ some epoch
      → has (new_entry cal (new_volume (config_of b) name []) epoch suffix).path paths ≡ true
      → (v : Volume S Epoch) × (find_volume name (process_list cal b paths) ≡ some v)
        × (entry_exists (new_entry cal v epoch suffix) ≡ true)
  unfolding process_list new_volume config_of
  find_volume-process_list cal b name epoch suffix paths n r e p h =
      let path = inner_path cal name epoch suffix in
      let c = candidate-entry cal (new_volume (config_of b) name []) epoch suffix n r e p in
      let filing = process_list-filed cal b paths name epoch in
      let filed_there =
        candidates-filed cal b.prefix name epoch
          (new_entry cal (new_volume (config_of b) name []) epoch suffix).path
          (skip_first_normal path) paths c h in
      let present : has (skip_first_normal path)
            (paths_of epoch (find_volume name (process_list cal b paths)))
          ≡ true =
        rw filing filed_there in
      elim (Option-cases (find_volume name (process_list cal b paths))) [
        | inl gone ↦ absurd (
            has_volume epoch (skip_first_normal path) (find_volume name (process_list cal b paths))
              present gone)
        | inr (v, found) ↦
            let (kept, is_new) =
              find_volume-some (config_of b) name v (file_all (candidates cal b.prefix paths) [])
                found in
            (
              v,
              found,
              rw is_new (
                  found_entry cal (new_volume (config_of b) name kept) epoch suffix n r (
                    ap (λ x. has (skip_first_normal path) (paths_of epoch x))
                      (sym (found ∙ ap some is_new))
                    ∙ present)),
            )
      ]

  list_uncached :
      (cal : Calendar Epoch) (b : Bookshelf S Epoch) (paths : List FilePath) (s : S)
      → b.volumes ≡ none
      → Storage.list b.storage b.bucket b.prefix s ≡ ok paths
      → list cal b s ≡ (
        ok (process_list cal b (sort paths)),
        record b { volumes = some (process_list cal b (sort paths)) },
      )
  unfolding list cached_or_listed
  list_uncached cal b paths s c l =
      ap (λ v. cached_or_listed cal b v (Storage.list b.storage b.bucket b.prefix s)) c
      ∙ ap (cached_or_listed cal b none) l

  volume_found :
      (cal : Calendar Epoch) (b : Bookshelf S Epoch) (name : FilePath) (s : S) (v : Volume S Epoch)
      (vs : List (Volume S Epoch)) (d : Bookshelf S Epoch)
      → list cal b s ≡ (ok vs, d)
      → find_volume name vs ≡ some v
      → (volume cal b name s).0 ≡ ok v
  unfolding volume volume_or_new
  volume_found cal b name s v vs d l f =
      rw (l, volume) (ap (λ w. ok (volume_or_new name (list cal b s).1 w).0) f)

  -- When nothing is cached, the storage lists `paths` and the path of an entry is among them, then
  -- `volume` of the entry's volume name returns a volume in which that entry exists. The name and the
  -- rest of the path are relative, no component of the name reads as a date, and the date is read back
  -- from its text.
  pub volume-entry_exists :
      (cal : Calendar Epoch) (b : Bookshelf S Epoch) (name : FilePath) (epoch : Epoch)
      (suffix : FilePath) (paths : List FilePath) (s : S)
      → IsRelative name
      → IsRelative suffix
      → HasNoEpoch cal name
      → cal.parse_from_str (cal.format epoch) ≡ some epoch
      → b.volumes ≡ none
      → Storage.list b.storage b.bucket b.prefix s ≡ ok paths
      → has (new_entry cal (new_volume (config_of b) name []) epoch suffix).path paths ≡ true
      → (v : Volume S Epoch) × ((volume cal b name s).0 ≡ ok v)
        × (entry_exists (new_entry cal v epoch suffix) ≡ true)
  volume-entry_exists cal b name epoch suffix paths s n r e p c l h =
      let (v, found, there) =
        find_volume-process_list cal b name epoch suffix (sort paths) n r e p (
          has-sort (new_entry cal (new_volume (config_of b) name []) epoch suffix).path paths
          ∙ h) in
      (
        v,
        volume_found cal b name s v (process_list cal b (sort paths))
            (record b { volumes = some (process_list cal b (sort paths)) })
            (list_uncached cal b paths s c l) found,
        there,
      )
