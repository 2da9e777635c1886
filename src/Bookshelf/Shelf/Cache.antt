-- ===== src/Bookshelf/Shelf/Cache.antt =====
-- The volumes that a `Bookshelf` of bookshelf/src/lib.rs keeps between calls.
use emporium.Prelude.{◌≡◌, refl, ap, ◌∙◌, Option, none, some, List, [], ◌∷◌, All, Result, ok, err}
use emporium.Chrono.{Calendar}
use emporium.Std.Ord.{Ord}
use emporium.Std.Path.{FilePath}
use emporium.StorageDriver.{StorageError}
use emporium.Storage
use emporium.Bookshelf.Volume.{Volume}
use emporium.Bookshelf.Shelf.{
  Bookshelf, cached_or_listed, find_volume, list, process_list, sort, volume, volume_or_new,
}

-- a call of `list` or of `volume`, with what the storage is then
pub data Use (S : Type 0) : Type 0 where
  lists : S → Use S
  asks : FilePath → S → Use S

module _ {S Epoch : Type 0} ⦃o : Ord Epoch⦄ (cal : Calendar Epoch) where
  cached_again :
      (b : Bookshelf S Epoch) (cached : Option (List (Volume S Epoch)))
      (r q : Result (List FilePath) StorageError) (vs : List (Volume S Epoch))
      → b.volumes ≡ cached
      → (cached_or_listed cal b cached r).0 ≡ ok vs
      → cached_or_listed cal
          (cached_or_listed cal b cached r).1
          (cached_or_listed cal b cached r).1.volumes
          q
        ≡ (ok vs, (cached_or_listed cal b cached r).1)
  unfolding cached_or_listed
  cached_again b (some volumes) r q vs c h =
      ap (λ v. cached_or_listed cal b v q) c ∙ ap (λ x. (x, b)) h
  cached_again b none (err e) q vs c h = cc
  cached_again b none (ok paths) q vs c h =
      ap (λ x. (x, record b { volumes = some (process_list cal b (sort paths)) })) h

  list-list :
      (b : Bookshelf S Epoch) (s t : S) (vs : List (Volume S Epoch))
      → (list cal b s).0 ≡ ok vs
      → list cal (list cal b s).1 t ≡ (ok vs, (list cal b s).1)
  unfolding list
  list-list b s t vs h =
      let (r, c) = list cal b s in
      cached_again b b.volumes (Storage.list b.storage b.bucket b.prefix s)
        (Storage.list c.storage c.bucket c.prefix t) vs refl h

  -- what the bookshelf is after a use of it, and what is known of the volumes that a use asks for
  abbrev pub use_shelf : Use S → Bookshelf S Epoch → Bookshelf S Epoch
  use_shelf (lists s) b = (list cal b s).1
  use_shelf (asks name s) b = (volume cal b name s).1

  abbrev pub use_all : List (Use S) → Bookshelf S Epoch → Bookshelf S Epoch
  use_all [] b = b
  use_all (u ∷ us) b = use_all us (use_shelf u b)

  abbrev pub IsFound : List (Volume S Epoch) → Use S → Type 0
  IsFound vs (lists s) = Unit
  IsFound vs (asks name s) = (v : Volume S Epoch) × (find_volume name vs ≡ some v)

  use_shelf-same :
      (u : Use S) (b : Bookshelf S Epoch) (vs : List (Volume S Epoch))
      → ((t : S) → list cal b t ≡ (ok vs, b))
      → IsFound vs u
      → use_shelf u b ≡ b
  unfolding volume volume_or_new
  use_shelf-same (lists s) b vs h f = ap (λ p. p.1) (h s)
  use_shelf-same (asks name s) b vs h (v, f) =
      rw (use_shelf, h s, volume)
        (ap (λ o. (volume_or_new name (list cal b s).1 o).1) f ∙ ap (λ p. p.1) (h s))

  use_all-same :
      (us : List (Use S)) (b : Bookshelf S Epoch) (vs : List (Volume S Epoch))
      → ((t : S) → list cal b t ≡ (ok vs, b))
      → All (IsFound vs) us
      → use_all us b ≡ b
  use_all-same [] b vs h f = refl
  use_all-same (u ∷ us) b vs h (f, fs) =
      ap (use_all us) (use_shelf-same u b vs h f) ∙ use_all-same us b vs h fs

  -- Once `list` has returned volumes, it returns the same volumes and changes nothing after any
  -- further calls of `list`, and of `volume` for names that are among these volumes, whatever the
  -- storage has become at each of the calls.
  pub list-use_all :
      (b : Bookshelf S Epoch) (s t : S) (vs : List (Volume S Epoch)) (us : List (Use S))
      → (list cal b s).0 ≡ ok vs
      → All (IsFound vs) us
      → list cal (use_all us (list cal b s).1) t ≡ (ok vs, (list cal b s).1)
  list-use_all b s t vs us h f =
      ap (λ c. list cal c t) (use_all-same us (list cal b s).1 vs (λ t'. list-list b s t' vs h) f)
      ∙ list-list b s t vs h
