-- ===== src/Bookshelf/Shelf/Deletion.antt =====
-- `Book::delete` of bookshelf/src/lib.rs against the paths of the entries.
use emporium.Prelude.{
  ◌≡◌, ◌↔◌, refl, ap, ap₂, map, All, ◌∙◌, sym, Option, none, some, List, [], ◌∷◌, ◌++◌, arith,
  length, length-append, ok, err, String, Bool, true, ◌&&◌, ◌||◌, ◌==◌, string_eq, list_eq, any,
  if◌then◌else◌,
}
use mathlib.Core.Option.{get_or}
use mathlib.Core.List.{append_assoc}
use emporium.Chrono.{Calendar}
use emporium.Std.Ord.{Ord}
use emporium.Std.BTreeMap
use emporium.Std.Path.{FilePath, component_eq, normal, root_dir, cur_dir, parent_dir, push}
use emporium.Std.Path.Laws.{IsRelative, push-relative}
use emporium.StorageDriver.{Bytes}
use emporium.Storage
use emporium.Storage.{Storage}
use emporium.Storage.Contract.{IsStore}
use emporium.Bookshelf.Volume.{
  book, book_delete, book_list, delete_each, storage_failed, VolumeConfig, Paths, new_volume,
  under_prefix, new_entry, to_path, delete_targets,
}
use emporium.Bookshelf.Shelf.{skip_first_normal}
use emporium.Bookshelf.Shelf.Entries.{entry_path, inner_path}

IsRelative-append :
    (rest path : FilePath) → IsRelative rest → IsRelative path → IsRelative (rest ++ path)
IsRelative-append [] path r p = p
IsRelative-append (normal s ∷ rest) path r p = tt
IsRelative-append (parent_dir ∷ rest) path r p = tt
IsRelative-append (root_dir ∷ rest) path r p = r
IsRelative-append (cur_dir ∷ rest) path r p = r

under_prefix_path :
    (prefix : Option FilePath) (name : FilePath)
    → IsRelative name
    → under_prefix prefix name ≡ get_or prefix [] ++ name
unfolding under_prefix
under_prefix_path none name n = refl
under_prefix_path (some p) name n = push-relative p name n

nil_of_length : (rest : FilePath) → length rest ≡ 0 → rest ≡ []
nil_of_length [] h = refl
nil_of_length (c ∷ rest) h = absurd (omega arith)

normal_IsRelative : (s : String) (path : FilePath) → IsRelative (normal s ∷ path)
normal_IsRelative s path = tt

abbrev head_path : List FilePath → FilePath
head_path [] = []
head_path (p ∷ ps) = p

-- a path in the middle that changes nothing is empty
insert_nothing : (base rest path : FilePath) → (base ++ (rest ++ path) ≡ base ++ path) ↔ (rest ≡ [])
insert_nothing base rest path = (
  λ h. nil_of_length rest (
      omega (
        arith,
        ap length h,
        length-append base (rest ++ path),
        length-append rest path,
        length-append base path,
      )),
  λ h. ap (λ r. base ++ (r ++ path)) h,
)

module _ {S Epoch : Type 0} (cal : Calendar Epoch) where
  -- The key that `Book::delete` deletes for an entry that was listed is the path of that entry exactly
  -- when the name of the volume is a single component: the name's other components, `rest`, are put
  -- into the key twice. The name starts with a normal component, and `rest` and the entry's own part
  -- of the path are relative.
  pub delete_targets-entry_iff :
      (config : VolumeConfig S) (paths : Paths Epoch) (first : String) (rest : FilePath)
      (epoch : Epoch) (suffix : FilePath)
      → IsRelative rest
      → IsRelative suffix
      → (delete_targets
            (new_volume config (normal first ∷ rest) paths).path
            (skip_first_normal (inner_path cal (normal first ∷ rest) epoch suffix) ∷ [])
          ≡ (new_entry cal (new_volume config (normal first ∷ rest) paths) epoch suffix).path ∷ [])
        ↔ (rest ≡ [])
  unfolding new_volume delete_targets skip_first_normal to_path
  delete_targets-entry_iff config paths first rest epoch suffix r s =
      let base = get_or config.prefix [] in
      let name = normal first ∷ rest in
      let kept = rest ++ (to_path cal epoch ++ suffix) in
      let relative =
        IsRelative-append rest (to_path cal epoch ++ suffix) r
          (normal_IsRelative (cal.format epoch) suffix) in
      let key : push (under_prefix config.prefix name) kept ≡ (base ++ name) ++ kept =
        ap (λ p. push p kept) (under_prefix_path config.prefix name tt)
        ∙ push-relative (base ++ name) kept relative in
      let full : (new_entry cal (new_volume config name paths) epoch suffix).path
          ≡ (base ++ name) ++ (to_path cal epoch ++ suffix) =
        entry_path cal (new_volume config name paths) epoch suffix tt s
        ∙ sym (append_assoc base name (to_path cal epoch ++ suffix)) in
      let inserted = insert_nothing (base ++ name) rest (to_path cal epoch ++ suffix) in
      (
        λ h. inserted.0 (sym key ∙ ap head_path h ∙ full),
        λ h. ap (λ p. p ∷ []) (key ∙ inserted.1 h ∙ sym full),
      )

if_or {ℓ} :
    {A : Type ℓ} (a b c : Bool) (x : Option A)
    → (if a && c then none else if a && b then none else x) ≡ (if a && (b || c) then none else x)
if_or a b c x = ground arith

-- `path` is in the list
abbrev pub is_target : FilePath → List FilePath → Bool
is_target path = any (λ p. p == path)

module _ {S : Type 0} (storage : Storage S) (contents : String → FilePath → S → Option Bytes)
    (has_bucket : String → S → Bool) (store : IsStore storage.driver contents has_bucket) where
  delete_each-contents :
      (bucket : String) (paths : List FilePath) (s : S)
      → has_bucket bucket s ≡ true
      → ((delete_each storage bucket paths s).0 ≡ ok tt)
        × ((c : String) (q : FilePath)
            → contents c q (delete_each storage bucket paths s).1
              ≡ (if bucket == c && is_target q paths then none else contents c q s))
  unfolding delete_each any Storage.delete
  delete_each-contents bucket [] s h = (refl, λ c q. ground arith)
  delete_each-contents bucket (path ∷ paths) s h =
      let t = (storage.driver.delete bucket path s).1 in
      let deleted = store.delete_contents bucket bucket path path s h in
      let later = delete_each-contents bucket paths t (deleted.2 ∙ h) in
      let step : delete_each storage bucket (path ∷ paths) s ≡ delete_each storage bucket paths t =
        ap
          (λ r. elim r [
            | ok _ ↦ delete_each storage bucket paths t
            | err e ↦ (err (storage_failed e), t)
          ])
          deleted.0 in
      (
        ap (λ x. x.0) step ∙ later.0,
        λ c q.
            ap (λ x. contents c q x.1) step
            ∙ later.1 c q
            ∙ ap (λ o. if bucket == c && is_target q paths then none else o)
                (store.delete_contents bucket c path q s h).1
            ∙ if_or (bucket == c) (path == q) (is_target q paths) (contents c q s),
      )

-- the keys of paths below a volume: each path after the prefix and the volume's name
abbrev pub keys_below : FilePath → FilePath → List FilePath → List FilePath
keys_below prefix name paths = map (λ path. prefix ++ (name ++ path)) paths

delete_targets-keys_below :
    (prefix name : FilePath) (paths : List FilePath)
    → All IsRelative paths
    → delete_targets (prefix ++ name) paths ≡ keys_below prefix name paths
unfolding delete_targets
delete_targets-keys_below prefix name [] r = refl
delete_targets-keys_below prefix name (p ∷ paths) (r, rs) =
    ap₂ (◌∷◌) (push-relative (prefix ++ name) p r ∙ append_assoc prefix name p)
      (delete_targets-keys_below prefix name paths rs)

module _ {S Epoch : Type 0} ⦃o : Ord Epoch⦄ where
  -- Over a driver that keeps what it is given, `Book::delete` in a bucket that exists succeeds and
  -- deletes the objects whose keys are the prefix, the name of the volume and a path listed for the
  -- book's date, and no other object. The name and the paths are relative.
  pub book_delete-contents :
      (config : VolumeConfig S) (name : FilePath) (paths : Paths Epoch) (epoch : Epoch)
      (listed : List FilePath) (contents : String → FilePath → S → Option Bytes)
      (has_bucket : String → S → Bool) (s : S)
      → IsStore config.storage.driver contents has_bucket
      → has_bucket config.bucket s ≡ true
      → IsRelative name
      → BTreeMap.get epoch paths ≡ some listed
      → All IsRelative listed
      → ((book_delete (book (new_volume config name paths) epoch) s).0 ≡ ok tt)
        × ((c : String) (q : FilePath)
            → contents c q (book_delete (book (new_volume config name paths) epoch) s).1 ≡ (
                if config.bucket == c
                  && is_target q (keys_below (get_or config.prefix []) name listed)
                then none
                else contents c q s))
  unfolding book_delete book_list new_volume book
  book_delete-contents config name paths epoch listed contents has_bucket s store h n found r =
      let keys : delete_targets (under_prefix config.prefix name)
            (get_or (BTreeMap.get epoch paths) [])
          ≡ keys_below (get_or config.prefix []) name listed =
        ap₂ delete_targets (under_prefix_path config.prefix name n) (ap (λ o. get_or o []) found)
        ∙ delete_targets-keys_below (get_or config.prefix []) name listed r in
      rw keys (
        delete_each-contents config.storage contents has_bucket store config.bucket
          (keys_below (get_or config.prefix []) name listed) s h)
