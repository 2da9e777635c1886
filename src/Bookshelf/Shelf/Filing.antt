-- ===== src/Bookshelf/Shelf/Filing.antt =====
-- What `process_list` of bookshelf/src/lib.rs files under each volume and date.
use emporium.Prelude.{
  ◌↔◌, ◌≡◌, refl, ap, ◌∙◌, sym, Option, none, some, List, [], ◌∷◌, ◌++◌, arith, if◌then◌else◌, ◌&&◌,
  true, Bool, map, ==_iff, list_eq, ◌==◌, inl, inr, false, Bool-cases,
}
use mathlib.Core.Option.{get_or}
use mathlib.Core.List.{append-nil, append_assoc}
use emporium.Chrono.{Calendar}
use emporium.Std.Ord.{Ord, ord_beq, ord_beq_iff, list_ord}
use emporium.Std.BTreeMap.{get, upsert, get-upsert}
use emporium.Std.BTreeMap.Sorted.{IsSorted, upsert-IsSorted, get-cons}
use emporium.Std.Path.{FilePath, component_eq, component_ord}
use emporium.Bookshelf.Volume.{Volume, VolumeConfig, Paths, new_volume, book, book_list}
use emporium.Bookshelf.Shelf.{
  Bookshelf, Shelves, push_path, file_all, candidates, process_list, find_volume, config_of,
}

bool_ext {ℓ} : {P : Type ℓ} {a b : Bool} → (a ≡ true) ↔ P → (b ≡ true) ↔ P → a ≡ b
bool_ext {a = true} {b = true} h k = refl
bool_ext {a = true} {b = false} h k = sym (k.1 (h.0 refl))
bool_ext {a = false} {b = true} h k = h.1 (k.0 refl)
bool_ext {a = false} {b = false} h k = refl

append-if {ℓ} :
    {A : Type ℓ} (b : Bool) (xs : List A) (y : A) (ys : List A)
    → (xs ++ (if b then y ∷ [] else [])) ++ ys ≡ xs ++ (if b then y ∷ ys else ys)
append-if true xs y ys = append_assoc xs (y ∷ []) ys
append-if false xs y ys = ap (λ zs. zs ++ ys) (append-nil xs)

module _ {Epoch : Type 0} ⦃o : Ord Epoch⦄ where
  -- the paths filed under an epoch of a volume, in the order they came
  abbrev pub filed : FilePath → Epoch → List (FilePath × Epoch × FilePath) → List FilePath
  filed name epoch [] = []
  filed name epoch ((n, e, path) ∷ rest) =
      let others = filed name epoch rest in
      if ord_beq n name && ord_beq e epoch then path ∷ others else others

  abbrev paths_at : Epoch → Option (Paths Epoch) → List FilePath
  paths_at epoch paths = get_or (get epoch (get_or paths [])) []

  abbrev stored : FilePath → Epoch → Shelves Epoch → List FilePath
  stored name epoch shelves = paths_at epoch (get name shelves)

  paths_at-push_path :
      (epoch e : Epoch) (path : FilePath) (paths : Option (Paths Epoch))
      → paths_at epoch (some (push_path e path paths))
        ≡ paths_at epoch paths ++ (if ord_beq e epoch then path ∷ [] else [])
  unfolding push_path
  paths_at-push_path epoch e path paths =
      rw (get-upsert e epoch (λ ps. get_or ps [] ++ path ∷ []) (get_or paths []))
        (ground (arith, ord_beq_iff e epoch, append-nil (get_or (get epoch (get_or paths [])) [])))

  stored-upsert :
      (name : FilePath) (epoch : Epoch) (n : FilePath) (e : Epoch) (path : FilePath)
      (shelves : Shelves Epoch)
      → stored name epoch (upsert n (push_path e path) shelves)
        ≡ stored name epoch shelves ++ (if ord_beq n name && ord_beq e epoch then path ∷ [] else [])
  stored-upsert name epoch n e path shelves = ground (
    arith,
    get-upsert n name (push_path e path) shelves,
    paths_at-push_path epoch e path (get n shelves),
    ord_beq_iff n name,
    append-nil (stored name epoch shelves),
  )

  file_all-stored :
      (name : FilePath) (epoch : Epoch) (cs : List (FilePath × Epoch × FilePath))
      (shelves : Shelves Epoch)
      → stored name epoch (file_all cs shelves) ≡ stored name epoch shelves ++ filed name epoch cs
  unfolding file_all
  file_all-stored name epoch [] shelves = sym (append-nil (stored name epoch shelves))
  file_all-stored name epoch ((n, e, path) ∷ cs) shelves =
      file_all-stored name epoch cs (upsert n (push_path e path) shelves)
      ∙ ap (λ x. x ++ filed name epoch cs) (stored-upsert name epoch n e path shelves)
      ∙ append-if (ord_beq n name && ord_beq e epoch) (stored name epoch shelves) path
          (filed name epoch cs)

  file_all-IsSorted :
      (cs : List (FilePath × Epoch × FilePath)) (shelves : Shelves Epoch)
      → IsSorted shelves
      → IsSorted (file_all cs shelves)
  unfolding file_all
  file_all-IsSorted [] shelves s = s
  file_all-IsSorted ((n, e, path) ∷ cs) shelves s =
      file_all-IsSorted cs (upsert n (push_path e path) shelves)
        (upsert-IsSorted n (push_path e path) shelves s)

module _ {S Epoch : Type 0} ⦃o : Ord Epoch⦄ where
  -- the paths of the book at an epoch of the volume of that name
  abbrev pub paths_of : Epoch → Option (Volume S Epoch) → List FilePath
  paths_of epoch none = []
  paths_of epoch (some v) = book_list (book v epoch)

  find_volume-shelves :
      (config : VolumeConfig S) (name : FilePath) (epoch : Epoch) (shelves : Shelves Epoch)
      → IsSorted shelves
      → paths_of epoch (find_volume name (map (λ shelf. new_volume config shelf.0 shelf.1) shelves))
        ≡ paths_at epoch (get name shelves)
  unfolding find_volume new_volume book_list book get
  find_volume-shelves config name epoch [] s = refl
  find_volume-shelves config name epoch ((n, paths) ∷ shelves) s =
      let found : (n == name) ≡ ord_beq n name = bool_ext (==_iff n name) (ord_beq_iff n name) in
      rw (found, get-cons name n paths shelves s.0)
        (elim (Bool-cases (ord_beq n name)) [
          | inl h ↦ rw h refl
          | inr h ↦ rw h (find_volume-shelves config name epoch shelves s.1)
        ])

  -- After `process_list` has read a list of paths, the book of each name and epoch lists the paths
  -- that were filed under the two, in the order of the list, and nothing else.
  pub process_list-filed :
      (cal : Calendar Epoch) (b : Bookshelf S Epoch) (paths : List FilePath) (name : FilePath)
      (epoch : Epoch)
      → paths_of epoch (find_volume name (process_list cal b paths))
        ≡ filed name epoch (candidates cal b.prefix paths)
  unfolding process_list get
  process_list-filed cal b paths name epoch =
      let cs = candidates cal b.prefix paths in
      find_volume-shelves (config_of b) name epoch (file_all cs []) (file_all-IsSorted cs [] tt)
      ∙ file_all-stored name epoch cs []
