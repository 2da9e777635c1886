-- ===== src/Bookshelf/Shelf/Entries.antt =====
-- An entry of bookshelf/src/lib.rs that is in the storage is found by the volume of its name.
use emporium.Prelude.{
  ℕ, suc, ◌+◌, ◌≡◌, refl, ap, ◌∙◌, sym, Option, none, some, List, [], ◌∷◌, ◌++◌, arith, ◌&&◌,
  or_true, true, Bool, All, any, length, take-append, ==_iff, ==_refl, list_eq, ◌==◌, Bool-cases,
  Option-cases, inl, inr,
}
use mathlib.Core.Option.{get_or}
use mathlib.Core.List.{append_assoc}
use emporium.Chrono.{Calendar}
use emporium.Std.Ord.{Ord, ord_beq, ord_beq_iff, list_ord}
use emporium.Std.Path.{
  FilePath, component_eq, component_ord, normal, root_dir, cur_dir, parent_dir, ends_with,
}
use emporium.Std.Path.Laws.{IsRelative, push-relative, strip_prefix-append, ends_with-append}
use emporium.Bookshelf.Volume.{Volume, new_entry, to_path}
use emporium.Bookshelf.Shelf.{
  candidate, candidates, component_epoch, find_epoch, skip_first_normal, split_path, strip,
}
use emporium.Bookshelf.Shelf.Filing.{filed}

zero_add : (n : ℕ) → 0 + n ≡ n
zero_add n = omega arith

module _ {Epoch : Type 0} (cal : Calendar Epoch) where
  -- no component of the name reads as an epoch
  abbrev pub HasNoEpoch : FilePath → Type 0
  HasNoEpoch = All (λ c. component_epoch cal c ≡ none)

  find_epoch-append :
      (i : ℕ) (name : FilePath) (s : _) (epoch : Epoch) (path : FilePath)
      → HasNoEpoch name
      → cal.parse_from_str s ≡ some epoch
      → find_epoch cal i (name ++ normal s ∷ path) ≡ some (i + length name, epoch)
  unfolding find_epoch
  find_epoch-append i [] s epoch path h p =
      rw (p, find_epoch) (ap (λ j. some (j, epoch)) (omega arith))
  find_epoch-append i (c ∷ name) s epoch path h p =
      rw (h.0, find_epoch-append (suc i) name s epoch path h.1 p, find_epoch)
        (ap (λ j. some (j, epoch)) (omega arith))

  -- the path of an entry below the prefix
  abbrev pub inner_path : FilePath → Epoch → FilePath → FilePath
  inner_path name epoch suffix = name ++ normal (cal.format epoch) ∷ suffix

  split_path-inner :
      (name : FilePath) (epoch : Epoch) (suffix : FilePath)
      → HasNoEpoch name
      → cal.parse_from_str (cal.format epoch) ≡ some epoch
      → split_path cal (inner_path name epoch suffix)
        ≡ some (name, epoch, skip_first_normal (inner_path name epoch suffix))
  unfolding split_path
  split_path-inner name epoch suffix h p =
      rw
        (
          find_epoch-append 0 name (cal.format epoch) epoch suffix h p
              ∙ ap (λ j. some (j, epoch)) (zero_add (length name)),
          split_path,
        )
        (ap (λ n. some (n, epoch, skip_first_normal (inner_path name epoch suffix)))
          (take-append name (normal (cal.format epoch) ∷ suffix)))

skip_first_normal_suffix :
    (path : FilePath) → (init : FilePath) × (path ≡ init ++ skip_first_normal path)
unfolding skip_first_normal
skip_first_normal_suffix [] = ([], refl)
skip_first_normal_suffix (normal s ∷ path) = (normal s ∷ [], refl)
skip_first_normal_suffix (root_dir ∷ path) =
    let (init, e) = skip_first_normal_suffix path in (root_dir ∷ init, ap (◌∷◌ root_dir) e)
skip_first_normal_suffix (cur_dir ∷ path) =
    let (init, e) = skip_first_normal_suffix path in (cur_dir ∷ init, ap (◌∷◌ cur_dir) e)
skip_first_normal_suffix (parent_dir ∷ path) =
    let (init, e) = skip_first_normal_suffix path in (parent_dir ∷ init, ap (◌∷◌ parent_dir) e)

strip-inner :
    (prefix : Option FilePath) (path : FilePath)
    → strip prefix (get_or prefix [] ++ path) ≡ some path
unfolding strip
strip-inner none path = refl
strip-inner (some p) path = strip_prefix-append p path

pub ends_with-skip_first_normal :
    (base path : FilePath) → ends_with (base ++ path) (skip_first_normal path) ≡ true
ends_with-skip_first_normal base path =
    let (init, e) = skip_first_normal_suffix path in
    ap (λ q. ends_with (base ++ q) (skip_first_normal path)) e
    ∙ ap (λ q. ends_with q (skip_first_normal path))
        (sym (append_assoc base init (skip_first_normal path)))
    ∙ ends_with-append (base ++ init) (skip_first_normal path)

-- `path` is in the list
abbrev pub has : FilePath → List FilePath → Bool
has path = any (λ p. p == path)

module _ {Epoch : Type 0} ⦃o : Ord Epoch⦄ where
  has-filed_head :
      (name : FilePath) (epoch : Epoch) (path : FilePath) (cs : List (FilePath × Epoch × FilePath))
      → has path (filed name epoch ((name, epoch, path) ∷ cs)) ≡ true
  unfolding any
  has-filed_head name epoch path cs =
      rw ((ord_beq_iff name name).1 refl, (ord_beq_iff epoch epoch).1 refl, ==_refl path) refl

  has-filed_tail :
      (name : FilePath) (epoch : Epoch) (path : FilePath) (c : FilePath × Epoch × FilePath)
      (cs : List (FilePath × Epoch × FilePath))
      → has path (filed name epoch cs) ≡ true
      → has path (filed name epoch (c ∷ cs)) ≡ true
  unfolding any
  has-filed_tail name epoch path (n, e, p) cs h =
      elim (Bool-cases (ord_beq n name && ord_beq e epoch)) [
        | inl t ↦ rw (t, h) (or_true (p == path))
        | inr t ↦ rw t h
      ]

  pub candidates-filed :
      (cal : Calendar Epoch) (prefix : Option FilePath) (name : FilePath) (epoch : Epoch)
      (path suffix : FilePath) (paths : List FilePath)
      → candidate cal prefix path ≡ some (name, epoch, suffix)
      → has path paths ≡ true
      → has suffix (filed name epoch (candidates cal prefix paths)) ≡ true
  unfolding candidates any
  candidates-filed cal prefix name epoch path suffix [] c h = cc
  candidates-filed cal prefix name epoch path suffix (p ∷ paths) c h =
      elim (Bool-cases (p == path)) [
        | inl t ↦
            let q = (==_iff p path).0 t in
            rw (q, c, candidates) (has-filed_head name epoch suffix (candidates cal prefix paths))
        | inr t ↦
            let later = candidates-filed cal prefix name epoch path suffix paths c (ground arith) in
            elim (Option-cases (candidate cal prefix p)) [
              | inl n ↦ rw (n, candidates) later
              | inr (d, n) ↦
                  rw (n, candidates)
                    (has-filed_tail name epoch suffix d (candidates cal prefix paths) later)
            ]
      ]

module _ {S Epoch : Type 0} (cal : Calendar Epoch) where
  -- the path of an entry: the prefix, the name of the volume, the date and the rest
  pub entry_path :
      (v : Volume S Epoch) (epoch : Epoch) (suffix : FilePath)
      → IsRelative v.name
      → IsRelative suffix
      → (new_entry cal v epoch suffix).path
        ≡ get_or v.config.prefix [] ++ inner_path cal v.name epoch suffix
  unfolding new_entry to_path
  entry_path v epoch suffix n r =
      let base = get_or v.config.prefix [] in
      let date = to_path cal epoch in
      rw
        (
          push-relative base v.name n,
          push-relative (base ++ v.name) date tt,
          push-relative ((base ++ v.name) ++ date) suffix r,
          append_assoc (base ++ v.name) date suffix,
        )
        (append_assoc base v.name (date ++ suffix))

  -- Read back from a listing below the same prefix, the path of an entry gives the name of its volume
  -- and its epoch, and as suffix what follows the first normal component. The name and the rest of the
  -- path are relative, no component of the name reads as a date, and the date is read back from its
  -- text.
  pub candidate-entry :
      (v : Volume S Epoch) (epoch : Epoch) (suffix : FilePath)
      → IsRelative v.name
      → IsRelative suffix
      → HasNoEpoch cal v.name
      → cal.parse_from_str (cal.format epoch) ≡ some epoch
      → candidate cal v.config.prefix (new_entry cal v epoch suffix).path
        ≡ some (v.name, epoch, skip_first_normal (inner_path cal v.name epoch suffix))
  unfolding candidate
  candidate-entry v epoch suffix n r h p =
      rw
        (
          entry_path v epoch suffix n r,
          strip-inner v.config.prefix (inner_path cal v.name epoch suffix),
          candidate,
        )
        (split_path-inner cal v.name epoch suffix h p)
