-- ===== src/Bookshelf/Shelf/Suffixes.antt =====
-- What a book of bookshelf/src/lib.rs lists of an entry.
use emporium.Prelude.{
  ◌≡◌, ◌≢◌, refl, ap, ◌∙◌, String, false, ◌||◌, Option, some, none, [], ◌∷◌, arith, any, length,
  length-append, not_true, ◌==◌, ==_iff, list_eq,
}
use emporium.Chrono.{Calendar}
use emporium.Std.Ord.{Ord, ord_beq_iff, list_ord}
use emporium.Std.Path.{FilePath, component_eq, component_ord, normal}
use emporium.Std.Path.Laws.{IsRelative}
use emporium.Bookshelf.Volume.{new_volume, new_entry}
use emporium.Bookshelf.Shelf.{
  Bookshelf, candidate, candidates, config_of, find_volume, process_list, skip_first_normal,
}
use emporium.Bookshelf.Shelf.Filing.{filed, paths_of, process_list-filed}
use emporium.Bookshelf.Shelf.Entries.{HasNoEpoch, candidate-entry, inner_path}

module _ {Epoch : Type 0} (cal : Calendar Epoch) where
  -- what is kept of the path of an entry is longer than the part that the entry was made with
  kept_longer :
      (first : String) (rest : FilePath) (epoch : Epoch) (suffix : FilePath)
      → skip_first_normal (inner_path cal (normal first ∷ rest) epoch suffix) ≢ suffix
  unfolding skip_first_normal
  kept_longer first rest epoch suffix h =
      absurd (omega (arith, ap length h, length-append rest (normal (cal.format epoch) ∷ suffix)))

  candidates_one :
      (prefix : Option FilePath) (path : FilePath) (c : FilePath × Epoch × FilePath)
      → candidate cal prefix path ≡ some c
      → candidates cal prefix (path ∷ []) ≡ c ∷ []
  unfolding candidates
  candidates_one prefix path c h = ap (λ x. elim x [ none ↦ [] | some c ↦ c ∷ [] ]) h

filed_one :
    {Epoch : Type 0} ⦃o : Ord Epoch⦄ (name : FilePath) (epoch : Epoch) (path : FilePath)
    → filed name epoch ((name, epoch, path) ∷ []) ≡ path ∷ []
filed_one name epoch path =
    rw ((ord_beq_iff name name).1 refl, (ord_beq_iff epoch epoch).1 refl) refl

module _ {S Epoch : Type 0} ⦃o : Ord Epoch⦄ (cal : Calendar Epoch) where
  -- Of a volume whose name begins with a normal component and has no component that reads as a date,
  -- the book of an entry that alone was listed has one path: the entry's, less the prefix and that
  -- component. It is not the path with which the entry is made, so `Book::contains` is false of that
  -- one. The path with which it is made is relative, and the date is read back from its text.
  pub paths_of-process_list :
      (b : Bookshelf S Epoch) (first : String) (rest : FilePath) (epoch : Epoch) (suffix : FilePath)
      → IsRelative suffix
      → HasNoEpoch cal (normal first ∷ rest)
      → cal.parse_from_str (cal.format epoch) ≡ some epoch
      → (paths_of epoch (
            find_volume (normal first ∷ rest) (
              process_list cal b (
                (new_entry cal
                  (new_volume (config_of b) (normal first ∷ rest) [])
                  epoch
                  suffix).path
                ∷ [])))
          ≡ skip_first_normal (inner_path cal (normal first ∷ rest) epoch suffix) ∷ [])
        × (any
              (λ p. p == suffix)
              (paths_of epoch (
                find_volume (normal first ∷ rest) (
                  process_list cal b (
                    (new_entry cal
                      (new_volume (config_of b) (normal first ∷ rest) [])
                      epoch
                      suffix).path
                    ∷ []))))
            ≡ false)
  unfolding any new_volume config_of
  paths_of-process_list b first rest epoch suffix r e p =
      let name = normal first ∷ rest in
      let path = (new_entry cal (new_volume (config_of b) name []) epoch suffix).path in
      let kept = skip_first_normal (inner_path cal name epoch suffix) in
      let listed =
        process_list-filed cal b (path ∷ []) name epoch
        ∙ ap (filed name epoch) (
            candidates_one cal b.prefix path (name, epoch, kept)
              (candidate-entry cal (new_volume (config_of b) name []) epoch suffix tt r e p))
        ∙ filed_one name epoch kept in
      let different : (kept == suffix) ≡ false =
        not_true (kept == suffix)
          (λ h. kept_longer cal first rest epoch suffix ((==_iff kept suffix).0 h)) in
      (listed, ap (any (λ p. p == suffix)) listed ∙ ap (λ t. t || false) different)
