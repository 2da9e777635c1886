-- ===== src/Std/Path/Laws.antt =====
-- Joining, stripping and testing paths.
use emporium.Prelude.{
  ◌≡◌, refl, ap, sym, true, some, [], ◌∷◌, ◌++◌, arith, ==_iff, ==_refl, string_eq,
}
use mathlib.Core.List.{reverse, append-nil, reverse-append}
use emporium.Std.Path.{
  FilePath, root_dir, cur_dir, parent_dir, normal, component_eq, starts_with, strip_prefix,
  ends_with, push,
}

-- a path that `push` appends as it is: it starts with neither `/` nor `.`
abbrev pub IsRelative : FilePath → Type 0
IsRelative (root_dir ∷ p) = ⊥
IsRelative (cur_dir ∷ p) = ⊥
IsRelative _ = Unit

pub push-relative : (base path : FilePath) → IsRelative path → push base path ≡ base ++ path
unfolding push
push-relative [] path h = refl
push-relative (c ∷ base) [] h = ap (◌∷◌ c) (sym (append-nil base))
push-relative (c ∷ base) (normal s ∷ path) h = refl
push-relative (c ∷ base) (parent_dir ∷ path) h = refl
push-relative (c ∷ base) (root_dir ∷ path) h = absurd h
push-relative (c ∷ base) (cur_dir ∷ path) h = absurd h

pub strip_prefix-append : (base path : FilePath) → strip_prefix (base ++ path) base ≡ some path
unfolding strip_prefix
strip_prefix-append [] path = refl
strip_prefix-append (c ∷ base) path = rw (==_refl c) (strip_prefix-append base path)

pub starts_with-append : (base path : FilePath) → starts_with (base ++ path) base ≡ true
unfolding starts_with
starts_with-append [] path = refl
starts_with-append (c ∷ base) path = rw (==_refl c) (starts_with-append base path)

pub ends_with-append : (base path : FilePath) → ends_with (base ++ path) path ≡ true
unfolding ends_with
ends_with-append base path =
    rw (reverse-append base path) (starts_with-append (reverse path) (reverse base))

-- a path that strips is its prefix and the rest
pub strip_prefix-some :
    (path base rest : FilePath) → strip_prefix path base ≡ some rest → path ≡ base ++ rest
unfolding strip_prefix
strip_prefix-some path [] rest h = ground arith
strip_prefix-some [] (b ∷ base) rest h = cc
strip_prefix-some (c ∷ path) (b ∷ base) rest h =
    ground (arith, ==_iff c b, strip_prefix-some path base rest)
