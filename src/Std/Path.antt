-- ===== src/Std/Path.antt =====
-- `camino::Utf8Path`, which is `std::path::Path` over UTF-8, as the list of its components: paths
-- are compared, hashed, ordered, joined and stripped by their components, on a Unix host.
pub mod Laws
pub mod Display
use emporium.Prelude.{
  ◌≡◌, ◌↔◌, String, Bool, true, false, ◌&&◌, Option, none, some, List, [], ◌∷◌, ◌++◌, arith, Eq,
  ◌==◌, ==_iff, string_eq, list_eq, Ordering, if◌then◌else◌, refl,
}
use mathlib.Core.List.{reverse}
use emporium.Std.Ord.{Ord}
use emporium.Std.Str.{string_ord}

pub data Component : Type 0 where
  root_dir cur_dir parent_dir : Component
  normal : String → Component

abbrev pub FilePath : Type 0
FilePath = List Component

abbrev pub component_beq : Component → Component → Bool
component_beq root_dir root_dir = true
component_beq cur_dir cur_dir = true
component_beq parent_dir parent_dir = true
component_beq (normal s) (normal t) = s == t
component_beq _ _ = false

pub component_beq_iff : (a b : Component) → (component_beq a b ≡ true) ↔ (a ≡ b)
component_beq_iff (normal s) (normal t) = ground (arith, ==_iff s t)
component_beq_iff root_dir b = ground arith
component_beq_iff cur_dir b = ground arith
component_beq_iff parent_dir b = ground arith
component_beq_iff (normal s) b = ground arith

instance abbrev pub component_eq : Eq Component
component_eq = record { beq = component_beq; beq_iff = component_beq_iff }

-- `derive(Ord)`: in the order of the constructors, texts by `str`
abbrev pub component_cmp : Component → Component → Ordering
component_cmp root_dir root_dir = Ordering.eq
component_cmp root_dir _ = Ordering.lt
component_cmp cur_dir root_dir = Ordering.gt
component_cmp cur_dir cur_dir = Ordering.eq
component_cmp cur_dir _ = Ordering.lt
component_cmp parent_dir (normal _) = Ordering.lt
component_cmp parent_dir parent_dir = Ordering.eq
component_cmp parent_dir _ = Ordering.gt
component_cmp (normal s) (normal t) = string_ord.cmp s t
component_cmp (normal s) _ = Ordering.gt

-- `Path::starts_with`
unfoldable pub starts_with : FilePath → FilePath → Bool
starts_with path [] = true
starts_with [] (b ∷ base) = false
starts_with (c ∷ path) (b ∷ base) = c == b && starts_with path base

-- `Path::strip_prefix`
unfoldable pub strip_prefix : FilePath → FilePath → Option FilePath
strip_prefix path [] = some path
strip_prefix [] (b ∷ base) = none
strip_prefix (c ∷ path) (b ∷ base) =
    let rest = strip_prefix path base in if c == b then rest else none

-- `Path::ends_with`
unfoldable pub ends_with : FilePath → FilePath → Bool
unfolding starts_with
ends_with path child = starts_with (reverse path) (reverse child)

-- `PathBuf::push`, `Path::join`: an absolute path replaces, and a `.` that is pushed is no component
unfoldable pub push : FilePath → FilePath → FilePath
push [] path = path
push (c ∷ base) [] = c ∷ base
push (c ∷ base) (root_dir ∷ path) = root_dir ∷ path
push (c ∷ base) (cur_dir ∷ path) = c ∷ base ++ path
push (c ∷ base) (d ∷ path) = c ∷ base ++ d ∷ path

pub component_cmp_eq : (a b : Component) → component_cmp a b ≡ Ordering.eq → a ≡ b
component_cmp_eq (normal s) (normal t) h = ground (arith, string_ord.cmp_eq s t)
component_cmp_eq root_dir b h = ground arith
component_cmp_eq cur_dir b h = ground arith
component_cmp_eq parent_dir b h = ground arith
component_cmp_eq (normal s) b h = ground arith

pub component_cmp_refl : (a : Component) → component_cmp a a ≡ Ordering.eq
component_cmp_refl (normal s) = string_ord.cmp_refl s
component_cmp_refl root_dir = refl
component_cmp_refl cur_dir = refl
component_cmp_refl parent_dir = refl

pub component_cmp_lt :
    (a b : Component) → component_cmp a b ≡ Ordering.lt → component_cmp b a ≡ Ordering.gt
component_cmp_lt (normal s) (normal t) h = string_ord.cmp_lt s t h
component_cmp_lt root_dir b h = ground arith
component_cmp_lt cur_dir b h = ground arith
component_cmp_lt parent_dir b h = ground arith
component_cmp_lt (normal s) b h = ground arith

pub component_cmp_gt :
    (a b : Component) → component_cmp a b ≡ Ordering.gt → component_cmp b a ≡ Ordering.lt
component_cmp_gt (normal s) (normal t) h = string_ord.cmp_gt s t h
component_cmp_gt root_dir b h = ground arith
component_cmp_gt cur_dir b h = ground arith
component_cmp_gt parent_dir b h = ground arith
component_cmp_gt (normal s) b h = ground arith

pub component_cmp_trans :
    (a b c : Component)
    → component_cmp a b ≡ Ordering.lt
    → component_cmp b c ≡ Ordering.lt
    → component_cmp a c ≡ Ordering.lt
component_cmp_trans (normal s) (normal t) (normal u) h k = string_ord.cmp_trans s t u h k
component_cmp_trans root_dir b c h k = ground arith
component_cmp_trans cur_dir b c h k = ground arith
component_cmp_trans parent_dir b c h k = ground arith
component_cmp_trans (normal s) b c h k = ground arith

instance abbrev pub component_ord : Ord Component
component_ord = record {
  cmp = component_cmp;
  cmp_eq = component_cmp_eq;
  cmp_refl = component_cmp_refl;
  cmp_lt = component_cmp_lt;
  cmp_gt = component_cmp_gt;
  cmp_trans = component_cmp_trans;
}
