-- ===== src/Std/Str.antt =====
-- `Ord` for `str`: by its bytes, which order as its characters do.
use Prim.Native.Char.{Char, code}
use Prim.Native.Nat.{compare as compare_ℕ}
use Prim.Native.String as Text
use Prim.Native.String.compare as Clauses
use text.Mathlib.TextEquality.{path_by_compare}
use emporium.Prelude.{String, Ordering, ◌≡◌, arith}
use emporium.Std.Ord.{Ord, cmp-ℕ_refl}

cmp_cons :
    (c d : Char) (s t : String)
    → Text.compare (Text.◌∷◌ c s) (Text.◌∷◌ d t)
      ≡ Text.then (compare_ℕ (code c) (code d)) (Text.compare s t)
cmp_cons c d s t = Clauses.cons-cons c d s t

cmp_nil-cons : (d : Char) (t : String) → Text.compare Text.[] (Text.◌∷◌ d t) ≡ Ordering.lt
cmp_nil-cons d t = Clauses.nil-cons d t

cmp_cons-nil : (c : Char) (s : String) → Text.compare (Text.◌∷◌ c s) Text.[] ≡ Ordering.gt
cmp_cons-nil c s = Clauses.cons-nil c s

cmp_nil-nil : Text.compare Text.[] Text.[] ≡ Ordering.eq
cmp_nil-nil = Clauses.nil-nil

pub str_cmp_refl : (s : String) → Text.compare s s ≡ Ordering.eq
str_cmp_refl Text.[] = cmp_nil-nil
str_cmp_refl (Text.◌∷◌ c s) = ground (arith, cmp_cons c c s s, str_cmp_refl s, cmp-ℕ_refl (code c))

pub str_cmp_lt : (s t : String) → Text.compare s t ≡ Ordering.lt → Text.compare t s ≡ Ordering.gt
str_cmp_lt Text.[] Text.[] h = cc cmp_nil-nil
str_cmp_lt Text.[] (Text.◌∷◌ d t) h = cmp_cons-nil d t
str_cmp_lt (Text.◌∷◌ c s) Text.[] h = cc (cmp_cons-nil c s)
str_cmp_lt (Text.◌∷◌ c s) (Text.◌∷◌ d t) h =
    ground (arith, cmp_cons c d s t, cmp_cons d c t s, str_cmp_lt s t)

pub str_cmp_gt : (s t : String) → Text.compare s t ≡ Ordering.gt → Text.compare t s ≡ Ordering.lt
str_cmp_gt Text.[] Text.[] h = cc cmp_nil-nil
str_cmp_gt Text.[] (Text.◌∷◌ d t) h = cc (cmp_nil-cons d t)
str_cmp_gt (Text.◌∷◌ c s) Text.[] h = cmp_nil-cons c s
str_cmp_gt (Text.◌∷◌ c s) (Text.◌∷◌ d t) h =
    ground (arith, cmp_cons c d s t, cmp_cons d c t s, str_cmp_gt s t)

pub str_cmp_trans :
    (s t u : String)
    → Text.compare s t ≡ Ordering.lt
    → Text.compare t u ≡ Ordering.lt
    → Text.compare s u ≡ Ordering.lt
str_cmp_trans Text.[] Text.[] u h k = k
str_cmp_trans Text.[] (Text.◌∷◌ d t) Text.[] h k = cc (cmp_cons-nil d t)
str_cmp_trans Text.[] (Text.◌∷◌ d t) (Text.◌∷◌ e u) h k = cmp_nil-cons e u
str_cmp_trans (Text.◌∷◌ c s) Text.[] u h k = cc (cmp_cons-nil c s)
str_cmp_trans (Text.◌∷◌ c s) (Text.◌∷◌ d t) Text.[] h k = cc (cmp_cons-nil d t)
str_cmp_trans (Text.◌∷◌ c s) (Text.◌∷◌ d t) (Text.◌∷◌ e u) h k =
    ground (arith, cmp_cons c d s t, cmp_cons d e t u, cmp_cons c e s u, str_cmp_trans s t u)

instance abbrev pub string_ord : Ord String
string_ord = record {
  cmp = Text.compare;
  cmp_eq = path_by_compare;
  cmp_refl = str_cmp_refl;
  cmp_lt = str_cmp_lt;
  cmp_gt = str_cmp_gt;
  cmp_trans = str_cmp_trans;
}
