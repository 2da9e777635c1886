-- ===== src/Std/Int.antt =====
-- Signed machine integers: `ℤ` over the native numbers, its order, and `i32::checked_sub_unsigned`.
use emporium.Prelude.{ℕ, suc, ◌+◌, ◌-◌, ◌^◌, ◌≡◌, Ordering, compare, arith, leb, if◌then◌else◌}
use emporium.Prelude.{Option, none, some}
use emporium.Std.Ord.{Ord}

-- `negsuc n` is -(n + 1).
pub data ℤ : Type 0 where
  pos : ℕ → ℤ
  negsuc : ℕ → ℤ

abbrev pub pos_part : ℤ → ℕ
pos_part (pos n) = n
pos_part (negsuc n) = 0

abbrev pub neg_part : ℤ → ℕ
neg_part (pos n) = 0
neg_part (negsuc n) = suc n

abbrev pub sub_ℕ : ℕ → ℕ → ℤ
sub_ℕ a b = if leb b a then pos (a - b) else negsuc (b - a - 1)

infixl 65 ◌-ℤ◌
unfoldable pub ◌-ℤ◌ : ℤ → ℤ → ℤ
a -ℤ b = sub_ℕ (pos_part a + neg_part b) (neg_part a + pos_part b)

abbrev pub ℤ_cmp : ℤ → ℤ → Ordering
ℤ_cmp a b = compare (pos_part a + neg_part b) (pos_part b + neg_part a)

pub ℤ_cmp_eq : (a b : ℤ) → ℤ_cmp a b ≡ Ordering.eq → a ≡ b
ℤ_cmp_eq a b h = ground arith

pub ℤ_cmp_refl : (a : ℤ) → ℤ_cmp a a ≡ Ordering.eq
ℤ_cmp_refl a = ground arith

pub ℤ_cmp_lt : (a b : ℤ) → ℤ_cmp a b ≡ Ordering.lt → ℤ_cmp b a ≡ Ordering.gt
ℤ_cmp_lt a b h = ground arith

pub ℤ_cmp_gt : (a b : ℤ) → ℤ_cmp a b ≡ Ordering.gt → ℤ_cmp b a ≡ Ordering.lt
ℤ_cmp_gt a b h = ground arith

pub ℤ_cmp_trans :
    (a b c : ℤ) → ℤ_cmp a b ≡ Ordering.lt → ℤ_cmp b c ≡ Ordering.lt → ℤ_cmp a c ≡ Ordering.lt
ℤ_cmp_trans a b c h k = ground arith

instance abbrev pub int_ord : Ord ℤ
int_ord = record {
  cmp = ℤ_cmp;
  cmp_eq = ℤ_cmp_eq;
  cmp_refl = ℤ_cmp_refl;
  cmp_lt = ℤ_cmp_lt;
  cmp_gt = ℤ_cmp_gt;
  cmp_trans = ℤ_cmp_trans;
}

-- `i32::checked_sub_unsigned`
unfoldable pub checked_sub_unsigned : ℤ → ℕ → Option ℤ
unfolding ◌-ℤ◌
checked_sub_unsigned y n =
    let d = y -ℤ pos n in elim (ℤ_cmp d (negsuc (2 ^ 31 - 1))) [ Ordering.lt ↦ none | _ ↦ some d ]
