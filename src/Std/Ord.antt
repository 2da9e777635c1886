-- ===== src/Std/Ord.antt =====
-- Rust's `Ord`: a three-way comparison with the laws of a total order.
use emporium.Prelude.{
  ℕ, compare, Ordering, ◌≡◌, refl, ◌≢◌, ◌↔◌, Bool, true, false, List, [], ◌∷◌, arith,
}

pub record Ord {ℓ} (A : Type ℓ) : Type ℓ where
  pub cmp : A → A → Ordering
  pub cmp_eq : (a b : A) → cmp a b ≡ Ordering.eq → a ≡ b
  pub cmp_refl : (a : A) → cmp a a ≡ Ordering.eq
  pub cmp_lt : (a b : A) → cmp a b ≡ Ordering.lt → cmp b a ≡ Ordering.gt
  pub cmp_gt : (a b : A) → cmp a b ≡ Ordering.gt → cmp b a ≡ Ordering.lt
  pub cmp_trans :
      (a b c : A) → cmp a b ≡ Ordering.lt → cmp b c ≡ Ordering.lt → cmp a c ≡ Ordering.lt

pub data OrderingView (c : Ordering) : Type 0 where
  is_lt : c ≡ Ordering.lt → OrderingView c
  is_eq : c ≡ Ordering.eq → OrderingView c
  is_gt : c ≡ Ordering.gt → OrderingView c

pub Ordering-cases : (c : Ordering) → OrderingView c
Ordering-cases Ordering.lt = is_lt refl
Ordering-cases Ordering.eq = is_eq refl
Ordering-cases Ordering.gt = is_gt refl

pub cmp-ℕ_trans :
    (a b c : ℕ) → compare a b ≡ Ordering.lt → compare b c ≡ Ordering.lt → compare a c ≡ Ordering.lt
cmp-ℕ_trans a b c h k = ground arith

pub cmp-ℕ_lt : (a b : ℕ) → compare a b ≡ Ordering.lt → compare b a ≡ Ordering.gt
cmp-ℕ_lt a b h = ground arith

pub cmp-ℕ_gt : (a b : ℕ) → compare a b ≡ Ordering.gt → compare b a ≡ Ordering.lt
cmp-ℕ_gt a b h = ground arith

pub cmp-ℕ_eq : (a b : ℕ) → compare a b ≡ Ordering.eq → a ≡ b
cmp-ℕ_eq a b h = ground arith

pub cmp-ℕ_refl : (a : ℕ) → compare a a ≡ Ordering.eq
cmp-ℕ_refl a = ground arith

instance abbrev pub nat_ord : Ord ℕ
nat_ord = record {
  cmp = compare;
  cmp_eq = cmp-ℕ_eq;
  cmp_refl = cmp-ℕ_refl;
  cmp_lt = cmp-ℕ_lt;
  cmp_gt = cmp-ℕ_gt;
  cmp_trans = cmp-ℕ_trans;
}

module _ {ℓ} {A : Type ℓ} ⦃o : Ord A⦄ where
  -- at most, as `<=` reads `cmp`
  infix 50 ◌≼◌
  abbrev pub ◌≼◌ : A → A → Type 0
  a ≼ b = o.cmp a b ≢ Ordering.gt

  pub ≼_refl : (a : A) → a ≼ a
  ≼_refl a = ground (arith, o.cmp_refl a)

  pub ≼_trans : (a b c : A) → a ≼ b → b ≼ c → a ≼ c
  ≼_trans a b c h k = ground (arith, o.cmp_trans a b c, o.cmp_eq a b, o.cmp_eq b c, o.cmp_refl a)

  pub ≼_antisym : (a b : A) → a ≼ b → b ≼ a → a ≡ b
  ≼_antisym a b h k = ground (arith, o.cmp_lt a b, o.cmp_eq a b)

  abbrev pub ord_beq : A → A → Bool
  ord_beq a b = elim (o.cmp a b) [ Ordering.eq ↦ true | _ ↦ false ]

  pub ord_beq_iff : (a b : A) → (ord_beq a b ≡ true) ↔ (a ≡ b)
  ord_beq_iff a b = ground (arith, o.cmp_eq a b, o.cmp_refl a)

-- Lexicographic orders, as `derive(Ord)` gives them.
abbrev pub then_cmp : Ordering → Ordering → Ordering
then_cmp Ordering.eq c = c
then_cmp Ordering.lt _ = Ordering.lt
then_cmp Ordering.gt _ = Ordering.gt

module _ {ℓ κ} {A : Type ℓ} {B : Type κ} ⦃o : Ord A⦄ ⦃p : Ord B⦄ where
  abbrev pub pair_cmp : A × B → A × B → Ordering
  pair_cmp x y = then_cmp (o.cmp x.0 y.0) (p.cmp x.1 y.1)

  pub pair_cmp_eq : (x y : A × B) → pair_cmp x y ≡ Ordering.eq → x ≡ y
  pair_cmp_eq x y h = ground (arith, o.cmp_eq x.0 y.0, p.cmp_eq x.1 y.1)

  pub pair_cmp_refl : (x : A × B) → pair_cmp x x ≡ Ordering.eq
  pair_cmp_refl x = ground (arith, o.cmp_refl x.0, p.cmp_refl x.1)

  pub pair_cmp_lt : (x y : A × B) → pair_cmp x y ≡ Ordering.lt → pair_cmp y x ≡ Ordering.gt
  pair_cmp_lt x y h =
      ground (arith, o.cmp_lt x.0 y.0, o.cmp_eq x.0 y.0, o.cmp_refl x.0, p.cmp_lt x.1 y.1)

  pub pair_cmp_gt : (x y : A × B) → pair_cmp x y ≡ Ordering.gt → pair_cmp y x ≡ Ordering.lt
  pair_cmp_gt x y h =
      ground (arith, o.cmp_gt x.0 y.0, o.cmp_eq x.0 y.0, o.cmp_refl x.0, p.cmp_gt x.1 y.1)

  pub pair_cmp_trans :
      (x y z : A × B)
      → pair_cmp x y ≡ Ordering.lt
      → pair_cmp y z ≡ Ordering.lt
      → pair_cmp x z ≡ Ordering.lt
  pair_cmp_trans x y z h k = ground (
    arith,
    o.cmp_trans x.0 y.0 z.0,
    o.cmp_eq x.0 y.0,
    o.cmp_eq y.0 z.0,
    o.cmp_refl x.0,
    p.cmp_trans x.1 y.1 z.1,
  )

  instance abbrev pub pair_ord : Ord (A × B)
  pair_ord = record {
    cmp = pair_cmp;
    cmp_eq = pair_cmp_eq;
    cmp_refl = pair_cmp_refl;
    cmp_lt = pair_cmp_lt;
    cmp_gt = pair_cmp_gt;
    cmp_trans = pair_cmp_trans;
  }

module _ {ℓ} {A : Type ℓ} ⦃o : Ord A⦄ where
  abbrev pub list_cmp : List A → List A → Ordering
  list_cmp [] [] = Ordering.eq
  list_cmp [] (_ ∷ _) = Ordering.lt
  list_cmp (_ ∷ _) [] = Ordering.gt
  list_cmp (x ∷ xs) (y ∷ ys) = then_cmp (o.cmp x y) (list_cmp xs ys)

  pub list_cmp_eq : (xs ys : List A) → list_cmp xs ys ≡ Ordering.eq → xs ≡ ys
  list_cmp_eq [] [] h = refl
  list_cmp_eq [] (_ ∷ _) h = cc
  list_cmp_eq (_ ∷ _) [] h = cc
  list_cmp_eq (x ∷ xs) (y ∷ ys) h = ground (arith, o.cmp_eq x y, list_cmp_eq xs ys)

  pub list_cmp_refl : (xs : List A) → list_cmp xs xs ≡ Ordering.eq
  list_cmp_refl [] = refl
  list_cmp_refl (x ∷ xs) = ground (arith, o.cmp_refl x, list_cmp_refl xs)

  pub list_cmp_lt : (xs ys : List A) → list_cmp xs ys ≡ Ordering.lt → list_cmp ys xs ≡ Ordering.gt
  list_cmp_lt [] [] h = cc
  list_cmp_lt [] (_ ∷ _) h = refl
  list_cmp_lt (_ ∷ _) [] h = cc
  list_cmp_lt (x ∷ xs) (y ∷ ys) h =
      ground (arith, o.cmp_lt x y, o.cmp_eq x y, o.cmp_refl x, list_cmp_lt xs ys)

  pub list_cmp_gt : (xs ys : List A) → list_cmp xs ys ≡ Ordering.gt → list_cmp ys xs ≡ Ordering.lt
  list_cmp_gt [] [] h = cc
  list_cmp_gt [] (_ ∷ _) h = cc
  list_cmp_gt (_ ∷ _) [] h = refl
  list_cmp_gt (x ∷ xs) (y ∷ ys) h =
      ground (arith, o.cmp_gt x y, o.cmp_eq x y, o.cmp_refl x, list_cmp_gt xs ys)

  pub list_cmp_trans :
      (xs ys zs : List A)
      → list_cmp xs ys ≡ Ordering.lt
      → list_cmp ys zs ≡ Ordering.lt
      → list_cmp xs zs ≡ Ordering.lt
  list_cmp_trans [] [] zs h k = cc
  list_cmp_trans [] (_ ∷ _) [] h k = cc
  list_cmp_trans [] (_ ∷ _) (_ ∷ _) h k = refl
  list_cmp_trans (_ ∷ _) [] zs h k = cc
  list_cmp_trans (_ ∷ _) (_ ∷ _) [] h k = cc
  list_cmp_trans (x ∷ xs) (y ∷ ys) (z ∷ zs) h k =
      ground (
        arith,
        o.cmp_trans x y z,
        o.cmp_eq x y,
        o.cmp_eq y z,
        o.cmp_refl x,
        list_cmp_trans xs ys zs,
      )

  instance abbrev pub list_ord : Ord (List A)
  list_ord = record {
    cmp = list_cmp;
    cmp_eq = list_cmp_eq;
    cmp_refl = list_cmp_refl;
    cmp_lt = list_cmp_lt;
    cmp_gt = list_cmp_gt;
    cmp_trans = list_cmp_trans;
  }
