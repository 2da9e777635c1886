-- ===== src/Std/BTreeMap.antt =====
-- `std::collections::BTreeMap` as an association list in strictly ascending order of its keys, and
-- `BTreeSet` as a map into the unit.
pub mod Sorted
pub mod Sets
use emporium.Prelude.{
  ◌≡◌, Ordering, Option, none, some, List, [], ◌∷◌, arith, Bool, true, false, ◌||◌, if◌then◌else◌,
}
use emporium.Std.Ord.{Ord, ord_beq}

abbrev pub BTreeMap {ℓ κ} : Type ℓ → Type κ → Type (ℓ ⊔ κ)
BTreeMap K V = List (K × V)

abbrev pub BTreeSet {ℓ} : Type ℓ → Type ℓ
BTreeSet K = BTreeMap K (Unit {0})

module _ {ℓ κ} {K : Type ℓ} {V : Type κ} ⦃o : Ord K⦄ where
  unfoldable pub get : K → BTreeMap K V → Option V
  get k [] = none
  get k ((j, v) ∷ m) =
      let rest = get k m in
      elim (o.cmp k j) [ Ordering.lt ↦ none | Ordering.eq ↦ some v | Ordering.gt ↦ rest ]

  -- `*entry(k).or_insert(..) = ..`: what `f` makes of the entry that is there, if any
  unfoldable pub upsert : K → (Option V → V) → BTreeMap K V → BTreeMap K V
  upsert k f [] = (k, f none) ∷ []
  upsert k f ((j, v) ∷ m) =
      let rest = upsert k f m in
      elim (o.cmp k j) [
        | Ordering.lt ↦ (k, f none) ∷ (j, v) ∷ m
        | Ordering.eq ↦ (j, f (some v)) ∷ m
        | Ordering.gt ↦ (j, v) ∷ rest
      ]

  unfoldable pub insert : K → V → BTreeMap K V → BTreeMap K V
  unfolding upsert
  insert k v = upsert k (λ _. v)

  unfoldable pub remove : K → BTreeMap K V → BTreeMap K V
  remove k [] = []
  remove k ((j, v) ∷ m) =
      let rest = remove k m in
      elim (o.cmp k j) [ Ordering.lt ↦ (j, v) ∷ m | Ordering.eq ↦ m | Ordering.gt ↦ (j, v) ∷ rest ]

  unfoldable pub contains_key : K → BTreeMap K V → Bool
  unfolding get
  contains_key k m = elim (get k m) [ none ↦ false | some _ ↦ true ]

  pub get-upsert :
      (k j : K) (f : Option V → V) (m : BTreeMap K V)
      → get j (upsert k f m) ≡ (if ord_beq k j then some (f (get k m)) else get j m)
  unfolding get upsert
  get-upsert k j f [] =
      ground (arith, o.cmp_eq k j, o.cmp_refl k, o.cmp_lt k j, o.cmp_gt k j, o.cmp_eq j k)
  get-upsert k j f ((i, v) ∷ m) = ground (
    arith,
    get-upsert k j f m,
    o.cmp_eq k j,
    o.cmp_refl k,
    o.cmp_lt k j,
    o.cmp_gt k j,
    o.cmp_eq j k,
    o.cmp_eq k i,
    o.cmp_trans j k i,
  )

unfoldable pub keys {ℓ κ} : {K : Type ℓ} {V : Type κ} → BTreeMap K V → List K
keys [] = []
keys ((j, v) ∷ m) = j ∷ keys m

unfoldable pub values {ℓ κ} : {K : Type ℓ} {V : Type κ} → BTreeMap K V → List V
values [] = []
values ((j, v) ∷ m) = v ∷ values m

-- `slice::contains`, and `collect` into a `BTreeSet`
module _ {ℓ} {K : Type ℓ} ⦃o : Ord K⦄ where
  unfoldable pub contains : K → List K → Bool
  contains k [] = false
  contains k (j ∷ ks) = ord_beq j k || contains k ks

  unfoldable pub collect : List K → BTreeSet K
  unfolding insert
  collect [] = []
  collect (k ∷ ks) = insert k tt (collect ks)
