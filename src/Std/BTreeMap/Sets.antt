-- ===== src/Std/BTreeMap/Sets.antt =====
-- Membership in a `BTreeSet`, and the values of a `BTreeMap`.
use emporium.Prelude.{
  ◌≡◌, refl, true, not, ◌&&◌, ◌||◌, List, [], ◌∷◌, some, Ordering, arith, Bool-cases, inl, inr,
}
use emporium.Std.Ord.{Ord, ord_beq}
use emporium.Std.BTreeMap.{
  BTreeMap, BTreeSet, get, insert, remove, contains_key, contains, collect, values, keys,
  get-upsert,
}
use emporium.Std.BTreeMap.Sorted.{
  IsSorted, IsBelow, insert-IsSorted, get-remove, get_below, IsBelow-trans,
}

module _ {ℓ κ} {K : Type ℓ} {V : Type κ} ⦃o : Ord K⦄ where
  pub contains_key-insert :
      (k j : K) (v : V) (m : BTreeMap K V)
      → contains_key j (insert k v m) ≡ (ord_beq k j || contains_key j m)
  unfolding insert contains_key
  contains_key-insert k j v m = ground (arith, get-upsert k j (λ _. v) m)

  pub contains_key-remove :
      (k j : K) (m : BTreeMap K V)
      → IsSorted m
      → contains_key j (remove k m) ≡ (not (ord_beq k j) && contains_key j m)
  unfolding contains_key
  contains_key-remove k j m s = ground (arith, get-remove k j m s)

  -- a key that is found in a map above `i` is above `i`
  pub lt_of_get :
      (i k : K) (v : V) (m : BTreeMap K V)
      → IsBelow i m
      → get k m ≡ some v
      → o.cmp i k ≡ Ordering.lt
  lt_of_get i k v m b h = ground (
    arith,
    get_below k m,
    λ (p : o.cmp k i ≡ Ordering.lt). get_below k m (IsBelow-trans k i m p b),
    get_below i m b,
    o.cmp_eq i k,
    o.cmp_gt i k,
  )

module _ {ℓ κ} {K : Type ℓ} {V : Type κ} ⦃o : Ord K⦄ ⦃p : Ord V⦄ where
  pub contains-values :
      (k : K) (v : V) (m : BTreeMap K V) → get k m ≡ some v → contains v (values m) ≡ true
  unfolding get values contains
  contains-values k v [] h = cc
  contains-values k v ((i, w) ∷ m) h =
      ground (arith, contains-values k v m, p.cmp_refl v, o.cmp_eq k i)

  pub key_of_value :
      (v : V) (m : BTreeMap K V)
      → IsSorted m
      → contains v (values m) ≡ true
      → (k : K) × (get k m ≡ some v)
  unfolding get values contains
  key_of_value v [] s h = cc
  key_of_value v ((i, w) ∷ m) s h = elim (Bool-cases (ord_beq w v)) [
    | inl e ↦ (i, ground (arith, p.cmp_eq w v, o.cmp_refl i))
    | inr e ↦
        let (k, found) = key_of_value v m s.1 (ground arith) in
        (k, ground (arith, lt_of_get i k v m s.0 found, o.cmp_lt i k))
  ]

module _ {ℓ} {K : Type ℓ} ⦃o : Ord K⦄ where
  pub contains_key-collect : (k : K) (ks : List K) → contains_key k (collect ks) ≡ contains k ks
  unfolding collect contains contains_key get
  contains_key-collect k [] = refl
  contains_key-collect k (j ∷ ks) =
      ground (arith, contains_key-insert j k tt (collect ks), contains_key-collect k ks)

  pub collect-IsSorted : (ks : List K) → IsSorted (collect ks)
  unfolding collect
  collect-IsSorted [] = tt
  collect-IsSorted (k ∷ ks) = insert-IsSorted k tt (collect ks) (collect-IsSorted ks)

  pub contains-keys : (k : K) (m : BTreeSet K) → IsSorted m → contains k (keys m) ≡ contains_key k m
  unfolding contains keys contains_key get
  contains-keys k [] s = refl
  contains-keys k ((i, u) ∷ m) s = ground (
    arith,
    contains-keys k m s.1,
    get_below k m,
    λ (p : o.cmp k i ≡ Ordering.lt). get_below k m (IsBelow-trans k i m p s.0),
    o.cmp_eq k i,
    o.cmp_eq i k,
    o.cmp_refl k,
    o.cmp_lt i k,
    o.cmp_gt i k,
  )
