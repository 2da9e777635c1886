-- ===== src/Std/BTreeMap/Sorted.antt =====
-- Keys of a `BTreeMap` stay in strictly ascending order, and lookups after each operation.
use emporium.Prelude.{◌≡◌, refl, Ordering, Option, none, some, [], ◌∷◌, arith, if◌then◌else◌}
use emporium.Std.Ord.{Ord, ord_beq, Ordering-cases, is_lt, is_eq, is_gt}
use emporium.Std.BTreeMap.{BTreeMap, get, upsert, remove, insert}

module _ {ℓ κ} {K : Type ℓ} {V : Type κ} ⦃o : Ord K⦄ where
  -- every key of `m` is above `k`
  abbrev pub IsBelow : K → BTreeMap K V → Type ℓ
  IsBelow k [] = Unit
  IsBelow k ((j, v) ∷ m) = (o.cmp k j ≡ Ordering.lt) × IsBelow k m

  abbrev pub IsSorted : BTreeMap K V → Type ℓ
  IsSorted [] = Unit
  IsSorted ((k, v) ∷ m) = IsBelow k m × IsSorted m

  pub IsBelow-trans :
      (j k : K) (m : BTreeMap K V) → o.cmp j k ≡ Ordering.lt → IsBelow k m → IsBelow j m
  IsBelow-trans j k [] h b = tt
  IsBelow-trans j k ((i, v) ∷ m) h b = (o.cmp_trans j k i h b.0, IsBelow-trans j k m h b.1)

  IsBelow-upsert :
      (j k : K) (f : Option V → V) (m : BTreeMap K V)
      → o.cmp j k ≡ Ordering.lt
      → IsBelow j m
      → IsBelow j (upsert k f m)
  unfolding upsert
  IsBelow-upsert j k f [] h b = (h, tt)
  IsBelow-upsert j k f ((i, v) ∷ m) h b = elim (Ordering-cases (o.cmp k i)) [
    | is_lt e ↦ rw (e, upsert) (h, b)
    | is_eq e ↦ rw (e, upsert) b
    | is_gt e ↦ rw (e, upsert) (b.0, IsBelow-upsert j k f m h b.1)
  ]

  pub upsert-IsSorted :
      (k : K) (f : Option V → V) (m : BTreeMap K V) → IsSorted m → IsSorted (upsert k f m)
  unfolding upsert
  upsert-IsSorted k f [] s = (tt, tt)
  upsert-IsSorted k f ((i, v) ∷ m) s = elim (Ordering-cases (o.cmp k i)) [
    | is_lt e ↦ rw (e, upsert) ((e, IsBelow-trans k i m e s.0), s)
    | is_eq e ↦ rw (e, upsert) s
    | is_gt e ↦
        rw (e, upsert) (IsBelow-upsert i k f m (o.cmp_gt k i e) s.0, upsert-IsSorted k f m s.1)
  ]

  pub insert-IsSorted : (k : K) (v : V) (m : BTreeMap K V) → IsSorted m → IsSorted (insert k v m)
  unfolding insert
  insert-IsSorted k v m s = upsert-IsSorted k (λ _. v) m s

  IsBelow-remove : (j k : K) (m : BTreeMap K V) → IsBelow j m → IsBelow j (remove k m)
  unfolding remove
  IsBelow-remove j k [] b = tt
  IsBelow-remove j k ((i, v) ∷ m) b = elim (Ordering-cases (o.cmp k i)) [
    | is_lt e ↦ rw (e, remove) b
    | is_eq e ↦ rw (e, remove) b.1
    | is_gt e ↦ rw (e, remove) (b.0, IsBelow-remove j k m b.1)
  ]

  pub remove-IsSorted : (k : K) (m : BTreeMap K V) → IsSorted m → IsSorted (remove k m)
  unfolding remove
  remove-IsSorted k [] s = tt
  remove-IsSorted k ((i, v) ∷ m) s = elim (Ordering-cases (o.cmp k i)) [
    | is_lt e ↦ rw (e, remove) s
    | is_eq e ↦ rw (e, remove) s.1
    | is_gt e ↦ rw (e, remove) (IsBelow-remove i k m s.0, remove-IsSorted k m s.1)
  ]

  -- a key below all the keys is not there
  pub get_below : (k : K) (m : BTreeMap K V) → IsBelow k m → get k m ≡ none
  unfolding get
  get_below k [] b = refl
  get_below k ((i, v) ∷ m) b = rw (b.0, get)

  -- nor is a key that is at most a key below all
  below_get : (j i : K) (m : BTreeMap K V) → IsBelow i m → o.cmp j i ≡ Ordering.lt → get j m ≡ none
  below_get j i m b h = get_below j m (IsBelow-trans j i m h b)

  pub get-remove :
      (k j : K) (m : BTreeMap K V)
      → IsSorted m
      → get j (remove k m) ≡ (if ord_beq k j then none else get j m)
  unfolding get remove
  get-remove k j [] s = ground arith
  get-remove k j ((i, v) ∷ m) s = ground (
    arith,
    get-remove k j m s.1,
    get_below i m s.0,
    below_get j i m s.0,
    o.cmp_eq k j,
    o.cmp_refl k,
    o.cmp_lt k j,
    o.cmp_gt k j,
    o.cmp_eq j k,
    o.cmp_eq k i,
    o.cmp_eq j i,
    o.cmp_trans j k i,
  )

  -- a lookup is at the head of the map or in its tail
  pub get-cons :
      (k i : K) (v : V) (m : BTreeMap K V)
      → IsBelow i m
      → get k ((i, v) ∷ m) ≡ (if ord_beq i k then some v else get k m)
  unfolding get
  get-cons k i v m b = ground (
    arith,
    below_get k i m b,
    o.cmp_eq i k,
    o.cmp_refl i,
    o.cmp_eq k i,
    o.cmp_lt k i,
    o.cmp_gt k i,
  )
