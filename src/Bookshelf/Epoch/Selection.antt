-- ===== src/Bookshelf/Epoch/Selection.antt =====
-- What `EpochSelector::find` and the parser of selectors in bookshelf/src/epoch.rs return.
use mathlib.Core.List.{reverse, reverse-cons}
use emporium.Prelude.{
  ℕ, zero, suc, ◌<◌, ◌≡◌, string_eq, refl, true, Ordering, none, some, List, [], ◌∷◌, ◌++◌, arith,
  ◌↔◌, ◌⊎◌, inl, inr, length, get_elem?, length-append, Option-cases,
}
use emporium.Std.Ord.{Ord, ◌≼◌, Ordering-cases, is_lt, is_eq, is_gt}
use emporium.Std.BTreeMap.{BTreeMap, get, keys, contains_key}
use emporium.Std.BTreeMap.Sorted.{IsSorted, IsBelow}
use emporium.Std.BTreeMap.Sets.{lt_of_get}
use emporium.Bookshelf.Epoch.{earliest, latest, nth, find, next, last}

length-reverse {ℓ} : {A : Type ℓ} (xs : List A) → length (reverse xs) ≡ length xs
length-reverse [] = refl
length-reverse (x ∷ xs) = rw (reverse-cons x xs, length-append) (omega (arith, length-reverse xs))

-- reading the list `xs` followed by one more element
get_elem?-snoc {ℓ} :
    {A : Type ℓ} (xs : List A) (x : A) (n : ℕ)
    → ((n < length xs) × (get_elem? (xs ++ x ∷ []) n ≡ get_elem? xs n))
      ⊎ ((n ≡ length xs) × (get_elem? (xs ++ x ∷ []) n ≡ some x))
      ⊎ ((length xs < n) × (get_elem? (xs ++ x ∷ []) n ≡ none))
get_elem?-snoc [] x zero = ground arith
get_elem?-snoc [] x (suc n) = ground arith
get_elem?-snoc (y ∷ xs) x zero = ground arith
get_elem?-snoc (y ∷ xs) x (suc n) = ground (arith, get_elem?-snoc xs x n)

last-get_elem? {ℓ} : {A : Type ℓ} (ks : List A) → last ks ≡ get_elem? (reverse ks) 0
unfolding last
last-get_elem? [] = refl
last-get_elem? (x ∷ []) = refl
last-get_elem? (x ∷ y ∷ ks) =
    rw (reverse-cons x (y ∷ ks), last-get_elem? (y ∷ ks))
      (ground (arith, get_elem?-snoc (reverse (y ∷ ks)) x 0, length-reverse (y ∷ ks)))

module _ {Epoch V : Type 0} ⦃o : Ord Epoch⦄ where
  -- how many keys of a tree lie after an epoch
  unfoldable pub count_after : Epoch → BTreeMap Epoch V → ℕ
  count_after e [] = 0
  count_after e ((k, v) ∷ m) =
      let rest = count_after e m in elim (o.cmp e k) [ Ordering.lt ↦ suc rest | _ ↦ rest ]

  count_after_below :
      (e : Epoch) (m : BTreeMap Epoch V) → IsBelow e m → count_after e m ≡ length (keys m)
  unfolding count_after keys
  count_after_below e [] b = refl
  count_after_below e ((k, v) ∷ m) b = ground (arith, count_after_below e m b.1)

  contains_above :
      (k e : Epoch) (m : BTreeMap Epoch V)
      → IsBelow k m
      → contains_key e m ≡ true
      → o.cmp k e ≡ Ordering.lt
  unfolding contains_key
  contains_above k e m b h = elim (Option-cases (get e m)) [
    | inl n ↦ ground arith
    | inr (v, found) ↦ lt_of_get k e v m b found
  ]

  count_after-lt :
      (e : Epoch) (m : BTreeMap Epoch V)
      → IsSorted m
      → contains_key e m ≡ true
      → count_after e m < length (keys m)
  unfolding contains_key get count_after keys
  count_after-lt e [] s h = cc
  count_after-lt e ((k, w) ∷ m) s h =
      ground (arith, count_after-lt e m s.1, o.cmp_eq e k, count_after_below k m s.0)

  -- `Nth(n)` finds an epoch exactly when it is in the tree with `n` epochs of the tree after it.
  pub find-nth_iff :
      (n : ℕ) (e : Epoch) (m : BTreeMap Epoch V)
      → IsSorted m
      → (find (nth n) m ≡ some e) ↔ ((contains_key e m ≡ true) × (count_after e m ≡ n))
  unfolding find contains_key get count_after keys
  find-nth_iff n e [] s = ground arith
  find-nth_iff n e ((k, v) ∷ m) s =
      let ih = find-nth_iff n e m s.1 in
      let split = get_elem?-snoc (reverse (keys m)) k n in
      let size = length-reverse (keys m) in
      rw (reverse-cons k (keys m)) (elim (Ordering-cases (o.cmp e k)) [
        | is_lt c ↦ ground (arith, ih, split, size, contains_above k e m s.0, o.cmp_lt e k)
        | is_eq c ↦ ground (
          arith,
          ih,
          split,
          size,
          o.cmp_eq e k,
          count_after_below k m s.0,
          contains_above k k m s.0,
          o.cmp_refl k,
        )
        | is_gt c ↦ ground (arith, ih, split, size, count_after-lt e m s.1, o.cmp_refl k)
      ])

  -- `Latest` selects what `Nth(0)` selects.
  pub find-latest : (m : BTreeMap Epoch V) → find latest m ≡ find (nth 0) m
  unfolding find
  find-latest m = last-get_elem? (keys m)

  -- `Earliest` finds an epoch exactly when it is in the tree and no epoch of the tree is before it.
  pub find-earliest_iff :
      (e : Epoch) (m : BTreeMap Epoch V)
      → IsSorted m
      → (find earliest m ≡ some e)
        ↔ ((contains_key e m ≡ true) × ((x : Epoch) → contains_key x m ≡ true → e ≼ x))
  unfolding find next keys contains_key get
  find-earliest_iff e [] s = (λ h. cc, λ h. cc (h.0))
  find-earliest_iff e ((k, v) ∷ m) s = (
    λ h.
        let same : k ≡ e = ground arith in
        rw (← same) (
          ground (arith, o.cmp_refl k),
          λ x c. ground (
            arith,
            contains_above k x m s.0,
            o.cmp_refl k,
            o.cmp_lt x k,
            o.cmp_eq x k,
            o.cmp_lt k x,
          ),
        ),
    λ h.
        ground
          (arith, h.0, h.1 k, contains_above k e m s.0, o.cmp_refl k, o.cmp_gt e k, o.cmp_eq e k),
  )
