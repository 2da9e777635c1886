-- ===== src/Bookshelf/Expiration/Retention.antt =====
-- Which epochs `Policy::expired` of bookshelf/src/expiration.rs returns.
use emporium.Prelude.{
  ◌≡◌, refl, Bool, true, false, not, ◌&&◌, ◌||◌, List, [], ◌∷◌, map, arith, ◌↔◌, ◌∙◌, ap, All,
  or_false, or_false_of, and_true, and_true_of, not_true, not-false,
}
use emporium.Std.Ord.{Ord}
use emporium.Std.BTreeMap.{BTreeSet, get, contains, values, keys, contains_key, remove}
use emporium.Std.BTreeMap.Sorted.{IsSorted, remove-IsSorted, insert-IsSorted}
use emporium.Std.BTreeMap.Sets.{
  contains_key-remove, contains_key-insert, contains-keys, collect-IsSorted,
}
use emporium.Bookshelf.Expiration.{
  DynBucket, Policy, dyn_insert, dyn_values, bucket_values, policy_insert, remove_all,
  remove_retained, policy_expired, insert_all,
}
use emporium.Bookshelf.Expiration.Buckets.{fill, IsRetained, bucket_values_iff}

module _ {Epoch : Type 0} ⦃o : Ord Epoch⦄ where
  remove_all-IsSorted :
      (ks : List Epoch) (m : BTreeSet Epoch) → IsSorted m → IsSorted (remove_all ks m)
  unfolding remove_all
  remove_all-IsSorted [] m s = s
  remove_all-IsSorted (k ∷ ks) m s = remove_all-IsSorted ks (remove k m) (remove-IsSorted k m s)

  contains_key-remove_all :
      (ks : List Epoch) (x : Epoch) (m : BTreeSet Epoch)
      → IsSorted m
      → contains_key x (remove_all ks m) ≡ (not (contains x ks) && contains_key x m)
  unfolding remove_all contains
  contains_key-remove_all [] x m s = refl
  contains_key-remove_all (k ∷ ks) x m s = ground (
    arith,
    contains_key-remove_all ks x (remove k m) (remove-IsSorted k m s),
    contains_key-remove k x m s,
  )

  -- the bucket behind a `Box<dyn Bucket>` retains `e` out of `es`
  abbrev pub IsSpared : List Epoch → Epoch → DynBucket Epoch → Type 0
  IsSpared es e b = IsRetained ⦃d = b.key_ord⦄ b.bucket es e

  dyn_fill : List Epoch → DynBucket Epoch → DynBucket Epoch
  dyn_fill es b = record b { bucket = fill ⦃d = b.key_ord⦄ b.bucket es }

  -- the buckets hold an epoch among their values
  holds : List (DynBucket Epoch) → Epoch → Bool
  holds [] e = false
  holds (b ∷ bs) e = contains_key e (dyn_values b) || holds bs e

  dyn_values-IsSorted : (b : DynBucket Epoch) → IsSorted (dyn_values b)
  unfolding dyn_values bucket_values
  dyn_values-IsSorted b = collect-IsSorted (values b.bucket.backups)

  contains_key-remove_retained :
      (bs : List (DynBucket Epoch)) (x : Epoch) (m : BTreeSet Epoch)
      → IsSorted m
      → contains_key x (remove_retained bs m) ≡ (not (holds bs x) && contains_key x m)
  unfolding remove_retained holds
  contains_key-remove_retained [] x m s = refl
  contains_key-remove_retained (b ∷ bs) x m s = ground (
    arith,
    contains_key-remove_retained bs x (remove_all (keys (dyn_values b)) m)
        (remove_all-IsSorted (keys (dyn_values b)) m s),
    contains_key-remove_all (keys (dyn_values b)) x m s,
    contains-keys x (dyn_values b) (dyn_values-IsSorted b),
  )

  map-dyn_fill_nil : (bs : List (DynBucket Epoch)) → bs ≡ map (dyn_fill []) bs
  unfolding dyn_fill fill
  map-dyn_fill_nil [] = refl
  map-dyn_fill_nil (b ∷ bs) = ap (◌∷◌ b) (map-dyn_fill_nil bs)

  map-dyn_fill_cons :
      (e : Epoch) (es : List Epoch) (bs : List (DynBucket Epoch))
      → map (dyn_fill es) (map (dyn_insert e) bs) ≡ map (dyn_fill (e ∷ es)) bs
  unfolding dyn_fill dyn_insert fill
  map-dyn_fill_cons e es [] = refl
  map-dyn_fill_cons e es (b ∷ bs) = ap (◌∷◌ (dyn_fill (e ∷ es) b)) (map-dyn_fill_cons e es bs)

  policies-insert_all :
      (p : Policy Epoch) (es : List Epoch)
      → (insert_all p es).policies ≡ map (dyn_fill es) p.policies
  unfolding insert_all policy_insert
  policies-insert_all p [] = map-dyn_fill_nil p.policies
  policies-insert_all p (e ∷ es) =
      policies-insert_all (policy_insert p e) es ∙ map-dyn_fill_cons e es p.policies

  epochs-insert_all :
      (p : Policy Epoch) (es : List Epoch) (x : Epoch)
      → contains_key x (insert_all p es).epochs ≡ (contains x es || contains_key x p.epochs)
  unfolding insert_all policy_insert contains
  epochs-insert_all p [] x = refl
  epochs-insert_all p (e ∷ es) x =
      ground
        (arith, epochs-insert_all (policy_insert p e) es x, contains_key-insert e x tt p.epochs)

  insert_all-IsSorted :
      (p : Policy Epoch) (es : List Epoch) → IsSorted p.epochs → IsSorted (insert_all p es).epochs
  unfolding insert_all policy_insert
  insert_all-IsSorted p [] s = s
  insert_all-IsSorted p (e ∷ es) s =
      insert_all-IsSorted (policy_insert p e) es (insert-IsSorted e tt p.epochs s)

  abbrev pub IsFresh : DynBucket Epoch → Type 0
  IsFresh b = b.bucket.backups ≡ []

  holds-map-dyn_fill :
      (es : List Epoch) (e : Epoch) (bs : List (DynBucket Epoch))
      → All IsFresh bs
      → contains e es ≡ true
      → (holds (map (dyn_fill es) bs) e ≡ false) ↔ All (λ b. ¬ IsSpared es e b) bs
  unfolding holds dyn_fill dyn_values
  holds-map-dyn_fill es e [] fresh c = (λ _. tt, λ _. refl)
  holds-map-dyn_fill es e (b ∷ bs) fresh c =
      let iff = bucket_values_iff ⦃d = b.key_ord⦄ b.bucket es e fresh.0 c in
      let rest = holds-map-dyn_fill es e bs fresh.1 c in
      (
        λ h. (λ r. cc (iff.1 r, h), rest.0 (or_false _ _ h).1),
        λ h. or_false_of _ _ (not_true _ (λ t. h.0 (iff.0 t))) (rest.1 h.1),
      )

  contains_key-policy_expired :
      (p : Policy Epoch) (es : List Epoch) (e : Epoch)
      → p.epochs ≡ []
      → contains_key e (policy_expired (insert_all p es))
        ≡ (not (holds (map (dyn_fill es) p.policies) e) && contains e es)
  unfolding policy_expired contains_key get
  contains_key-policy_expired p es e empty = rw (← policies-insert_all p es) (
      ground (
        arith,
        contains_key-remove_retained (insert_all p es).policies e (insert_all p es).epochs
            (insert_all-IsSorted p es (rw empty tt)),
        epochs-insert_all p es e,
        ap (contains_key e) empty,
      ))

  -- A policy with fresh buckets that is given the epochs of a list lets go of exactly those that no
  -- bucket retains.
  pub policy_expired_iff :
      (p : Policy Epoch) (es : List Epoch) (e : Epoch)
      → p.epochs ≡ []
      → All IsFresh p.policies
      → (contains_key e (policy_expired (insert_all p es)) ≡ true)
        ↔ ((contains e es ≡ true) × All (λ b. ¬ IsSpared es e b) p.policies)
  policy_expired_iff p es e empty fresh = rw (contains_key-policy_expired p es e empty) (
    λ h.
        let parts = and_true _ _ h in
        (parts.1, (holds-map-dyn_fill es e p.policies fresh parts.1).0 (not-false _ parts.0)),
    λ h. and_true_of _ _ (ap not ((holds-map-dyn_fill es e p.policies fresh h.0).1 h.1)) h.0,
  )
