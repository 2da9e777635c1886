-- ===== src/Bookshelf/Expiration/Buckets.antt =====
-- What a bucket of bookshelf/src/expiration.rs holds after a run of insertions: for each key at or
-- after the horizon, the earliest of the epochs with that key.
use emporium.Prelude.{
  ◌≡◌, refl, Bool, true, ◌&&◌, none, some, List, [], ◌∷◌, arith, inl, inr, Bool-cases,
  if◌then◌else◌, ◌↔◌, Option-cases, ◌∙◌, ap, sym,
}
use emporium.Std.Ord.{Ord, ord_beq, ord_beq_iff, ◌≼◌}
use emporium.Std.BTreeMap.{get, contains, values, contains_key, get-upsert}
use emporium.Std.BTreeMap.Sorted.{IsSorted, upsert-IsSorted}
use emporium.Std.BTreeMap.Sets.{contains-values, key_of_value, contains_key-collect}
use emporium.Bookshelf.Expiration.{
  ExpirationBucket, keep_earliest, within_horizon, bucket_insert, bucket_values,
}
use emporium.Bookshelf.Expiration.Earliest.{least, IsEarliest, least_iff, least-some, least-none}

module _ {Epoch D : Type 0} ⦃o : Ord Epoch⦄ ⦃d : Ord D⦄ where
  -- the loop that inserts the epochs of a list, in order
  unfoldable pub fill : ExpirationBucket Epoch D → List Epoch → ExpirationBucket Epoch D
  fill b [] = b
  fill b (e ∷ es) = fill (bucket_insert b e) es

  -- the epochs that compete for key `k`
  pub competes : ExpirationBucket Epoch D → D → Epoch → Bool
  competes b k e = ord_beq (b.extract e) k && within_horizon b e

  pub get-bucket_insert :
      (b : ExpirationBucket Epoch D) (k : D) (e : Epoch)
      → get k (bucket_insert b e).backups
        ≡ (if competes b k e then some (keep_earliest e (get k b.backups)) else get k b.backups)
  unfolding bucket_insert competes
  get-bucket_insert b k e =
      ground
        (arith, get-upsert (b.extract e) k (keep_earliest e) b.backups, d.cmp_eq (b.extract e) k)

  competes-bucket_insert :
      (b : ExpirationBucket Epoch D) (k : D) (e : Epoch)
      → competes (bucket_insert b e) k ≡ competes b k
  unfolding bucket_insert competes
  competes-bucket_insert b k e = elim (Bool-cases (within_horizon b e)) [
    | inl w ↦ rw w
    | inr w ↦ rw w
  ]

  pub get-fill :
      (b : ExpirationBucket Epoch D) (k : D) (es : List Epoch)
      → get k (fill b es).backups ≡ least (competes b k) (get k b.backups) es
  unfolding fill least
  get-fill b k [] = refl
  get-fill b k (e ∷ es) =
      rw (get-fill (bucket_insert b e) k es, get-bucket_insert b k e, competes-bucket_insert b k e)

  pub fill-IsSorted :
      (b : ExpirationBucket Epoch D) (es : List Epoch)
      → IsSorted b.backups
      → IsSorted (fill b es).backups
  unfolding fill bucket_insert
  fill-IsSorted b [] s = s
  fill-IsSorted b (e ∷ es) s = elim (Bool-cases (within_horizon b e)) [
    | inl w ↦ fill-IsSorted (bucket_insert b e) es (rw w (upsert-IsSorted _ _ _ s))
    | inr w ↦ fill-IsSorted (bucket_insert b e) es (rw w s)
  ]

  -- an epoch that a bucket retains out of a list: it is not before the horizon, and no epoch of
  -- the list with its key is before it
  pub record IsRetained (b : ExpirationBucket Epoch D) (es : List Epoch) (e : Epoch) : Type 0 where
    pub within : within_horizon b e ≡ true
    pub first : (x : Epoch) → contains x es ≡ true → b.extract x ≡ b.extract e → e ≼ x

  competes_iff :
      (b : ExpirationBucket Epoch D) (k : D) (e : Epoch)
      → (competes b k e ≡ true) ↔ ((b.extract e ≡ k) × (within_horizon b e ≡ true))
  unfolding competes
  competes_iff b k e = ground (arith, ord_beq_iff (b.extract e) k)

  within_of_extract :
      (b : ExpirationBucket Epoch D) (x e : Epoch)
      → b.extract x ≡ b.extract e
      → within_horizon b x ≡ within_horizon b e
  unfolding within_horizon
  within_of_extract b x e h = rw (h, within_horizon)

  IsRetained-iff :
      (b : ExpirationBucket Epoch D) (es : List Epoch) (e : Epoch)
      → IsEarliest (competes b (b.extract e)) es e ↔ IsRetained b es e
  IsRetained-iff b es e = (
    λ h.
        let w = ((competes_iff b (b.extract e) e).0 h.passes).1 in
        record {
          within = w;
          first = λ x c k. h.below x c ((competes_iff b _ x).1 (k, within_of_extract b x e k ∙ w));
        },
    λ h. record {
      passes = (competes_iff b _ e).1 (refl, h.within);
      below = λ x c k. h.first x c ((competes_iff b _ x).0 k).0;
    },
  )

  -- Started empty and given the epochs of a list that has `e`, a bucket has `e` among its values
  -- exactly when it retains it.
  pub bucket_values_iff :
      (b : ExpirationBucket Epoch D) (es : List Epoch) (e : Epoch)
      → b.backups ≡ []
      → contains e es ≡ true
      → (contains_key e (bucket_values (fill b es)) ≡ true) ↔ IsRetained b es e
  unfolding bucket_values get
  bucket_values_iff b es e empty c = rw contains_key-collect (forth, back)
    where
      got : (k : D) → get k (fill b es).backups ≡ least (competes b k) none es
      got k = get-fill b k es ∙ ap (λ m. least (competes b k) (get k m) es) empty

      sorted : IsSorted (fill b es).backups
      sorted = fill-IsSorted b es (rw empty tt)

      forth : contains e (values (fill b es).backups) ≡ true → IsRetained b es e
      forth h =
          let (k, found) = key_of_value e (fill b es).backups sorted h in
          let chosen = (least_iff (competes b k) es e c).0 (sym (got k) ∙ found) in
          let same = ((competes_iff b k e).0 chosen.passes).0 in
          (IsRetained-iff b es e).0 (rw same chosen)

      back : IsRetained b es e → contains e (values (fill b es).backups) ≡ true
      back r =
          contains-values (b.extract e) e (fill b es).backups
            (got (b.extract e) ∙ (least_iff _ es e c).1 ((IsRetained-iff b es e).1 r))

  -- the earliest epoch of a list with the key of one that is not before the horizon
  pub exists_IsRetained :
      (b : ExpirationBucket Epoch D) (es : List Epoch) (e : Epoch)
      → within_horizon b e ≡ true
      → contains e es ≡ true
      → (m : Epoch) × (contains m es ≡ true)
        × (b.extract m ≡ b.extract e)
        × (m ≼ e)
        × IsRetained b es m
  exists_IsRetained b es e w c =
      let k = b.extract e in
      let passes = (competes_iff b k e).1 (refl, w) in
      elim (Option-cases (least (competes b k) none es)) [
        | inl n ↦ cc (least-none (competes b k) es e n c, passes)
        | inr (m, found) ↦
            let (d, q, below) = least-some (competes b k) es m found in
            let same = ((competes_iff b k m).0 q).0 in
            (
              m,
              d,
              same,
              below e c passes,
              (IsRetained-iff b es m).0 (rw same (record { passes = q; below = below })),
            )
      ]
