-- ===== src/Bookshelf/Expiration/Earliest.antt =====
-- The earliest of the epochs that pass a test, as `cmp::min` accumulates it over a run of them
-- (bookshelf/src/expiration.rs).
use emporium.Prelude.{
  ◌≡◌, refl, Bool, true, false, Option, none, some, List, [], ◌∷◌, arith, ◌⊎◌, inl, inr, Bool-cases,
  if◌then◌else◌, ◌↔◌, Option-cases,
}
use emporium.Std.Ord.{Ord, ord_beq, ord_beq_iff, ◌≼◌, ≼_refl, ≼_trans, ≼_antisym}
use emporium.Std.BTreeMap.{contains}
use emporium.Bookshelf.Expiration.{min, keep_earliest}

module _ {Epoch : Type 0} ⦃o : Ord Epoch⦄ where
  -- the earliest of `acc` and of the epochs that pass a test, taken in order
  unfoldable pub least : (Epoch → Bool) → Option Epoch → List Epoch → Option Epoch
  least p acc [] = acc
  least p acc (e ∷ es) = least p (if p e then some (keep_earliest e acc) else acc) es

  min_lem : (e a : Epoch) → (min e a ≼ e) × (min e a ≼ a) × ((min e a ≡ e) ⊎ (min e a ≡ a))
  unfolding min
  min_lem e a = ground (arith, o.cmp_refl e, o.cmp_refl a, o.cmp_gt e a)

  pub record IsLeast (p : Epoch → Bool) (a : Epoch) (es : List Epoch) (m : Epoch) : Type 0 where
    pub found : least p (some a) es ≡ some m
    pub below_start : m ≼ a
    pub origin : (m ≡ a) ⊎ ((contains m es ≡ true) × (p m ≡ true))
    pub below : (x : Epoch) → contains x es ≡ true → p x ≡ true → m ≼ x

  keep_earliest_idem : (e : Epoch) → keep_earliest e none ≡ e
  unfolding keep_earliest
  keep_earliest_idem e = ground (arith, o.cmp_refl e)

  least_lem : (p : Epoch → Bool) (a : Epoch) (es : List Epoch) → (m : Epoch) × IsLeast p a es m
  unfolding least keep_earliest contains
  least_lem p a [] =
      (a, record { found = refl; below_start = ≼_refl a; origin = inl refl; below = λ x h k. cc })
  least_lem p a (e ∷ es) = elim (Bool-cases (p e)) [
    | inl taken ↦
        let (m, l) = least_lem p (min e a) es in
        (
          m,
          record {
            found = rw taken l.found;
            below_start = ≼_trans m (min e a) a l.below_start (min_lem e a).1;
            origin = ground (arith, l.origin, min_lem e a, o.cmp_refl e);
            below = λ x h k. elim (Bool-cases (ord_beq e x)) [
              | inl same ↦
                  rw (← (ord_beq_iff e x).0 same)
                    (≼_trans m (min e a) e l.below_start (min_lem e a).0)
              | inr other ↦ l.below x (ground arith) k
            ];
          },
        )
    | inr left ↦
        let (m, l) = least_lem p a es in
        (
          m,
          record {
            found = rw left l.found;
            below_start = l.below_start;
            origin = ground (arith, l.origin);
            below = λ x h k. ground (arith, l.below x, o.cmp_eq e x);
          },
        )
  ]

  -- from no start: nothing, or the earliest that passes
  pub least-none :
      (p : Epoch → Bool) (es : List Epoch) (x : Epoch)
      → least p none es ≡ none
      → contains x es ≡ true
      → p x ≡ false
  unfolding least contains
  least-none p [] x n h = cc
  least-none p (e ∷ es) x n h = elim (Bool-cases (p e)) [
    | inl taken ↦ let (m, l) = least_lem p (keep_earliest e none) es in ground (arith, l.found)
    | inr left ↦ ground (arith, least-none p es x, o.cmp_eq e x)
  ]

  pub least-some :
      (p : Epoch → Bool) (es : List Epoch) (m : Epoch)
      → least p none es ≡ some m
      → (contains m es ≡ true)
        × (p m ≡ true)
        × ((x : Epoch) → contains x es ≡ true → p x ≡ true → m ≼ x)
  unfolding least contains
  least-some p [] m h = cc
  least-some p (e ∷ es) m h = elim (Bool-cases (p e)) [
    | inl taken ↦
        let (n, l) = least_lem p e es in
        let same : n ≡ m = ground (arith, l.found, keep_earliest_idem e) in
        rw (← same) (
          ground (arith, l.origin, o.cmp_refl e),
          ground (arith, l.origin),
          λ x k q. elim (Bool-cases (ord_beq e x)) [
            | inl here ↦ rw (← (ord_beq_iff e x).0 here) l.below_start
            | inr there ↦ l.below x (ground arith) q
          ],
        )
    | inr left ↦
        let (c, q, below) = least-some p es m (ground arith) in
        (ground arith, q, λ x k r. below x (ground (arith, o.cmp_eq e x)) r)
  ]

  -- the epochs that pass a test and are earliest among those of a list that do
  pub record IsEarliest (p : Epoch → Bool) (es : List Epoch) (m : Epoch) : Type 0 where
    pub passes : p m ≡ true
    pub below : (x : Epoch) → contains x es ≡ true → p x ≡ true → m ≼ x

  pub least_iff :
      (p : Epoch → Bool) (es : List Epoch) (m : Epoch)
      → contains m es ≡ true
      → (least p none es ≡ some m) ↔ IsEarliest p es m
  least_iff p es m c = (forth, back (Option-cases (least p none es)))
    where
      forth : least p none es ≡ some m → IsEarliest p es m
      forth h = let (_, q, below) = least-some p es m h in record { passes = q; below = below }

      back :
          (least p none es ≡ none) ⊎ ((n : Epoch) × (least p none es ≡ some n))
          → IsEarliest p es m
          → least p none es ≡ some m
      back (inl e) k = cc (least-none p es m e c, k.passes)
      back (inr (n, e)) k =
          let (d, q, below) = least-some p es n e in
          rw (e, ≼_antisym n m (below m c k.passes) (k.below n d q))
