-- ===== src/Bookshelf/Expiration/Kept.antt =====
-- What the buckets of bookshelf/src/expiration.rs retain, as the theorems on expiry need it.
use emporium.Prelude.{◌≡◌, true, false, not, ◌&&◌, some, List, [], ◌∷◌, arith, ok, filterb, ℕ}
use emporium.Std.Ord.{Ord, ◌≼◌, ≼_refl, pair_ord, nat_ord}
use emporium.Std.Int.{ℤ, int_ord}
use emporium.Std.BTreeMap.{BTreeSet, contains, contains_key}
use emporium.Chrono.{Calendar}
use emporium.Bookshelf.Expiration.{ExpirationBucket, daily, weekly, monthly, yearly, within_horizon}
use emporium.Bookshelf.Expiration.Buckets.{IsRetained, exists_IsRetained}

module _ {Epoch : Type 0} ⦃o : Ord Epoch⦄ where
  -- the epochs of a list that an expiry leaves
  unfoldable pub survivors : BTreeSet Epoch → List Epoch → List Epoch
  survivors s = filterb (λ e. not (contains_key e s))

  pub contains-survivors :
      (s : BTreeSet Epoch) (es : List Epoch) (e : Epoch)
      → contains e (survivors s es) ≡ (not (contains_key e s) && contains e es)
  unfolding survivors filterb contains
  contains-survivors s [] e = ground arith
  contains-survivors s (x ∷ es) e = ground (arith, contains-survivors s es e, o.cmp_eq x e)

module _ {Epoch D : Type 0} ⦃o : Ord Epoch⦄ ⦃d : Ord D⦄ where
  -- for each epoch of `es` that is not before the horizon, `s` leaves an epoch of `es` with the
  -- same key that is no later
  abbrev pub KeepsOne : ExpirationBucket Epoch D → List Epoch → BTreeSet Epoch → Type 0
  KeepsOne b es s =
      (e : Epoch)
      → contains e es ≡ true
      → within_horizon b e ≡ true
      → (m : Epoch) × (contains m es ≡ true)
        × (contains_key m s ≡ false)
        × (b.extract m ≡ b.extract e)
        × (m ≼ e)

  pub KeepsOne-of_spared :
      (b : ExpirationBucket Epoch D) (es : List Epoch) (s : BTreeSet Epoch)
      → ((m : Epoch) → contains m es ≡ true → IsRetained b es m → contains_key m s ≡ false)
      → KeepsOne b es s
  KeepsOne-of_spared b es s spare e c w =
      let (m, found, same, le, kept) = exists_IsRetained b es e w c in
      (m, found, spare m found kept, same, le)

  pub IsRetained-of_subset :
      (b : ExpirationBucket Epoch D) (es fs : List Epoch) (e : Epoch)
      → ((x : Epoch) → contains x fs ≡ true → contains x es ≡ true)
      → IsRetained b es e
      → IsRetained b fs e
  IsRetained-of_subset b es fs e sub r = record {
    within = r.within;
    first = λ x c k. r.first x (sub x c) k;
  }

module _ {Epoch : Type 0} ⦃o : Ord Epoch⦄ (cal : Calendar Epoch) (origin : Epoch) (n : ℕ) where
  pub daily-fresh : {b : ExpirationBucket Epoch Epoch} → daily cal origin n ≡ ok b → b.backups ≡ []
  unfolding daily
  daily-fresh h = ground arith

  daily_shape :
      {b : ExpirationBucket Epoch Epoch} (h : Epoch)
      → daily cal origin n ≡ ok b
      → cal.sub_days origin n ≡ some h
      → b ≡ record { extract = λ e. e; horizon = h; backups = [] }
  unfolding daily
  daily_shape h hb hh = ground arith

  pub daily-IsRetained :
      {b : ExpirationBucket Epoch Epoch}
      → daily cal origin n ≡ ok b
      → (es : List Epoch) (e h : Epoch) → cal.sub_days origin n ≡ some h
      → h ≼ e
      → IsRetained b es e
  unfolding within_horizon
  daily-IsRetained hb es e h hh le =
      rw (daily_shape h hb hh)
        (record { within = ground (arith, o.cmp_lt e h); first = λ x c k. rw k (≼_refl e) })

  pub weekly-fresh :
      {b : ExpirationBucket Epoch (ℤ × ℤ)} → weekly cal origin n ≡ ok b → b.backups ≡ []
  unfolding weekly
  weekly-fresh h = ground arith

  pub monthly-fresh :
      {b : ExpirationBucket Epoch (ℤ × ℕ)} → monthly cal origin n ≡ ok b → b.backups ≡ []
  unfolding monthly
  monthly-fresh h = ground arith

  pub yearly-fresh : {b : ExpirationBucket Epoch ℤ} → yearly cal origin n ≡ ok b → b.backups ≡ []
  unfolding yearly
  yearly-fresh h = ground arith
