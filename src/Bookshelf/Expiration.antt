-- ===== src/Bookshelf/Expiration.antt =====
-- bookshelf/src/expiration.rs: which of a set of dated backups a retention policy lets go.
pub mod Earliest
pub mod Buckets
pub mod Retention
pub mod Kept
pub mod Expired
use emporium.Prelude.{
  ℕ, ◌*◌, Bool, true, false, Ordering, if◌then◌else◌, Option, none, some, List, [], ◌∷◌, map,
  Result, ok, err, ok_or, ◌>>=◌,
}
use emporium.Chrono.{Calendar}
use emporium.Std.Ord.{Ord, pair_ord, nat_ord}
use emporium.Std.Int.{ℤ, checked_sub_unsigned, int_ord}
use emporium.Std.BTreeMap.{BTreeMap, BTreeSet, upsert, insert, remove, values, keys, collect}

-- What stops the program: a subtraction of dates out of range, an `unwrap` or an `expect`.
pub data Panic : Type 0 where
  date_overflow no_such_month invalid_year : Panic

pub record ExpirationBucket (Epoch D : Type 0) : Type 0 where
  pub extract : Epoch → D
  pub horizon : D
  pub backups : BTreeMap D Epoch

module _ {Epoch : Type 0} ⦃o : Ord Epoch⦄ where
  -- `cmp::min`
  unfoldable pub min : Epoch → Epoch → Epoch
  min a b = elim (o.cmp a b) [ Ordering.gt ↦ b | _ ↦ a ]

  -- `or_insert(epoch)`, then the minimum with what is there
  unfoldable pub keep_earliest : Epoch → Option Epoch → Epoch
  unfolding min
  keep_earliest epoch none = min epoch epoch
  keep_earliest epoch (some current) = min epoch current

module _ {Epoch D : Type 0} ⦃o : Ord Epoch⦄ ⦃d : Ord D⦄ where
  -- `bucket >= self.horizon`
  unfoldable pub within_horizon : ExpirationBucket Epoch D → Epoch → Bool
  within_horizon b epoch = elim (d.cmp (b.extract epoch) b.horizon) [
    | Ordering.lt ↦ false
    | _ ↦ true
  ]

  -- `Bucket::insert`
  unfoldable pub bucket_insert : ExpirationBucket Epoch D → Epoch → ExpirationBucket Epoch D
  unfolding within_horizon keep_earliest
  bucket_insert b epoch =
      if within_horizon b epoch
      then record b { backups = upsert (b.extract epoch) (keep_earliest epoch) b.backups }
      else b

  -- `Bucket::values`
  unfoldable pub bucket_values : ExpirationBucket Epoch D → BTreeSet Epoch
  bucket_values b = collect (values b.backups)

-- `Box<dyn Bucket>`
pub record DynBucket (Epoch : Type 0) : Type 1 where
  pub Key : Type 0
  pub key_ord : Ord Key
  pub bucket : ExpirationBucket Epoch Key

pub record Policy (Epoch : Type 0) : Type 1 where
  pub policies : List (DynBucket Epoch)
  pub epochs : BTreeSet Epoch

module _ {Epoch : Type 0} ⦃o : Ord Epoch⦄ where
  unfoldable pub dyn_insert : Epoch → DynBucket Epoch → DynBucket Epoch
  dyn_insert epoch b = record b { bucket = bucket_insert ⦃d = b.key_ord⦄ b.bucket epoch }

  unfoldable pub dyn_values : DynBucket Epoch → BTreeSet Epoch
  dyn_values b = bucket_values ⦃d = b.key_ord⦄ b.bucket

  -- `Policy::insert`
  unfoldable pub policy_insert : Policy Epoch → Epoch → Policy Epoch
  policy_insert p epoch = record {
    policies = map (dyn_insert epoch) p.policies;
    epochs = insert epoch tt p.epochs;
  }

  -- `for retained in &policy.values() { expired.remove(retained); }`
  unfoldable pub remove_all : List Epoch → BTreeSet Epoch → BTreeSet Epoch
  remove_all [] expired = expired
  remove_all (retained ∷ rest) expired = remove_all rest (remove retained expired)

  unfoldable pub remove_retained : List (DynBucket Epoch) → BTreeSet Epoch → BTreeSet Epoch
  unfolding remove_all
  remove_retained [] expired = expired
  remove_retained (b ∷ bs) expired = remove_retained bs (remove_all (keys (dyn_values b)) expired)

  -- `Policy::expired`
  unfoldable pub policy_expired : Policy Epoch → BTreeSet Epoch
  unfolding remove_retained
  policy_expired p = remove_retained p.policies p.epochs

  -- the loop of `ExpirationPolicy::expired`
  unfoldable pub insert_all : Policy Epoch → List Epoch → Policy Epoch
  insert_all p [] = p
  insert_all p (epoch ∷ rest) = insert_all (policy_insert p epoch) rest

-- `ExpirationPolicy`, with its default
pub record ExpirationPolicy : Type 0 where
  pub days : ℕ
  pub weeks : ℕ
  pub months : ℕ
  pub years : ℕ

abbrev pub default_policy : ExpirationPolicy
default_policy = record { days = 7; weeks = 8; months = 12; years = 10 }

module _ {Epoch : Type 0} ⦃o : Ord Epoch⦄ (cal : Calendar Epoch) where
  unfoldable pub weeks_since_year_start : Epoch → ℤ
  weeks_since_year_start date = cal.num_weeks_since date (cal.year_start date).0

  unfoldable pub daily : Epoch → ℕ → Result (ExpirationBucket Epoch Epoch) Panic
  daily origin days = do
    horizon ← ok_or (cal.sub_days origin days) date_overflow
    ok (record { extract = λ epoch. epoch; horizon = horizon; backups = [] })

  abbrev week_of : Epoch → ℤ × ℤ
  week_of epoch = (cal.year epoch, weeks_since_year_start epoch)

  unfoldable pub weekly : Epoch → ℕ → Result (ExpirationBucket Epoch (ℤ × ℤ)) Panic
  weekly origin weeks = do
    horizon ← ok_or (cal.sub_days origin (7 * weeks)) date_overflow
    ok (record { extract = week_of; horizon = week_of horizon; backups = [] })

  abbrev month_of : Epoch → ℤ × ℕ
  month_of epoch = (cal.year epoch, cal.month epoch)

  unfoldable pub monthly : Epoch → ℕ → Result (ExpirationBucket Epoch (ℤ × ℕ)) Panic
  monthly origin months = do
    horizon ← ok_or (cal.checked_sub_months origin months) no_such_month
    ok (record { extract = month_of; horizon = month_of horizon; backups = [] })

  unfoldable pub yearly : Epoch → ℕ → Result (ExpirationBucket Epoch ℤ) Panic
  yearly origin years = do
    horizon ← ok_or (checked_sub_unsigned (cal.year origin) years) invalid_year
    ok (record { extract = cal.year; horizon = horizon; backups = [] })

  -- `ExpirationPolicy::policies`
  unfoldable pub policies : ExpirationPolicy → Epoch → Result (Policy Epoch) Panic
  policies p origin = do
    by_day ← daily origin p.days
    by_week ← weekly origin p.weeks
    by_month ← monthly origin p.months
    by_year ← yearly origin p.years
    ok (record {
      policies =
          record { Key = Epoch; key_ord = o; bucket = by_day }
          ∷ record { Key = ℤ × ℤ; key_ord = pair_ord; bucket = by_week }
          ∷ record { Key = ℤ × ℕ; key_ord = pair_ord; bucket = by_month }
          ∷ record { Key = ℤ; key_ord = int_ord; bucket = by_year }
          ∷ [];
      epochs = [];
    })

  -- `ExpirationPolicy::expired`
  unfoldable pub expired : ExpirationPolicy → Epoch → List Epoch → Result (BTreeSet Epoch) Panic
  expired p origin iterator = do
    policy ← policies p origin
    ok (policy_expired (insert_all policy iterator))
