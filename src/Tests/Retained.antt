-- ===== src/Tests/Retained.antt =====
-- A retention policy of a day, a week, a month and a year at six dates.
use emporium.Prelude.{ℕ, ◌≡◌, ◌↔◌, refl, true, false, ok, List, [], ◌∷◌, filterb, arith}
use emporium.Std.Ord.{nat_ord, pair_ord, ◌≼◌}
use emporium.Std.Int.{ℤ, pos, int_ord, checked_sub_unsigned}
use emporium.Std.BTreeMap.{
  BTreeSet, contains, contains_key, insert, upsert, get, remove, values, keys, collect,
}
use emporium.Bookshelf.Expiration.{
  ExpirationBucket, ExpirationPolicy, expired, daily, weekly, monthly, yearly, policies,
  policy_expired, insert_all, weeks_since_year_start, remove_retained, remove_all, policy_insert,
  dyn_values, dyn_insert, bucket_insert, bucket_values, within_horizon, keep_earliest, min,
}
use emporium.Bookshelf.Expiration.Buckets.{fill, IsRetained, bucket_values_iff}
use emporium.Bookshelf.Expiration.Kept.{KeepsOne, survivors}
use emporium.Bookshelf.Expiration.Expired.{
  expired_iff, expired-survivors, expired_same, expired-KeepsOne, expired_recent,
}
use emporium.Tests.Data.{calendar}

abbrev short_policy : ExpirationPolicy
short_policy = record { days = 1; weeks = 1; months = 1; years = 1 }

abbrev dates : List ℕ
dates = 20180101 ∷ 20191215 ∷ 20200228 ∷ 20200229 ∷ 20200230 ∷ 20200301 ∷ []

abbrev by_day : ExpirationBucket ℕ ℕ
by_day = record { extract = λ epoch. epoch; horizon = 20200230; backups = [] }

abbrev by_week : ExpirationBucket ℕ (ℤ × ℤ)
by_week = record {
  extract =
      λ epoch. (calendar.year epoch, calendar.num_weeks_since epoch (calendar.year_start epoch).0);
  horizon = (pos 2020, pos 7);
  backups = [];
}

abbrev by_month : ExpirationBucket ℕ (ℤ × ℕ)
by_month = record {
  extract = λ epoch. (calendar.year epoch, calendar.month epoch);
  horizon = (pos 2020, 2);
  backups = [];
}

abbrev by_year : ExpirationBucket ℕ ℤ
by_year = record { extract = calendar.year; horizon = pos 2019; backups = [] }

opens_daily : daily calendar 20200301 1 ≡ ok by_day
unfolding daily
opens_daily = refl

opens_weekly : weekly calendar 20200301 1 ≡ ok by_week
unfolding weekly weeks_since_year_start
opens_weekly = refl

opens_monthly : monthly calendar 20200301 1 ≡ ok by_month
unfolding monthly
opens_monthly = refl

opens_yearly : yearly calendar 20200301 1 ≡ ok by_year
unfolding yearly checked_sub_unsigned
opens_yearly = refl

abbrev let_go : BTreeSet ℕ
let_go = (20180101, tt) ∷ (20200229, tt) ∷ []

lets_go : expired calendar short_policy 20200301 dates ≡ ok let_go
unfolding expired policies daily weekly monthly yearly policy_expired insert_all
    weeks_since_year_start remove_retained remove_all policy_insert dyn_values dyn_insert
    bucket_insert bucket_values within_horizon keep_earliest min insert upsert remove values keys
    collect checked_sub_unsigned
lets_go = refl

bucket_values_iff_example :
    (contains_key 20200228 (bucket_values (fill by_week dates)) ≡ true)
    ↔ IsRetained by_week dates 20200228
unfolding contains
bucket_values_iff_example = bucket_values_iff by_week dates 20200228 refl refl

expired_iff_example :
    (s : BTreeSet ℕ) × (expired calendar short_policy 20200301 dates ≡ ok s)
    × ((e : ℕ)
        → (contains_key e s ≡ true) ↔ (
            (contains e dates ≡ true)
            × ((¬ IsRetained by_day dates e)
                × (¬ IsRetained by_week dates e)
                × (¬ IsRetained by_month dates e)
                × (¬ IsRetained by_year dates e))))
expired_iff_example =
    expired_iff calendar short_policy 20200301 opens_daily opens_weekly opens_monthly opens_yearly
      dates

abbrev no_dates : BTreeSet ℕ
no_dates = []

lets_go_no_more : expired calendar short_policy 20200301 (survivors let_go dates) ≡ ok no_dates
unfolding expired policies daily weekly monthly yearly policy_expired insert_all
    weeks_since_year_start remove_retained remove_all policy_insert dyn_values dyn_insert
    bucket_insert bucket_values within_horizon keep_earliest min insert upsert remove values keys
    collect checked_sub_unsigned survivors filterb contains_key get
lets_go_no_more = refl

expired-survivors_example : contains_key 20200228 no_dates ≡ false
expired-survivors_example =
    expired-survivors calendar short_policy 20200301 opens_daily opens_weekly opens_monthly
      opens_yearly dates lets_go lets_go_no_more 20200228

abbrev reversed_dates : List ℕ
reversed_dates = 20200301 ∷ 20200230 ∷ 20200229 ∷ 20200228 ∷ 20191215 ∷ 20180101 ∷ []

lets_go_reversed : expired calendar short_policy 20200301 reversed_dates ≡ ok let_go
unfolding expired policies daily weekly monthly yearly policy_expired insert_all
    weeks_since_year_start remove_retained remove_all policy_insert dyn_values dyn_insert
    bucket_insert bucket_values within_horizon keep_earliest min insert upsert remove values keys
    collect checked_sub_unsigned
lets_go_reversed = refl

same_dates : (x : ℕ) → contains x dates ≡ contains x reversed_dates
unfolding contains
same_dates x = ground arith

expired_same_example : (contains_key 20200229 let_go ≡ true) ↔ (contains_key 20200229 let_go ≡ true)
expired_same_example =
    expired_same calendar short_policy 20200301 opens_daily opens_weekly opens_monthly opens_yearly
      dates reversed_dates same_dates lets_go lets_go_reversed 20200229

expired-KeepsOne_example :
    KeepsOne by_day dates let_go
    × KeepsOne by_week dates let_go
    × KeepsOne by_month dates let_go
    × KeepsOne by_year dates let_go
expired-KeepsOne_example =
    expired-KeepsOne calendar short_policy 20200301 opens_daily opens_weekly opens_monthly
      opens_yearly dates lets_go

abbrev day_horizon : ℕ
day_horizon = 20200230

abbrev last_day : ℕ
last_day = 20200301

day_before : day_horizon ≼ last_day
day_before = ground arith

expired_recent_example : contains_key 20200301 let_go ≡ false
expired_recent_example =
    expired_recent calendar short_policy 20200301 opens_daily opens_weekly opens_monthly
      opens_yearly dates 20200301 20200230 lets_go refl day_before
