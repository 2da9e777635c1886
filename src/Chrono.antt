-- ===== src/Chrono.antt =====
-- The calendar: what the crates call of `chrono`, which is not part of this repository. `Date` is
-- `NaiveDate`, ordered by its `Ord` instance. Operations that panic or fail out of range return an
-- `Option`.
use emporium.Prelude.{ℕ, ◌≡◌, Option, some, String}
use emporium.Std.Int.{ℤ}

pub record Calendar (Date : Type 0) : Type 0 where
  pub year : Date → ℤ
  pub month : Date → ℕ
  pub from_ymd_opt : ℤ → ℕ → ℕ → Option Date
  -- `(a - b).num_weeks()`
  pub num_weeks_since : Date → Date → ℤ
  -- `date - Duration::days(n)`
  pub sub_days : Date → ℕ → Option Date
  pub checked_sub_months : Date → ℕ → Option Date
  -- `NaiveDate::parse_from_str(s, "%Y%m%d")`
  pub parse_from_str : String → Option Date
  -- `date.format("%Y%m%d")`
  pub format : Date → String
  -- the year of a date has a first of January
  pub year_start : (d : Date) → (s : Date) × (from_ymd_opt (year d) 1 1 ≡ some s)
