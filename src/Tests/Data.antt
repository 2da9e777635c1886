-- ===== src/Tests/Data.antt =====
-- The data of the tests: a calendar of twelve months of thirty days, in which a date is the number
-- that its text reads.
use emporium.Prelude.{
  ℕ, ◌+◌, ◌-◌, ◌*◌, ◌/◌, ◌%◌, refl, String, Option, none, some, leb, ltb, ◌&&◌, nat_beq,
  if◌then◌else◌,
}
use emporium.Chrono.{Calendar}
use emporium.Std.Int.{ℤ, pos, negsuc}
use emporium.Std.Num.{parse_usize}

-- the number of a date's day, and the date of a day
abbrev day_of : ℕ → ℕ
day_of date = date / 10000 * 360 + (date / 100 % 100 - 1) * 30 + (date % 100 - 1)

abbrev date_of : ℕ → ℕ
date_of day = day / 360 * 10000 + (day % 360 / 30 + 1) * 100 + (day % 30 + 1)

abbrev date_from : ℤ → ℕ → ℕ → Option ℕ
date_from (pos y) m d = some (y * 10000 + m * 100 + d)
date_from (negsuc y) m d = none

-- the texts of eight digits
abbrev eight_digits : Option ℕ → Option ℕ
eight_digits none = none
eight_digits (some n) = if leb 10000000 n && ltb n 100000000 then some n else none

abbrev text_of : ℕ → String
text_of date =
    if nat_beq date 20200101
    then "20200101"
    else if nat_beq date 20200102
    then "20200102"
    else "19700101"

abbrev pub calendar : Calendar ℕ
calendar = record {
  year = λ date. pos (date / 10000);
  month = λ date. date / 100 % 100;
  from_ymd_opt = date_from;
  num_weeks_since = λ a b. pos ((day_of a - day_of b) / 7);
  sub_days = λ date days. some (date_of (day_of date - days));
  checked_sub_months = λ date months. some (date_of (day_of date - 30 * months));
  parse_from_str = λ s. eight_digits (parse_usize s);
  format = text_of;
  year_start = λ date. (date / 10000 * 10000 + 1 * 100 + 1, refl);
}
