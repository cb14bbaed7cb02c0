-- ===== src/Protocol/Clock/Date.antt =====
-- Python's naive `datetime`: its checks, and the weekday from the proleptic Gregorian ordinal.
use centralite_ha.Base.{
  ℕ, zero, suc, ◌+◌, ◌-◌, ◌*◌, ◌/◌, ◌%◌, ◌≤◌, ◌<◌, ℤ, pos, negsuc, Bool, ◌&&◌, ◌||◌, not, Option,
  none, some, ◌≡◌, refl, if◌then◌else◌, ◌==◌, ltb, within_zero, within_one,
}

pub record DateTime : Type 0 where
  pub year : ℕ
  pub month : ℕ
  pub day : ℕ
  pub hour : ℕ
  pub minute : ℕ
  pub second : ℕ
  pub microsecond : ℕ

abbrev pub is_leap : ℕ → Bool
is_leap year = year % 4 == 0 && (not (year % 100 == 0) || year % 400 == 0)

unfoldable pub days_in_month : ℕ → ℕ → ℕ
days_in_month year month =
    if month == 2
    then (if is_leap year then 29 else 28)
    else if month == 4 || (month == 6 || (month == 9 || month == 11))
    then 30
    else 31

pub record IsDateTime (dt : DateTime) : Type 0 where
  pub year_pos : 1 ≤ dt.year
  pub year_le : dt.year ≤ 9999
  pub month_pos : 1 ≤ dt.month
  pub month_le : dt.month ≤ 12
  pub day_pos : 1 ≤ dt.day
  pub day_le : dt.day ≤ days_in_month dt.year dt.month
  pub hour_lt : dt.hour < 24
  pub minute_lt : dt.minute < 60
  pub second_lt : dt.second < 60

-- m + z
abbrev pub add_nat : ℕ → ℤ → ℤ
add_nat m (pos n) = pos (m + n)
add_nat m (negsuc n) = if ltb n m then pos (m - n - 1) else negsuc (n - m)

-- A number that has passed its range check.
abbrev pub to_nat : ℤ → ℕ
to_nat (pos n) = n
to_nat (negsuc n) = 0

-- datetime(year, month, day, hour, minute, second), `none` for its ValueError
unfoldable pub make_datetime : ℤ → ℤ → ℤ → ℤ → ℤ → ℤ → Option DateTime
make_datetime year month day hour minute second =
    if within_one 9999 year
      && (within_one 12 month
          && (within_one (days_in_month (to_nat year) (to_nat month)) day
              && (within_zero 23 hour && (within_zero 59 minute && within_zero 59 second))))
    then some (record {
      year = to_nat year;
      month = to_nat month;
      day = to_nat day;
      hour = to_nat hour;
      minute = to_nat minute;
      second = to_nat second;
      microsecond = 0;
    })
    else none

days_before_month : ℕ → ℕ → ℕ
days_before_month year zero = 0
days_before_month year (suc zero) = 0
days_before_month year (suc (suc m)) = days_before_month year (suc m) + days_in_month year (suc m)

-- dt.toordinal()
unfoldable pub ordinal : DateTime → ℕ
unfolding days_before_month days_in_month
ordinal dt =
    let y = dt.year - 1 in
    y * 365 + y / 4 - y / 100 + y / 400 + days_before_month dt.year dt.month + dt.day

-- dt.weekday(): Monday is 0
unfoldable pub weekday : DateTime → ℕ
unfolding ordinal
weekday dt = (ordinal dt + 6) % 7

abbrev some_day : DateTime
some_day = record {
  year = 2026;
  month = 3;
  day = 1;
  hour = 7;
  minute = 5;
  second = 9;
  microsecond = 0;
}

-- 1 March 2026 is a Sunday.
weekday_test : weekday some_day ≡ 6
unfolding weekday
weekday_test = refl
