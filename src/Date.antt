-- ===== src/Date.antt =====
-- Dates (source/core/Date.cpp) of times from the epoch, the start of 1904, on: seconds, years and days
-- are natural numbers, days of a month count from 1, and a conversion to Int32 is written by its 32
-- bits. Times before the epoch, fractions of a second and time zones are not modelled.
pub mod Years
pub mod Fields
pub mod Trip
use vireo_sdk.Common.{
  ℕ, zero, suc, ◌+◌, ◌-◌, ◌*◌, ◌/◌, ◌%◌, ◌^◌, Bool, ◌&&◌, ◌||◌, not, List, [], ◌∷◌, ◌==◌,
  if◌then◌else◌, ltb, leb, take,
}
use vireo_sdk.Common.Int.{ℤ, pos, negsuc}

abbrev pub base_year : ℕ
base_year = 1903

abbrev pub base_week : ℕ
base_week = 4

abbrev pub seconds_in_year : ℕ
seconds_in_year = 31536000

abbrev pub seconds_in_leap_year : ℕ
seconds_in_leap_year = 31622400

abbrev pub seconds_per_minute : ℕ
seconds_per_minute = 60

abbrev pub seconds_per_hour : ℕ
seconds_per_hour = 3600

abbrev pub seconds_per_day : ℕ
seconds_per_day = 86400

abbrev pub days_in_week : ℕ
days_in_week = 7

leap_years_to : ℕ → ℕ
leap_years_to year = year / 4 - year / 100 + year / 400

-- The leap years after `base`, up to `year`.
unfoldable pub number_of_leap_years : ℕ → ℕ → ℕ
unfolding leap_years_to
number_of_leap_years year base = leap_years_to year - leap_years_to base

unfoldable pub is_leap_year : ℕ → Bool
is_leap_year year = (year % 4 == 0) && (not (year % 100 == 0) || (year % 400 == 0))

-- The seconds of the `i` years that follow the base year, `totalSeconds` in the source.
unfoldable pub total_seconds : ℕ → ℕ
unfolding number_of_leap_years
total_seconds i =
    let leap = number_of_leap_years (base_year + i) base_year in
    leap * seconds_in_leap_year + (i - leap) * seconds_in_year

-- The loop of getYear, for `n` values from `i` on: the year and the seconds into it. Where no value
-- fits, the year stays the base year and the seconds are as they were, `before`.
unfoldable pub search_year : ℕ → ℕ → ℕ → ℕ → ℕ × ℕ
unfolding total_seconds
search_year before s i zero = (base_year, before)
search_year before s i (suc n) =
    let rest = search_year before s (suc i) n in
    if leb (total_seconds i) s && ltb s (total_seconds (suc i))
    then (base_year + suc i, (s - total_seconds i) % 2 ^ 32)
    else rest

-- The year, the seconds into it, and the day of the week of its first day.
pub record Year : Type 0 where
  pub year : ℕ
  pub seconds : ℕ
  pub week_day : ℕ

-- getYear: the days of the week before a year count from the start of the base year, which is as long
-- as `year - base_year` years are with their leap days up to the year before.
unfoldable pub get_year : ℕ → ℕ → Year
unfolding search_year number_of_leap_years
get_year before s =
    let year_max = s / seconds_in_year % 2 ^ 32 in
    let year_min = s / seconds_in_leap_year % 2 ^ 32 in
    let r = search_year before s year_min (suc year_max - year_min) in
    let leap = number_of_leap_years (r.0 - 1) base_year in
    let total = leap * seconds_in_leap_year + (r.0 - base_year - leap) * seconds_in_year in
    record {
      year = r.0;
      seconds = r.1;
      week_day = (total / seconds_per_day + base_week) % days_in_week;
    }

-- `dayOfMonth`, with the change for leap years.
unfoldable pub day_of_month : ℕ → List ℕ
unfolding is_leap_year
day_of_month year =
    31
    ∷ (if is_leap_year year then 29 else 28)
    ∷ 31
    ∷ 30
    ∷ 31
    ∷ 30
    ∷ 31
    ∷ 31
    ∷ 30
    ∷ 31
    ∷ 30
    ∷ 31
    ∷ []

-- The loop of getDate over the months, from month `i` that starts after `start` seconds: the month and
-- the seconds into it. Where the year is over before, the month stays -2.
unfoldable pub search_month : ℕ → ℕ → ℕ → ℕ → List ℕ → ℤ × ℕ
search_month s seconds_of_month start i [] = (negsuc 1, seconds_of_month)
search_month s seconds_of_month start i (d ∷ ds) =
    let end = start + seconds_per_day * d in
    let rest = search_month s start end (suc i) ds in if ltb s end then (pos i, s - start) else rest

pub record Date : Type 0 where
  pub second : ℕ
  pub minute : ℕ
  pub hour : ℕ
  pub day : ℕ
  pub month : ℤ
  pub year : ℕ
  pub weekday : ℕ
  pub seconds_of_year : ℕ
  pub first_week_day : ℕ

-- getDate of the whole seconds of a timestamp.
unfoldable pub get_date : ℕ → Date
unfolding get_year search_month day_of_month
get_date s =
    let y = get_year 0 s in
    let m = search_month y.seconds 0 0 0 (day_of_month y.year) in
    let seconds_of_hour = m.1 % seconds_per_day in
    let seconds_of_minutes = seconds_of_hour % seconds_per_hour in
    record {
      second = seconds_of_minutes % seconds_per_minute;
      minute = seconds_of_minutes / seconds_per_minute;
      hour = seconds_of_hour / seconds_per_hour;
      day = m.1 / seconds_per_day + 1;
      month = m.0;
      year = y.year;
      weekday = (y.seconds / seconds_per_day + y.week_day) % days_in_week;
      seconds_of_year = y.seconds;
      first_week_day = y.week_day;
    }

unfoldable pub sum_days : List ℕ → ℕ
sum_days [] = 0
sum_days (d ∷ ds) = d * seconds_per_day + sum_days ds

-- The distance of neighbouring Doubles around a number, for one below 2^53 times 2^fuel.
unfoldable pub double_step : ℕ → ℕ → ℕ
double_step zero n = 1
double_step (suc fuel) n =
    let half = double_step fuel (n / 2) in if ltb n (2 ^ 53) then 1 else 2 * half

-- The conversion of a natural Int64 to a Double: to the nearest, and to the even one of two.
unfoldable pub to_double : ℕ → ℕ
unfolding double_step
to_double n =
    let u = double_step 10 n in
    let q = n / u in
    let r = n % u in if ltb (2 * r) u || ((2 * r == u) && (q % 2 == 0)) then q * u else (q + 1) * u

-- The sum of seconds in DateUTCToTimestamp.
unfoldable pub utc_seconds : ℕ → ℕ → ℕ → ℕ → ℕ → ℕ → ℕ
unfolding number_of_leap_years sum_days day_of_month
utc_seconds year month day hour minute second =
    let leap = number_of_leap_years (year - 1) base_year in
    leap * seconds_in_leap_year
    + (year - 1 - base_year - leap) * seconds_in_year
    + sum_days (take month (day_of_month year))
    + (day - 1) * seconds_per_day
    + (hour * seconds_per_hour + minute * seconds_per_minute + second)

-- DateUTCToTimestamp, without a fraction of a second, for a year after the base year and a month from
-- 0 to 12: the seconds of the timestamp, whose fraction is 0.
unfoldable pub date_utc_to_timestamp : ℕ → ℕ → ℕ → ℕ → ℕ → ℕ → ℕ
unfolding utc_seconds to_double
date_utc_to_timestamp year month day hour minute second =
    to_double (utc_seconds year month day hour minute second)
