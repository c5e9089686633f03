-- ===== src/Examples/Dates.antt =====
-- Tests and examples of the dates.
use vireo_sdk.Common.{ℕ, suc, ◌+◌, ◌<◌, ◌≤◌, ◌≡◌, refl, arith, some, get_elem?, ◌/◌, ◌%◌, ◌^◌}
use vireo_sdk.Common.Int.{pos}
use vireo_sdk.Date.{
  base_year, seconds_per_day, get_year, get_date, day_of_month, to_double, double_step,
  date_utc_to_timestamp, search_year, search_month, number_of_leap_years,
}
use vireo_sdk.Date.Years.{year_start, year_length, get_year_lem}
use vireo_sdk.Date.Fields.{get_date-IsDate}
use vireo_sdk.Date.Trip.{date_utc_to_timestamp-get_date}

-- 29 February 2016, a Monday, at 12:34:56.
abbrev leap_day : ℕ
leap_day = 3539594096

leap_day-date : get_date leap_day ≡ record {
  second = 56;
  minute = 34;
  hour = 12;
  day = 29;
  month = pos 1;
  year = 2016;
  weekday = 1;
  seconds_of_year = 5142896;
  first_week_day = 5;
}
unfolding get_date get_year search_year search_month day_of_month number_of_leap_years
leap_day-date = refl

-- Above 2^53 the seconds are rounded, to the even one of two neighbours.
rounded : (to_double (2 ^ 53 + 1) ≡ 2 ^ 53) × (to_double (2 ^ 54 + 6) ≡ 2 ^ 54 + 8)
unfolding to_double double_step
rounded = (refl, refl)

get_year_lem_example :
    let y = get_year 0 leap_day in
    (i : ℕ) × (y.year ≡ base_year + suc i)
    × (leap_day ≡ year_start i + y.seconds)
    × (y.seconds < year_length y.year)
    × (y.week_day ≡ (year_start i / seconds_per_day + 5) % 7)
get_year_lem_example = get_year_lem 0 leap_day (omega arith)

get_date-IsDate_example :
    let d = get_date leap_day in
    (m n : ℕ) × (d.month ≡ pos m)
    × (m < 12)
    × (get_elem? (day_of_month d.year) m ≡ some n)
    × (1 ≤ d.day)
    × (d.day ≤ n)
    × (d.hour < 24)
    × (d.minute < 60)
    × (d.second < 60)
    × (d.weekday ≡ (leap_day / seconds_per_day + 5) % 7)
get_date-IsDate_example = get_date-IsDate leap_day (omega arith)

date_utc_to_timestamp-get_date_example :
    let d = get_date leap_day in
    (m : ℕ) × (d.month ≡ pos m)
    × (date_utc_to_timestamp d.year m d.day d.hour d.minute d.second ≡ leap_day)
date_utc_to_timestamp-get_date_example = date_utc_to_timestamp-get_date leap_day (omega arith)
