-- ===== src/Date/Trip.antt =====
-- From a time to its date and back.
use vireo_sdk.Common.{ℕ, suc, ◌+◌, ◌-◌, ◌*◌, ◌^◌, ◌<◌, ◌≡◌, arith, ap, ◌∙◌, true, ltb}
use vireo_sdk.Common.Int.{pos}
use vireo_sdk.Date.{
  base_year, seconds_in_year, seconds_in_leap_year, number_of_leap_years, total_seconds, get_date,
  get_year, to_double, double_step, utc_seconds, date_utc_to_timestamp,
}
use vireo_sdk.Date.Years.{year_start, total-eq}
use vireo_sdk.Date.Fields.{get_date-month, FindsMonth}

start-of-year :
    (y i : ℕ)
    → y ≡ base_year + suc i
    → let leap = number_of_leap_years (y - 1) base_year in
      leap * seconds_in_leap_year + (y - 1 - base_year - leap) * seconds_in_year ≡ year_start i
unfolding total_seconds
start-of-year y i e =
    let before : y - 1 ≡ base_year + i = omega arith in
    let years : base_year + i - base_year ≡ i = omega arith in rw (before, years) (total-eq i)

-- A Double holds the numbers below 2^53.
to_double-small : (n : ℕ) → n < 2 ^ 53 → to_double n ≡ n
unfolding to_double double_step
to_double-small n h = let near : ltb n (2 ^ 53) ≡ true = ground arith in rw near (ground arith)

-- The date that getDate returns of a time from 0 to below 2^53 seconds has a month that is a
-- number from 0 on, and DateUTCToTimestamp of its fields, with its conversion to a Double, is
-- the time.
pub date_utc_to_timestamp-get_date :
    (s : ℕ)
    → s < 2 ^ 53
    → let d = get_date s in
      (m : ℕ) × (d.month ≡ pos m)
      × (date_utc_to_timestamp d.year m d.day d.hour d.minute d.second ≡ s)
unfolding get_date FindsMonth date_utc_to_timestamp utc_seconds
date_utc_to_timestamp-get_date s h =
    let (i, year, sum, found) = get_date-month s (omega arith) in
    let (k, _, month, _, _, rest, _) = found in
    let start = start-of-year (get_year 0 s).year i year in
    let d = get_date s in
    let total : utc_seconds d.year k d.day d.hour d.minute d.second ≡ s =
      rw (start) (omega (arith, sum, rest)) in
    (k, month ∙ ap pos (omega arith), ap to_double total ∙ to_double-small s h)
