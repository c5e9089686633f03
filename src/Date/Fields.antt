-- ===== src/Date/Fields.antt =====
-- The fields of getDate.
use vireo_sdk.Common.{
  ℕ, suc, ◌+◌, ◌*◌, ◌/◌, ◌%◌, ◌^◌, ◌≤◌, ◌<◌, ◌≡◌, arith, refl, ltb, some, List, [], ◌∷◌, take,
  length, get_elem?, Bool-cases, inl, inr, ap, ◌∙◌, true,
}
use vireo_sdk.Common.Int.{ℤ, pos}
use vireo_sdk.Date.{
  base_year, seconds_per_day, day_of_month, search_month, sum_days, get_date, get_year,
}
use vireo_sdk.Date.Years.{year_length, year_start, get_year_lem, year_start-days}

-- A month that the loop finds, its days, and the seconds into it.
unfoldable pub FindsMonth : ℕ → ℕ → ℕ → List ℕ → ℤ × ℕ → Type 0
FindsMonth s start i ds r =
    (k d : ℕ) × (r.0 ≡ pos (i + k))
    × (k < length ds)
    × (get_elem? ds k ≡ some d)
    × (s ≡ start + sum_days (take k ds) + r.1)
    × (r.1 < d * seconds_per_day)

below : {s t : ℕ} → ltb s t ≡ true → s < t
below e = ground arith

search_month-Finds :
    (s before start i : ℕ) (ds : List ℕ)
    → start ≤ s
    → s < start + sum_days ds
    → FindsMonth s start i ds (search_month s before start i ds)
unfolding FindsMonth search_month sum_days
search_month-Finds s before start i [] l h = absurd (omega arith)
search_month-Finds s before start i (d ∷ ds) l h =
    elim (Bool-cases (ltb s (start + seconds_per_day * d))) [
      | inl e ↦
          rw (search_month, e)
            (
              0,
              d,
              ap pos (omega arith),
              omega arith,
              refl,
              omega (arith, l),
              omega (arith, l, below e),
            )
      | inr e ↦
          let (k, n, month, k<, day, sum, rest) =
            search_month-Finds s start (start + seconds_per_day * d) (suc i) ds (ground arith)
              (omega arith) in
          rw (search_month, e)
            (suc k, n, month ∙ ap pos (omega arith), omega arith, day, omega (arith, sum), rest)
    ]

days-year : (y : ℕ) → sum_days (day_of_month y) ≡ year_length y
unfolding sum_days day_of_month year_length
days-year y = ground arith

length-days : (y : ℕ) → length (day_of_month y) ≡ 12
unfolding day_of_month
length-days y = refl

-- The year and the month of a time, and what is left of it in the month.
pub get_date-month :
    (s : ℕ)
    → s < 2 ^ 55
    → let y = get_year 0 s in
      (i : ℕ) × (y.year ≡ base_year + suc i)
      × (s ≡ year_start i + y.seconds)
      × FindsMonth y.seconds 0 0
          (day_of_month y.year)
          (search_month y.seconds 0 0 0 (day_of_month y.year))
get_date-month s h =
    let (i, year, sum, short, _) = get_year_lem 0 s h in
    let y = get_year 0 s in
    (
      i,
      year,
      sum,
      search_month-Finds y.seconds 0 0 0 (day_of_month y.year) (omega arith)
          (omega (arith, days-year y.year, short)),
    )

weekday-get_date : (s : ℕ) → s < 2 ^ 55 → (get_date s).weekday ≡ (s / seconds_per_day + 5) % 7
unfolding get_date
weekday-get_date s h =
    let (i, _, sum, _, first) = get_year_lem 0 s h in
    let whole = year_start-days i in rw (first) (omega (arith, sum, whole))

-- Of a time from 0 to below 2^55 seconds, getDate returns a month from 0 to 11, a day from 1
-- to the number of days that the month has in the year, an hour below 24, a minute and a
-- second below 60, and the day of the week that lies so many days after the epoch, a Friday,
-- as the time has whole days, with 0 for a Sunday.
pub get_date-IsDate :
    (s : ℕ)
    → s < 2 ^ 55
    → let d = get_date s in
      (m n : ℕ) × (d.month ≡ pos m)
      × (m < 12)
      × (get_elem? (day_of_month d.year) m ≡ some n)
      × (1 ≤ d.day)
      × (d.day ≤ n)
      × (d.hour < 24)
      × (d.minute < 60)
      × (d.second < 60)
      × (d.weekday ≡ (s / seconds_per_day + 5) % 7)
unfolding get_date FindsMonth
get_date-IsDate s h =
    let (_, _, _, found) = get_date-month s h in
    let (k, n, month, small, days, _, rest) = found in
    let len = length-days (get_year 0 s).year in
    (
      k,
      n,
      month ∙ ap pos (omega arith),
      omega (arith, small, len),
      days,
      omega arith,
      omega (arith, rest),
      omega arith,
      omega arith,
      omega arith,
      weekday-get_date s h,
    )
