-- ===== src/Date/Years.antt =====
-- The years of getYear.
use vireo_sdk.Common.{
  ℕ, zero, suc, ◌+◌, ◌-◌, ◌*◌, ◌/◌, ◌%◌, ◌^◌, ◌≤◌, ◌<◌, ◌≡◌, true, false, if◌then◌else◌, arith,
  refl, ltb, leb, Bool-cases, inl, inr, ap, ◌&&◌, ◌∙◌,
}
use vireo_sdk.Date.{
  base_year, seconds_in_year, seconds_in_leap_year, seconds_per_day, number_of_leap_years,
  leap_years_to, is_leap_year, total_seconds, search_year, get_year,
}

leaps-suc :
    (y : ℕ) → leap_years_to (suc y) ≡ leap_years_to y + (if is_leap_year (suc y) then 1 else 0)
unfolding leap_years_to is_leap_year
leaps-suc y = ground arith

leaps-le : (i : ℕ) → number_of_leap_years (base_year + i) base_year ≤ i
unfolding number_of_leap_years leap_years_to
leaps-le i = omega arith

-- The seconds of a year.
unfoldable pub year_length : ℕ → ℕ
year_length year = if is_leap_year year then seconds_in_leap_year else seconds_in_year

leaps-next :
    (i : ℕ)
    → number_of_leap_years (base_year + suc i) base_year
      ≡ number_of_leap_years (base_year + i) base_year
        + (if is_leap_year (base_year + suc i) then 1 else 0)
unfolding number_of_leap_years leap_years_to
leaps-next i = let h = leaps-suc (base_year + i) in ground arith

total-suc : (i : ℕ) → total_seconds (suc i) ≡ total_seconds i + year_length (base_year + suc i)
unfolding total_seconds year_length
total-suc i = let le = leaps-le i in let next = leaps-next i in ground arith

total-zero : total_seconds 0 ≡ 0
unfolding total_seconds number_of_leap_years
total-zero = refl

total-low : (i : ℕ) → i * seconds_in_year ≤ total_seconds i
unfolding total_seconds
total-low i = let le = leaps-le i in omega arith

total-high : (i : ℕ) → total_seconds i ≤ i * seconds_in_leap_year
unfolding total_seconds
total-high i = let le = leaps-le i in omega arith

-- The seconds from the epoch to the start of the `i`-th year after 1904.
unfoldable pub year_start : ℕ → ℕ
year_start zero = 0
year_start (suc i) = year_start i + year_length (base_year + suc i)

pub total-eq : (i : ℕ) → total_seconds i ≡ year_start i
unfolding year_start
total-eq zero = total-zero
total-eq (suc i) = total-suc i ∙ ap (◌+ year_length (base_year + suc i)) (total-eq i)

pub year_start-days : (i : ℕ) → year_start i % seconds_per_day ≡ 0
unfolding year_start year_length
year_start-days zero = refl
year_start-days (suc i) = let ih = year_start-days i in ground arith

year_length-le : (y : ℕ) → year_length y ≤ seconds_in_leap_year
unfolding year_length
year_length-le y = ground arith

-- A year that the loop finds: its seconds and what they are counted from.
Finds : ℕ → ℕ × ℕ → Type 0
Finds s r =
    (i : ℕ) × (r.0 ≡ base_year + suc i)
    × (total_seconds i ≤ s)
    × (s < total_seconds (suc i))
    × (r.1 ≡ s - total_seconds i)

moved : (i n : ℕ) → suc i + n ≡ i + suc n
moved i n = omega arith

below : {s t : ℕ} → ltb s t ≡ true → s < t
below e = ground arith

search_year-Finds :
    (before s n i : ℕ)
    → total_seconds i ≤ s
    → s < total_seconds (i + n)
    → Finds s (search_year before s i n)
unfolding search_year Finds
search_year-Finds before s zero i l h = absurd (omega (arith, l, h))
search_year-Finds before s (suc n) i l h = elim (Bool-cases (ltb s (total_seconds (suc i)))) [
  | inl e ↦
      let found : leb (total_seconds i) s && ltb s (total_seconds (suc i)) ≡ true = ground arith in
      let next = total-suc i in
      let short = year_length-le (base_year + suc i) in
      rw (search_year, found) (i, refl, l, ground arith, omega (arith, next, short, l, below e))
  | inr e ↦
      let lost : leb (total_seconds i) s && ltb s (total_seconds (suc i)) ≡ false = ground arith in
      rw (search_year, lost)
        (search_year-Finds before s n (suc i) (ground arith) (rw (moved i n) h))
]

year_max : (s i : ℕ) → total_seconds i ≤ s → i ≤ s / seconds_in_year
year_max s i h = let low = total-low i in omega arith

first_day :
    (y x : ℕ)
    → y ≡ base_year + suc x
    → let leap = number_of_leap_years (y - 1) base_year in
      ((leap * seconds_in_leap_year + (y - base_year - leap) * seconds_in_year) / seconds_per_day
          + 4)
        % 7
      ≡ (total_seconds x / seconds_per_day + 5) % 7
unfolding total_seconds
first_day y x e =
    let le = leaps-le x in
    let before : y - 1 ≡ base_year + x = omega arith in rw (before) (omega arith)

search-Finds :
    (before s : ℕ)
    → s < 2 ^ 55
    → let hi = s / seconds_in_year % 2 ^ 32 in
      let lo = s / seconds_in_leap_year % 2 ^ 32 in Finds s (search_year before s lo (suc hi - lo))
search-Finds before s h =
    let lo = s / seconds_in_leap_year % 2 ^ 32 in
    let hi = s / seconds_in_year % 2 ^ 32 in
    let high = total-high lo in
    let low = total-low (suc hi) in
    let order : lo + (suc hi - lo) ≡ suc hi = omega arith in
    search_year-Finds before s (suc hi - lo) lo (omega arith) (rw (order) (omega arith))

-- Of a time from 0 to below 2^55 seconds, getYear returns a year after 1903 and the seconds
-- that have passed since its start, fewer than the year has; the start is the lengths of the
-- years since the epoch added up, leap years by the rule of isLeapYear. The day of the week of
-- the year's first day is counted from the epoch, a Friday, with 0 for a Sunday.
pub get_year_lem :
    (before s : ℕ)
    → s < 2 ^ 55
    → let y = get_year before s in
      (i : ℕ) × (y.year ≡ base_year + suc i)
      × (s ≡ year_start i + y.seconds)
      × (y.seconds < year_length y.year)
      × (y.week_day ≡ (year_start i / seconds_per_day + 5) % 7)
unfolding get_year Finds
get_year_lem before s h =
    let (i, year, l, u, rest) = search-Finds before s h in
    let start = total-eq i in
    let next = total-suc i in
    (
      i,
      year,
      omega (arith, l, rest, start),
      rw (year) (omega (arith, l, u, rest, next)),
      first_day _ i year ∙ ap (λ t. (t / seconds_per_day + 5) % 7) start,
    )
