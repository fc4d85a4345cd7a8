-- ===== src/FinanceCore/Jalali.antt =====
-- financecore/service.go: `jalaliToGregorian`. The year that it is given is never negative, so its
-- integers are natural numbers; each subtraction stays above zero.
pub mod Years
pub mod Months
use textile_erp_cloud.Base.{
  ℕ, ◌+◌, ◌-◌, ◌*◌, ◌/◌, ◌%◌, ◌≡◌, refl, Bool, not, ◌&&◌, ◌||◌, List, [], ◌∷◌, ltb, leb, ◌==◌,
  if◌then◌else◌,
}

-- The number of days from 0000-01-01 to the Jalali date.
unfoldable pub jalali_days : ℕ → ℕ → ℕ → ℕ
jalali_days jy jm jd =
    let y = jy + 1595 in
    let start = 365 * y + (y / 33) * 8 + (y % 33 + 3) / 4 + jd - 355668 in
    if ltb jm 7 then start + (jm - 1) * 31 else start + ((jm - 7) * 30 + 186)

-- `days > 36524`: whole centuries after the first one of 400 years.
unfoldable pub century_step : ℕ → ℕ → ℕ × ℕ
century_step gy days =
    if ltb 36524 days
    then (
      gy + 100 * ((days - 1) / 36524),
      (if leb 365 ((days - 1) % 36524) then (days - 1) % 36524 + 1 else (days - 1) % 36524),
    )
    else (gy, days)

-- `days > 365`: whole years after the first one of four.
unfoldable pub year_step : ℕ → ℕ → ℕ × ℕ
year_step gy days = if ltb 365 days then (gy + (days - 1) / 365, (days - 1) % 365) else (gy, days)

-- The year and the days since its first of January.
unfoldable pub split_year : ℕ → ℕ × ℕ
unfolding century_step year_step
split_year days =
    let (gy, rest) = century_step (400 * (days / 146097)) (days % 146097) in
    year_step (gy + 4 * (rest / 1461)) (rest % 1461)

unfoldable pub is_leap : ℕ → Bool
is_leap gy = (gy % 4 == 0 && not (gy % 100 == 0)) || gy % 400 == 0

unfoldable pub month_days : ℕ → List ℕ
unfolding is_leap
month_days gy =
    31 ∷ (if is_leap gy then 29 else 28) ∷ 31 ∷ 30 ∷ 31 ∷ 30 ∷ 31 ∷ 31 ∷ 30 ∷ 31 ∷ 30 ∷ 31 ∷ []

-- `for gm <= 12 && gd > monthDays[gm]`, over the months that are left.
unfoldable pub month_loop : List ℕ → ℕ → ℕ → ℕ × ℕ
month_loop [] gm gd = (gm, gd)
month_loop (n ∷ ns) gm gd =
    let rest = month_loop ns (gm + 1) (gd - n) in if ltb n gd then rest else (gm, gd)

unfoldable pub jalali_to_gregorian : ℕ → ℕ → ℕ → ℕ × ℕ × ℕ
unfolding jalali_days split_year month_days month_loop
jalali_to_gregorian jy jm jd =
    let (gy, day) = split_year (jalali_days jy jm jd) in
    let (gm, gd) = month_loop (month_days gy) 1 (day + 1) in (gy, gm, gd)

new_year : jalali_to_gregorian 1403 1 1 ≡ (2024, 3, 20)
unfolding jalali_to_gregorian
new_year = refl

leap_day : jalali_to_gregorian 1403 12 30 ≡ (2025, 3, 20)
unfolding jalali_to_gregorian
leap_day = refl
