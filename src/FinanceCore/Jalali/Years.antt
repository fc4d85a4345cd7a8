-- ===== src/FinanceCore/Jalali/Years.antt =====
-- `jalaliToGregorian`: the year and the day of the year that a count of days stands for.
use textile_erp_cloud.Base.{
  ℕ, ◌+◌, ◌-◌, ◌*◌, ◌/◌, ◌%◌, ◌≤◌, ◌<◌, ◌≡◌, arith, ltb, if◌then◌else◌, Bool-cases, ◌⊎◌, inl, inr,
  sym,
}
use mathlib.Core.Path.{subst}
use textile_erp_cloud.FinanceCore.Jalali.{century_step, year_step, split_year, is_leap}

-- The days of the proleptic Gregorian calendar before the year `y`, counted from the year 0.
abbrev pub days_before : ℕ → ℕ
days_before y = 365 * y + (y + 3) / 4 - (y + 99) / 100 + (y + 399) / 400

abbrev pub year_length : ℕ → ℕ
year_length y = if is_leap y then 366 else 365

-- `y` is the century year 100 * k or in the first century of 400 years.
days_before_next : (y : ℕ) → days_before (y + 1) ≡ days_before y + year_length y
unfolding is_leap
days_before_next y = ground arith

-- A day of 400 years as a century of them and a day, where every century is made to begin with a
-- leap year of 366 days.
abbrev IsCentury : ℕ → ℕ → ℕ → ℕ → Type 0
IsCentury r g b rest =
    (b < 4)
    × (rest < 36525)
    × (((b ≡ 0) × (r ≡ rest))
        ⊎ (1 ≤ b) × (rest < 365) × (r ≡ 36524 * b + 1 + rest)
        ⊎ (1 ≤ b) × (366 ≤ rest) × (r ≡ 36524 * b + rest))

century_step_lem :
    (g r : ℕ)
    → r < 146097
    → (b : ℕ) × ((century_step g r).0 ≡ g + 100 * b) × IsCentury r g b (century_step g r).1
unfolding century_step
century_step_lem g r h = elim (Bool-cases (ltb 36524 r)) [
  | inl later ↦ ((r - 1) / 36524, ground arith, ground arith)
  | inr first ↦ (0, ground arith, ground arith)
]

-- A day of four years as a year and a day, where the first of them has 366 days.
abbrev IsYear : ℕ → ℕ → ℕ → Type 0
IsYear d e day =
    (e < 4)
    × (((e ≡ 0) × (day < 366) × (d ≡ day)) ⊎ (1 ≤ e) × (day < 365) × (d ≡ 365 * e + 1 + day))

year_step_lem :
    (g d : ℕ) → d < 1461 → (e : ℕ) × ((year_step g d).0 ≡ g + e) × IsYear d e (year_step g d).1
unfolding year_step
year_step_lem g d h = elim (Bool-cases (ltb 365 d)) [
  | inl later ↦ ((d - 1) / 365, ground arith, ground arith)
  | inr first ↦ (0, ground arith, ground arith)
]

-- The year and the day in numbers: `k` spans of 400 years, `b` centuries, `c` spans of four years.
count_days :
    (k b c e day r d : ℕ)
    → c < 25
    → IsCentury r (400 * k) b (1461 * c + d)
    → IsYear d e day
    → let y = 400 * k + 100 * b + 4 * c + e in
      (days_before y + day ≡ 146097 * k + r) × (day < year_length y)
unfolding is_leap
count_days k b c e day r d hc h hy = (omega arith, ground arith)

-- For any count of days, the year and the day of the year that the code finds lie that many days
-- after the first of January of the year 0, and the day is in that year.
pub split_year_lem :
    (days : ℕ)
    → let (y, day) = split_year days in (days_before y + day ≡ days) × (day < year_length y)
unfolding split_year
split_year_lem days =
    let k = days / 146097 in
    let r = days % 146097 in
    let (b, gb, hc) = century_step_lem (400 * k) r (omega arith) in
    let rest = (century_step (400 * k) r).1 in
    let c = rest / 1461 in
    let d = rest % 1461 in
    let (e, ge, hy) = year_step_lem ((century_step (400 * k) r).0 + 4 * c) d (omega arith) in
    let (y, day) = year_step ((century_step (400 * k) r).0 + 4 * c) d in
    let whole : rest ≡ 1461 * c + d = omega arith in
    let same : y ≡ 400 * k + 100 * b + 4 * c + e = omega arith in
    let (total, inside) =
      count_days k b c e day r d (omega arith) (subst (IsCentury r (400 * k) b) whole hc) hy in
    subst (λ z. (days_before z + day ≡ days) × (day < year_length z)) (sym same)
      (omega arith, inside)
