-- ===== src/FinanceCore/Jalali/Months.antt =====
-- `jalaliToGregorian`: the month and the day of the month, and the date as a whole.
use textile_erp_cloud.Base.{
  ℕ, suc, ◌+◌, ◌-◌, ◌≤◌, ◌<◌, ◌≡◌, refl, List, [], ◌∷◌, arith, ltb, Bool-cases, inl, inr, length,
}
use textile_erp_cloud.FinanceCore.Jalali.{
  jalali_days, split_year, month_days, month_loop, jalali_to_gregorian,
}
use textile_erp_cloud.FinanceCore.Jalali.Years.{days_before, year_length, split_year_lem}

abbrev pub sum : List ℕ → ℕ
sum [] = 0
sum (x ∷ xs) = x + sum xs

-- `take n` and `nth` of a list of month lengths.
abbrev pub sum_first : ℕ → List ℕ → ℕ
sum_first _ [] = 0
sum_first ℕ.zero (x ∷ xs) = 0
sum_first (suc n) (x ∷ xs) = x + sum_first n xs

abbrev pub nth : ℕ → List ℕ → ℕ
nth _ [] = 0
nth ℕ.zero (x ∷ xs) = x
nth (suc n) (x ∷ xs) = nth n xs

-- The loop stops in the month `gm + i` that the day lies in.
month_loop_lem :
    (ns : List ℕ) (gm gd : ℕ)
    → 1 ≤ gd
    → gd ≤ sum ns
    → let (m, d) = month_loop ns gm gd in
      (i : ℕ) × (m ≡ gm + i)
      × (i < length ns)
      × (1 ≤ d)
      × (d ≤ nth i ns)
      × (sum_first i ns + d ≡ gd)
unfolding month_loop
month_loop_lem [] gm gd p h = absurd (omega arith)
month_loop_lem (n ∷ ns) gm gd p h = elim (Bool-cases (ltb n gd)) [
  | inl later ↦
      let (i, e, l, a, b, s) = month_loop_lem ns (gm + 1) (gd - n) (ground arith) (ground arith) in
      rw later (suc i, omega arith, omega arith, a, b, ground arith)
  | inr here ↦ rw here (0, omega arith, omega arith, p, ground arith, omega arith)
]

sum-month_days : (gy : ℕ) → sum (month_days gy) ≡ year_length gy
unfolding month_days
sum-month_days gy = ground arith

length-month_days : (gy : ℕ) → length (month_days gy) ≡ 12
unfolding month_days
length-month_days gy = refl

-- The date is a day of the proleptic Gregorian calendar: a month from 1 to 12 and a day of that
-- month; and it is the day that `days` counts from the first of January of the year 0.
abbrev pub IsDate : ℕ → ℕ × ℕ × ℕ → Type 0
IsDate days (gy, gm, gd) =
    (1 ≤ gm)
    × (gm ≤ 12)
    × (1 ≤ gd)
    × (gd ≤ nth (gm - 1) (month_days gy))
    × (days_before gy + sum_first (gm - 1) (month_days gy) + gd ≡ days + 1)

-- Every date that the conversion returns is a real day of the Gregorian calendar, the month and the
-- length of the month included, and it is exactly as many days after 0000-01-01 as the code counts.
pub jalali_to_gregorian-IsDate :
    (jy jm jd : ℕ) → IsDate (jalali_days jy jm jd) (jalali_to_gregorian jy jm jd)
unfolding jalali_to_gregorian
jalali_to_gregorian-IsDate jy jm jd =
    let days = jalali_days jy jm jd in
    let (gy, day) = split_year days in
    let (total, inside) = split_year_lem days in
    let (i, e, l, a, b, s) =
      month_loop_lem (month_days gy) 1 (day + 1) (omega arith) (omega (arith, sum-month_days gy)) in
    let (m, d) = month_loop (month_days gy) 1 (day + 1) in
    let same : m - 1 ≡ i = omega arith in
    (omega arith, omega (arith, length-month_days gy), a, rw same b, rw same (omega arith))
