-- ===== src/Domain/Duration.antt =====
-- `time.Time.Sub` and `Duration.Hours` of Go, on points in time that are integers of nanoseconds.
use textile_erp_cloud.Base.{ℕ, suc, ◌/◌, ◌%◌, ◌^◌, ◌-◌, if◌then◌else◌}
use textile_erp_cloud.Base.Int.{ℤ, pos, negsuc, ltb_ℤ, neg, ◌-ℤ◌}
use textile_erp_cloud.Base.Float.{Float}

-- A `Duration` stops at the ends of an `int64`.
unfoldable pub since : ℤ → ℤ → ℤ
since t u =
    let d = t -ℤ u in
    if ltb_ℤ (pos (2 ^ 63 - 1)) d
    then pos (2 ^ 63 - 1)
    else if ltb_ℤ d (negsuc (2 ^ 63 - 1))
    then negsuc (2 ^ 63 - 1)
    else d

abbrev hour : ℕ
hour = 3_600_000_000_000

-- Whole hours and the rest, with the sign of the duration.
whole_hours : ℤ → ℤ
whole_hours (pos n) = pos (n / hour)
whole_hours (negsuc n) = neg (pos (suc n / hour))

rest : ℤ → ℤ
rest (pos n) = pos (n % hour)
rest (negsuc n) = neg (pos (suc n % hour))

unfoldable pub hours : {W : Type 0} ⦃fl : Float W⦄ → ℤ → W
unfolding whole_hours rest
hours ⦃fl⦄ d =
    fl.plus (fl.of_int (whole_hours d)) (fl.over (fl.of_int (rest d)) (fl.of_int (pos hour)))
