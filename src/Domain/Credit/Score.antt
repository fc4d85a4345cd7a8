-- ===== src/Domain/Credit/Score.antt =====
-- The score of credit_score_calculator.go and what follows from it.
use textile_erp_cloud.Base.{arith}
use textile_erp_cloud.Base.Int.{ℤ, pos, ◌≤ℤ◌}
use textile_erp_cloud.Base.Float.{Float}
use textile_erp_cloud.Domain.Credit.{ScoreInput, clamped, raw_score, credit_score}

clamped_lem : (n : ℤ) → (pos 0 ≤ℤ clamped n) × (clamped n ≤ℤ pos 100)
clamped_lem n = ground arith

-- Whatever the input and the rounding of `float64`, the credit score is from 0 to 100.
pub credit_score_bounds :
    {W : Type 0} ⦃fl : Float W⦄ (input : ScoreInput W)
    → (pos 0 ≤ℤ credit_score input) × (credit_score input ≤ℤ pos 100)
unfolding credit_score
credit_score_bounds ⦃fl⦄ input = clamped_lem (fl.trunc (fl.round (raw_score input)))
