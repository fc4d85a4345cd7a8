-- ===== src/Base/Float.antt =====
-- Go's `float64`: what the code does with its values, over any type of them. The rounding of the
-- machine is left open; `decimal n k` is the constant n / 10^k.
use mathlib.Core.Bool.{Bool}
use Prim.Native.Nat.{ℕ, suc, ◌*◌, ◌^◌, ◌/◌}
use textile_erp_cloud.Base.Tests.{if◌then◌else◌}
use textile_erp_cloud.Base.Int.{ℤ, pos, negsuc, ◌+ℤ◌, ◌-ℤ◌, neg, ltb_ℤ, leb_ℤ}

pub record Float (W : Type 0) : Type 0 where
  pub decimal : ℕ → ℕ → W
  pub of_int : ℤ → W
  -- `int64(x)`
  pub trunc : W → ℤ
  -- `math.Round`
  pub round : W → W
  pub plus : W → W → W
  pub minus : W → W → W
  pub times : W → W → W
  pub over : W → W → W
  pub below : W → W → Bool
  pub at_most : W → W → Bool
  -- `math.Max`
  pub maximum : W → W → W

-- Hundredths with the rest cut off, as an example of such numbers.
div_ℤ : ℤ → ℕ → ℤ
div_ℤ (pos n) k = pos (n / k)
div_ℤ (negsuc n) k = neg (pos (suc n / k))

times_ℤ : ℤ → ℕ → ℤ
times_ℤ (pos n) k = pos (n * k)
times_ℤ (negsuc n) k = neg (pos (suc n * k))

product : ℤ → ℤ → ℤ
unfolding times_ℤ
product (pos n) b = times_ℤ b n
product (negsuc n) b = neg (times_ℤ b (suc n))

quotient : ℤ → ℤ → ℤ
unfolding div_ℤ
quotient a (pos n) = div_ℤ a n
quotient a (negsuc n) = neg (div_ℤ a (suc n))

unfoldable pub hundredths : Float ℤ
unfolding div_ℤ times_ℤ product quotient
hundredths = record {
  decimal = λ n k. pos (n * 100 / 10 ^ k);
  of_int = λ n. times_ℤ n 100;
  trunc = λ x. div_ℤ x 100;
  round = λ x.
      if ltb_ℤ x (pos 0)
      then times_ℤ (div_ℤ (x -ℤ pos 50) 100) 100
      else times_ℤ (div_ℤ (x +ℤ pos 50) 100) 100;
  plus = ◌+ℤ◌;
  minus = ◌-ℤ◌;
  times = λ a b. div_ℤ (product a b) 100;
  over = λ a b. quotient (times_ℤ a 100) b;
  below = ltb_ℤ;
  at_most = leb_ℤ;
  maximum = λ a b. if ltb_ℤ a b then b else a;
}
