-- ===== src/Domain/Money.antt =====
-- financial/internal/domain/valueobject/money.go. A `Money` is its amount in Rials, an `int64`; the
-- field `currency` is always "IRR" and is never read.
use textile_erp_cloud.Base.{Bool}
use textile_erp_cloud.Base.Int.{ℤ, pos, ltb_ℤ}
use textile_erp_cloud.Base.Int64.{◌+₆₄◌, ◌-₆₄◌}
use textile_erp_cloud.Base.Float.{Float}

abbrev pub Money : Type 0
Money = ℤ

abbrev pub zero_money : Money
zero_money = pos 0

abbrev pub add : Money → Money → Money
add m other = m +₆₄ other

abbrev pub subtract : Money → Money → Money
subtract m other = m -₆₄ other

abbrev pub is_greater_than : Money → Money → Bool
is_greater_than m other = ltb_ℤ other m

abbrev pub is_negative : Money → Bool
is_negative m = ltb_ℤ m (pos 0)

module _ {W : Type 0} ⦃fl : Float W⦄ where
  -- From an amount in Toman, of 10 Rials each.
  abbrev pub new_money : W → Money
  new_money toman = fl.trunc (fl.round (fl.times toman (fl.of_int (pos 10))))

  abbrev pub to_toman : Money → W
  to_toman m = fl.over (fl.of_int m) (fl.of_int (pos 10))

  abbrev pub multiply : Money → W → Money
  multiply m factor = fl.trunc (fl.times (fl.of_int m) factor)
