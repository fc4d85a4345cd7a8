-- ===== src/Domain/Credit.antt =====
-- financial/internal/domain/service/credit_score_calculator.go and entity/credit.go.
pub mod Score
use textile_erp_cloud.Base.{ℕ, Bool, true, false, Option, none, some, if◌then◌else◌}
use textile_erp_cloud.Base.Int.{ℤ, pos, ltb_ℤ, leb_ℤ, beq_ℤ}
use textile_erp_cloud.Base.Text.{Text, codes, text_eq}
use textile_erp_cloud.Base.Float.{Float}
use textile_erp_cloud.Domain.Money.{Money}

pub record ScoreInput (W : Type 0) : Type 0 where
  pub on_time_payment_rate : W
  pub returned_checks_count : ℤ
  pub debt_to_credit_ratio : W
  pub successful_orders : ℤ
  pub total_orders : ℤ
  pub excess_waste_rate : W
  pub downtime_days : ℤ

-- `MaxCreditDays`, `PrepaymentPct`, `AllowCheck`, `AllowBarter`, `CreditMultiplier`.
pub record CreditTerms (W : Type 0) : Type 0 where
  pub max_credit_days : ℤ
  pub prepayment_pct : ℤ
  pub allow_check : Bool
  pub allow_barter : Bool
  pub credit_multiplier : W

-- The fields of `CustomerCreditProfile` that the services read.
pub record CreditProfile : Type 0 where
  pub party_id : ℤ
  pub credit_limit : Money
  pub credit_days : ℤ
  pub risk_group : Text

abbrev pub low : Text
low = codes "Low"

abbrev pub medium : Text
medium = codes "Medium"

abbrev pub high : Text
high = codes "High"

-- `GetRiskGroup`
unfoldable pub risk_group : ℤ → Text
risk_group score =
    if leb_ℤ (pos 70) score then low else if leb_ℤ (pos 40) score then medium else high

abbrev pub clamped : ℤ → ℤ
clamped score =
    let floored = if ltb_ℤ score (pos 0) then pos 0 else score in
    if ltb_ℤ (pos 100) floored then pos 100 else floored

module _ {W : Type 0} ⦃fl : Float W⦄ where
  percent : ℕ → W
  percent n = fl.decimal n 2

  whole : ℕ → W
  whole n = fl.of_int (pos n)

  checks_score : ℤ → W
  unfolding percent whole
  checks_score count =
      if beq_ℤ count (pos 0)
      then fl.times (whole 100) (percent 20)
      else if leb_ℤ count (pos 2)
      then fl.times (whole 60) (percent 20)
      else if leb_ℤ count (pos 5)
      then fl.times (whole 30) (percent 20)
      else whole 0

  debt_score : W → W
  unfolding percent whole
  debt_score ratio =
      let score = fl.times (fl.times (fl.minus (whole 1) ratio) (whole 100)) (percent 15) in
      if fl.below score (whole 0) then whole 0 else score

  orders_score : ℤ → ℤ → W
  unfolding percent whole
  orders_score successful total =
      if ltb_ℤ (pos 0) total
      then fl.times (fl.times (fl.over (fl.of_int successful) (fl.of_int total)) (whole 100))
          (percent 15)
      else fl.times (whole 50) (percent 15)

  waste_score : W → W
  unfolding percent whole
  waste_score rate =
      if fl.below (percent 5) rate
      then fl.times (fl.maximum (whole 0) (fl.times (fl.minus (whole 1) rate) (whole 100)))
          (percent 15)
      else fl.times (whole 100) (percent 15)

  downtime_score : ℤ → W
  unfolding percent whole
  downtime_score days =
      if ltb_ℤ (pos 0) days
      then fl.times
          (fl.maximum (whole 0) (fl.minus (whole 100) (fl.times (fl.of_int days) (whole 5))))
          (percent 10)
      else fl.times (whole 100) (percent 10)

  -- `Calculate` before it rounds, with the weights of `NewCreditScoreCalculator`.
  unfoldable pub raw_score : ScoreInput W → W
  unfolding percent whole checks_score debt_score orders_score waste_score downtime_score
  raw_score input =
      let on_time = fl.plus (whole 0) (fl.times input.on_time_payment_rate (percent 25)) in
      let checks = fl.plus on_time (checks_score input.returned_checks_count) in
      let debt = fl.plus checks (debt_score input.debt_to_credit_ratio) in
      let orders = fl.plus debt (orders_score input.successful_orders input.total_orders) in
      let waste = fl.plus orders (waste_score input.excess_waste_rate) in
      fl.plus waste (downtime_score input.downtime_days)

  unfoldable pub credit_score : ScoreInput W → ℤ
  unfolding raw_score
  credit_score input = clamped (fl.trunc (fl.round (raw_score input)))

  abbrev no_terms : CreditTerms W
  no_terms = record {
    max_credit_days = pos 0;
    prepayment_pct = pos 0;
    allow_check = false;
    allow_barter = false;
    credit_multiplier = fl.of_int (pos 0);
  }

  -- `GetCreditTerms`
  unfoldable pub credit_terms : Text → CreditTerms W
  credit_terms group =
      if text_eq group low
      then record {
        max_credit_days = pos 60;
        prepayment_pct = pos 0;
        allow_check = true;
        allow_barter = true;
        credit_multiplier = fl.of_int (pos 1);
      }
      else if text_eq group medium
      then record {
        max_credit_days = pos 30;
        prepayment_pct = pos 20;
        allow_check = true;
        allow_barter = true;
        credit_multiplier = fl.decimal 8 1;
      }
      else if text_eq group high
      then record {
        max_credit_days = pos 0;
        prepayment_pct = pos 100;
        allow_check = false;
        allow_barter = false;
        credit_multiplier = fl.decimal 5 1;
      }
      else no_terms
