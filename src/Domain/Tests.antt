-- ===== src/Domain/Tests.antt =====
-- Runs of the calculators and of the settlement validator over hundredths.
use textile_erp_cloud.Base.{◌≡◌, ◌↔◌, refl, true, false, not, some, [], ◌∷◌, All}
use textile_erp_cloud.Base.Int.{ℤ, pos, leb_ℤ, ◌≤ℤ◌, neg, ◌+ℤ◌, ◌-ℤ◌}
use textile_erp_cloud.Base.Int64.{wrap64}
use textile_erp_cloud.Base.Text.{codes, text_eq}
use textile_erp_cloud.Base.Float.{Float, hundredths}
use textile_erp_cloud.Domain.Money.{multiply}
use textile_erp_cloud.Domain.Duration.{since, hours}
use textile_erp_cloud.Domain.Credit.{
  ScoreInput, CreditProfile, raw_score, credit_score, risk_group, credit_terms, high,
}
use textile_erp_cloud.Domain.Credit.Score.{credit_score_bounds}
use textile_erp_cloud.Domain.Settlement.{
  Settlement, is_high_risk, add_cash_line, add_check_line, days_until, validate_settlement,
  check_not_allowed, due_too_late,
}
use textile_erp_cloud.Domain.Settlement.Accepted.{
  IsAcceptable, validate_settlement_iff, terms_agree,
}
use textile_erp_cloud.Domain.Calculators.{
  IdlePenalty, half_days, downtime, new_penalty, create_penalty, waste, commission,
  commission_invoice, calculate_net,
}
use textile_erp_cloud.Domain.Calculators.Charged.{commission_invoice-net, penalty_again}

instance abbrev float_hundredths : Float ℤ
float_hundredths = hundredths

-- Unfolds all that a run computes with.
unfoldable running : Unit {0}
unfolding hundredths wrap64 ◌+ℤ◌ ◌-ℤ◌ neg text_eq since hours raw_score credit_score risk_group
    credit_terms add_cash_line add_check_line days_until validate_settlement half_days downtime
    new_penalty create_penalty waste commission commission_invoice calculate_net
running = tt

-- 90 percent on time, one returned check, 20 percent debt, 8 of 10 orders, 2 percent waste, 2 days.
abbrev customer : ScoreInput ℤ
customer = record {
  on_time_payment_rate = pos 9000;
  returned_checks_count = pos 1;
  debt_to_credit_ratio = pos 20;
  successful_orders = pos 8;
  total_orders = pos 10;
  excess_waste_rate = pos 2;
  downtime_days = pos 2;
}

customer_score : credit_score customer ≡ pos 83
unfolding running
customer_score = refl

credit_score_bounds_example : (pos 0 ≤ℤ credit_score customer) × (credit_score customer ≤ℤ pos 100)
credit_score_bounds_example = credit_score_bounds customer

abbrev risky : CreditProfile
risky = record {
  party_id = pos 5;
  credit_limit = pos 1000;
  credit_days = pos 30;
  risk_group = high;
}

group : high ≡ risk_group (pos 10)
unfolding risk_group
group = refl

terms_agree_example :
    ((credit_terms {W = ℤ} (risk_group (pos 10))).allow_check ≡ not (is_high_risk risky))
    × ((credit_terms {W = ℤ} (risk_group (pos 10))).allow_barter ≡ not (is_high_risk risky))
terms_agree_example = terms_agree ℤ (pos 10) risky group

abbrev day : ℤ
day = pos 86_400_000_000_000

abbrev empty_settlement : Settlement ℤ
empty_settlement = record {
  party_id = pos 5;
  date = pos 0;
  total_amount = pos 0;
  status = codes "Draft";
  lines = [];
  created_by = pos 1;
  created_at = pos 0;
}

-- Cash and a check that is due after 40 days.
abbrev paid_in : Settlement ℤ
paid_in =
    add_check_line (pos 0) (pos 500) (codes "77") (codes "bank") (pos 3_456_000_000_000_000)
      (add_cash_line (pos 0) (pos 300) empty_settlement)

check_refused : validate_settlement paid_in risky (pos 900) ≡ record {
  is_valid = false;
  errors = check_not_allowed 2 ∷ [];
  warnings = due_too_late 2 (pos 40) ∷ [];
}
unfolding running
check_refused = refl

validate_settlement_iff_example :
    ((validate_settlement paid_in risky (pos 900)).is_valid ≡ true)
    ↔ All (IsAcceptable risky) paid_in.lines
validate_settlement_iff_example = validate_settlement_iff paid_in risky (pos 900)

commission_invoice-net_example :
    calculate_net ℤ (
      commission_invoice
        (pos 0)
        (codes "C-1")
        (pos 5)
        (pos 6)
        (commission (pos 100_000) (pos 90_000) (pos 2000) (pos 3000) (pos 5) (pos 200) (pos 500))
        (pos 9))
    ≡ commission_invoice
        (pos 0)
        (codes "C-1")
        (pos 5)
        (pos 6)
        (commission (pos 100_000) (pos 90_000) (pos 2000) (pos 3000) (pos 5) (pos 200) (pos 500))
        (pos 9)
commission_invoice-net_example =
    commission_invoice-net (pos 0) (codes "C-1") (pos 5) (pos 6) (pos 9) (pos 100_000) (pos 90_000)
      (pos 5) (pos 200) (pos 2000) (pos 3000) (pos 500)

-- Three days late at 1,000 Rials a day: 3,000 are calculated, and 9,000 are charged.
abbrev penalty : IdlePenalty ℤ
penalty = new_penalty (pos 0) (pos 6) (pos 2) (codes "Day") (pos 300) (pos 3000) (codes "late")

three_days :
    create_penalty
      (pos 0)
      (pos 6)
      (pos 2)
      (downtime (pos 2) (pos 0) (pos 259_200_000_000_000) (pos 1000))
      (codes "late")
    ≡ some penalty
unfolding running
three_days = refl

nine_thousand : penalty.amount ≡ pos 9000
unfolding running
nine_thousand = refl

late : leb_ℤ (since (pos 259_200_000_000_000) (pos 0)) (pos 0) ≡ false
unfolding running
late = refl

penalty_again_example :
    penalty.amount ≡ multiply (multiply (pos 1000) penalty.duration_value) penalty.duration_value
penalty_again_example =
    penalty_again (pos 0) (pos 6) (pos 2) (pos 2) (pos 0) (pos 259_200_000_000_000) (pos 1000)
      (codes "late") penalty late three_days

-- A delay of five hours counts as none.
five_hours : (downtime {W = ℤ} (pos 2) (pos 0) (pos 18_000_000_000_000) (pos 1000)).amount ≡ pos 0
unfolding running
five_hours = refl
