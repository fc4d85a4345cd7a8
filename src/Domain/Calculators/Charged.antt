-- ===== src/Domain/Calculators/Charged.antt =====
-- What the calculators of financial/internal/domain/service charge.
use textile_erp_cloud.Base.{◌≡◌, refl, sym, ap, ◌∙◌, inl, inr, false, Option, some, Bool-cases}
use mathlib.Core.Path.{subst}
use textile_erp_cloud.Domain.Duration.{since}
use textile_erp_cloud.Base.Int.{ℤ, pos, leb_ℤ, ◌-ℤ◌, int_laws}
use textile_erp_cloud.Base.Int64.{wrap64, wrap64-eq, wrap64-InInt64}
use textile_erp_cloud.Base.Float.{Float}
use textile_erp_cloud.Base.Text.{Text, codes}
use textile_erp_cloud.Domain.Money.{Money, zero_money, add, subtract, multiply}
use textile_erp_cloud.Domain.Calculators.{
  DowntimeResult, IdlePenalty, waste, downtime, new_penalty, create_penalty, commission,
  commission_invoice, calculate_net,
}

subtract_zero : (x : ℤ) → subtract (wrap64 x) zero_money ≡ wrap64 x
subtract_zero x =
    let same : wrap64 x -ℤ pos 0 ≡ wrap64 x = omega int_laws in
    ap wrap64 same ∙ wrap64-eq (wrap64 x) (wrap64-InInt64 x)

some-same : {A : Type 0} (a b : A) → Path (Option A) (some a) (some b) → a ≡ b
some-same a b h = cc

delayed :
    (W : Type 0) ⦃fl : Float W⦄ (allowed commitment start : ℤ) (rate : Money)
    → leb_ℤ (since start commitment) (pos 0) ≡ false
    → (downtime {W = W} allowed commitment start rate).amount
      ≡ multiply rate (downtime {W = W} allowed commitment start rate).duration_days
unfolding downtime
delayed W allowed commitment start rate h = rw h refl

module _ {W : Type 0} ⦃fl : Float W⦄ where
  -- The amounts of the commission invoice that is made of a calculated scenario are those that the
  -- invoice itself computes of its labor, penalty, waste and discount: recalculating it changes
  -- nothing.
  pub commission_invoice-net :
      (now : ℤ) (number : Text) (party order due : ℤ) (input output rate days : W)
      (yarn fabric day_rate : Money)
      → calculate_net W (
          commission_invoice now number party order
            (commission input output yarn fabric rate days day_rate)
            due)
        ≡ commission_invoice now number party order
            (commission input output yarn fabric rate days day_rate)
            due
  unfolding calculate_net commission_invoice commission
  commission_invoice-net now number party order due input output rate days yarn fabric day_rate =
      rw
        (subtract_zero (
          add (multiply fabric output) (multiply day_rate days)
          -ℤ (waste input output rate yarn).excess_waste_amount))
        refl

  penalty_made :
      (now order machine : ℤ) (result : DowntimeResult W) (reason : Text) (p : IdlePenalty W)
      → create_penalty now order machine result reason ≡ some p
      → (p.rate_per_unit ≡ result.amount)
        × (p.duration_value ≡ result.duration_days)
        × (p.amount ≡ multiply result.amount result.duration_days)
  unfolding create_penalty new_penalty
  penalty_made now order machine result reason p h =
      elim (Bool-cases (fl.at_most result.duration_days (fl.of_int (pos 0)))) [
        | inl none_left ↦ absurd (cc (rw none_left at h))
        | inr some_left ↦
            subst
              (λ q.
                (q.rate_per_unit ≡ result.amount)
                × (q.duration_value ≡ result.duration_days)
                × (q.amount ≡ multiply result.amount result.duration_days))
              (some-same
                (new_penalty now order machine (codes "Day") result.duration_days result.amount
                  reason)
                p (rw some_left at h))
              (refl, refl, refl)
      ]

  -- The penalty that `CreatePenalty` makes of the calculated downtime of a late start has an amount that
  -- is the day rate times the days, times the days once more: the amount that was calculated already
  -- for all days is taken as the rate of one day.
  pub penalty_again :
      (now order machine allowed commitment start : ℤ) (rate : Money) (reason : Text)
      (p : IdlePenalty W)
      → leb_ℤ (since start commitment) (pos 0) ≡ false
      → create_penalty now order machine (downtime allowed commitment start rate) reason ≡ some p
      → p.amount ≡ multiply (multiply rate p.duration_value) p.duration_value
  penalty_again now order machine allowed commitment start rate reason p late made =
      let result = downtime {W = W} allowed commitment start rate in
      let (_, days, amount) = penalty_made now order machine result reason p made in
      amount
      ∙ ap (λ x. multiply x result.duration_days) (delayed W allowed commitment start rate late)
      ∙ ap (λ d. multiply (multiply rate d) d) (sym days)
