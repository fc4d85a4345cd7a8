-- ===== src/Domain/Calculators.antt =====
-- financial/internal/domain/service: waste_calculator.go, downtime_calculator.go and
-- commission_calculator.go, with the entities that they make. The texts that they format are left out.
pub mod Charged
use textile_erp_cloud.Base.{Bool, true, false, Option, none, some, if◌then◌else◌}
use textile_erp_cloud.Base.Int.{ℤ, pos, ltb_ℤ, leb_ℤ}
use textile_erp_cloud.Base.Float.{Float}
use textile_erp_cloud.Base.Text.{Text, codes}
use textile_erp_cloud.Domain.Money.{Money, zero_money, add, subtract, multiply}
use textile_erp_cloud.Domain.Duration.{since, hours}

pub record WasteResult (W : Type 0) : Type 0 where
  pub std_waste_qty : W
  pub excess_waste_qty : W
  pub std_waste_amount : Money
  pub excess_waste_amount : Money

pub record WasteAllocation (W : Type 0) : Type 0 where
  pub production_order_id : ℤ
  pub excess_waste_qty : W
  pub allocated_to_party_id : ℤ
  pub debit_amount : Money
  pub basis : Text
  pub created_at : ℤ

-- `ShouldBlock`, without the reason, which is its text.
pub record DowntimeResult (W : Type 0) : Type 0 where
  pub duration_days : W
  pub amount : Money
  pub should_block : Bool

pub record IdlePenalty (W : Type 0) : Type 0 where
  pub production_order_id : ℤ
  pub machine_id : ℤ
  pub penalty_type : Text
  pub duration_value : W
  pub rate_per_unit : Money
  pub amount : Money
  pub reason : Text
  pub start_date : ℤ
  pub created_at : ℤ

pub record CommissionCalculation : Type 0 where
  pub labor_amount : Money
  pub machine_idle_penalty : Money
  pub waste_debit_amount : Money
  pub total_before_tax : Money
  pub tax_amount : Money
  pub net_amount : Money

pub record CommissionInvoice : Type 0 where
  pub invoice_no : Text
  pub party_id : ℤ
  pub production_order_id : ℤ
  pub labor_amount : Money
  pub idle_penalty_amount : Money
  pub waste_debit_amount : Money
  pub discount : Money
  pub total_amount : Money
  pub tax_amount : Money
  pub net_amount : Money
  pub status : Text
  pub issued_date : ℤ
  pub due_date : ℤ
  pub created_at : ℤ

module _ {W : Type 0} ⦃fl : Float W⦄ where
  zero : W
  zero = fl.of_int (pos 0)

  -- The waste beyond the standard one, or 0.
  abbrev pub excess_of : W → W → W → W
  excess_of input output rate =
      let excess = fl.minus (fl.minus input output) (fl.times input rate) in
      if fl.below excess (fl.of_int (pos 0)) then fl.of_int (pos 0) else excess

  -- `WasteCalculator.Calculate`
  unfoldable pub waste : W → W → W → Money → WasteResult W
  waste input output rate price = record {
    std_waste_qty = fl.times input rate;
    excess_waste_qty = excess_of input output rate;
    std_waste_amount = multiply price (fl.times input rate);
    excess_waste_amount = multiply price (excess_of input output rate);
  }

  -- `AllocateExcessWaste`
  unfoldable pub allocate_waste : ℤ → ℤ → ℤ → WasteResult W → Text → Option (WasteAllocation W)
  unfolding zero
  allocate_waste now order party result basis =
      if fl.at_most result.excess_waste_qty zero
      then none
      else some (record {
        production_order_id = order;
        excess_waste_qty = result.excess_waste_qty;
        allocated_to_party_id = party;
        debit_amount = result.excess_waste_amount;
        basis = basis;
        created_at = now;
      })

  -- The days of a delay, to the nearest half.
  unfoldable pub half_days : ℤ → W
  unfolding hours
  half_days delay =
      let days = fl.over (hours delay) (fl.of_int (pos 24)) in
      let halves = fl.trunc (fl.plus (fl.times days (fl.of_int (pos 2))) (fl.decimal 5 1)) in
      fl.over (fl.of_int halves) (fl.of_int (pos 2))

  -- `DowntimeCalculator.Calculate`; `allowed` is `maxAllowedDays`.
  unfoldable pub downtime : ℤ → ℤ → ℤ → Money → DowntimeResult W
  unfolding zero since half_days
  downtime allowed commitment start rate =
      let delay = since start commitment in
      if leb_ℤ delay (pos 0)
      then record { duration_days = zero; amount = zero_money; should_block = false }
      else record {
        duration_days = half_days delay;
        amount = multiply rate (half_days delay);
        should_block = ltb_ℤ allowed (fl.trunc (half_days delay));
      }

  -- `NewMachineIdlePenalty`
  unfoldable pub new_penalty : ℤ → ℤ → ℤ → Text → W → Money → Text → IdlePenalty W
  new_penalty now order machine kind duration rate reason = record {
    production_order_id = order;
    machine_id = machine;
    penalty_type = kind;
    duration_value = duration;
    rate_per_unit = rate;
    amount = multiply rate duration;
    reason = reason;
    start_date = now;
    created_at = now;
  }

  -- `CreatePenalty`
  unfoldable pub create_penalty : ℤ → ℤ → ℤ → DowntimeResult W → Text → Option (IdlePenalty W)
  unfolding zero new_penalty
  create_penalty now order machine result reason =
      if fl.at_most result.duration_days zero
      then none
      else some
          (new_penalty now order machine (codes "Day") result.duration_days result.amount reason)

  -- `CalculateFromScenario`
  unfoldable pub commission : W → W → Money → Money → W → W → Money → CommissionCalculation
  unfolding waste
  commission input output yarn_price fabric_price rate days day_rate =
      let labor = multiply fabric_price output in
      let debit = (waste input output rate yarn_price).excess_waste_amount in
      let penalty = multiply day_rate days in
      let before = subtract (add labor penalty) debit in
      let tax = multiply before (fl.decimal 9 2) in
      record {
        labor_amount = labor;
        machine_idle_penalty = penalty;
        waste_debit_amount = debit;
        total_before_tax = before;
        tax_amount = tax;
        net_amount = add before tax;
      }

-- `CreateInvoice` of the commission calculator.
unfoldable pub commission_invoice : ℤ → Text → ℤ → ℤ → CommissionCalculation → ℤ → CommissionInvoice
commission_invoice now number party order calc due = record {
  invoice_no = number;
  party_id = party;
  production_order_id = order;
  labor_amount = calc.labor_amount;
  idle_penalty_amount = calc.machine_idle_penalty;
  waste_debit_amount = calc.waste_debit_amount;
  discount = zero_money;
  total_amount = calc.total_before_tax;
  tax_amount = calc.tax_amount;
  net_amount = calc.net_amount;
  status = codes "Draft";
  issued_date = now;
  due_date = due;
  created_at = now;
}

-- `CalculateNetAmount` of entity/commission.go.
unfoldable pub calculate_net : (W : Type 0) ⦃fl : Float W⦄ → CommissionInvoice → CommissionInvoice
calculate_net W ⦃fl⦄ inv =
    let total =
      subtract (subtract (add inv.labor_amount inv.idle_penalty_amount) inv.waste_debit_amount)
        inv.discount in
    let tax = multiply total (fl.decimal 9 2) in
    record inv { total_amount = total; tax_amount = tax; net_amount = add total tax }
