-- ===== src/FinanceCore/Plan.antt =====
-- financecore/service.go: `postingPlan`, `partyBalanceEffect` and the substitution of the cash
-- account in `PostTransaction`.
use textile_erp_cloud.Base.{
  Bool, true, false, not, none, some, List, [], ◌∷◌, ◌++◌, map, if◌then◌else◌,
}
use textile_erp_cloud.Base.Int.{ℤ, pos, ltb_ℤ}
use textile_erp_cloud.Base.Int64.{◌-₆₄◌, neg64}
use textile_erp_cloud.Base.Result.{Result, ok, ◌>>=◌, ◌>>◌, refuse_if, or_err}
use textile_erp_cloud.Base.Text.{equal_fold}
use textile_erp_cloud.FinanceCore.Types.{TxnType, type_of, dir_in, Account, Request, Error}
use textile_erp_cloud.FinanceCore.Validate.{max_int64}

pub record Leg : Type 0 where
  pub account : Account
  pub party : Bool
  pub debit : ℤ
  pub credit : ℤ

abbrev pub debit_leg : Account → Bool → ℤ → Leg
debit_leg a p x = record { account = a; party = p; debit = x; credit = pos 0 }

abbrev pub credit_leg : Account → Bool → ℤ → Leg
credit_leg a p x = record { account = a; party = p; debit = pos 0; credit = x }

-- The closure `with`; `on_debit` is `partyOn == "debit"`.
abbrev two_legs : ℤ → Account → Account → Bool → List Leg
two_legs amount debit credit on_debit =
    debit_leg debit on_debit amount ∷ credit_leg credit (not on_debit) amount ∷ []

abbrev pub interest_of : Request → ℤ
interest_of req = max_int64 req.interest (pos 0)

-- The case `TypeLoanRepayment`.
unfoldable pub repayment_legs : Request → Result Error (List Leg)
repayment_legs req =
    let principal = req.amount -₆₄ interest_of req in
    let first : List Leg = debit_leg Account.loan true principal ∷ [] in
    let second : List Leg =
      if ltb_ℤ (pos 0) (interest_of req)
      then debit_leg Account.interest_expense false (interest_of req) ∷ []
      else [] in
    do
      refuse_if (ltb_ℤ principal (pos 0)) Error.large_interest
      ok ((first ++ second) ++ (credit_leg Account.bank false req.amount ∷ []))

-- The case `TypeInternalTransfer`.
unfoldable pub transfer_legs : Request → List Leg
transfer_legs req =
    if equal_fold req.direction dir_in
    then debit_leg Account.bank false req.amount ∷ credit_leg Account.clearing false req.amount ∷ []
    else debit_leg Account.clearing false req.amount ∷ credit_leg Account.bank false req.amount ∷ []

unfoldable pub plan_for : TxnType → Request → Result Error (List Leg)
plan_for TxnType.customer_receipt req =
    ok (two_legs req.amount Account.bank Account.receivable false)
plan_for TxnType.supplier_payment req = ok (two_legs req.amount Account.payable Account.bank true)
plan_for TxnType.direct_expense req = ok (
    debit_leg Account.operating_expense false req.amount
    ∷ credit_leg Account.bank false req.amount
    ∷ [])
plan_for TxnType.other_payment req = ok (
    debit_leg Account.operating_expense false req.amount
    ∷ credit_leg Account.bank false req.amount
    ∷ [])
plan_for TxnType.asset_purchase req =
    ok (
      debit_leg Account.fixed_asset false req.amount
      ∷ credit_leg Account.bank false req.amount
      ∷ [])
plan_for TxnType.payroll_payment req = ok (
    debit_leg Account.payroll_expense true req.amount
    ∷ credit_leg Account.bank false req.amount
    ∷ [])
plan_for TxnType.petty_cash_funding req =
    ok
      (debit_leg Account.petty_cash true req.amount ∷ credit_leg Account.bank false req.amount ∷ [])
plan_for TxnType.petty_cash_return req =
    ok
      (debit_leg Account.bank false req.amount ∷ credit_leg Account.petty_cash true req.amount ∷ [])
plan_for TxnType.loan_receipt req =
    ok (debit_leg Account.bank false req.amount ∷ credit_leg Account.loan true req.amount ∷ [])
plan_for TxnType.loan_repayment req = repayment_legs req
plan_for TxnType.owner_deposit req =
    ok (
      debit_leg Account.bank false req.amount
      ∷ credit_leg Account.owner_equity true req.amount
      ∷ [])
plan_for TxnType.owner_withdrawal req = ok (
    debit_leg Account.owner_drawing true req.amount ∷ credit_leg Account.bank false req.amount ∷ [])
plan_for TxnType.bank_fee req = ok (
    debit_leg Account.bank_fee_expense false req.amount
    ∷ credit_leg Account.bank false req.amount
    ∷ [])
plan_for TxnType.check_receipt req = ok (
    debit_leg Account.check_receivable true req.amount
    ∷ credit_leg Account.receivable true req.amount
    ∷ [])
plan_for TxnType.check_payment req = ok (
    debit_leg Account.payable true req.amount
    ∷ credit_leg Account.check_payable true req.amount
    ∷ [])
plan_for TxnType.refund req = ok (
    debit_leg Account.bank false req.amount ∷ credit_leg Account.other_income false req.amount ∷ [])
plan_for TxnType.other_receipt req = ok (
    debit_leg Account.bank false req.amount ∷ credit_leg Account.other_income false req.amount ∷ [])
plan_for TxnType.internal_transfer req = ok (transfer_legs req)

unfoldable pub posting_plan : Request → Result Error (List Leg)
posting_plan req = or_err (type_of req.txn_type) Error.unknown_type >>= λ t. plan_for t req

-- `partyBalanceEffect`, a signed change of the party's balance.
unfoldable pub effect_for : TxnType → Request → ℤ
effect_for TxnType.customer_receipt req = neg64 req.amount
effect_for TxnType.supplier_payment req = req.amount
effect_for TxnType.petty_cash_funding req = req.amount
effect_for TxnType.petty_cash_return req = neg64 req.amount
effect_for TxnType.loan_receipt req = neg64 req.amount
effect_for TxnType.loan_repayment req = req.amount -₆₄ interest_of req
effect_for _ req = pos 0

unfoldable pub party_balance_effect : Request → ℤ
party_balance_effect req = elim (type_of req.txn_type) [ none ↦ pos 0 | some t ↦ effect_for t req ]

abbrev pub is_bank : Account → Bool
is_bank Account.bank = true
is_bank _ = false

-- The loop of `PostTransaction` that puts the account of the chosen till in place of the bank.
unfoldable pub substitute_cash : Account → List Leg → List Leg
substitute_cash till = map λ leg. if is_bank leg.account then record leg { account = till } else leg
