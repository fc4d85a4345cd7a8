-- ===== src/FinanceCore/Balance.antt =====
-- The journal legs that `postingPlan` of financecore/service.go makes of an accepted request.
use textile_erp_cloud.Base.{
  ◌≤◌, ◌≡◌, refl, inl, inr, Bool, true, false, List, [], ◌∷◌, arith, Bool-cases, length, All,
}
use textile_erp_cloud.Base.Int.{ℤ, pos, ltb_ℤ, ◌≤ℤ◌, ◌<ℤ◌, ◌+ℤ◌, ◌-ℤ◌, int_laws}
use textile_erp_cloud.Base.Int64.{InInt64, wrap64-eq, sub-InInt64, ◌-₆₄◌}
use textile_erp_cloud.Base.Result.{Result, ok}
use textile_erp_cloud.Base.Text.{equal_fold}
use textile_erp_cloud.FinanceCore.Types.{TxnType, dir_in, Account, Request, Error}
use textile_erp_cloud.FinanceCore.Validate.{max_int64}
use textile_erp_cloud.FinanceCore.Plan.{
  Leg, debit_leg, credit_leg, interest_of, repayment_legs, transfer_legs, plan_for, posting_plan,
}
use textile_erp_cloud.FinanceCore.Accept.{IsAccepted}

abbrev pub sum_debit : List Leg → ℤ
sum_debit [] = pos 0
sum_debit (l ∷ ls) = l.debit +ℤ sum_debit ls

abbrev pub sum_credit : List Leg → ℤ
sum_credit [] = pos 0
sum_credit (l ∷ ls) = l.credit +ℤ sum_credit ls

abbrev pub IsNonneg : Leg → Type 0
IsNonneg l = (pos 0 ≤ℤ l.debit) × (pos 0 ≤ℤ l.credit)

-- The legs move `amount` on either side, none of them by a negative amount.
pub record IsBalanced (amount : ℤ) (legs : List Leg) : Type 0 where
  pub debits : sum_debit legs ≡ amount
  pub credits : sum_credit legs ≡ amount
  pub signs : All IsNonneg legs
  pub many : 2 ≤ length legs

two_legs-IsBalanced :
    (a b : Account) (p q : Bool) (x : ℤ)
    → pos 0 <ℤ x
    → IsBalanced x (debit_leg a p x ∷ credit_leg b q x ∷ [])
two_legs-IsBalanced a b p q x h = record {
  debits = omega int_laws;
  credits = omega int_laws;
  signs = omega arith;
  many = omega arith;
}

-- The legs that the plan of an accepted request has.
abbrev pub HasPlan : Result Error (List Leg) → ℤ → Type 0
HasPlan r amount = (legs : List Leg) × (r ≡ ok legs) × IsBalanced amount legs

interest_bounds :
    (req : Request)
    → pos 0 <ℤ req.amount
    → req.interest ≤ℤ req.amount
    → (pos 0 ≤ℤ interest_of req) × (interest_of req ≤ℤ req.amount)
unfolding max_int64
interest_bounds req p h = ground arith

-- Below the amount the subtraction of the interest does not wrap around.
pub principal_lem :
    (req : Request)
    → InInt64 req.amount
    → pos 0 <ℤ req.amount
    → req.interest ≤ℤ req.amount
    → req.amount -₆₄ interest_of req ≡ req.amount -ℤ interest_of req
principal_lem req r p h =
    let b = interest_bounds req p h in
    wrap64-eq (req.amount -ℤ interest_of req) (sub-InInt64 req.amount (interest_of req) r b.0 b.1)

not_negative : (a : ℤ) → pos 0 ≤ℤ a → ltb_ℤ a (pos 0) ≡ false
not_negative a h = ground arith

not_positive : (a : ℤ) → pos 0 ≤ℤ a → ltb_ℤ (pos 0) a ≡ false → a ≡ pos 0
not_positive a h k = ground arith

with_interest-IsBalanced :
    (amount i : ℤ)
    → pos 0 ≤ℤ i
    → i ≤ℤ amount
    → IsBalanced amount (
        debit_leg Account.loan true (amount -ℤ i)
        ∷ debit_leg Account.interest_expense false i
        ∷ credit_leg Account.bank false amount
        ∷ [])
with_interest-IsBalanced amount i h k = record {
  debits = omega int_laws;
  credits = omega int_laws;
  signs = omega int_laws;
  many = omega arith;
}

no_interest-IsBalanced :
    (amount i : ℤ)
    → i ≡ pos 0
    → pos 0 <ℤ amount
    → IsBalanced amount
        (debit_leg Account.loan true (amount -ℤ i) ∷ credit_leg Account.bank false amount ∷ [])
no_interest-IsBalanced amount i h k = record {
  debits = rw h (omega int_laws);
  credits = omega int_laws;
  signs = rw h (omega int_laws);
  many = omega arith;
}

repayment-HasPlan :
    (req : Request)
    → InInt64 req.amount
    → pos 0 <ℤ req.amount
    → req.interest ≤ℤ req.amount
    → HasPlan (repayment_legs req) req.amount
unfolding repayment_legs
repayment-HasPlan req r p h =
    let b = interest_bounds req p h in
    let e = principal_lem req r p h in
    let small : ltb_ℤ (req.amount -ℤ interest_of req) (pos 0) ≡ false =
      not_negative (req.amount -ℤ interest_of req) (omega int_laws) in
    elim (Bool-cases (ltb_ℤ (pos 0) (interest_of req))) [
      | inl some_interest ↦
          rw (e, some_interest, small)
            (_, refl, with_interest-IsBalanced req.amount (interest_of req) b.0 b.1)
      | inr no_interest ↦
          rw (e, no_interest, small)
            (
              _,
              refl,
              no_interest-IsBalanced req.amount (interest_of req)
                  (not_positive (interest_of req) b.0 no_interest) p,
            )
    ]

transfer-IsBalanced :
    (req : Request) → pos 0 <ℤ req.amount → IsBalanced req.amount (transfer_legs req)
unfolding transfer_legs
transfer-IsBalanced req p = elim (Bool-cases (equal_fold req.direction dir_in)) [
  | inl e ↦ rw e (two_legs-IsBalanced Account.bank Account.clearing false false req.amount p)
  | inr e ↦ rw e (two_legs-IsBalanced Account.clearing Account.bank false false req.amount p)
]

plan_for-HasPlan :
    (t : TxnType) (req : Request)
    → InInt64 req.amount
    → pos 0 <ℤ req.amount
    → req.interest ≤ℤ req.amount
    → HasPlan (plan_for t req) req.amount
unfolding plan_for
plan_for-HasPlan TxnType.loan_repayment req r p h = repayment-HasPlan req r p h
plan_for-HasPlan TxnType.internal_transfer req r p h =
    (transfer_legs req, refl, transfer-IsBalanced req p)
plan_for-HasPlan _ req r p h = (_, refl, two_legs-IsBalanced _ _ _ _ req.amount p)

-- For an accepted request whose amount is an `int64`, the posting plan exists; its debits and its
-- credits both add up to the amount, no leg is negative, and there are at least two legs.
pub posting_plan-IsBalanced :
    (t : TxnType) (req : Request)
    → InInt64 req.amount
    → IsAccepted t req
    → (legs : List Leg) × (posting_plan req ≡ ok legs) × IsBalanced req.amount legs
unfolding posting_plan
posting_plan-IsBalanced t req r a = rw a.known (plan_for-HasPlan t req r a.positive a.interest_le)
