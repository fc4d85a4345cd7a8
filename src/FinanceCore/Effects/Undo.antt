-- ===== src/FinanceCore/Effects/Undo.antt =====
-- The effect that `ReverseTransaction` of financecore/service.go takes back, against the one that was
-- posted.
use textile_erp_cloud.Base.{◌≡◌, refl, ap, ◌∙◌, true, false, none, some, arith}
use textile_erp_cloud.Base.Int.{ℤ, pos, ◌≤ℤ◌, ◌<ℤ◌, ◌+ℤ◌, ◌-ℤ◌, neg, int_laws}
use textile_erp_cloud.Base.Int64.{InInt64, wrap64-eq, neg-InInt64, neg64, wrap64}
use textile_erp_cloud.FinanceCore.Types.{TxnType, type_of, Request}
use textile_erp_cloud.FinanceCore.Validate.{max_int64}
use textile_erp_cloud.FinanceCore.Plan.{interest_of, effect_for, party_balance_effect}
use textile_erp_cloud.FinanceCore.Balance.{principal_lem}
use textile_erp_cloud.FinanceCore.Effects.{signed_effect}

-- The effect of a type without the machine arithmetic.
abbrev pub exact_effect : TxnType → Request → ℤ
exact_effect TxnType.customer_receipt req = neg req.amount
exact_effect TxnType.supplier_payment req = req.amount
exact_effect TxnType.petty_cash_funding req = req.amount
exact_effect TxnType.petty_cash_return req = neg req.amount
exact_effect TxnType.loan_receipt req = neg req.amount
exact_effect TxnType.loan_repayment req = req.amount -ℤ interest_of req
exact_effect _ req = pos 0

abbrev pub IsExact : ℤ → Type 0
IsExact e = neg64 e ≡ neg e

positive-IsExact : (a : ℤ) → InInt64 a → pos 0 ≤ℤ a → IsExact a
positive-IsExact a r p = wrap64-eq (neg a) (neg-InInt64 a r p)

double_neg : (a : ℤ) → neg (neg a) ≡ a
double_neg a = omega int_laws

negative-IsExact : (a : ℤ) → InInt64 a → IsExact (neg a)
negative-IsExact a r = ap wrap64 (double_neg a) ∙ wrap64-eq a r ∙ omega int_laws

zero-IsExact : IsExact (pos 0)
unfolding wrap64 neg
zero-IsExact = refl

abbrev pub IsSound : Request → Type 0
IsSound req = InInt64 req.amount × (pos 0 <ℤ req.amount) × (req.interest ≤ℤ req.amount)

principal_range :
    (req : Request)
    → IsSound req
    → (pos 0 ≤ℤ (req.amount -ℤ interest_of req)) × InInt64 (req.amount -ℤ interest_of req)
unfolding max_int64 ◌-ℤ◌
principal_range req s = ground arith

effect_for_lem : (t : TxnType) (req : Request) → IsSound req → effect_for t req ≡ exact_effect t req
unfolding effect_for
effect_for_lem TxnType.customer_receipt req (r, p, h) = positive-IsExact req.amount r (omega arith)
effect_for_lem TxnType.petty_cash_return req (r, p, h) = positive-IsExact req.amount r (omega arith)
effect_for_lem TxnType.loan_receipt req (r, p, h) = positive-IsExact req.amount r (omega arith)
effect_for_lem TxnType.loan_repayment req (r, p, h) = principal_lem req r p h
effect_for_lem _ req s = refl

exact_effect-IsExact : (t : TxnType) (req : Request) → IsSound req → IsExact (exact_effect t req)
exact_effect-IsExact TxnType.customer_receipt req (r, p, h) = negative-IsExact req.amount r
exact_effect-IsExact TxnType.petty_cash_return req (r, p, h) = negative-IsExact req.amount r
exact_effect-IsExact TxnType.loan_receipt req (r, p, h) = negative-IsExact req.amount r
exact_effect-IsExact TxnType.supplier_payment req (r, p, h) =
    positive-IsExact req.amount r (omega arith)
exact_effect-IsExact TxnType.petty_cash_funding req (r, p, h) =
    positive-IsExact req.amount r (omega arith)
exact_effect-IsExact TxnType.loan_repayment req s =
    let (n, r) = principal_range req s in positive-IsExact (req.amount -ℤ interest_of req) r n
exact_effect-IsExact _ req s = zero-IsExact

double_neg-IsExact : (a : ℤ) → InInt64 a → pos 0 ≤ℤ a → IsExact (neg (neg a))
double_neg-IsExact a r p =
    ap neg64 (double_neg a) ∙ positive-IsExact a r p ∙ ap neg (omega int_laws)

neg_zero-IsExact : IsExact (neg (pos 0))
unfolding wrap64 neg
neg_zero-IsExact = refl

taken_back-IsExact :
    (t : TxnType) (req : Request) → IsSound req → IsExact (neg (exact_effect t req))
taken_back-IsExact TxnType.customer_receipt req (r, p, h) =
    double_neg-IsExact req.amount r (omega arith)
taken_back-IsExact TxnType.petty_cash_return req (r, p, h) =
    double_neg-IsExact req.amount r (omega arith)
taken_back-IsExact TxnType.loan_receipt req (r, p, h) =
    double_neg-IsExact req.amount r (omega arith)
taken_back-IsExact TxnType.supplier_payment req (r, p, h) = negative-IsExact req.amount r
taken_back-IsExact TxnType.petty_cash_funding req (r, p, h) = negative-IsExact req.amount r
taken_back-IsExact TxnType.loan_repayment req s =
    let (n, r) = principal_range req s in negative-IsExact (req.amount -ℤ interest_of req) r
taken_back-IsExact _ req s = neg_zero-IsExact

effect_of :
    (t : TxnType) (req : Request)
    → type_of req.txn_type ≡ some t
    → IsSound req
    → party_balance_effect req ≡ exact_effect t req
unfolding party_balance_effect
effect_of t req known s =
    ap (λ o. elim o [ none ↦ pos 0 | some u ↦ effect_for u req ]) known ∙ effect_for_lem t req s

-- The signed effect of either call, and that negating it is exact.
pub posted_effect :
    (t : TxnType) (req : Request)
    → type_of req.txn_type ≡ some t
    → IsSound req
    → (signed_effect false req ≡ exact_effect t req) × IsExact (signed_effect false req)
posted_effect t req known s =
    let e = effect_of t req known s in (e, rw e (exact_effect-IsExact t req s))

pub reversed_effect :
    (t : TxnType) (req : Request)
    → type_of req.txn_type ≡ some t
    → IsSound req
    → (signed_effect true req ≡ neg (exact_effect t req)) × IsExact (signed_effect true req)
reversed_effect t req known s =
    let e = ap neg64 (effect_of t req known s) ∙ exact_effect-IsExact t req s in
    (e, rw e (taken_back-IsExact t req s))

-- What is not taken back: the interest of a loan repayment.
abbrev pub left_over : TxnType → Request → ℤ
left_over TxnType.loan_repayment req = interest_of req
left_over _ req = pos 0

pub effects_cancel :
    (t : TxnType) (req again : Request)
    → again.amount ≡ req.amount
    → again.interest ≡ pos 0
    → exact_effect t req +ℤ neg (exact_effect t again) ≡ neg (left_over t req)
unfolding max_int64
effects_cancel TxnType.loan_repayment req again a i = rw (a, i) (omega int_laws)
effects_cancel TxnType.customer_receipt req again a i = rw a (omega int_laws)
effects_cancel TxnType.supplier_payment req again a i = rw a (omega int_laws)
effects_cancel TxnType.petty_cash_funding req again a i = rw a (omega int_laws)
effects_cancel TxnType.petty_cash_return req again a i = rw a (omega int_laws)
effects_cancel TxnType.loan_receipt req again a i = rw a (omega int_laws)
effects_cancel _ req again a i = omega int_laws
