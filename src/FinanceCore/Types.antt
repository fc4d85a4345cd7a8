-- ===== src/FinanceCore/Types.antt =====
-- financial/internal/application/financecore/service.go: the transaction types with their rules, the
-- chart of accounts and the posting request.
use textile_erp_cloud.Base.{Bool, true, false, Option, none, some, List, [], ◌∷◌, find}
use textile_erp_cloud.Base.Int.{ℤ}
use textile_erp_cloud.Base.Text.{Text, codes, text_eq}

pub data TxnType : Type 0 where
  customer_receipt direct_expense supplier_payment payroll_payment internal_transfer : TxnType
  petty_cash_funding petty_cash_return loan_receipt loan_repayment owner_deposit : TxnType
  owner_withdrawal asset_purchase bank_fee check_receipt check_payment refund : TxnType
  other_receipt other_payment : TxnType

-- The constants `TypeCustomerReceipt`, ….
unfoldable pub type_name : TxnType → Text
type_name TxnType.customer_receipt = codes "CUSTOMER_RECEIPT"
type_name TxnType.direct_expense = codes "DIRECT_EXPENSE"
type_name TxnType.supplier_payment = codes "SUPPLIER_PAYMENT"
type_name TxnType.payroll_payment = codes "PAYROLL_PAYMENT"
type_name TxnType.internal_transfer = codes "INTERNAL_TRANSFER"
type_name TxnType.petty_cash_funding = codes "PETTY_CASH_FUNDING"
type_name TxnType.petty_cash_return = codes "PETTY_CASH_RETURN"
type_name TxnType.loan_receipt = codes "LOAN_RECEIPT"
type_name TxnType.loan_repayment = codes "LOAN_REPAYMENT"
type_name TxnType.owner_deposit = codes "OWNER_DEPOSIT"
type_name TxnType.owner_withdrawal = codes "OWNER_WITHDRAWAL"
type_name TxnType.asset_purchase = codes "ASSET_PURCHASE"
type_name TxnType.bank_fee = codes "BANK_FEE"
type_name TxnType.check_receipt = codes "CHECK_RECEIPT"
type_name TxnType.check_payment = codes "CHECK_PAYMENT"
type_name TxnType.refund = codes "REFUND"
type_name TxnType.other_receipt = codes "OTHER_RECEIPT"
type_name TxnType.other_payment = codes "OTHER_PAYMENT"

abbrev all_types : List TxnType
all_types =
    TxnType.customer_receipt ∷ TxnType.direct_expense ∷ TxnType.supplier_payment
    ∷ TxnType.payroll_payment ∷ TxnType.internal_transfer ∷ TxnType.petty_cash_funding
    ∷ TxnType.petty_cash_return ∷ TxnType.loan_receipt ∷ TxnType.loan_repayment
    ∷ TxnType.owner_deposit ∷ TxnType.owner_withdrawal ∷ TxnType.asset_purchase ∷ TxnType.bank_fee
    ∷ TxnType.check_receipt ∷ TxnType.check_payment ∷ TxnType.refund ∷ TxnType.other_receipt
    ∷ TxnType.other_payment ∷ []

-- The type that a string names: the key of a map look-up or the case of a `switch`.
unfoldable pub type_of : Text → Option TxnType
unfolding type_name text_eq
type_of s = find (λ t. text_eq (type_name t) s) all_types

pub data Role : Type 0 where
  customer supplier employee petty_cash_holder owner : Role

abbrev pub dir_in : Text
dir_in = codes "IN"

abbrev pub dir_out : Text
dir_out = codes "OUT"

abbrev pub dir_any : Text
dir_any = []

-- `implied_role` is `none` for the empty string.
pub record TypeRule : Type 0 where
  pub direction : Text
  pub requires_party : Bool
  pub implied_role : Option Role
  pub requires_counter : Bool
  pub cash_legs : Bool

abbrev party_rule : Text → Role → Bool → TypeRule
party_rule dir role cash = record {
  direction = dir;
  requires_party = true;
  implied_role = some role;
  requires_counter = false;
  cash_legs = cash;
}

abbrev plain_rule : Text → TypeRule
plain_rule dir = record {
  direction = dir;
  requires_party = false;
  implied_role = none;
  requires_counter = false;
  cash_legs = true;
}

-- `typeRules`.
unfoldable pub type_rule : TxnType → TypeRule
type_rule TxnType.customer_receipt = party_rule dir_in Role.customer true
type_rule TxnType.direct_expense = plain_rule dir_out
type_rule TxnType.supplier_payment = party_rule dir_out Role.supplier true
type_rule TxnType.payroll_payment = party_rule dir_out Role.employee true
type_rule TxnType.internal_transfer = record {
  direction = dir_any;
  requires_party = false;
  implied_role = none;
  requires_counter = true;
  cash_legs = true;
}
type_rule TxnType.petty_cash_funding = party_rule dir_out Role.petty_cash_holder true
type_rule TxnType.petty_cash_return = party_rule dir_in Role.petty_cash_holder true
type_rule TxnType.loan_receipt = plain_rule dir_in
type_rule TxnType.loan_repayment = plain_rule dir_out
type_rule TxnType.owner_deposit = plain_rule dir_in
type_rule TxnType.owner_withdrawal = plain_rule dir_out
type_rule TxnType.asset_purchase = plain_rule dir_out
type_rule TxnType.bank_fee = plain_rule dir_out
type_rule TxnType.check_receipt = party_rule dir_in Role.customer false
type_rule TxnType.check_payment = party_rule dir_out Role.supplier false
type_rule TxnType.refund = plain_rule dir_in
type_rule TxnType.other_receipt = plain_rule dir_in
type_rule TxnType.other_payment = plain_rule dir_out

-- The keys of `canonicalAccounts`.
pub data Account : Type 0 where
  cash bank petty_cash receivable check_receivable fixed_asset payable check_payable : Account
  clearing loan owner_equity owner_drawing sales other_income operating_expense : Account
  bank_fee_expense payroll_expense interest_expense : Account

pub record AllocationInput : Type 0 where
  pub document_type : Text
  pub document_id : Text
  pub allocated : ℤ

pub record Request : Type 0 where
  pub external_id : Text
  pub idempotency_key : Text
  pub bank_account_id : ℤ
  pub bank_account_name : Text
  pub direction : Text
  pub amount : ℤ
  pub date : Text
  pub time : Text
  pub txn_type : Text
  pub party_id : ℤ
  pub counter_account_id : ℤ
  pub counter_account_name : Text
  pub interest : ℤ
  pub description : Text
  pub bank_reference : Text
  pub source : Text
  pub raw_reference : Text
  pub allocations : List AllocationInput

pub data Error : Type 0 where
  missing_id long_id bad_amount unknown_type bad_direction wrong_direction : Error
  party_required counter_required same_account negative_interest large_interest : Error
  allocation_not_allowed bad_allocation bad_document_type too_much_allocated : Error
  bank_not_found bank_required counter_not_found party_not_found bad_date : Error
  txn_not_found not_active : Error
  -- a statement that a constraint of the database refuses
  constraint_failed : Error
