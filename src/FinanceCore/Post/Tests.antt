-- ===== src/FinanceCore/Post/Tests.antt =====
-- A company with one till and one party, and runs over it.
mod Success
use textile_erp_cloud.Base.{true, false, ◌≡◌, ◌↔◌, refl, some, List, [], ◌∷◌, map, arith, All}
use textile_erp_cloud.Base.Result.{ok, err}
use textile_erp_cloud.Base.Text.{
  Text, codes, trim_space, byte_len, to_upper, equal_fold, is_space, text_eq,
}
use textile_erp_cloud.Base.Int64.{InInt64, wrap64}
use textile_erp_cloud.Base.Int.{ℤ, pos, ◌+ℤ◌, ◌-ℤ◌, neg}
use textile_erp_cloud.FinanceCore.Types.{
  TxnType, Request, AllocationInput, Error, type_of, type_rule, type_name,
}
use textile_erp_cloud.FinanceCore.Validate.{
  validate, validate_clean, normalize, validate_allocations, allocation_total, allowed_document,
  max_int64,
}
use textile_erp_cloud.FinanceCore.Accept.{IsAccepted, validate_iff}
use textile_erp_cloud.FinanceCore.Plan.{
  Leg, effect_for, party_balance_effect, plan_for, posting_plan, repayment_legs, substitute_cash,
  transfer_legs,
}
use textile_erp_cloud.FinanceCore.Balance.{IsBalanced, posting_plan-IsBalanced}
use textile_erp_cloud.FinanceCore.Dates.{
  accounting_date, accounting_clock, layout_date, numbers_date, parts_date, western, is_day,
}
use textile_erp_cloud.FinanceCore.Dates.Real.{IsRealDate, accounting_date-IsRealDate}
use textile_erp_cloud.FinanceCore.Jalali.{
  century_step, is_leap, jalali_days, jalali_to_gregorian, month_days, month_loop, split_year,
  year_step,
}
use textile_erp_cloud.FinanceCore.Jalali.Months.{IsDate, jalali_to_gregorian-IsDate}
use textile_erp_cloud.FinanceCore.Store.{BankAccount, Db, is_decimal, is_party_of}
use textile_erp_cloud.FinanceCore.Lookups.{
  ensure_bank_account, ensure_counter_account, ensure_party_role, upsert_account, add_role,
  ensure_account, ensure_branch,
}
use textile_erp_cloud.FinanceCore.Effects.{
  balances_after, fits_balances, change_party_balance, apply_party_balance, change_balance,
  insert_allocation, insert_allocations, save_allocations, save_remainder,
}
use textile_erp_cloud.FinanceCore.Effects.Allocations.{requested}
use textile_erp_cloud.FinanceCore.Effects.Net.{net, owed}
use textile_erp_cloud.FinanceCore.Effects.Undo.{left_over}
use textile_erp_cloud.FinanceCore.Vouchers.{
  draft_voucher, insert_lines, insert_voucher, is_one_sided, has_fit_sides, key_eq, post_voucher,
  write_voucher, reverse_voucher, write_reversal, mirror_lines,
}
use textile_erp_cloud.FinanceCore.Vouchers.Book.{IsBookBalanced}
use textile_erp_cloud.FinanceCore.Post.{
  Outcome, PostResult, post_transaction, reverse_transaction, post_body, post_new, look_up,
  write_all, prepare, ensure_role, fits_table, insert_txn, post_voucher_of, reverse_body, void_txn,
  queue_review,
}
use textile_erp_cloud.FinanceCore.Post.Written.{IsPostOutcome, post_transaction_lem}
use textile_erp_cloud.FinanceCore.Post.Mirrored.{
  IsStoredRow, IsReverseResult, reverse_transaction_lem,
}
use textile_erp_cloud.FinanceCore.Post.Calls.{
  Reaches, start, next, post, reverse, calls-IsBookBalanced, post_again, reverse_again,
}
use textile_erp_cloud.FinanceCore.Post.Undone.{post_then_reverse}

-- Unfolds all that a run computes with.
unfoldable running : Unit {0}
unfolding trim_space byte_len to_upper equal_fold is_space text_eq wrap64 ◌+ℤ◌ ◌-ℤ◌ neg type_of
    type_rule type_name validate validate_clean normalize validate_allocations allocation_total
    allowed_document max_int64 effect_for party_balance_effect plan_for posting_plan repayment_legs
    substitute_cash transfer_legs accounting_date accounting_clock layout_date numbers_date
    parts_date is_day western century_step is_leap jalali_days jalali_to_gregorian month_days
    month_loop split_year year_step ensure_bank_account ensure_counter_account ensure_party_role
    upsert_account add_role ensure_account ensure_branch apply_party_balance change_balance
    insert_allocation insert_allocations save_allocations save_remainder draft_voucher insert_lines
    insert_voucher is_one_sided has_fit_sides is_decimal is_party_of fits_balances
    change_party_balance key_eq post_voucher write_voucher reverse_voucher write_reversal
    mirror_lines post_transaction reverse_transaction post_body post_new prepare ensure_role
    fits_table insert_txn post_voucher_of look_up write_all balances_after reverse_body void_txn
    queue_review
running = tt

abbrev pub till : BankAccount
till = record { id = pos 1; company = pos 7; name = codes "main"; is_cash = true; is_active = true }

abbrev pub empty_db : Db
empty_db = record {
  bank_accounts = till ∷ [];
  parties = record { id = pos 5; company = pos 7 } ∷ [];
  party_roles = [];
  txns = [];
  balances = [];
  allocations = [];
  branches = [];
  accounts = [];
  vouchers = [];
  lines = [];
  review_queue = [];
  next_account = 2;
  next_txn = 1;
  next_voucher = 1;
}

abbrev pub request : Text → Text → ℤ → ℤ → List AllocationInput → Request
request kind dir amount interest allocations = record {
  external_id = codes "HY-1";
  idempotency_key = [];
  bank_account_id = pos 1;
  bank_account_name = [];
  direction = dir;
  amount = amount;
  date = codes "1405/06/04";
  time = codes "10:00";
  txn_type = kind;
  party_id = pos 5;
  counter_account_id = pos 0;
  counter_account_name = [];
  interest = interest;
  description = [];
  bank_reference = [];
  source = [];
  raw_reference = [];
  allocations = allocations;
}

abbrev pub receipt : Request
receipt = request (codes " CUSTOMER_RECEIPT") (codes "in") (pos 1000) (pos 0) (
    record { document_type = codes "INVOICE"; document_id = codes "F-1"; allocated = pos 400 } ∷ [])

-- A loan repayment with interest.
abbrev repayment : Request
repayment = request (codes "LOAN_REPAYMENT") (codes "OUT") (pos 1000) (pos 300) []

abbrev created_one : PostResult
created_one = record { outcome = Outcome.created; txn = pos 1; voucher = pos 1 }

receipt_outcome : (post_transaction (pos 7) receipt true empty_db).0 ≡ ok created_one
unfolding running
receipt_outcome = refl

repayment_outcome : (post_transaction (pos 7) repayment true empty_db).0 ≡ ok created_one
unfolding running
repayment_outcome = refl

-- 1000 of which 400 are allocated by hand.
receipt_allocations :
    map (λ a. a.allocated) (post_transaction (pos 7) receipt true empty_db).1.allocations
    ≡ pos 400 ∷ pos 600 ∷ []
unfolding running
receipt_allocations = refl

wrong_till : (post_transaction (pos 8) receipt true empty_db).0 ≡ err Error.bank_not_found
unfolding running
wrong_till = refl

receipt_valid : validate receipt ≡ ok tt
unfolding running
receipt_valid = refl

repayment_reversed :
    (reverse_transaction (pos 7) (pos 1) (post_transaction (pos 7) repayment true empty_db).1).0
    ≡ ok tt
unfolding running
repayment_reversed = refl

abbrev receipt_range : InInt64 receipt.amount
receipt_range = (omega arith, omega arith)

receipt_fits : InInt64 (requested receipt.allocations)
unfolding ◌+ℤ◌
receipt_fits = ground arith

repayment_known : type_of (prepare repayment).txn_type ≡ some TxnType.loan_repayment
unfolding running
repayment_known = refl

accepted : (t : TxnType) × IsAccepted t (normalize receipt)
accepted = (validate_iff receipt).0 receipt_valid

normal_range : InInt64 (normalize receipt).amount
unfolding normalize
normal_range = receipt_range

validate_iff_example :
    (validate receipt ≡ ok tt) ↔ ((t : TxnType) × IsAccepted t (normalize receipt))
validate_iff_example = validate_iff receipt

posting_plan-IsBalanced_example :
    (legs : List Leg) × (posting_plan (normalize receipt) ≡ ok legs)
    × IsBalanced (normalize receipt).amount legs
posting_plan-IsBalanced_example =
    posting_plan-IsBalanced accepted.0 (normalize receipt) normal_range accepted.1

post_transaction_lem_example :
    IsPostOutcome
      (pos 7)
      (prepare receipt)
      empty_db
      (post_transaction (pos 7) receipt true empty_db)
post_transaction_lem_example =
    post_transaction_lem (pos 7) receipt true empty_db receipt_range receipt_fits

post_again_example :
    post_transaction (pos 7) receipt false (post_transaction (pos 7) receipt true empty_db).1 ≡ (
      ok (record { outcome = Outcome.duplicate; txn = pos 1; voucher = pos 0 }),
      (post_transaction (pos 7) receipt true empty_db).1,
    )
post_again_example =
    post_again (pos 7) receipt receipt true false empty_db created_one receipt_range receipt_fits
      receipt_outcome receipt_valid refl

repayment_stored : All IsStoredRow (post_transaction (pos 7) repayment true empty_db).1.txns
unfolding running
repayment_stored = ((TxnType.loan_repayment, refl, (omega arith, omega arith), omega arith), tt)

reverse_transaction_lem_example :
    IsReverseResult
      (pos 7)
      (pos 1)
      (post_transaction (pos 7) repayment true empty_db).1
      (reverse_transaction (pos 7) (pos 1) (post_transaction (pos 7) repayment true empty_db).1)
reverse_transaction_lem_example =
    reverse_transaction_lem (pos 7) (pos 1) (post_transaction (pos 7) repayment true empty_db).1
      repayment_stored

reverse_again_example :
    reverse_transaction
      (pos 7)
      (pos 1)
      (reverse_transaction (pos 7) (pos 1) (post_transaction (pos 7) repayment true empty_db).1).1
    ≡ (
      err Error.not_active,
      (reverse_transaction (pos 7) (pos 1) (post_transaction (pos 7) repayment true empty_db).1).1,
    )
reverse_again_example =
    reverse_again (pos 7) (pos 1) (post_transaction (pos 7) repayment true empty_db).1
      repayment_reversed

abbrev two_calls :
    Reaches empty_db
      (reverse_transaction (pos 7) (pos 1) (post_transaction (pos 7) receipt true empty_db).1).1
two_calls =
    next (next start (post (pos 7) receipt true empty_db receipt_range receipt_fits))
      (reverse (pos 7) (pos 1) (post_transaction (pos 7) receipt true empty_db).1)

calls-IsBookBalanced_example :
    IsBookBalanced
      (reverse_transaction
        (pos 7)
        (pos 1)
        (post_transaction (pos 7) receipt true empty_db).1).1.lines
calls-IsBookBalanced_example = calls-IsBookBalanced empty_db _ two_calls (λ c i. refl)

repayment_party :
    owed
      (pos 7)
      (prepare repayment)
      (pos 7)
      (pos 5)
      (neg (left_over TxnType.loan_repayment (prepare repayment)))
    ≡ neg (pos 300)
unfolding running
repayment_party = refl

post_then_reverse_example :
    net
      (pos 7)
      (pos 5)
      (reverse_transaction
        (pos 7)
        (pos 1)
        (post_transaction (pos 7) repayment true empty_db).1).1.balances
    ≡ net (pos 7) (pos 5) empty_db.balances
      +ℤ owed
          (pos 7)
          (prepare repayment)
          (pos 7)
          (pos 5)
          (neg (left_over TxnType.loan_repayment (prepare repayment)))
post_then_reverse_example =
    post_then_reverse TxnType.loan_repayment (pos 7) repayment true empty_db created_one
      (omega arith, omega arith) (omega arith, omega arith) tt repayment_known repayment_outcome
      refl repayment_reversed (pos 7) (pos 5)

jalali_to_gregorian-IsDate_example :
    IsDate (jalali_days 1403 12 30) (jalali_to_gregorian 1403 12 30)
jalali_to_gregorian-IsDate_example = jalali_to_gregorian-IsDate 1403 12 30

written_date : accounting_date (codes "1405/06/04 10:00") ≡ some (2026, 8, 26)
unfolding running
written_date = refl

accounting_date-IsRealDate_example : IsRealDate (2026, 8, 26)
accounting_date-IsRealDate_example =
    accounting_date-IsRealDate (codes "1405/06/04 10:00") (2026, 8, 26) written_date
