-- ===== src/FinanceCore/Post/Tests/Success.antt =====
-- A receipt that goes through, and a repayment of interest only that does not.
use textile_erp_cloud.Base.{true, false, ◌≡◌, refl, some, [], ◌∷◌}
use textile_erp_cloud.Base.Int.{ℤ, pos}
use textile_erp_cloud.Base.Result.{ok, err}
use textile_erp_cloud.Base.Text.{codes}
use textile_erp_cloud.FinanceCore.Types.{TxnType, type_of, Role, Request, Error}
use textile_erp_cloud.FinanceCore.Validate.{validate}
use textile_erp_cloud.FinanceCore.Store.{Db, is_decimal, is_party_of}
use textile_erp_cloud.FinanceCore.Effects.{fits_balances}
use textile_erp_cloud.FinanceCore.Post.{
  Outcome, PostResult, Found, look_up, fits_table, prepare, post_transaction,
}
use textile_erp_cloud.FinanceCore.Post.Succeeds.{post_creates}
use textile_erp_cloud.FinanceCore.Post.Tests.{
  running, till, empty_db, request, receipt, receipt_range, receipt_valid,
}

abbrev looked_up : Db
looked_up = record empty_db { party_roles = (pos 5, Role.customer) ∷ [] }

abbrev found : Found
found = (till, pos 0, (2026, 8, 26), codes "10:00")

accounts_found : look_up (pos 7) (prepare receipt) empty_db ≡ ok (found, looked_up)
unfolding running
accounts_found = refl

receipt_known : type_of (prepare receipt).txn_type ≡ some TxnType.customer_receipt
unfolding running
receipt_known = refl

balance_fits : fits_balances (pos 7) (prepare receipt) false looked_up ≡ true
unfolding running
balance_fits = refl

amount_fits : is_decimal receipt.amount ≡ true
unfolding running
amount_fits = refl

party_fits : is_party_of (pos 7) (prepare receipt).party_id looked_up ≡ true
unfolding running
party_fits = refl

row_fits : fits_table (prepare receipt) found.3 looked_up ≡ true
unfolding running
row_fits = refl

post_creates_example :
    (r : PostResult) × ((post_transaction (pos 7) receipt true empty_db).0 ≡ ok r)
    × (r.outcome ≡ Outcome.created)
post_creates_example =
    post_creates TxnType.customer_receipt (pos 7) receipt true empty_db looked_up found
      receipt_range receipt_valid receipt_known tt refl accounts_found amount_fits party_fits
      balance_fits row_fits

-- All of it interest: `Validate` accepts it, and the journal refuses the line of the principal, 0.
abbrev interest_only : Request
interest_only = request (codes "LOAN_REPAYMENT") (codes "OUT") (pos 1000) (pos 1000) []

interest_valid : validate interest_only ≡ ok tt
unfolding running
interest_valid = refl

interest_refused :
    (post_transaction (pos 7) interest_only true empty_db).0 ≡ err Error.constraint_failed
unfolding running
interest_refused = refl

-- A loan of a party of another company, and a loan of 10^16: both are valid, and the tables refuse them.
abbrev loan : ℤ → Request
loan amount = request (codes "LOAN_RECEIPT") (codes "IN") amount (pos 0) []

abbrev other_party : Db
other_party = record empty_db { parties = record { id = pos 5; company = pos 8 } ∷ [] }

loan_valid : validate (loan (pos 10_000_000_000_000_000)) ≡ ok tt
unfolding running
loan_valid = refl

loan_refused :
    (post_transaction (pos 7) (loan (pos 1000)) true other_party).0 ≡ err Error.constraint_failed
unfolding running
loan_refused = refl

large_loan_refused :
    (post_transaction (pos 7) (loan (pos 10_000_000_000_000_000)) true empty_db).0
    ≡ err Error.constraint_failed
unfolding running
large_loan_refused = refl
