-- ===== src/FinanceCore/Lookups.antt =====
-- financecore/service.go: `ensureBankAccount`, `ensureCounterAccount`, `ensurePartyRole`,
pub mod Keeps
-- `ensureBranch`, `ensureAccount`.
use textile_erp_cloud.Base.{
  ℕ, suc, Bool, true, false, not, ◌&&◌, Option, none, some, [], ◌∷◌, ◌++◌, ltb, if◌then◌else◌, find,
  is_some, length,
}
use textile_erp_cloud.Base.Int.{ℤ, pos, ltb_ℤ, beq_ℤ}
use textile_erp_cloud.Base.Result.{ok, err}
use textile_erp_cloud.Base.Text.{Text, text_eq, is_empty, trim_space}
use textile_erp_cloud.FinanceCore.Types.{type_of, type_rule, Role, Account, Request, Error}
use textile_erp_cloud.FinanceCore.Store.{
  BankAccount, Db, Tx, ◌>>=◌, ◌>>◌, pure, fail, or_fail, gets, modify, fail_if,
}

is_role : Role → Role → Bool
is_role Role.customer Role.customer = true
is_role Role.supplier Role.supplier = true
is_role Role.employee Role.employee = true
is_role Role.petty_cash_holder Role.petty_cash_holder = true
is_role Role.owner Role.owner = true
is_role _ _ = false

-- Codes of the chart, by which two accounts are told apart.
account_code : Account → ℕ
account_code Account.cash = 1110
account_code Account.bank = 1120
account_code Account.petty_cash = 1150
account_code Account.receivable = 1200
account_code Account.check_receivable = 1210
account_code Account.fixed_asset = 1400
account_code Account.payable = 2100
account_code Account.check_payable = 2110
account_code Account.clearing = 2190
account_code Account.loan = 2200
account_code Account.owner_equity = 3100
account_code Account.owner_drawing = 3250
account_code Account.sales = 4200
account_code Account.other_income = 4900
account_code Account.operating_expense = 5900
account_code Account.bank_fee_expense = 5910
account_code Account.payroll_expense = 5920
account_code Account.interest_expense = 5930

abbrev pub account_by_id : ℤ → ℤ → Db → Option BankAccount
account_by_id co id db =
    find (λ a. beq_ℤ a.company co && beq_ℤ a.id id && a.is_active) db.bank_accounts

abbrev pub account_by_name : ℤ → Text → Db → Option BankAccount
account_by_name co name db = find (λ a. beq_ℤ a.company co && text_eq a.name name) db.bank_accounts

abbrev pub new_account : ℤ → Text → Db → BankAccount
new_account co name db = record {
  id = pos db.next_account;
  company = co;
  name = name;
  is_cash = false;
  is_active = true;
}

-- `INSERT … ON CONFLICT (company_id, name) DO UPDATE … RETURNING`; the name is a VARCHAR(120).
unfoldable pub upsert_account : ℤ → Text → Tx BankAccount
upsert_account co name db =
    if ltb 120 (length name)
    then err Error.constraint_failed
    else elim (account_by_name co name db) [
      | some a ↦ ok (a, db)
      | none ↦ ok (
        new_account co name db,
        record db {
          bank_accounts = db.bank_accounts ++ (new_account co name db ∷ []);
          next_account = suc db.next_account;
        },
      )
    ]

unfoldable pub ensure_bank_account : ℤ → ℤ → Text → Tx BankAccount
ensure_bank_account co requested name =
    if ltb_ℤ (pos 0) requested
    then (gets (account_by_id co requested) >>= λ a. or_fail a Error.bank_not_found)
    else if is_empty (trim_space name)
    then fail Error.bank_required
    else upsert_account co (trim_space name)

abbrev pub requires_counter : Request → Bool
requires_counter req = elim (type_of req.txn_type) [
  | none ↦ false
  | some t ↦ (type_rule t).requires_counter
]

unfoldable pub ensure_counter_account : ℤ → Request → Tx ℤ
ensure_counter_account co req =
    if not (requires_counter req)
    then pure (pos 0)
    else if ltb_ℤ (pos 0) req.counter_account_id
    then (gets (account_by_id co req.counter_account_id) >>= λ a.
        or_fail a Error.counter_not_found >>= λ b. pure b.id)
    else if is_empty (trim_space req.counter_account_name)
    then fail Error.counter_required
    else (upsert_account co (trim_space req.counter_account_name) >>= λ a. pure a.id)

abbrev pub party_exists : ℤ → ℤ → Db → Bool
party_exists co party db = is_some (find (λ p. beq_ℤ p.id party && beq_ℤ p.company co) db.parties)

-- `INSERT INTO party_roles … ON CONFLICT DO NOTHING`
unfoldable pub add_role : ℤ → Role → Db → Db
unfolding is_role
add_role party role db =
    if is_some (find (λ r. beq_ℤ r.0 party && is_role r.1 role) db.party_roles)
    then db
    else record db { party_roles = db.party_roles ++ ((party, role) ∷ []) }

unfoldable pub ensure_party_role : ℤ → ℤ → Role → Tx (Unit {0})
ensure_party_role co party role = do
  known ← gets (party_exists co party)
  fail_if (not known) Error.party_not_found
  modify (add_role party role)

unfoldable pub ensure_branch : ℤ → Db → Db
ensure_branch co db =
    if is_some (find (beq_ℤ co) db.branches)
    then db
    else record db { branches = db.branches ++ (co ∷ []) }

unfoldable pub ensure_account : ℤ → Account → Db → Db
unfolding account_code
ensure_account co account db =
    if is_some (
      find (λ a. beq_ℤ a.0 co && beq_ℤ (pos (account_code a.1)) (pos (account_code account)))
        db.accounts)
    then db
    else record db { accounts = db.accounts ++ ((co, account) ∷ []) }
