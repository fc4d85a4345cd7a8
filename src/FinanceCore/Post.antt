-- ===== src/FinanceCore/Post.antt =====
-- financecore/service.go: `PostTransaction` and `ReverseTransaction`.
pub mod Posted
pub mod Undone
pub mod Calls
pub mod Reversed
pub mod Mirrored
pub mod Written
pub mod Succeeds
mod Tests
use textile_erp_cloud.Base.{
  suc, Bool, true, false, not, ◌&&◌, ◌||◌, Option, none, some, [], ◌∷◌, ◌++◌, map, ltb,
  if◌then◌else◌, find, is_some, length,
}
use textile_erp_cloud.Base.Int.{ℤ, pos, ltb_ℤ, leb_ℤ, beq_ℤ}
use textile_erp_cloud.Base.Result.{Result, ok, err}
use textile_erp_cloud.Base.Text.{Text, codes, text_eq, is_empty, trim_space}
use textile_erp_cloud.FinanceCore.Types.{type_of, type_rule, Account, Role, Request, Error}
use textile_erp_cloud.FinanceCore.Validate.{normalize, validate}
use textile_erp_cloud.FinanceCore.Plan.{posting_plan, substitute_cash}
use textile_erp_cloud.FinanceCore.Dates.{Date, accounting_date, accounting_clock}
use textile_erp_cloud.FinanceCore.Store.{
  active, voided, BankAccount, BankTxn, Db, Tx, ◌>>=◌, ◌>>◌, pure, lift, gets, or_fail, transaction,
  modify, fail_if,
}
use textile_erp_cloud.FinanceCore.Lookups.{
  ensure_bank_account, ensure_counter_account, ensure_party_role,
}
use textile_erp_cloud.FinanceCore.Vouchers.{insert_voucher, reverse_voucher}
use textile_erp_cloud.FinanceCore.Effects.{change_party_balance, save_allocations}

pub data Outcome : Type 0 where
  created duplicate : Outcome

pub record PostResult : Type 0 where
  pub outcome : Outcome
  pub txn : ℤ
  pub voucher : ℤ

abbrev pub txn_by_external : ℤ → Text → Db → Option BankTxn
txn_by_external co id db = find (λ t. beq_ℤ t.company co && text_eq t.external_id id) db.txns

abbrev pub txn_by_id : ℤ → ℤ → Db → Option BankTxn
txn_by_id co id db = find (λ t. beq_ℤ t.company co && beq_ℤ t.id id) db.txns

-- The assignments of `PostTransaction` before the transaction begins.
unfoldable pub prepare : Request → Request
prepare raw =
    let req = normalize raw in
    record req {
      source = if is_empty (trim_space req.source) then codes "HESABYAR" else req.source;
    }

abbrev pub implied_role : Request → Option Role
implied_role req = elim (type_of req.txn_type) [ none ↦ none | some t ↦ (type_rule t).implied_role ]

abbrev pub role_for : ℤ → Request → Option Role → Tx (Unit {0})
role_for co req none = pure tt
role_for co req (some role) =
    if ltb_ℤ (pos 0) req.party_id then ensure_party_role co req.party_id role else pure tt

unfoldable pub ensure_role : ℤ → Request → Tx (Unit {0})
ensure_role co req = role_for co req (implied_role req)

-- The clock of the request, or else the one behind its date.
abbrev pub clock_of : Request → Option Text
clock_of req = if is_empty (trim_space req.time) then accounting_clock req.date else some req.time

abbrev pub till_account : Bool → Account
till_account true = Account.cash
till_account false = Account.bank

-- The branch `withGL`: the voucher's id, or 0.
unfoldable pub post_voucher_of : ℤ → Request → Date → Bool → Bool → Tx ℤ
post_voucher_of co req date is_cash false = pure (pos 0)
post_voucher_of co req date is_cash true = do
  legs ← lift (posting_plan req)
  insert_voucher co req date (substitute_cash (till_account is_cash) legs)

allowed_source : Text → Bool
allowed_source s =
    text_eq s (codes "HESABYAR")
    || text_eq s (codes "ERP_MANUAL")
    || text_eq s (codes "IMPORT")
    || text_eq s (codes "SYSTEM")
    || text_eq s (codes "OPERATIONAL")

-- The constraints of bank_transactions that the checked request does not already meet: the foreign
-- key of the party, which in this table names the party alone, the sign of the interest, the sources and the widths of the VARCHAR columns.
unfoldable pub fits_table : Request → Text → Db → Bool
unfolding allowed_source
fits_table req time db =
    (beq_ℤ req.party_id (pos 0) || is_some (find (λ p. beq_ℤ p.id req.party_id) db.parties))
    && leb_ℤ (pos 0) req.interest
    && allowed_source req.source
    && not (ltb 10 (length time))
    && not (ltb 120 (length req.idempotency_key))

abbrev pub txn_row : ℤ → Request → Date → Text → ℤ → ℤ → ℤ → ℤ → BankTxn
txn_row co req date time bank counter voucher id = record {
  id = id;
  company = co;
  external_id = req.external_id;
  bank_account_id = bank;
  direction = req.direction;
  amount = req.amount;
  date = date;
  time = time;
  txn_type = req.txn_type;
  party = req.party_id;
  counter_account = counter;
  interest = req.interest;
  status = active;
  voucher = voucher;
}

abbrev pub add_txn : BankTxn → Db → Db
add_txn t db = record db { txns = db.txns ++ (t ∷ []); next_txn = suc db.next_txn }

unfoldable pub insert_txn : ℤ → Request → Date → Text → ℤ → ℤ → ℤ → Tx ℤ
insert_txn co req date time bank counter voucher db =
    if fits_table req time db
    then ok (
      pos db.next_txn,
      add_txn (txn_row co req date time bank counter voucher (pos db.next_txn)) db,
    )
    else err Error.constraint_failed

-- What the statements before the voucher find out: the accounts, the date and the clock.
abbrev pub Found : Type 0
Found = BankAccount × ℤ × Date × Text

unfoldable pub look_up : ℤ → Request → Tx Found
look_up co req = do
  bank ← ensure_bank_account co req.bank_account_id req.bank_account_name
  counter ← ensure_counter_account co req
  fail_if (ltb_ℤ (pos 0) counter && beq_ℤ counter bank.id) Error.same_account
  ensure_role co req
  date ← or_fail (accounting_date req.date) Error.bad_date
  time ← or_fail (clock_of req) Error.bad_date
  pure (bank, counter, date, time)

-- The statements that write the voucher, the transaction, the balance and the allocations.
unfoldable pub write_all : ℤ → Request → Bool → Found → Tx PostResult
write_all co req with_gl (bank, counter, date, time) = do
  voucher ← post_voucher_of co req date bank.is_cash with_gl
  txn ← insert_txn co req date time bank.id counter voucher
  change_party_balance co req false
  save_allocations co txn req
  pure (record { outcome = Outcome.created; txn = txn; voucher = voucher })

-- `PostTransaction` after the duplicate check.
unfoldable pub post_new : ℤ → Request → Bool → Tx PostResult
unfolding look_up write_all
post_new co req with_gl = look_up co req >>= write_all co req with_gl

abbrev pub duplicate_of : BankTxn → PostResult
duplicate_of t = record { outcome = Outcome.duplicate; txn = t.id; voucher = pos 0 }

abbrev pub reuse_or_post : ℤ → Request → Bool → Option BankTxn → Tx PostResult
reuse_or_post co req with_gl (some t) = pure (duplicate_of t)
reuse_or_post co req with_gl none = post_new co req with_gl

unfoldable pub post_body : ℤ → Request → Bool → Tx PostResult
post_body co req with_gl = do
  known ← gets (txn_by_external co req.external_id)
  reuse_or_post co req with_gl known

unfoldable pub post_transaction : ℤ → Request → Bool → Db → Result Error PostResult × Db
post_transaction co raw with_gl db = elim (validate raw) [
  | err e ↦ (err e, db)
  | ok _ ↦ transaction (post_body co (prepare raw) with_gl) db
]

-- The request that `ReverseTransaction` builds of a stored transaction: without the interest.
abbrev pub reversal_request : BankTxn → Request
reversal_request t = record {
  external_id = [];
  idempotency_key = [];
  bank_account_id = pos 0;
  bank_account_name = [];
  direction = t.direction;
  amount = t.amount;
  date = [];
  time = [];
  txn_type = t.txn_type;
  party_id = t.party;
  counter_account_id = pos 0;
  counter_account_name = [];
  interest = pos 0;
  description = [];
  bank_reference = [];
  source = [];
  raw_reference = [];
  allocations = [];
}

abbrev pub is_active_txn : BankTxn → Bool
is_active_txn t = elim t.status [ active ↦ true | _ ↦ false ]

abbrev pub void_if : ℤ → ℤ → BankTxn → BankTxn
void_if co id t =
    if beq_ℤ t.company co && beq_ℤ t.id id && is_active_txn t
    then record t { status = voided }
    else t

unfoldable pub void_txn : ℤ → ℤ → Db → Db
void_txn co id db = record db { txns = map (void_if co id) db.txns }

-- `INSERT INTO migration_review_queue … ON CONFLICT DO NOTHING`
unfoldable pub queue_review : ℤ → Text → Db → Db
queue_review co ref db =
    if is_some (find (λ r. beq_ℤ r.0 co && text_eq r.1 ref) db.review_queue)
    then db
    else record db { review_queue = db.review_queue ++ ((co, ref) ∷ []) }

abbrev pub reverse_voucher_of : ℤ → BankTxn → Tx (Unit {0})
reverse_voucher_of co t = if ltb_ℤ (pos 0) t.voucher then reverse_voucher co t.voucher else pure tt

abbrev pub reverse_balance_of : ℤ → BankTxn → Tx (Unit {0})
reverse_balance_of co t =
    if ltb_ℤ (pos 0) t.party then change_party_balance co (reversal_request t) true else pure tt

-- `ReverseTransaction` once the row is read.
abbrev pub reverse_row : ℤ → ℤ → BankTxn → Tx (Unit {0})
reverse_row co id t = do
  fail_if (not (is_active_txn t)) Error.not_active
  reverse_voucher_of co t
  reverse_balance_of co t
  modify (void_txn co id)
  modify (queue_review co t.external_id)

abbrev pub reverse_found : ℤ → ℤ → Option BankTxn → Tx (Unit {0})
reverse_found co id found = or_fail found Error.txn_not_found >>= λ t. reverse_row co id t

unfoldable pub reverse_body : ℤ → ℤ → Tx (Unit {0})
reverse_body co id = do found ← gets (txn_by_id co id); reverse_found co id found

unfoldable pub reverse_transaction : ℤ → ℤ → Db → Result Error (Unit {0}) × Db
reverse_transaction co id = transaction (reverse_body co id)
