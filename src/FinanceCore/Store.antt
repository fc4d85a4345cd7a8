-- ===== src/FinanceCore/Store.antt =====
-- The tables that financecore/service.go reads and writes
-- (financial/internal/infrastructure/persistence/postgres/migrations), and one SQL transaction over
-- them: an error leaves the tables as they were. Rows of all companies lie in one table. NULL in a
-- numeric column is 0, as the code reads it by COALESCE and writes it by NULLIF.
use textile_erp_cloud.Base.{
  ℕ, Bool, true, false, not, ◌&&◌, ◌||◌, Option, none, some, List, find, is_some,
}
use textile_erp_cloud.Base.Int.{ℤ, pos, negsuc, ltb_ℤ, beq_ℤ}
use textile_erp_cloud.Base.Result.{Result, ok, err}
use textile_erp_cloud.Base.Text.{Text}
use textile_erp_cloud.FinanceCore.Types.{Account, Role, Error}
use textile_erp_cloud.FinanceCore.Dates.{Date}

pub record BankAccount : Type 0 where
  pub id : ℤ
  pub company : ℤ
  pub name : Text
  pub is_cash : Bool
  pub is_active : Bool

pub record Party : Type 0 where
  pub id : ℤ
  pub company : ℤ

pub data TxnStatus : Type 0 where
  active voided reversed : TxnStatus

pub record BankTxn : Type 0 where
  pub id : ℤ
  pub company : ℤ
  pub external_id : Text
  pub bank_account_id : ℤ
  pub direction : Text
  pub amount : ℤ
  pub date : Date
  pub time : Text
  pub txn_type : Text
  pub party : ℤ
  pub counter_account : ℤ
  pub interest : ℤ
  pub status : TxnStatus
  pub voucher : ℤ

pub record Balance : Type 0 where
  pub company : ℤ
  pub party : ℤ
  pub of_sub_project : Bool
  pub debit : ℤ
  pub credit : ℤ

pub record Allocation : Type 0 where
  pub company : ℤ
  pub txn : ℤ
  pub document_type : Text
  pub party : ℤ
  pub allocated : ℤ

-- The external keys `FC:<id>` and `FC-R-<voucher>`, and those of other writers.
pub data Key : Type 0 where
  of_txn : Text → Key
  of_reversal : ℤ → Key
  foreign : Text → Key

pub record Voucher : Type 0 where
  pub id : ℤ
  pub company : ℤ
  pub key : Key
  pub date : Date
  pub posted : Bool
  pub reversal_of : ℤ

pub record Line : Type 0 where
  pub company : ℤ
  pub voucher : ℤ
  pub account : Account
  pub party : ℤ
  pub debit : ℤ
  pub credit : ℤ

-- `branches` are the companies with a main branch; `next_*` are the sequences of the BIGSERIAL ids.
pub record Db : Type 0 where
  pub bank_accounts : List BankAccount
  pub parties : List Party
  pub party_roles : List (ℤ × Role)
  pub txns : List BankTxn
  pub balances : List Balance
  pub allocations : List Allocation
  pub branches : List ℤ
  pub accounts : List (ℤ × Account)
  pub vouchers : List Voucher
  pub lines : List Line
  pub review_queue : List (ℤ × Text)
  pub next_account : ℕ
  pub next_txn : ℕ
  pub next_voucher : ℕ

abbrev pub Tx : Type 0 → Type 0
Tx A = Db → Result Error (A × Db)

infixl 5 ◌>>=◌ ◌>>◌
abbrev pub ◌>>=◌ : {A B : Type 0} → Tx A → (A → Tx B) → Tx B
◌>>=◌ m f db = elim (m db) [ err e ↦ err e | ok (a, db') ↦ f a db' ]

abbrev pub ◌>>◌ : {B : Type 0} → Tx (Unit {0}) → Tx B → Tx B
m >> k = m >>= λ _. k

module _ {A : Type 0} where
  abbrev pub pure : A → Tx A
  pure a db = ok (a, db)

  abbrev pub fail : Error → Tx A
  fail e db = err e

  abbrev pub lift : Result Error A → Tx A
  lift (ok a) db = ok (a, db)
  lift (err e) db = err e

  abbrev pub gets : (Db → A) → Tx A
  gets f db = ok (f db, db)

  -- `or_fail` is a query whose `sql.ErrNoRows` becomes an error.
  abbrev pub or_fail : Option A → Error → Tx A
  or_fail none e = fail e
  or_fail (some a) e = pure a

  -- `BeginTx`, the deferred `Rollback` and `Commit`.
  abbrev pub transaction : Tx A → Db → Result Error A × Db
  transaction m db = elim (m db) [ err e ↦ (err e, db) | ok (a, db') ↦ (ok a, db') ]

abbrev pub modify : (Db → Db) → Tx (Unit {0})
modify f db = ok (tt, f db)

abbrev pub fail_if : Bool → Error → Tx (Unit {0})
fail_if true e = fail e
fail_if false e = pure tt

-- A constraint of a table that a statement would break.
abbrev pub check_rows : (Db → Bool) → Tx (Unit {0})
check_rows test db = fail_if (not (test db)) Error.constraint_failed db

-- A whole amount that a column of type DECIMAL(18,2) holds.
unfoldable pub is_decimal : ℤ → Bool
is_decimal x = ltb_ℤ (negsuc 9_999_999_999_999_999) x && ltb_ℤ x (pos 10_000_000_000_000_000)

-- The foreign key (company_id, party_id), where no party is NULL.
unfoldable pub is_party_of : ℤ → ℤ → Db → Bool
is_party_of co party db =
    not (ltb_ℤ (pos 0) party)
    || is_some (find (λ p. beq_ℤ p.id party && beq_ℤ p.company co) db.parties)
