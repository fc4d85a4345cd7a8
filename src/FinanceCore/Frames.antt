-- ===== src/FinanceCore/Frames.antt =====
-- Reasoning about the statements of a transaction: what every successful run leaves as it was.
use textile_erp_cloud.Base.{arith, ◌≡◌, refl, not, Bool, true, false, Option, none, some}
use textile_erp_cloud.Base.Result.{Result, ok, err}
use textile_erp_cloud.FinanceCore.Types.{Error}
use textile_erp_cloud.FinanceCore.Store.{
  Db, Tx, ◌>>=◌, pure, gets, or_fail, lift, fail_if, check_rows, ◌>>◌,
}

-- `P` holds of the value and the tables if the run succeeds.
abbrev pub Ensures : {A : Type 0} → (A → Db → Type 0) → Result Error (A × Db) → Type 0
Ensures P (ok (a, db)) = P a db
Ensures P (err e) = Unit

pub Ensures-weaken :
    {A : Type 0} (P Q : A → Db → Type 0) (r : Result Error (A × Db))
    → ((a : A) (db : Db) → P a db → Q a db)
    → Ensures P r
    → Ensures Q r
Ensures-weaken P Q (ok (a, db)) w h = w a db h
Ensures-weaken P Q (err e) w h = tt

bind_result :
    {A B : Type 0} (P : A → Db → Type 0) (Q : B → Db → Type 0) (r : Result Error (A × Db))
    (f : A → Tx B)
    → Ensures P r
    → ((a : A) (db : Db) → P a db → Ensures Q (f a db))
    → Ensures Q (elim r [ err e ↦ err e | ok (a, db') ↦ f a db' ])
bind_result P Q (ok (a, db)) f h k = k a db h
bind_result P Q (err e) f h k = tt

-- What the first statement ensures, the second may count on.
pub Ensures-bind :
    {A B : Type 0} (P : A → Db → Type 0) (Q : B → Db → Type 0) (m : Tx A) (f : A → Tx B) (db : Db)
    → Ensures P (m db)
    → ((a : A) (db' : Db) → P a db' → Ensures Q (f a db'))
    → Ensures Q ((m >>= f) db)
Ensures-bind P Q m f db h k = bind_result P Q (m db) f h k

by_test :
    {A : Type 0} (P : A → Db → Type 0) (b : Bool) (k : Tx A) (db : Db)
    → (b ≡ true → Ensures P (k db))
    → Ensures P ((fail_if (not b) Error.constraint_failed >>= λ _. k) db)
by_test P true k db h = h refl
by_test P false k db h = tt

-- After a constraint was checked, it holds.
pub Ensures-check_rows :
    {A : Type 0} (P : A → Db → Type 0) (test : Db → Bool) (k : Tx A) (db : Db)
    → (test db ≡ true → Ensures P (k db))
    → Ensures P ((check_rows test >> k) db)
Ensures-check_rows P test k db h = by_test P (test db) k db h

-- A relation between the tables before and after, that steps compose to.
pub record IsFrame (R : Db → Db → Type 0) : Type 0 where
  pub same : (db : Db) → R db db
  pub after : (a b c : Db) → R a b → R b c → R a c

abbrev pub Keeps : (Db → Db → Type 0) → {A : Type 0} → Tx A → Type 0
Keeps R m = (db : Db) → Ensures (λ _ db'. R db db') (m db)

module _ (R : Db → Db → Type 0) (frame : IsFrame R) where
  pub Keeps-pure : {A : Type 0} (a : A) → Keeps R (pure a)
  Keeps-pure a db = frame.same db

  pub Keeps-gets : {A : Type 0} (f : Db → A) → Keeps R (gets f)
  Keeps-gets f db = frame.same db

  pub Keeps-or_fail : {A : Type 0} (o : Option A) (e : Error) → Keeps R (or_fail o e)
  Keeps-or_fail none e db = tt
  Keeps-or_fail (some a) e db = frame.same db

  pub Keeps-lift : {A : Type 0} (r : Result Error A) → Keeps R (lift r)
  Keeps-lift (ok a) db = frame.same db
  Keeps-lift (err e) db = tt

  pub Keeps-fail_if : (b : Bool) (e : Error) → Keeps R (fail_if b e)
  Keeps-fail_if true e db = tt
  Keeps-fail_if false e db = frame.same db

  bind_step :
      {A B : Type 0} (db : Db) (r : Result Error (A × Db)) (f : A → Tx B)
      → Ensures (λ _ db'. R db db') r
      → ((a : A) → Keeps R (f a))
      → Ensures (λ _ db'. R db db') (elim r [ err e ↦ err e | ok (a, db') ↦ f a db' ])
  bind_step db (err e) f h k = tt
  bind_step db (ok (a, db')) f h k =
      Ensures-weaken (λ _ d. R db' d) (λ _ d. R db d) (f a db') (λ _ d r. frame.after db db' d h r)
        (k a db')

  pub Keeps-bind :
      {A B : Type 0} (m : Tx A) (f : A → Tx B)
      → Keeps R m
      → ((a : A) → Keeps R (f a))
      → Keeps R (m >>= f)
  Keeps-bind m f hm hf db = bind_step db (m db) f (hm db) hf

-- The tables of the ledger, which the look-ups and their upserts leave alone.
pub record SameLedger (a b : Db) : Type 0 where
  pub txns : b.txns ≡ a.txns
  pub next_txn : b.next_txn ≡ a.next_txn
  pub balances : b.balances ≡ a.balances
  pub allocations : b.allocations ≡ a.allocations
  pub vouchers : b.vouchers ≡ a.vouchers
  pub next_voucher : b.next_voucher ≡ a.next_voucher
  pub lines : b.lines ≡ a.lines

pub SameLedger-frame : IsFrame SameLedger
SameLedger-frame = record { same = λ db. ground arith; after = λ a b c h k. ground arith }
