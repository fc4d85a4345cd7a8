-- ===== src/FinanceCore/Done.antt =====
-- Statements of financecore/service.go that go through: what every step needs.
pub mod Journal
pub mod Allocations
use textile_erp_cloud.Base.{◌≡◌, refl, Bool, true, false, not}
use textile_erp_cloud.Base.Result.{Result, ok, err}
use textile_erp_cloud.FinanceCore.Types.{Error}
use textile_erp_cloud.FinanceCore.Store.{Db, Tx, ◌>>=◌, ◌>>◌, fail_if, check_rows}

-- The run succeeds, with a value and tables of which `P` holds.
abbrev pub Does : {A : Type 0} → (A → Db → Type 0) → Result Error (A × Db) → Type 0
Does P (ok (a, db)) = P a db
Does P (err e) = ⊥

pub Does-weaken :
    {A : Type 0} (P Q : A → Db → Type 0) (r : Result Error (A × Db))
    → ((a : A) (db : Db) → P a db → Q a db)
    → Does P r
    → Does Q r
Does-weaken P Q (ok (a, db)) w h = w a db h
Does-weaken P Q (err e) w h = absurd h

bind_result :
    {A B : Type 0} (P : A → Db → Type 0) (Q : B → Db → Type 0) (r : Result Error (A × Db))
    (f : A → Tx B)
    → Does P r
    → ((a : A) (db : Db) → P a db → Does Q (f a db))
    → Does Q (elim r [ err e ↦ err e | ok (a, db') ↦ f a db' ])
bind_result P Q (ok (a, db)) f h k = k a db h
bind_result P Q (err e) f h k = absurd h

pub Does-bind :
    {A B : Type 0} (P : A → Db → Type 0) (Q : B → Db → Type 0) (m : Tx A) (f : A → Tx B) (db : Db)
    → Does P (m db)
    → ((a : A) (db' : Db) → P a db' → Does Q (f a db'))
    → Does Q ((m >>= f) db)
Does-bind P Q m f db h k = bind_result P Q (m db) f h k

by_test :
    {A : Type 0} (P : A → Db → Type 0) (b : Bool) (k : Tx A) (db : Db)
    → b ≡ true
    → Does P (k db)
    → Does P ((fail_if (not b) Error.constraint_failed >>= λ _. k) db)
by_test P true k db e h = h
by_test P false k db e h = absurd (cc)

-- Where a constraint holds, its check goes through.
pub Does-check_rows :
    {A : Type 0} (P : A → Db → Type 0) (test : Db → Bool) (k : Tx A) (db : Db)
    → test db ≡ true
    → Does P (k db)
    → Does P ((check_rows test >> k) db)
Does-check_rows P test k db e h = by_test P (test db) k db e h
