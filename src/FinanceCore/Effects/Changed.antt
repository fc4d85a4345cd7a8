-- ===== src/FinanceCore/Effects/Changed.antt =====
-- `applyPartyBalance` of financecore/service.go either breaks a constraint or makes its change.
use textile_erp_cloud.Base.{◌≡◌, refl, Bool, true}
use textile_erp_cloud.Base.Int.{ℤ}
use textile_erp_cloud.FinanceCore.Types.{Request}
use textile_erp_cloud.FinanceCore.Store.{Db, modify}
use textile_erp_cloud.FinanceCore.Frames.{Ensures, Ensures-check_rows}
use textile_erp_cloud.FinanceCore.Done.{Does, Does-check_rows}
use textile_erp_cloud.FinanceCore.Effects.{fits_balances, apply_party_balance, change_party_balance}

pub change_party_balance_lem :
    (co : ℤ) (req : Request) (reverse : Bool) (db : Db)
    → Ensures
        (λ _ d. d ≡ apply_party_balance co req reverse db)
        (change_party_balance co req reverse db)
unfolding change_party_balance
change_party_balance_lem co req reverse db =
    Ensures-check_rows (λ _ d. d ≡ apply_party_balance co req reverse db)
      (fits_balances co req reverse) (modify (apply_party_balance co req reverse)) db (λ _. refl)

pub change_party_balance-Does :
    (co : ℤ) (req : Request) (reverse : Bool) (db : Db)
    → fits_balances co req reverse db ≡ true
    → Does
        (λ _ d. d ≡ apply_party_balance co req reverse db)
        (change_party_balance co req reverse db)
unfolding change_party_balance
change_party_balance-Does co req reverse db h =
    Does-check_rows (λ _ d. d ≡ apply_party_balance co req reverse db)
      (fits_balances co req reverse) (modify (apply_party_balance co req reverse)) db h refl
