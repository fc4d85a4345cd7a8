-- ===== src/FinanceCore/Lookups/Keeps.antt =====
-- The look-ups of financecore/service.go and their upserts leave the ledger alone.
use textile_erp_cloud.Base.{inl, inr, arith, ltb, Bool-cases, Option-cases, length}
use textile_erp_cloud.Base.Int.{ℤ, pos, ltb_ℤ}
use textile_erp_cloud.Base.Text.{Text, is_empty, trim_space}
use textile_erp_cloud.FinanceCore.Types.{Role, Account, Request, Error}
use textile_erp_cloud.FinanceCore.Store.{Db, ◌>>=◌, pure, gets, or_fail}
use textile_erp_cloud.FinanceCore.Frames.{
  Keeps, SameLedger, SameLedger-frame, Keeps-bind, Keeps-pure, Keeps-gets, Keeps-or_fail,
}
use textile_erp_cloud.FinanceCore.Lookups.{
  account_by_id, account_by_name, upsert_account, ensure_bank_account, ensure_counter_account,
  requires_counter, add_role, ensure_party_role, party_exists, ensure_branch, ensure_account,
}

pub add_role-SameLedger : (p : ℤ) (r : Role) (db : Db) → SameLedger db (add_role p r db)
unfolding add_role
add_role-SameLedger p r db = ground arith

pub ensure_branch-SameLedger : (co : ℤ) (db : Db) → SameLedger db (ensure_branch co db)
unfolding ensure_branch
ensure_branch-SameLedger co db = ground arith

pub ensure_account-SameLedger :
    (co : ℤ) (a : Account) (db : Db) → SameLedger db (ensure_account co a db)
unfolding ensure_account
ensure_account-SameLedger co a db = ground arith

by_id : (co id : ℤ) (e : Error) → Keeps SameLedger (gets (account_by_id co id) >>= λ a. or_fail a e)
by_id co id e =
    Keeps-bind SameLedger SameLedger-frame (gets (account_by_id co id)) (λ a. or_fail a e)
      (Keeps-gets SameLedger SameLedger-frame (account_by_id co id))
      (λ a. Keeps-or_fail SameLedger SameLedger-frame a e)

upsert_account-SameLedger : (co : ℤ) (name : Text) → Keeps SameLedger (upsert_account co name)
unfolding upsert_account
upsert_account-SameLedger co name db = elim (Bool-cases (ltb 120 (length name))) [
  | inl long ↦ rw long tt
  | inr fits ↦ elim (Option-cases (account_by_name co name db)) [
    | inl new ↦ rw (fits, new) (ground arith)
    | inr (a, known) ↦ rw (fits, known) (SameLedger-frame.same db)
  ]
]

pub ensure_bank_account-SameLedger :
    (co id : ℤ) (name : Text) → Keeps SameLedger (ensure_bank_account co id name)
unfolding ensure_bank_account
ensure_bank_account-SameLedger co id name = elim (Bool-cases (ltb_ℤ (pos 0) id)) [
  | inl given ↦ rw given (by_id co id Error.bank_not_found)
  | inr missing ↦ elim (Bool-cases (is_empty (trim_space name))) [
    | inl blank ↦ rw (missing, blank) (λ db. tt)
    | inr named ↦ rw (missing, named) (upsert_account-SameLedger co (trim_space name))
  ]
]

counter_by_id :
    (co id : ℤ)
    → Keeps SameLedger
        (gets (account_by_id co id) >>= λ a. or_fail a Error.counter_not_found >>= λ b. pure b.id)
counter_by_id co id =
    Keeps-bind SameLedger SameLedger-frame (gets (account_by_id co id))
      (λ a. or_fail a Error.counter_not_found >>= λ b. pure b.id)
      (Keeps-gets SameLedger SameLedger-frame (account_by_id co id))
      λ a.
        Keeps-bind SameLedger SameLedger-frame (or_fail a Error.counter_not_found) (λ b. pure b.id)
          (Keeps-or_fail SameLedger SameLedger-frame a Error.counter_not_found)
          (λ b. Keeps-pure SameLedger SameLedger-frame b.id)

counter_by_name :
    (co : ℤ) (name : Text) → Keeps SameLedger (upsert_account co name >>= λ a. pure a.id)
counter_by_name co name =
    Keeps-bind SameLedger SameLedger-frame (upsert_account co name) (λ a. pure a.id)
      (upsert_account-SameLedger co name) (λ a. Keeps-pure SameLedger SameLedger-frame a.id)

pub ensure_counter_account-SameLedger :
    (co : ℤ) (req : Request) → Keeps SameLedger (ensure_counter_account co req)
unfolding ensure_counter_account
ensure_counter_account-SameLedger co req = elim (Bool-cases (requires_counter req)) [
  | inr unused ↦ rw unused (λ db. SameLedger-frame.same db)
  | inl used ↦ elim (Bool-cases (ltb_ℤ (pos 0) req.counter_account_id)) [
    | inl given ↦ rw (used, given) (counter_by_id co req.counter_account_id)
    | inr missing ↦ elim (Bool-cases (is_empty (trim_space req.counter_account_name))) [
      | inl blank ↦ rw (used, missing, blank) (λ db. tt)
      | inr named ↦
          rw (used, missing, named) (counter_by_name co (trim_space req.counter_account_name))
    ]
  ]
]

pub ensure_party_role-SameLedger :
    (co party : ℤ) (role : Role) → Keeps SameLedger (ensure_party_role co party role)
unfolding ensure_party_role
ensure_party_role-SameLedger co party role db = elim (Bool-cases (party_exists co party db)) [
  | inl known ↦ rw known (add_role-SameLedger party role db)
  | inr unknown ↦ rw unknown tt
]
