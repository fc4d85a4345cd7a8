-- ===== src/FinanceCore/Post/Succeeds.antt =====
-- When `PostTransaction` of financecore/service.go goes through.
use textile_erp_cloud.Base.{◌≡◌, refl, sym, ◌∙◌, Bool, true, false, none, some}
use textile_erp_cloud.Base.Int.{ℤ}
use textile_erp_cloud.Base.Int64.{InInt64}
use textile_erp_cloud.Base.Result.{Result, ok, err}
use textile_erp_cloud.Base.Text.{Text}
use mathlib.Core.Path.{subst}
use mathlib.Core.Option.{some-injective}
use textile_erp_cloud.FinanceCore.Types.{TxnType, type_of, Request, Error}
use textile_erp_cloud.FinanceCore.Validate.{validate}
use textile_erp_cloud.FinanceCore.Accept.{IsAccepted, validate_iff}
use textile_erp_cloud.FinanceCore.Plan.{posting_plan, substitute_cash}
use textile_erp_cloud.FinanceCore.Dates.{Date}
use textile_erp_cloud.FinanceCore.Store.{
  is_decimal, is_party_of, Db, Tx, ◌>>=◌, ◌>>◌, pure, transaction,
}
use textile_erp_cloud.FinanceCore.Effects.{
  fits_balances, apply_party_balance, change_party_balance, save_allocations,
}
use textile_erp_cloud.FinanceCore.Effects.Changed.{change_party_balance-Does}
use textile_erp_cloud.FinanceCore.Done.{Does, Does-bind}
use textile_erp_cloud.FinanceCore.Done.Journal.{
  SameParties, SameParties-after, HasPrincipal, insert_voucher-Does, substituted-All,
  plan_for-HasOneSided,
}
use textile_erp_cloud.FinanceCore.Done.Allocations.{save_allocations-Does}
use textile_erp_cloud.FinanceCore.Post.{
  Outcome, PostResult, Found, look_up, write_all, post_new, post_voucher_of, till_account,
  insert_txn, fits_table, txn_by_external, prepare, reuse_or_post, post_body, post_transaction,
}
use textile_erp_cloud.FinanceCore.Post.Written.{created_result, prepare-IsAccepted, prepare-same}

post_voucher_of-Does :
    (t : TxnType) (co : ℤ) (req : Request) (date : Date) (till with_gl : Bool) (db : Db)
    → IsAccepted t req
    → InInt64 req.amount
    → HasPrincipal t req
    → is_decimal req.amount ≡ true
    → is_party_of co req.party_id db ≡ true
    → Does (λ _ d. SameParties db d) (post_voucher_of co req date till with_gl db)
unfolding post_voucher_of posting_plan
post_voucher_of-Does t co req date till false db a r k f own = (refl, refl)
post_voucher_of-Does t co req date till true db a r k f own =
    let (legs, plan, sided) = plan_for-HasOneSided t req r a.positive a.interest_le k f in
    rw (a.known, plan)
      (insert_voucher-Does co req date (substitute_cash (till_account till) legs) db own
        (substituted-All (till_account till) legs sided))

fits-same :
    (req : Request) (time : Text) (a b : Db)
    → SameParties a b
    → fits_table req time b ≡ fits_table req time a
unfolding fits_table
fits-same req time a b h = rw h.0 refl

fits_balances-same :
    (co : ℤ) (req : Request) (a b : Db)
    → SameParties a b
    → fits_balances co req false b ≡ fits_balances co req false a
unfolding fits_balances is_party_of
fits_balances-same co req a b h = rw (h.0, h.1) refl

insert_txn-Does :
    (co : ℤ) (req : Request) (date : Date) (time : Text) (bank counter voucher : ℤ) (db : Db)
    → fits_table req time db ≡ true
    → Does (λ _ d. SameParties db d) (insert_txn co req date time bank counter voucher db)
unfolding insert_txn
insert_txn-Does co req date time bank counter voucher db h = rw h (refl, refl)

abbrev IsCreated : PostResult → Db → Type 0
IsCreated r d = r.outcome ≡ Outcome.created

write_all-Does :
    (t : TxnType) (co : ℤ) (req : Request) (with_gl : Bool) (found : Found) (db : Db)
    → IsAccepted t req
    → InInt64 req.amount
    → HasPrincipal t req
    → is_decimal req.amount ≡ true
    → is_party_of co req.party_id db ≡ true
    → fits_balances co req false db ≡ true
    → fits_table req found.3 db ≡ true
    → Does IsCreated (write_all co req with_gl found db)
unfolding write_all
write_all-Does t co req with_gl (bank, counter, date, time) db a r k dec own owed fits =
    let finish =
      λ (voucher id : ℤ). save_allocations co id req >> pure (created_result voucher id) in
    let insert = λ (voucher : ℤ). insert_txn co req date time bank.id counter voucher in
    Does-bind (λ _ d. SameParties db d) IsCreated (post_voucher_of co req date bank.is_cash with_gl)
      (λ voucher. insert voucher >>= λ id. change_party_balance co req false >> finish voucher id)
      db (post_voucher_of-Does t co req date bank.is_cash with_gl db a r k dec own)
      λ voucher b same.
        Does-bind (λ _ d. SameParties b d) IsCreated (insert voucher)
          (λ id. change_party_balance co req false >> finish voucher id) b
          (insert_txn-Does co req date time bank.id counter voucher b
            (fits-same req time db b same ∙ fits))
          λ id c kept.
            Does-bind (λ _ d. d ≡ apply_party_balance co req false c) IsCreated
              (change_party_balance co req false) (λ _. finish voucher id) c
              (change_party_balance-Does co req false c
                (fits_balances-same co req db c (SameParties-after db b c same kept) ∙ owed))
              λ _ changed _.
                Does-bind (λ _ d. Unit {0}) IsCreated (save_allocations co id req)
                  (λ _. pure (created_result voucher id)) changed
                  (save_allocations-Does co id req changed a.allocated) (λ _ e _. refl)

-- The run returned: its result is a created transaction.
Returned : Result Error PostResult → Type 0
Returned x = (r : PostResult) × (x ≡ ok r) × (r.outcome ≡ Outcome.created)

transaction-Returned :
    (m : Tx PostResult) (db : Db) → Does IsCreated (m db) → Returned (transaction m db).0
unfolding Returned
transaction-Returned m db h = go (m db) h
  where
    go :
        (x : Result Error (PostResult × Db))
        → Does IsCreated x
        → Returned
            (elim x as (λ _. Result Error PostResult × Db) [
              | err e ↦ (err e, db)
              | ok (a, d) ↦ (ok a, d)
            ]).0
    go (ok (r, d)) k = (r, refl, k)
    go (err e) k = absurd k

-- `PostTransaction` creates a transaction if the request is valid, a loan repayment pays back more
-- than its interest, the amount is an `int64`, the external id is new to the company, the look-ups
-- succeed (the bank account, the counter account, the role of the party, the date and the clock),
-- and the rows fit the tables: the party of the request, if it has one, is of the company; the amount is
-- less than 10^16 and so is the balance of the party after it, in either column, as DECIMAL(18,2) asks;
-- the interest is not negative, the source is a known one, and the clock and the idempotency key are
-- short enough.
pub post_creates :
    (t : TxnType) (co : ℤ) (raw : Request) (with_gl : Bool) (db b : Db) (found : Found)
    → InInt64 raw.amount
    → validate raw ≡ ok tt
    → type_of (prepare raw).txn_type ≡ some t
    → HasPrincipal t (prepare raw)
    → txn_by_external co (prepare raw).external_id db ≡ none
    → look_up co (prepare raw) db ≡ ok (found, b)
    → is_decimal raw.amount ≡ true
    → is_party_of co (prepare raw).party_id b ≡ true
    → fits_balances co (prepare raw) false b ≡ true
    → fits_table (prepare raw) found.3 b ≡ true
    → (r : PostResult) × ((post_transaction co raw with_gl db).0 ≡ ok r)
      × (r.outcome ≡ Outcome.created)
unfolding Returned post_transaction post_body post_new
post_creates t co raw with_gl db b found i good known k new looked dec own owed fits =
    let req = prepare raw in
    let (u, acc) = (validate_iff raw).0 good in
    let acc' = prepare-IsAccepted u raw acc in
    let same : u ≡ t = some-injective u t (sym acc'.known ∙ known) in
    let done : Does IsCreated (write_all co req with_gl found b) =
      write_all-Does t co req with_gl found b (subst (λ v. IsAccepted v req) same acc')
        (rw (prepare-same raw).0 i) k (rw (prepare-same raw).0 dec) own owed fits in
    let all : Does IsCreated (post_new co req with_gl db) =
      subst
        (λ x. Does IsCreated (elim x as (λ _. Result Error (PostResult × Db)) [
          | err e ↦ err e
          | ok (f, d) ↦ write_all co req with_gl f d
        ]))
        (sym looked) done in
    let body : Does IsCreated (post_body co req with_gl db) =
      subst (λ o. Does IsCreated (reuse_or_post co req with_gl o db)) (sym new) all in
    subst
      (λ x.
        Returned
          (elim x as (λ _. Result Error PostResult × Db) [
            | err e ↦ (err e, db)
            | ok _ ↦ transaction (post_body co req with_gl) db
          ]).0)
      (sym good) (transaction-Returned (post_body co req with_gl) db body)
