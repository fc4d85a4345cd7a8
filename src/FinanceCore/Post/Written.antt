-- ===== src/FinanceCore/Post/Written.antt =====
-- The statements of `PostTransaction` of financecore/service.go that write, put together.
use textile_erp_cloud.Base.{◌≡◌, refl, sym, ◌⊎◌, inl, inr, Bool, false, Option, none, some}
use textile_erp_cloud.Base.Int.{ℤ, pos}
use textile_erp_cloud.Base.Int64.{InInt64}
use textile_erp_cloud.Base.Result.{Result, ok, err}
use textile_erp_cloud.FinanceCore.Types.{TxnType, Request, Error}
use textile_erp_cloud.FinanceCore.Validate.{normalize, validate, validate_allocations}
use textile_erp_cloud.FinanceCore.Accept.{IsAccepted, validate_iff}
use textile_erp_cloud.FinanceCore.Store.{BankTxn, Db, Tx, ◌>>=◌, ◌>>◌, pure, transaction}
use textile_erp_cloud.FinanceCore.Frames.{Ensures, Ensures-weaken, Ensures-bind, SameLedger}
use textile_erp_cloud.FinanceCore.Effects.{
  apply_party_balance, change_party_balance, save_allocations,
}
use textile_erp_cloud.FinanceCore.Effects.Changed.{change_party_balance_lem}
use mathlib.Core.Path.{subst}
use textile_erp_cloud.FinanceCore.Effects.Allocations.{
  requested, Added, to_allocate, save_allocations_lem,
}
use textile_erp_cloud.FinanceCore.Post.{
  Outcome, PostResult, Found, look_up, write_all, post_new, post_voucher_of, txn_row, add_txn,
  insert_txn, txn_by_external, prepare, duplicate_of, reuse_or_post, post_body, post_transaction,
}
use textile_erp_cloud.FinanceCore.Post.Posted.{
  BalancedAdded, Posted, collect, post_voucher_of_lem, insert_txn_lem, look_up-SameLedger,
}

abbrev pub created_result : ℤ → ℤ → PostResult
created_result voucher id = record { outcome = Outcome.created; txn = id; voucher = voucher }

write_all_lem :
    (t : TxnType) (co : ℤ) (req : Request) (with_gl : Bool) (found : Found) (db : Db)
    → IsAccepted t req
    → InInt64 req.amount
    → InInt64 (requested req.allocations)
    → Ensures (λ r d. Posted co req db d r) (write_all co req with_gl found db)
unfolding write_all
write_all_lem t co req with_gl (bank, counter, date, time) db a r fits =
    let P = λ (x : PostResult) (d : Db). Posted co req db d x in
    let finish =
      λ (voucher id : ℤ). save_allocations co id req >> pure (created_result voucher id) in
    let insert = λ (voucher : ℤ). insert_txn co req date time bank.id counter voucher in
    Ensures-bind (λ _ d. BalancedAdded db d) P (post_voucher_of co req date bank.is_cash with_gl)
      (λ voucher. insert voucher >>= λ id. change_party_balance co req false >> finish voucher id)
      db (post_voucher_of_lem t co req date bank.is_cash with_gl db a r)
      λ voucher b h.
        Ensures-bind
          (λ id c.
            (id ≡ pos b.next_txn)
            × (c ≡ add_txn (txn_row co req date time bank.id counter voucher id) b))
          P (insert voucher) (λ id. change_party_balance co req false >> finish voucher id) b
          (insert_txn_lem co req date time bank.id counter voucher b)
          λ id c k.
            let changed = apply_party_balance co req false c in
            Ensures-bind (λ _ d. d ≡ changed) P (change_party_balance co req false)
              (λ _. finish voucher id) c (change_party_balance_lem co req false c)
              λ _ d same.
                subst (λ x. Ensures P (finish voucher id x)) (sym same)
                  (Ensures-bind (λ _ e. Added co id req.party_id (to_allocate req) changed e) P
                    (save_allocations co id req) (λ _. pure (created_result voucher id)) changed
                    (save_allocations_lem co id req changed a.allocated a.positive r fits)
                    (λ _ e m.
                      collect co req date time bank.id counter voucher id db b c e h k.0 k.1 m))

Posted-after :
    (co : ℤ) (req : Request) (a b c : Db) (r : PostResult)
    → SameLedger a b
    → Posted co req b c r
    → Posted co req a c r
Posted-after co req a b c r s p = record {
  created = p.created;
  id = rw (← s.next_txn) p.id;
  row = p.row;
  row_id = p.row_id;
  row_voucher = p.row_voucher;
  row_of = p.row_of;
  txns = rw (← s.txns) p.txns;
  next_txn = rw (← s.next_txn) p.next_txn;
  new_lines = p.new_lines;
  lines = rw (← s.lines) p.lines;
  balanced = p.balanced;
  balances = rw (← s.balances) p.balances;
  new_allocations = p.new_allocations;
  allocations = rw (← s.allocations) p.allocations;
  of_party = p.of_party;
  allocated = p.allocated;
}

post_new_lem :
    (t : TxnType) (co : ℤ) (req : Request) (with_gl : Bool) (db : Db)
    → IsAccepted t req
    → InInt64 req.amount
    → InInt64 (requested req.allocations)
    → Ensures (λ r d. Posted co req db d r) (post_new co req with_gl db)
unfolding post_new
post_new_lem t co req with_gl db a r fits =
    Ensures-bind (λ _ d. SameLedger db d) (λ r d. Posted co req db d r) (look_up co req)
      (write_all co req with_gl) db (look_up-SameLedger co req db)
      λ found b s.
        Ensures-weaken (λ r d. Posted co req b d r) (λ r d. Posted co req db d r)
          (write_all co req with_gl found b) (λ r d p. Posted-after co req db b d r s p)
          (write_all_lem t co req with_gl found b a r fits)

-- The request that is posted is accepted if the one that came in is.
pub prepare-IsAccepted :
    (t : TxnType) (raw : Request) → IsAccepted t (normalize raw) → IsAccepted t (prepare raw)
unfolding prepare validate_allocations
prepare-IsAccepted t raw a = record {
  has_id = a.has_id;
  short_id = a.short_id;
  positive = a.positive;
  known = a.known;
  directed = a.directed;
  as_ruled = a.as_ruled;
  has_party = a.has_party;
  has_counter = a.has_counter;
  other_counter = a.other_counter;
  interest_nonneg = a.interest_nonneg;
  interest_le = a.interest_le;
  allocated = a.allocated;
}

-- What a call may come to: an error and the tables as they were, the transaction that is there
-- already and the tables as they were, or one posted transaction.
abbrev pub IsReused : ℤ → Request → Db → PostResult → Db → Type 0
IsReused co req db r d =
    (t : BankTxn) × (txn_by_external co req.external_id db ≡ some t)
    × (r ≡ duplicate_of t)
    × (d ≡ db)

abbrev pub IsPostOutcome : ℤ → Request → Db → Result Error PostResult × Db → Type 0
IsPostOutcome co req db (err e, d) = d ≡ db
IsPostOutcome co req db (ok r, d) =
    IsReused co req db r d ⊎ ((txn_by_external co req.external_id db ≡ none) × Posted co req db d r)

transaction-IsPostOutcome :
    (co : ℤ) (req : Request) (db : Db) (m : Tx PostResult)
    → Ensures (λ r d. IsPostOutcome co req db (ok r, d)) (m db)
    → IsPostOutcome co req db (transaction m db)
transaction-IsPostOutcome co req db m h = of_result (m db) h
  where
    of_result :
        (x : Result Error (PostResult × Db))
        → Ensures (λ r d. IsPostOutcome co req db (ok r, d)) x
        → IsPostOutcome co req db (elim x [ err e ↦ (err e, db) | ok (a, db') ↦ (ok a, db') ])
    of_result (ok (r, d)) h = h
    of_result (err e) h = refl

reuse_or_post_lem :
    (t : TxnType) (co : ℤ) (req : Request) (with_gl : Bool) (db : Db) (known : Option BankTxn)
    → IsAccepted t req
    → InInt64 req.amount
    → InInt64 (requested req.allocations)
    → txn_by_external co req.external_id db ≡ known
    → Ensures (λ r d. IsPostOutcome co req db (ok r, d)) (reuse_or_post co req with_gl known db)
reuse_or_post_lem t co req with_gl db (some x) a r fits e = inl (x, e, refl, refl)
reuse_or_post_lem t co req with_gl db none a r fits e =
    Ensures-weaken (λ r d. Posted co req db d r) (λ r d. IsPostOutcome co req db (ok r, d))
      (post_new co req with_gl db) (λ r d p. inr (e, p)) (post_new_lem t co req with_gl db a r fits)

pub prepare-same :
    (raw : Request)
    → ((prepare raw).amount ≡ raw.amount) × ((prepare raw).allocations ≡ raw.allocations)
unfolding prepare normalize
prepare-same raw = (refl, refl)

-- For a request whose amount and whose sum of allocations are `int64` values, `PostTransaction`
-- either fails and leaves all tables as they were; or returns the first transaction of the company
-- with that external id as a duplicate and leaves all tables as they were; or, if there is none,
-- adds one active transaction with the data of the request, journal lines that balance voucher by
-- voucher, the change of the party's balance by the signed effect of the type, and allocations
-- whose sum is the amount of a receipt of a party and 0 otherwise, and changes no other row of
-- these tables.
pub post_transaction_lem :
    (co : ℤ) (raw : Request) (with_gl : Bool) (db : Db)
    → InInt64 raw.amount
    → InInt64 (requested raw.allocations)
    → IsPostOutcome co (prepare raw) db (post_transaction co raw with_gl db)
unfolding post_transaction post_body
post_transaction_lem co raw with_gl db r fits = go (validate raw) refl
  where
    req : Request
    req = prepare raw

    go :
        (x : Result Error (Unit {0}))
        → validate raw ≡ x
        → IsPostOutcome co req db
            (elim x [ err e ↦ (err e, db) | ok _ ↦ transaction (post_body co req with_gl) db ])
    go (err e) bad = refl
    go (ok _) good =
        let (t, a) = (validate_iff raw).0 good in
        let (am, al) = prepare-same raw in
        transaction-IsPostOutcome co req db (post_body co req with_gl) (
          reuse_or_post_lem t co req with_gl db (txn_by_external co req.external_id db)
            (prepare-IsAccepted t raw a) (rw am r) (rw al fits) refl)

-- A result other than an error is of a valid request.
pub post_validated :
    (co : ℤ) (raw : Request) (with_gl : Bool) (db : Db) (r : PostResult)
    → (post_transaction co raw with_gl db).0 ≡ ok r
    → validate raw ≡ ok tt
unfolding post_transaction
post_validated co raw with_gl db r ran = go (validate raw) ran
  where
    go :
        (x : Result Error (Unit {0}))
        → (elim x as (λ _. Result Error PostResult × Db) [
          | err e ↦ (err e, db)
          | ok _ ↦ transaction (post_body co (prepare raw) with_gl) db
        ]).0
          ≡ ok r
        → x ≡ ok tt
    go (err e) h = cc
    go (ok _) h = refl
