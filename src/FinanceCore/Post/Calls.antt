-- ===== src/FinanceCore/Post/Calls.antt =====
-- Sequences of calls of `PostTransaction` and `ReverseTransaction` of financecore/service.go.
use textile_erp_cloud.Base.{
  ◌≡◌, refl, ap, ◌∙◌, inl, inr, Bool, true, false, ◌&&◌, none, some, [], ◌∷◌, arith, Bool-cases,
  find, find_sound, find-append_none, find-map,
}
use mathlib.Core.Path.{subst}
use textile_erp_cloud.Base.Int.{ℤ, pos, beq_ℤ}
use textile_erp_cloud.Base.Int64.{InInt64}
use textile_erp_cloud.Base.Result.{Result, ok, err}
use textile_erp_cloud.Base.Text.{text_eq, text_eq_refl}
use textile_erp_cloud.FinanceCore.Types.{Request, Error}
use textile_erp_cloud.FinanceCore.Validate.{validate}
use textile_erp_cloud.FinanceCore.Store.{BankTxn, Db, transaction}
use textile_erp_cloud.FinanceCore.Vouchers.Book.{
  IsBookBalanced, IsBookBalanced-append, mirror-IsBookBalanced,
}
use textile_erp_cloud.FinanceCore.Effects.Allocations.{requested}
use textile_erp_cloud.FinanceCore.Post.{
  Outcome, PostResult, txn_by_external, txn_by_id, prepare, duplicate_of, is_active_txn, void_if,
  reuse_or_post, post_body, post_transaction, reverse_row, reverse_found, reverse_body,
  reverse_transaction,
}
use textile_erp_cloud.FinanceCore.Post.Posted.{Posted}
use textile_erp_cloud.FinanceCore.Post.Written.{IsPostOutcome, post_transaction_lem}
use textile_erp_cloud.FinanceCore.Vouchers.Reversal.{mirrored, JournalReversed}
use textile_erp_cloud.FinanceCore.Post.Reversed.{
  IsReverseOutcome, reverse_transaction-IsReverseOutcome,
}

-- The tables after one call, of any company and with any result.
pub data Step : Db → Db → Type 0 where
  post :
      (co : ℤ) (raw : Request) (with_gl : Bool) (db : Db)
      → InInt64 raw.amount
      → InInt64 (requested raw.allocations)
      → Step db (post_transaction co raw with_gl db).1
  reverse : (co id : ℤ) (db : Db) → Step db (reverse_transaction co id db).1

pub data Reaches : Db → Db → Type 0 where
  start : {a : Db} → Reaches a a
  next : {a b c : Db} → Reaches a b → Step b c → Reaches a c

posted-IsBookBalanced :
    (co : ℤ) (req : Request) (db : Db) (x : Result Error PostResult × Db)
    → IsPostOutcome co req db x
    → IsBookBalanced db.lines
    → IsBookBalanced x.1.lines
posted-IsBookBalanced co req db (err e, d) h b = rw h b
posted-IsBookBalanced co req db (ok r, d) (inl (t, known, same, h)) b = rw h b
posted-IsBookBalanced co req db (ok r, d) (inr (fresh, p)) b =
    rw p.lines (IsBookBalanced-append db.lines p.new_lines b p.balanced)

mirrored_too :
    (co v : ℤ) (db d : Db)
    → JournalReversed co v db d
    → IsBookBalanced db.lines
    → IsBookBalanced d.lines
mirrored_too co v db d (inl (n, h, k)) b = rw h b
mirrored_too co v db d (inr r) b = rw r.lines (
    IsBookBalanced-append db.lines (mirrored co v db) b
      (mirror-IsBookBalanced co v (pos db.next_voucher) db.lines b))

reversed-IsBookBalanced :
    (co id : ℤ) (db : Db) (x : Result Error (Unit {0}) × Db)
    → IsReverseOutcome co id db x
    → IsBookBalanced db.lines
    → IsBookBalanced x.1.lines
reversed-IsBookBalanced co id db (err e, d) h b = rw h b
reversed-IsBookBalanced co id db (ok _, d) (t, r) b = mirrored_too co t.voucher db d r.journal b

one_call-IsBookBalanced : (a b : Db) → Step a b → IsBookBalanced a.lines → IsBookBalanced b.lines
one_call-IsBookBalanced a b (post co raw with_gl db r fits) h =
    posted-IsBookBalanced co (prepare raw) db (post_transaction co raw with_gl db)
      (post_transaction_lem co raw with_gl db r fits) h
one_call-IsBookBalanced a b (reverse co id db) h =
    reversed-IsBookBalanced co id db (reverse_transaction co id db)
      (reverse_transaction-IsReverseOutcome co id db) h

-- If in the journal the debits of every voucher of every company add up to its credits, then so they
-- do after any sequence of posting and reversing calls of any companies, whether the calls succeed
-- or fail, as long as the amounts and the sums of allocations are `int64` values.
pub calls-IsBookBalanced :
    (a b : Db) → Reaches a b → IsBookBalanced a.lines → IsBookBalanced b.lines
calls-IsBookBalanced a b start h = h
calls-IsBookBalanced a c (next {b = b} r s) h =
    one_call-IsBookBalanced b c s (calls-IsBookBalanced a b r h)

-- The row of a new transaction is the one that its external id finds.
found_again :
    (co : ℤ) (req : Request) (a b : Db) (r : PostResult) (p : Posted co req a b r)
    → txn_by_external co req.external_id a ≡ none
    → txn_by_external co req.external_id b ≡ some p.row
found_again co req a b r p fresh =
    let test = λ (t : BankTxn). beq_ℤ t.company co && text_eq t.external_id req.external_id in
    let company = p.row_of.0 in
    let external_id = p.row_of.1 in
    let hit : find test (p.row ∷ []) ≡ some p.row =
      rw (company, external_id, text_eq_refl req.external_id) (ground arith) in
    rw p.txns (find-append_none test a.txns (p.row ∷ []) fresh ∙ hit)

reused :
    (co : ℤ) (raw : Request) (with_gl : Bool) (db : Db) (t : BankTxn)
    → validate raw ≡ ok tt
    → txn_by_external co (prepare raw).external_id db ≡ some t
    → post_transaction co raw with_gl db ≡ (ok (duplicate_of t), db)
unfolding post_transaction post_body
reused co raw with_gl db t good known =
    rw (post_transaction, good)
      (ap (λ o. transaction (reuse_or_post co (prepare raw) with_gl o) db) known)

posted_twice :
    (co : ℤ) (raw again : Request) (with_gl : Bool) (db : Db) (r : PostResult) (d : Db)
    → IsPostOutcome co (prepare raw) db (ok r, d)
    → validate again ≡ ok tt
    → (prepare again).external_id ≡ (prepare raw).external_id
    → post_transaction co again with_gl d
      ≡ (ok (record { outcome = Outcome.duplicate; txn = r.txn; voucher = pos 0 }), d)
posted_twice co raw again with_gl db r d (inl (t, known, same, h)) good e =
    rw (same, h) (reused co again with_gl db t good (rw e known))
posted_twice co raw again with_gl db r d (inr (fresh, p)) good e =
    reused co again with_gl d p.row good (rw e (found_again co (prepare raw) db d r p fresh))
    ∙ ap (λ id. (ok (record { outcome = Outcome.duplicate; txn = id; voucher = pos 0 }), d))
        p.row_id

-- If `PostTransaction` of a request with `int64` amounts returned a result, then calling it for any
-- valid request of the same company with the same external id, trimmed, is answered as a duplicate
-- with the same transaction id, and changes no table.
pub post_again :
    (co : ℤ) (raw again : Request) (with_gl gl_again : Bool) (db : Db) (r : PostResult)
    → InInt64 raw.amount
    → InInt64 (requested raw.allocations)
    → (post_transaction co raw with_gl db).0 ≡ ok r
    → validate again ≡ ok tt
    → (prepare again).external_id ≡ (prepare raw).external_id
    → post_transaction co again gl_again (post_transaction co raw with_gl db).1 ≡ (
      ok (record { outcome = Outcome.duplicate; txn = r.txn; voucher = pos 0 }),
      (post_transaction co raw with_gl db).1,
    )
post_again co raw again with_gl gl_again db r i fits ran good e =
    let d = (post_transaction co raw with_gl db).1 in
    let outcome : IsPostOutcome co (prepare raw) db (ok r, d) =
      subst (λ x. IsPostOutcome co (prepare raw) db (x, d)) ran
        (post_transaction_lem co raw with_gl db i fits) in
    posted_twice co raw again gl_again db r d outcome good e

-- Voiding keeps the first row of an id the first.
abbrev is_row : ℤ → ℤ → BankTxn → Bool
is_row co id x = beq_ℤ x.company co && beq_ℤ x.id id

is_row-void_if : (co id : ℤ) (x : BankTxn) → is_row co id (void_if co id x) ≡ is_row co id x
is_row-void_if co id x = elim (Bool-cases (is_row co id x && is_active_txn x)) [
  | inl hit ↦ rw hit refl
  | inr miss ↦ rw miss refl
]

void_if-closed :
    (co id : ℤ) (t : BankTxn) → is_row co id t ≡ true → is_active_txn (void_if co id t) ≡ false
void_if-closed co id t mine = elim (Bool-cases (is_active_txn t)) [
  | inl act ↦ rw (mine, act) refl
  | inr closed ↦ rw (mine, closed) closed
]

refused :
    (co id : ℤ) (db : Db) (t : BankTxn)
    → txn_by_id co id db ≡ some t
    → is_active_txn t ≡ false
    → reverse_transaction co id db ≡ (err Error.not_active, db)
unfolding reverse_transaction reverse_body
refused co id db t found closed =
    ap (λ o. transaction (reverse_found co id o) db) found ∙ not_active_row
  where
    not_active_row : transaction (reverse_row co id t) db ≡ (err Error.not_active, db)
    not_active_row = rw closed refl

reversed_twice :
    (co id : ℤ) (db d : Db)
    → IsReverseOutcome co id db (ok tt, d)
    → reverse_transaction co id d ≡ (err Error.not_active, d)
reversed_twice co id db d (t, r) =
    let mine = find_sound (is_row co id) db.txns t r.found in
    let found : txn_by_id co id d ≡ some (void_if co id t) =
      rw r.txns
        (find-map (is_row co id) (void_if co id) db.txns t (is_row-void_if co id) r.found) in
    refused co id d (void_if co id t) found (void_if-closed co id t mine)

-- If `ReverseTransaction` succeeded, then calling it again for the same transaction is refused as not
-- active and changes no table.
pub reverse_again :
    (co id : ℤ) (db : Db)
    → (reverse_transaction co id db).0 ≡ ok tt
    → reverse_transaction co id (reverse_transaction co id db).1
      ≡ (err Error.not_active, (reverse_transaction co id db).1)
reverse_again co id db ran =
    let d = (reverse_transaction co id db).1 in
    reversed_twice co id db d (
      subst (λ x. IsReverseOutcome co id db (x, d)) ran
        (reverse_transaction-IsReverseOutcome co id db))
