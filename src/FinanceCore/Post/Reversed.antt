-- ===== src/FinanceCore/Post/Reversed.antt =====
-- What `ReverseTransaction` of financecore/service.go does to the tables.
use textile_erp_cloud.Base.{
  ◌≡◌, refl, sym, ap, ◌∙◌, inl, inr, true, Option, none, some, map, arith, Bool-cases,
  if◌then◌else◌,
}
use textile_erp_cloud.Base.Int.{ℤ, pos, ltb_ℤ}
use textile_erp_cloud.Base.Result.{Result, ok, err}
use textile_erp_cloud.Base.Text.{Text}
use textile_erp_cloud.FinanceCore.Types.{Error}
use textile_erp_cloud.FinanceCore.Store.{BankTxn, Db, ◌>>◌, modify}
use textile_erp_cloud.FinanceCore.Frames.{Ensures, Ensures-bind}
use mathlib.Core.Path.{subst}
use textile_erp_cloud.FinanceCore.Vouchers.Reversal.{
  JournalReversed, VoucherReversed, nothing, reverse_voucher_lem,
}
use textile_erp_cloud.FinanceCore.Effects.Changed.{change_party_balance_lem}
use textile_erp_cloud.FinanceCore.Effects.{balances_after, apply_party_balance}
use textile_erp_cloud.FinanceCore.Post.{
  txn_by_id, reversal_request, is_active_txn, void_if, void_txn, queue_review, reverse_voucher_of,
  reverse_balance_of, reverse_found, reverse_body, reverse_transaction,
}

reverse_voucher_of_lem :
    (co : ℤ) (t : BankTxn) (db : Db)
    → Ensures (λ _ d. VoucherReversed co t.voucher db d) (reverse_voucher_of co t db)
reverse_voucher_of_lem co t db = elim (Bool-cases (ltb_ℤ (pos 0) t.voucher)) [
  | inl given ↦ rw given (reverse_voucher_lem co t.voucher db given)
  | inr missing ↦ rw missing (nothing co t.voucher db (inl missing))
]

-- The tables with the negated effect of the request that is built of the row.
abbrev pub balance_taken_back : ℤ → BankTxn → Db → Db
balance_taken_back co t db =
    if ltb_ℤ (pos 0) t.party then apply_party_balance co (reversal_request t) true db else db

reverse_balance_of_lem :
    (co : ℤ) (t : BankTxn) (db : Db)
    → Ensures (λ _ d. d ≡ balance_taken_back co t db) (reverse_balance_of co t db)
reverse_balance_of_lem co t db = elim (Bool-cases (ltb_ℤ (pos 0) t.party)) [
  | inl given ↦ rw given (change_party_balance_lem co (reversal_request t) true db)
  | inr missing ↦ rw missing refl
]

pub record Reversed (co id : ℤ) (t : BankTxn) (a b : Db) : Type 0 where
  pub found : txn_by_id co id a ≡ some t
  pub was_active : is_active_txn t ≡ true
  pub txns : b.txns ≡ map (void_if co id) a.txns
  pub balances : b.balances ≡ (balance_taken_back co t a).balances
  pub allocations : b.allocations ≡ a.allocations
  pub journal : JournalReversed co t.voucher a b

same_balances :
    (co : ℤ) (t : BankTxn) (a b : Db)
    → b.balances ≡ a.balances
    → (balance_taken_back co t b).balances ≡ (balance_taken_back co t a).balances
unfolding apply_party_balance
same_balances co t a b h = elim (Bool-cases (ltb_ℤ (pos 0) t.party)) [
  | inl given ↦ rw given (ap (balances_after co (reversal_request t) true) h)
  | inr missing ↦ rw missing h
]

-- The tables that the last statements leave alone.
abbrev IsKeptBy : Db → Db → Type 0
IsKeptBy a b =
    (b.txns ≡ a.txns)
    × (b.allocations ≡ a.allocations)
    × (b.lines ≡ a.lines)
    × (b.vouchers ≡ a.vouchers)

queue_review-kept :
    (co : ℤ) (ref : Text) (db : Db)
    → IsKeptBy db (queue_review co ref db) × ((queue_review co ref db).balances ≡ db.balances)
unfolding queue_review
queue_review-kept co ref db = ground arith

balance_taken_back-kept :
    (co : ℤ) (t : BankTxn) (db : Db) → IsKeptBy db (balance_taken_back co t db)
unfolding apply_party_balance
balance_taken_back-kept co t db = elim (Bool-cases (ltb_ℤ (pos 0) t.party)) [
  | inl given ↦ rw given (refl, refl, refl, refl)
  | inr missing ↦ rw missing (refl, refl, refl, refl)
]

-- The last three statements.
abbrev close_txn : ℤ → ℤ → BankTxn → Db → Db
close_txn co id t db = queue_review co t.external_id (void_txn co id (balance_taken_back co t db))

JournalReversed-kept :
    (co v : ℤ) (a b c : Db)
    → c.lines ≡ b.lines
    → c.vouchers ≡ b.vouchers
    → JournalReversed co v a b
    → JournalReversed co v a c
JournalReversed-kept co v a b c l w (inl (n, h, k)) = inl (n, l ∙ h, w ∙ k)
JournalReversed-kept co v a b c l w (inr r) = inr (record {
  given = r.given;
  unknown = r.unknown;
  of = r.of;
  found = r.found;
  lines = l ∙ r.lines;
  vouchers = w ∙ r.vouchers;
})

close_txn_lem :
    (co id : ℤ) (t : BankTxn) (a b : Db)
    → txn_by_id co id a ≡ some t
    → is_active_txn t ≡ true
    → VoucherReversed co t.voucher a b
    → Reversed co id t a (close_txn co id t b)
unfolding void_txn
close_txn_lem co id t a b f act v =
    let c = balance_taken_back co t b in
    let (kc, ka, kl, kv) = balance_taken_back-kept co t b in
    let ((qt, qa, ql, qv), qb) = queue_review-kept co t.external_id (void_txn co id c) in
    record {
      found = f;
      was_active = act;
      txns = qt ∙ ap (map (void_if co id)) (kc ∙ v.txns);
      balances = qb ∙ same_balances co t a b v.balances;
      allocations = qa ∙ ka ∙ v.allocations;
      journal =
          JournalReversed-kept co t.voucher a b (close_txn co id t b) (ql ∙ kl) (qv ∙ kv) v.journal;
    }

reverse_found_lem :
    (co id : ℤ) (db : Db) (found : Option BankTxn)
    → txn_by_id co id db ≡ found
    → Ensures (λ _ d. (t : BankTxn) × Reversed co id t db d) (reverse_found co id found db)
reverse_found_lem co id db none f = tt
reverse_found_lem co id db (some t) f = elim (Bool-cases (is_active_txn t)) [
  | inr closed ↦ rw closed tt
  | inl act ↦ rw act (
      let last = modify (void_txn co id) >> modify (queue_review co t.external_id) in
      let P = λ (u : Unit {0}) (d : Db). (t : BankTxn) × Reversed co id t db d in
      Ensures-bind (λ _ d. VoucherReversed co t.voucher db d) P (reverse_voucher_of co t)
        (λ _. reverse_balance_of co t >> last) db (reverse_voucher_of_lem co t db)
        λ _ b v.
          Ensures-bind (λ _ d. d ≡ balance_taken_back co t b) P (reverse_balance_of co t)
            (λ _. last) b (reverse_balance_of_lem co t b)
            λ _ d same.
              subst (λ x. Ensures P (last x)) (sym same) (t, close_txn_lem co id t db b f act v))
]

abbrev pub IsReverseOutcome : ℤ → ℤ → Db → Result Error (Unit {0}) × Db → Type 0
IsReverseOutcome co id db (err e, d) = d ≡ db
IsReverseOutcome co id db (ok _, d) = (t : BankTxn) × Reversed co id t db d

transaction-IsReverseOutcome :
    (co id : ℤ) (db : Db) (x : Result Error (Unit {0} × Db))
    → Ensures (λ _ d. (t : BankTxn) × Reversed co id t db d) x
    → IsReverseOutcome co id db (elim x [ err e ↦ (err e, db) | ok (a, db') ↦ (ok a, db') ])
transaction-IsReverseOutcome co id db (ok (a, d)) h = h
transaction-IsReverseOutcome co id db (err e) h = refl

pub reverse_transaction-IsReverseOutcome :
    (co id : ℤ) (db : Db) → IsReverseOutcome co id db (reverse_transaction co id db)
unfolding reverse_transaction reverse_body
reverse_transaction-IsReverseOutcome co id db =
    transaction-IsReverseOutcome co id db (reverse_body co id db)
      (reverse_found_lem co id db (txn_by_id co id db) refl)
