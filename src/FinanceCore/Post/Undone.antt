-- ===== src/FinanceCore/Post/Undone.antt =====
-- `ReverseTransaction` after `PostTransaction` of financecore/service.go.
use mathlib.Core.Path.{subst}
use mathlib.Core.Option.{some-injective}
use textile_erp_cloud.Base.{
  ◌≡◌, refl, sym, ap, ◌∙◌, inl, inr, Bool, true, false, ◌&&◌, none, some, List, [], ◌∷◌, arith,
  Bool-cases, find, find-append_none, All,
}
use textile_erp_cloud.Base.Int.{ℤ, pos, ltb_ℤ, leb_ℤ, beq_ℤ, ◌≤ℤ◌, ◌<ℤ◌, ◌+ℤ◌, neg, int_laws}
use textile_erp_cloud.Base.Int64.{InInt64}
use textile_erp_cloud.Base.Result.{ok}
use textile_erp_cloud.FinanceCore.Types.{TxnType, type_of, Request}
use textile_erp_cloud.FinanceCore.Accept.{IsAccepted, validate_iff}
use textile_erp_cloud.FinanceCore.Store.{BankTxn, Db}
use textile_erp_cloud.FinanceCore.Effects.{apply_party_balance}
use textile_erp_cloud.FinanceCore.Effects.Net.{net, owed, net-balances_after}
use textile_erp_cloud.FinanceCore.Effects.Undo.{
  IsSound, exact_effect, posted_effect, reversed_effect, left_over, effects_cancel,
}
use textile_erp_cloud.FinanceCore.Effects.Allocations.{requested}
use textile_erp_cloud.FinanceCore.Post.{
  Outcome, PostResult, txn_by_id, prepare, reversal_request, post_transaction, reverse_transaction,
}
use textile_erp_cloud.FinanceCore.Post.Posted.{Posted}
use textile_erp_cloud.FinanceCore.Post.Written.{
  IsPostOutcome, post_transaction_lem, post_validated, prepare-IsAccepted, prepare-same,
}
use textile_erp_cloud.FinanceCore.Post.Reversed.{
  balance_taken_back, IsReverseOutcome, reverse_transaction-IsReverseOutcome,
}

-- All ids of the transactions are below the sequence.
abbrev pub HasFreshIds : Db → Type 0
HasFreshIds db = All (λ t. t.id <ℤ pos db.next_txn) db.txns

fresh_not_found :
    (co n : ℤ) (ts : List BankTxn)
    → All (λ t. t.id <ℤ n) ts
    → find (λ t. beq_ℤ t.company co && beq_ℤ t.id n) ts ≡ none
fresh_not_found co n [] h = refl
fresh_not_found co n (t ∷ ts) (lt, h) = ground (arith, fresh_not_found co n ts)

found_by_id :
    (co : ℤ) (req : Request) (a b : Db) (r : PostResult) (p : Posted co req a b r)
    → HasFreshIds a
    → txn_by_id co r.txn b ≡ some p.row
found_by_id co req a b r p fresh =
    let test = λ (t : BankTxn). beq_ℤ t.company co && beq_ℤ t.id (pos a.next_txn) in
    let company = p.row_of.0 in
    let id = p.row_id ∙ p.id in
    let hit : find test (p.row ∷ []) ≡ some p.row = rw (company, id) (ground arith) in
    rw (p.id, p.txns)
      (find-append_none test a.txns (p.row ∷ []) (fresh_not_found co (pos a.next_txn) a.txns fresh)
        ∙ hit)

no_party : (p : ℤ) → ltb_ℤ (pos 0) p ≡ false → leb_ℤ p (pos 0) ≡ true
no_party p h = ground arith

-- Without a party nothing is taken back either way.
pub net-balance_taken_back :
    (t : TxnType) (co : ℤ) (row : BankTxn) (db : Db) (c p : ℤ)
    → type_of row.txn_type ≡ some t
    → IsSound (reversal_request row)
    → net c p (balance_taken_back co row db).balances
      ≡ net c p db.balances
        +ℤ owed co (reversal_request row) c p (neg (exact_effect t (reversal_request row)))
unfolding apply_party_balance
net-balance_taken_back t co row db c p known s =
    let again = reversal_request row in
    let (e, exact) = reversed_effect t again known s in
    elim (Bool-cases (ltb_ℤ (pos 0) row.party)) [
      | inl party ↦ rw party (
          net-balances_after co again true c p db.balances exact
          ∙ ap (λ x. net c p db.balances +ℤ owed co again c p x) e)
      | inr nobody ↦ rw (nobody, no_party row.party nobody) (omega int_laws)
    ]

-- Two changes of the same row add up.
owed_twice :
    (co : ℤ) (req again : Request) (c p x y z n : ℤ)
    → again.party_id ≡ req.party_id
    → x +ℤ y ≡ z
    → (n +ℤ owed co req c p x) +ℤ owed co again c p y ≡ n +ℤ owed co req c p z
owed_twice co req again c p x y z n same e = elim (Bool-cases (leb_ℤ req.party_id (pos 0))) [
  | inl nobody ↦ rw (same, nobody) (omega int_laws)
  | inr party ↦ elim (Bool-cases (beq_ℤ req.party_id p && beq_ℤ co c)) [
    | inl here ↦ rw (same, party, here) (rw (sym e) (omega int_laws))
    | inr away ↦ rw (same, party, away) (omega int_laws)
  ]
]

created_Posted :
    (co : ℤ) (req : Request) (a b : Db) (r : PostResult)
    → r.outcome ≡ Outcome.created
    → IsPostOutcome co req a (ok r, b)
    → Posted co req a b r
created_Posted co req a b r made (inl (t, known, same, h)) = cc
created_Posted co req a b r made (inr (fresh, p)) = p

undone :
    (t : TxnType) (co : ℤ) (req : Request) (a b d : Db) (r : PostResult)
    → IsAccepted t req
    → InInt64 req.amount
    → HasFreshIds a
    → Posted co req a b r
    → IsReverseOutcome co r.txn b (ok tt, d)
    → (c p : ℤ) → net c p d.balances ≡ net c p a.balances +ℤ owed co req c p (neg (left_over t req))
undone t co req a b d r acc i fresh p (row, v) c q =
    let again = reversal_request row in
    let same : row ≡ p.row =
      some-injective row p.row (sym v.found ∙ found_by_id co req a b r p fresh) in
    let amount : again.amount ≡ req.amount = ap (λ x. x.amount) same ∙ p.row_of.2 in
    let known : type_of row.txn_type ≡ some t =
      ap (λ x. type_of x.txn_type) same ∙ ap type_of p.row_of.3 ∙ acc.known in
    let party : again.party_id ≡ req.party_id = ap (λ x. x.party) same ∙ p.row_of.4 in
    let sound : IsSound again = rw amount (i, acc.positive, below req.amount acc.positive) in
    let (e, exact) = posted_effect t req acc.known (i, acc.positive, acc.interest_le) in
    let posted : net c q b.balances ≡ net c q a.balances +ℤ owed co req c q (exact_effect t req) =
      rw p.balances (
        net-balances_after co req false c q a.balances exact
        ∙ ap (λ x. net c q a.balances +ℤ owed co req c q x) e) in
    rw v.balances (
      net-balance_taken_back t co row b c q known sound
      ∙ ap (λ x. x +ℤ owed co again c q (neg (exact_effect t again))) posted
      ∙ owed_twice co req again c q (exact_effect t req) (neg (exact_effect t again))
          (neg (left_over t req)) (net c q a.balances) party
          (effects_cancel t req again amount refl))
  where
    below : (x : ℤ) → pos 0 <ℤ x → pos 0 ≤ℤ x
    below x h = omega arith

-- If `PostTransaction` created a transaction and `ReverseTransaction` of it succeeded, with `int64`
-- amounts and ids below the sequence, then every net balance (debit less credit) of every party of
-- every company is what it was before, except that reversing a loan repayment leaves the balance of
-- its party, if it has one, lower by the interest, where that is positive.
pub post_then_reverse :
    (t : TxnType) (co : ℤ) (raw : Request) (with_gl : Bool) (db : Db) (r : PostResult)
    → InInt64 raw.amount
    → InInt64 (requested raw.allocations)
    → HasFreshIds db
    → type_of (prepare raw).txn_type ≡ some t
    → (post_transaction co raw with_gl db).0 ≡ ok r
    → r.outcome ≡ Outcome.created
    → (reverse_transaction co r.txn (post_transaction co raw with_gl db).1).0 ≡ ok tt
    → (c p : ℤ)
    → net c p (reverse_transaction co r.txn (post_transaction co raw with_gl db).1).1.balances
      ≡ net c p db.balances +ℤ owed co (prepare raw) c p (neg (left_over t (prepare raw)))
post_then_reverse t co raw with_gl db r i fits fresh known ran made undo c p =
    let req = prepare raw in
    let b = (post_transaction co raw with_gl db).1 in
    let d = (reverse_transaction co r.txn b).1 in
    let (u, acc) = (validate_iff raw).0 (post_validated co raw with_gl db r ran) in
    let acc' = prepare-IsAccepted u raw acc in
    let same : u ≡ t = some-injective u t (sym acc'.known ∙ known) in
    let posted = created_Posted co req db b r made (
      subst (λ x. IsPostOutcome co req db (x, b)) ran
        (post_transaction_lem co raw with_gl db i fits)) in
    undone t co req db b d r (subst (λ v. IsAccepted v req) same acc') (rw (prepare-same raw).0 i)
      fresh posted
      (subst (λ x. IsReverseOutcome co r.txn b (x, d)) undo
        (reverse_transaction-IsReverseOutcome co r.txn b))
      c p
