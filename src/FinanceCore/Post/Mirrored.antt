-- ===== src/FinanceCore/Post/Mirrored.antt =====
-- What `ReverseTransaction` of financecore/service.go leaves in the tables, row by row.
use textile_erp_cloud.Base.{
  ◌≡◌, refl, sym, ap, ◌∙◌, ◌⊎◌, inl, inr, ℕ, Bool, true, false, not, ◌&&◌, none, some, List, [],
  ◌∷◌, ◌++◌, arith, Bool-cases, if◌then◌else◌, keep, All, find-All, Both, map-Both, map-snoc,
}
use textile_erp_cloud.Base.Int.{ℤ, pos, neg, leb_ℤ, ltb_ℤ, beq_ℤ, ◌≤ℤ◌, ◌<ℤ◌, ◌+ℤ◌, int_laws}
use textile_erp_cloud.Base.Int64.{InInt64}
use textile_erp_cloud.Base.Result.{Result, ok, err}
use textile_erp_cloud.FinanceCore.Types.{TxnType, type_of, Error}
use textile_erp_cloud.FinanceCore.Validate.{max_int64}
use textile_erp_cloud.FinanceCore.Store.{voided, of_reversal, BankTxn, Line, Voucher, Db}
use textile_erp_cloud.FinanceCore.Effects.Net.{net, owed}
use textile_erp_cloud.FinanceCore.Effects.Undo.{exact_effect}
use textile_erp_cloud.FinanceCore.Vouchers.{
  is_line_of, mirror, post_if, voucher_by_id, voucher_by_key,
}
use textile_erp_cloud.FinanceCore.Post.{
  txn_by_id, reversal_request, is_active_txn, void_if, reverse_transaction,
}
use textile_erp_cloud.FinanceCore.Vouchers.Reversal.{
  NotWritten, draft_of, WroteReversal, JournalReversed, same_id,
}
use textile_erp_cloud.FinanceCore.Post.Reversed.{
  Reversed, IsReverseOutcome, reverse_transaction-IsReverseOutcome,
}
use mathlib.Core.Path.{subst}
use textile_erp_cloud.FinanceCore.Post.Undone.{net-balance_taken_back}

-- What the type and the amount of a transaction, all of it principal, do to the balance of its party.
abbrev pub row_effect : TxnType → ℤ → ℤ
row_effect TxnType.customer_receipt amount = neg amount
row_effect TxnType.supplier_payment amount = amount
row_effect TxnType.petty_cash_funding amount = amount
row_effect TxnType.petty_cash_return amount = neg amount
row_effect TxnType.loan_receipt amount = neg amount
row_effect TxnType.loan_repayment amount = amount
row_effect _ amount = pos 0

-- A row as the table holds it: of a known type, with a positive `int64` amount.
abbrev pub IsStoredRow : BankTxn → Type 0
IsStoredRow t =
    (ty : TxnType) × (type_of t.txn_type ≡ some ty) × InInt64 t.amount × (pos 0 <ℤ t.amount)

-- A transaction before and after: the active ones of that company and id are void, nothing else changed.
abbrev pub IsVoided : ℤ → ℤ → BankTxn → BankTxn → Type 0
IsVoided co id x y = y ≡ record x {
  status = if beq_ℤ x.company co && beq_ℤ x.id id && is_active_txn x then voided else x.status;
}

-- A line of the journal and its mirror image under a new voucher.
abbrev pub IsMirrorOf : ℤ → Line → Line → Type 0
IsMirrorOf new l m =
    (m.voucher ≡ new)
    × (m.company ≡ l.company)
    × (m.account ≡ l.account)
    × (m.party ≡ l.party)
    × (m.debit ≡ l.credit)
    × (m.credit ≡ l.debit)

-- An old voucher before and after: it may have been posted.
abbrev pub IsSameVoucher : Voucher → Voucher → Type 0
IsSameVoucher v w = (w ≡ record v { posted = w.posted }) × (v.posted ≡ true → w.posted ≡ true)

-- The voucher `v` was there and had no reversal; now there is a posted reversal of it, the last voucher,
-- with the mirror images of the lines of `v`, the last lines.
pub record HasReversal (co v : ℤ) (a b : Db) : Type 0 where
  pub given : ltb_ℤ (pos 0) v ≡ true
  pub unknown : voucher_by_key co (of_reversal v) a ≡ none
  pub of : Voucher
  pub found : voucher_by_id co v a ≡ some of
  pub mirrors : List Line
  pub lines : b.lines ≡ a.lines ++ mirrors
  pub mirror_of :
      Both
        (IsMirrorOf (pos a.next_voucher))
        (keep (λ l. beq_ℤ l.voucher v && beq_ℤ l.company co) a.lines)
        mirrors
  pub others : List Voucher
  pub reversal : Voucher
  pub vouchers : b.vouchers ≡ others ++ (reversal ∷ [])
  pub same : Both IsSameVoucher a.vouchers others
  pub reversal_is : reversal ≡ record {
    id = pos a.next_voucher;
    company = co;
    key = of_reversal v;
    date = of.date;
    posted = true;
    reversal_of = v;
  }

-- The tables before and after a reversal of the transaction `t`.
pub record IsReversed (co id : ℤ) (t : BankTxn) (a b : Db) : Type 0 where
  pub found : txn_by_id co id a ≡ some t
  pub was_active : is_active_txn t ≡ true
  pub txns : Both (IsVoided co id) a.txns b.txns
  pub allocations : b.allocations ≡ a.allocations
  pub journal :
      (NotWritten co t.voucher a × (b.lines ≡ a.lines) × (b.vouchers ≡ a.vouchers))
      ⊎ HasReversal co t.voucher a b
  pub ty : TxnType
  pub known : type_of t.txn_type ≡ some ty
  pub net :
      (c p : ℤ)
      → net c p b.balances
        ≡ net c p a.balances
          +ℤ (if not (leb_ℤ t.party (pos 0)) && beq_ℤ t.party p && beq_ℤ co c
              then neg (row_effect ty t.amount)
              else pos 0)

void_if-IsVoided : (co id : ℤ) (x : BankTxn) → IsVoided co id x (void_if co id x)
void_if-IsVoided co id x =
    elim (Bool-cases (beq_ℤ x.company co && beq_ℤ x.id id && is_active_txn x)) [
      | inl hit ↦ rw hit refl
      | inr miss ↦ rw miss refl
    ]

post_if-IsSameVoucher : (co id : ℤ) (v : Voucher) → IsSameVoucher v (post_if co id v)
post_if-IsSameVoucher co id v =
    elim (Bool-cases (beq_ℤ v.company co && beq_ℤ v.id id && not v.posted)) [
      | inl hit ↦ rw hit (refl, λ h. refl)
      | inr miss ↦ rw miss (refl, λ h. h)
    ]

same_twice : (x y : ℤ) → (beq_ℤ x x && beq_ℤ y y && not false) ≡ true
same_twice x y = ground arith

reversal_lem :
    (co v : ℤ) (of : Voucher) (n : ℕ)
    → of.id ≡ v
    → post_if co (pos n) (draft_of co of n) ≡ record {
      id = pos n;
      company = co;
      key = of_reversal v;
      date = of.date;
      posted = true;
      reversal_of = v;
    }
reversal_lem co v of n e = rw (same_twice co (pos n), e) refl

WroteReversal-HasReversal : (co v : ℤ) (a b : Db) → WroteReversal co v a b → HasReversal co v a b
WroteReversal-HasReversal co v a b r =
    let draft = draft_of co r.of a.next_voucher in
    let post = post_if co (pos a.next_voucher) in
    record {
      given = r.given;
      unknown = r.unknown;
      of = r.of;
      found = r.found;
      mirrors = _;
      lines = r.lines;
      mirror_of =
          map-Both (IsMirrorOf (pos a.next_voucher)) (mirror (pos a.next_voucher))
            (keep (is_line_of co v) a.lines) (λ l. (refl, refl, refl, refl, refl, refl));
      others = _;
      reversal = post draft;
      vouchers = r.vouchers ∙ map-snoc post a.vouchers draft;
      same = map-Both IsSameVoucher post a.vouchers (post_if-IsSameVoucher co (pos a.next_voucher));
      reversal_is = reversal_lem co v r.of a.next_voucher (same_id co v r.of a r.found);
    }

JournalReversed-HasReversal :
    (co v : ℤ) (a b : Db)
    → JournalReversed co v a b
    → (NotWritten co v a × (b.lines ≡ a.lines) × (b.vouchers ≡ a.vouchers)) ⊎ HasReversal co v a b
JournalReversed-HasReversal co v a b (inl h) = inl h
JournalReversed-HasReversal co v a b (inr r) = inr (WroteReversal-HasReversal co v a b r)

row_effect-exact :
    (ty : TxnType) (t : BankTxn) → exact_effect ty (reversal_request t) ≡ row_effect ty t.amount
unfolding max_int64
row_effect-exact TxnType.customer_receipt t = refl
row_effect-exact TxnType.supplier_payment t = refl
row_effect-exact TxnType.petty_cash_funding t = refl
row_effect-exact TxnType.petty_cash_return t = refl
row_effect-exact TxnType.loan_receipt t = refl
row_effect-exact TxnType.loan_repayment t = omega int_laws
row_effect-exact _ t = refl

one_test :
    (l x y : Bool) (e : ℤ)
    → (if l then pos 0 else if x && y then e else pos 0) ≡ (if not l && x && y then e else pos 0)
one_test true x y e = refl
one_test false x y e = refl

positive_le : (x : ℤ) → pos 0 <ℤ x → pos 0 ≤ℤ x
positive_le x h = omega arith

Reversed-IsReversed :
    (co id : ℤ) (t : BankTxn) (a b : Db)
    → All IsStoredRow a.txns
    → Reversed co id t a b
    → IsReversed co id t a b
Reversed-IsReversed co id t a b stored r =
    let (ty, known, range, positive) =
      find-All IsStoredRow (λ x. beq_ℤ x.company co && beq_ℤ x.id id) a.txns t stored r.found in
    record {
      found = r.found;
      was_active = r.was_active;
      txns =
          subst (λ l. Both (IsVoided co id) a.txns l) (sym r.txns)
            (map-Both (IsVoided co id) (void_if co id) a.txns (void_if-IsVoided co id));
      allocations = r.allocations;
      journal = JournalReversed-HasReversal co t.voucher a b r.journal;
      ty = ty;
      known = known;
      net = λ c p.
          ap (net c p) r.balances
          ∙ net-balance_taken_back ty co t a c p known
              (range, positive, positive_le t.amount positive)
          ∙ ap (λ x. net c p a.balances +ℤ x)
              (ap (λ e. owed co (reversal_request t) c p (neg e)) (row_effect-exact ty t)
                ∙ one_test (leb_ℤ t.party (pos 0)) (beq_ℤ t.party p) (beq_ℤ co c)
                    (neg (row_effect ty t.amount)));
    }

abbrev pub IsReverseResult : ℤ → ℤ → Db → Result Error (Unit {0}) × Db → Type 0
IsReverseResult co id db (err e, d) = d ≡ db
IsReverseResult co id db (ok _, d) = (t : BankTxn) × IsReversed co id t db d

IsReverseOutcome-IsReverseResult :
    (co id : ℤ) (db : Db) (x : Result Error (Unit {0}) × Db)
    → All IsStoredRow db.txns
    → IsReverseOutcome co id db x
    → IsReverseResult co id db x
IsReverseOutcome-IsReverseResult co id db (err e, d) s h = h
IsReverseOutcome-IsReverseResult co id db (ok u, d) s (t, r) =
    (t, Reversed-IsReversed co id t db d s r)

-- Where all transactions of the table have a known type and a positive `int64` amount,
-- `ReverseTransaction` either fails and leaves all tables as they were; or there was an active
-- transaction of that id and company, and then the active ones of that id and company are void and no
-- transaction changed otherwise; the net balance of its party, if it has one, lost what the type and the
-- whole amount add to it, no other net balance changed, and no allocation did. The journal stays as it
-- was only if the transaction has no voucher or the voucher has a reversal already. Else a posted reversal
-- of the voucher of that date is new, with the lines of the voucher once more, each with debit and credit
-- exchanged; the other vouchers keep all but that they may have been posted.
pub reverse_transaction_lem :
    (co id : ℤ) (db : Db)
    → All IsStoredRow db.txns
    → IsReverseResult co id db (reverse_transaction co id db)
reverse_transaction_lem co id db stored =
    IsReverseOutcome-IsReverseResult co id db (reverse_transaction co id db) stored
      (reverse_transaction-IsReverseOutcome co id db)
