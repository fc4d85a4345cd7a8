-- ===== src/FinanceCore/Post/Posted.antt =====
-- What a successful `PostTransaction` of financecore/service.go has done to the tables.
use textile_erp_cloud.Base.{
  suc, ◌≡◌, refl, sym, ◌∙◌, inl, inr, Bool, true, false, ◌&&◌, Option, none, some, List, [], ◌∷◌,
  ◌++◌, map, Bool-cases, All,
}
use textile_erp_cloud.Base.Int.{ℤ, pos, ltb_ℤ, beq_ℤ}
use textile_erp_cloud.Base.Int64.{InInt64}
use textile_erp_cloud.Base.Text.{Text}
use textile_erp_cloud.FinanceCore.Types.{TxnType, Request, Role, Error}
use textile_erp_cloud.FinanceCore.Accept.{IsAccepted}
use textile_erp_cloud.FinanceCore.Plan.{Leg, substitute_cash}
use textile_erp_cloud.FinanceCore.Balance.{IsBalanced, posting_plan-IsBalanced}
use textile_erp_cloud.FinanceCore.Dates.{Date, accounting_date}
use textile_erp_cloud.FinanceCore.Store.{active, BankTxn, Allocation, Line, Db}
use textile_erp_cloud.FinanceCore.Frames.{
  Ensures, Ensures-weaken, Keeps, Keeps-bind, Keeps-pure, Keeps-or_fail, Keeps-fail_if, SameLedger,
  SameLedger-frame,
}
use textile_erp_cloud.FinanceCore.Lookups.Keeps.{
  ensure_bank_account-SameLedger, ensure_counter_account-SameLedger, ensure_party_role-SameLedger,
}
use textile_erp_cloud.FinanceCore.Vouchers.{insert_voucher, line_of}
use textile_erp_cloud.FinanceCore.Vouchers.Lines.{
  LinesAdded, VoucherAdded, new_lines, SameLedger-LinesAdded, insert_voucher_lem,
}
use textile_erp_cloud.FinanceCore.Vouchers.Book.{
  IsBookBalanced, legs-IsBookBalanced, sum_debit-substitute_cash, sum_credit-substitute_cash,
}
use textile_erp_cloud.FinanceCore.Effects.{balances_after, apply_party_balance}
use textile_erp_cloud.FinanceCore.Effects.Allocations.{stored, IsOf, Added, to_allocate}
use textile_erp_cloud.FinanceCore.Post.{
  Outcome, PostResult, Found, look_up, ensure_role, role_for, implied_role, clock_of, till_account,
  post_voucher_of, fits_table, txn_row, add_txn, insert_txn,
}

role_for-SameLedger :
    (co : ℤ) (req : Request) (o : Option Role) → Keeps SameLedger (role_for co req o)
role_for-SameLedger co req none = λ db. SameLedger-frame.same db
role_for-SameLedger co req (some role) = elim (Bool-cases (ltb_ℤ (pos 0) req.party_id)) [
  | inl party ↦ rw party (ensure_party_role-SameLedger co req.party_id role)
  | inr nobody ↦ rw nobody (λ db. SameLedger-frame.same db)
]

-- The look-ups leave the ledger alone.
pub look_up-SameLedger : (co : ℤ) (req : Request) → Keeps SameLedger (look_up co req)
unfolding look_up ensure_role
look_up-SameLedger co req =
    let R = SameLedger in
    let F = SameLedger-frame in
    Keeps-bind R F _ _ (ensure_bank_account-SameLedger co req.bank_account_id req.bank_account_name)
      λ bank. Keeps-bind R F _ _ (ensure_counter_account-SameLedger co req) λ counter.
        Keeps-bind R F _ _
          (Keeps-fail_if R F (ltb_ℤ (pos 0) counter && beq_ℤ counter bank.id) Error.same_account)
          λ _. Keeps-bind R F _ _ (role_for-SameLedger co req (implied_role req)) λ _.
            Keeps-bind R F _ _ (Keeps-or_fail R F (accounting_date req.date) Error.bad_date) λ date.
              Keeps-bind R F _ _ (Keeps-or_fail R F (clock_of req) Error.bad_date)
                λ time. Keeps-pure R F {A = Found} (bank, counter, date, time)

-- The voucher of an accepted request adds balanced lines to the journal, if any.
abbrev pub BalancedAdded : Db → Db → Type 0
BalancedAdded a b = (new : List Line) × IsBookBalanced new × LinesAdded new a b

till-legs-IsBookBalanced :
    (co v : ℤ) (req : Request) (till : Bool) (legs : List Leg)
    → IsBalanced req.amount legs
    → IsBookBalanced (map (line_of co v req.party_id) (substitute_cash (till_account till) legs))
till-legs-IsBookBalanced co v req till legs b =
    let put = substitute_cash (till_account till) legs in
    legs-IsBookBalanced co v req.party_id put (
      sum_debit-substitute_cash (till_account till) legs
      ∙ b.debits
      ∙ sym b.credits
      ∙ sym (sum_credit-substitute_cash (till_account till) legs))

voucher_balanced :
    (co : ℤ) (req : Request) (put : List Leg) (a b : Db)
    → IsBookBalanced (new_lines co req put a)
    → VoucherAdded co req put a b
    → BalancedAdded a b
voucher_balanced co req put a b h (inl k) = ([], λ c i. refl, k)
voucher_balanced co req put a b h (inr k) = (new_lines co req put a, h, k)

pub post_voucher_of_lem :
    (t : TxnType) (co : ℤ) (req : Request) (date : Date) (till with_gl : Bool) (db : Db)
    → IsAccepted t req
    → InInt64 req.amount
    → Ensures (λ _ d. BalancedAdded db d) (post_voucher_of co req date till with_gl db)
unfolding post_voucher_of
post_voucher_of_lem t co req date till false db a r =
    ([], λ c i. refl, SameLedger-LinesAdded db db (SameLedger-frame.same db))
post_voucher_of_lem t co req date till true db a r =
    let (legs, plan, balanced) = posting_plan-IsBalanced t req r a in
    let put = substitute_cash (till_account till) legs in
    rw plan (
      Ensures-weaken (λ _ d. VoucherAdded co req put db d) (λ _ d. BalancedAdded db d)
        (insert_voucher co req date put db)
        (λ _ d.
          voucher_balanced co req put db d
            (till-legs-IsBookBalanced co (pos db.next_voucher) req till legs balanced))
        (insert_voucher_lem co req date put db))

pub insert_txn_lem :
    (co : ℤ) (req : Request) (date : Date) (time : Text) (bank counter voucher : ℤ) (db : Db)
    → Ensures
        (λ id d.
          (id ≡ pos db.next_txn)
          × (d ≡ add_txn (txn_row co req date time bank counter voucher id) db))
        (insert_txn co req date time bank counter voucher db)
unfolding insert_txn
insert_txn_lem co req date time bank counter voucher db =
    elim (Bool-cases (fits_table req time db)) [
      | inl fits ↦ rw fits (refl, refl)
      | inr not_fits ↦ rw not_fits tt
    ]

-- The row of the transaction as it was stored.
abbrev pub IsRowOf : ℤ → Request → BankTxn → Type 0
IsRowOf co req row =
    (row.company ≡ co)
    × (row.external_id ≡ req.external_id)
    × (row.amount ≡ req.amount)
    × (row.txn_type ≡ req.txn_type)
    × (row.party ≡ req.party_id)
    × (row.interest ≡ req.interest)
    × (row.direction ≡ req.direction)
    × (row.status ≡ active)

-- One new transaction, the lines of at most one balanced voucher, the change of one balance and
-- allocations of the amount; all other rows are as before.
pub record Posted (co : ℤ) (req : Request) (a b : Db) (r : PostResult) : Type 0 where
  pub created : r.outcome ≡ Outcome.created
  pub id : r.txn ≡ pos a.next_txn
  pub row : BankTxn
  pub row_id : row.id ≡ r.txn
  pub row_voucher : row.voucher ≡ r.voucher
  pub row_of : IsRowOf co req row
  pub txns : b.txns ≡ a.txns ++ (row ∷ [])
  pub next_txn : b.next_txn ≡ suc a.next_txn
  pub new_lines : List Line
  pub lines : b.lines ≡ a.lines ++ new_lines
  pub balanced : IsBookBalanced new_lines
  pub balances : b.balances ≡ balances_after co req false a.balances
  pub new_allocations : List Allocation
  pub allocations : b.allocations ≡ a.allocations ++ new_allocations
  pub of_party : All (IsOf co r.txn req.party_id) new_allocations
  pub allocated : stored new_allocations ≡ to_allocate req

-- The facts of the steps put together.
pub collect :
    (co : ℤ) (req : Request) (date : Date) (time : Text) (bank counter voucher id : ℤ)
    (a b c e : Db)
    → BalancedAdded a b
    → id ≡ pos b.next_txn
    → c ≡ add_txn (txn_row co req date time bank counter voucher id) b
    → Added co id req.party_id (to_allocate req) (apply_party_balance co req false c) e
    → Posted co req a e (record { outcome = Outcome.created; txn = id; voucher = voucher })
unfolding apply_party_balance
collect co req date time bank counter voucher id a b c e (new, balanced, h) i k
      (rows, all, sum, grown) =
    record {
      created = refl;
      id = rw (i, h.next_txn) refl;
      row = txn_row co req date time bank counter voucher id;
      row_id = refl;
      row_voucher = refl;
      row_of = (refl, refl, refl, refl, refl, refl, refl, refl);
      txns = rw (grown, k, h.txns) refl;
      next_txn = rw (grown, k, h.next_txn) refl;
      new_lines = new;
      lines = rw (grown, k, h.lines) refl;
      balanced = balanced;
      balances = rw (grown, k, h.balances) refl;
      new_allocations = rows;
      allocations = rw (grown, k, h.allocations) refl;
      of_party = all;
      allocated = sum;
    }
