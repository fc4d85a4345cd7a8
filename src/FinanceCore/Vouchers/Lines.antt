-- ===== src/FinanceCore/Vouchers/Lines.antt =====
-- The journal lines that `insertVoucher` and `reverseVoucher` of financecore/service.go write.
use textile_erp_cloud.Base.{
  ◌≡◌, refl, sym, ap, ◌∙◌, ◌⊎◌, inl, inr, List, [], ◌∷◌, ◌++◌, map, arith, Option, some, none,
}
use mathlib.Core.List.{append-nil, append_assoc}
use textile_erp_cloud.Base.Int.{ℤ, pos}
use textile_erp_cloud.FinanceCore.Types.{Request}
use textile_erp_cloud.FinanceCore.Plan.{Leg}
use textile_erp_cloud.FinanceCore.Dates.{Date}
use textile_erp_cloud.FinanceCore.Store.{Db, Line, Voucher, of_txn, ◌>>◌, modify, pure}
use textile_erp_cloud.FinanceCore.Frames.{
  Ensures-check_rows, Ensures, Ensures-weaken, Ensures-bind, SameLedger,
}
use textile_erp_cloud.FinanceCore.Lookups.{ensure_account, ensure_branch}
use textile_erp_cloud.FinanceCore.Lookups.Keeps.{
  ensure_account-SameLedger, ensure_branch-SameLedger,
}
use textile_erp_cloud.FinanceCore.Vouchers.{
  fits_line, line_of, add_line, insert_lines, draft_voucher, post_voucher, write_voucher,
  insert_voucher, reuse_or_write, voucher_by_key,
}

-- The journal grew by the lines `new`, and the transactions, balances and allocations stayed.
pub record LinesAdded (new : List Line) (a b : Db) : Type 0 where
  pub txns : b.txns ≡ a.txns
  pub next_txn : b.next_txn ≡ a.next_txn
  pub balances : b.balances ≡ a.balances
  pub allocations : b.allocations ≡ a.allocations
  pub lines : b.lines ≡ a.lines ++ new

-- The first line, then the others.
LinesAdded-cons :
    (l : Line) (ls : List Line) (a b c : Db)
    → SameLedger a b
    → LinesAdded ls (add_line l b) c
    → LinesAdded (l ∷ ls) a c
LinesAdded-cons l ls a b c s h = record {
  txns = ground arith;
  next_txn = ground arith;
  balances = ground arith;
  allocations = ground arith;
  lines = rw (h.lines, s.lines) (append_assoc a.lines (l ∷ []) ls);
}

line_then_rest :
    (co voucher party : ℤ) (l : Line) (legs : List Leg) (a b : Db)
    → SameLedger a b
    → Ensures
        (λ _ d. LinesAdded (map (line_of co voucher party) legs) (add_line l b) d)
        (insert_lines co voucher party legs (add_line l b))
    → Ensures
        (λ _ d. LinesAdded (l ∷ map (line_of co voucher party) legs) a d)
        (insert_lines co voucher party legs (add_line l b))
line_then_rest co voucher party l legs a b s h =
    let added = map (line_of co voucher party) legs in
    Ensures-weaken (λ _ d. LinesAdded added (add_line l b) d) (λ _ d. LinesAdded (l ∷ added) a d)
      (insert_lines co voucher party legs (add_line l b))
      (λ _ d k. LinesAdded-cons l added a b d s k) h

pub insert_lines_lem :
    (co voucher party : ℤ) (legs : List Leg) (db : Db)
    → Ensures
        (λ _ db'. LinesAdded (map (line_of co voucher party) legs) db db')
        (insert_lines co voucher party legs db)
unfolding insert_lines
insert_lines_lem co voucher party [] db = record {
  txns = refl;
  next_txn = refl;
  balances = refl;
  allocations = refl;
  lines = sym (append-nil db.lines);
}
insert_lines_lem co voucher party (leg ∷ legs) db =
    let l = line_of co voucher party leg in
    let b = ensure_account co leg.account db in
    let rest = insert_lines_lem co voucher party legs (add_line l b) in
    Ensures-check_rows (λ _ d. LinesAdded (map (line_of co voucher party) (leg ∷ legs)) db d)
      (fits_line l) (modify (add_line l) >> insert_lines co voucher party legs) b
      (λ _.
        line_then_rest co voucher party l legs db b (ensure_account-SameLedger co leg.account db)
          rest)

-- The lines of the voucher that `insertVoucher` writes if there was none under the key.
abbrev pub new_lines : ℤ → Request → List Leg → Db → List Line
new_lines co req legs db = map (line_of co (pos db.next_voucher) req.party_id) legs

-- What `insertVoucher` adds to the journal: nothing, or those lines.
abbrev pub VoucherAdded : ℤ → Request → List Leg → Db → Db → Type 0
VoucherAdded co req legs db db' =
    LinesAdded [] db db' ⊎ LinesAdded (new_lines co req legs db) db db'

LinesAdded-around :
    (new : List Line) (a b c d : Db)
    → LinesAdded [] a b
    → LinesAdded new b c
    → LinesAdded [] c d
    → LinesAdded new a d
LinesAdded-around new a b c d h k m = record {
  txns = ground arith;
  next_txn = ground arith;
  balances = ground arith;
  allocations = ground arith;
  lines =
      rw (m.lines, k.lines, h.lines)
        (append-nil ((a.lines ++ []) ++ new) ∙ ap (λ l. l ++ new) (append-nil a.lines));
}

kept :
    (a b : Db)
    → b.txns ≡ a.txns
    → b.next_txn ≡ a.next_txn
    → b.balances ≡ a.balances
    → b.allocations ≡ a.allocations
    → b.lines ≡ a.lines
    → LinesAdded [] a b
kept a b h1 h2 h3 h4 h5 = record {
  txns = h1;
  next_txn = h2;
  balances = h3;
  allocations = h4;
  lines = h5 ∙ sym (append-nil a.lines);
}

pub SameLedger-LinesAdded : (a b : Db) → SameLedger a b → LinesAdded [] a b
SameLedger-LinesAdded a b s = kept a b s.txns s.next_txn s.balances s.allocations s.lines

write_voucher_lem :
    (co : ℤ) (req : Request) (date : Date) (legs : List Leg) (db : Db)
    → Ensures
        (λ _ db'. LinesAdded (new_lines co req legs db) db db')
        (write_voucher co (of_txn req.external_id) date req.party_id legs db)
unfolding write_voucher draft_voucher post_voucher
write_voucher_lem co req date legs db =
    let id = pos db.next_voucher in
    let key = of_txn req.external_id in
    let a = draft_voucher co key date (pos 0) db in
    let new = new_lines co req legs db in
    Ensures-bind (λ _ d. LinesAdded new a d) (λ _ d. LinesAdded new db d)
      (insert_lines co id req.party_id legs) (λ _. modify (post_voucher co id) >> pure id) a
      (insert_lines_lem co id req.party_id legs a)
      (λ _ d h.
        LinesAdded-around new db a d (post_voucher co id d) (kept db a refl refl refl refl refl) h
          (kept d (post_voucher co id d) refl refl refl refl refl))

LinesAdded-after :
    (new : List Line) (a b c : Db) → SameLedger a b → LinesAdded new b c → LinesAdded new a c
LinesAdded-after new a b c s h = record {
  txns = ground arith;
  next_txn = ground arith;
  balances = ground arith;
  allocations = ground arith;
  lines = rw (← s.lines) h.lines;
}

after_branch :
    (co : ℤ) (req : Request) (legs : List Leg) (a b c : Db)
    → SameLedger a b
    → VoucherAdded co req legs b c
    → VoucherAdded co req legs a c
after_branch co req legs a b c s (inl h) = inl (LinesAdded-after [] a b c s h)
after_branch co req legs a b c s (inr h) =
    inr (LinesAdded-after (new_lines co req legs a) a b c s (rw (← s.next_voucher) h))

reuse_or_write_lem :
    (co : ℤ) (req : Request) (date : Date) (legs : List Leg) (db : Db) (o : Option Voucher)
    → Ensures (λ _ db'. VoucherAdded co req legs db db') (reuse_or_write co req date legs o db)
reuse_or_write_lem co req date legs db (some v) = inl (kept db db refl refl refl refl refl)
reuse_or_write_lem co req date legs db none =
    Ensures-weaken (λ _ d. LinesAdded (new_lines co req legs db) db d)
      (λ _ d. VoucherAdded co req legs db d)
      (write_voucher co (of_txn req.external_id) date req.party_id legs db) (λ _ d h. inr h)
      (write_voucher_lem co req date legs db)

pub insert_voucher_lem :
    (co : ℤ) (req : Request) (date : Date) (legs : List Leg) (db : Db)
    → Ensures (λ _ db'. VoucherAdded co req legs db db') (insert_voucher co req date legs db)
unfolding insert_voucher
insert_voucher_lem co req date legs db =
    let a = ensure_branch co db in
    let known = voucher_by_key co (of_txn req.external_id) a in
    Ensures-weaken (λ _ d. VoucherAdded co req legs a d) (λ _ d. VoucherAdded co req legs db d)
      (reuse_or_write co req date legs known a)
      (λ _ d h. after_branch co req legs db a d (ensure_branch-SameLedger co db) h)
      (reuse_or_write_lem co req date legs a known)
