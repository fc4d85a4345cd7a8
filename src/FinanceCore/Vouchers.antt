-- ===== src/FinanceCore/Vouchers.antt =====
-- financecore/service.go: `insertVoucher` and `reverseVoucher`.
pub mod Lines
pub mod Book
pub mod Reversal
use textile_erp_cloud.Base.{
  suc, Bool, true, false, not, ◌&&◌, ◌||◌, Option, none, some, List, [], ◌∷◌, ◌++◌, map,
  if◌then◌else◌, find, keep,
}
use textile_erp_cloud.Base.Int.{ℤ, pos, ltb_ℤ, leb_ℤ, beq_ℤ}
use textile_erp_cloud.Base.Text.{text_eq}
use textile_erp_cloud.FinanceCore.Types.{Request, Error}
use textile_erp_cloud.FinanceCore.Plan.{Leg}
use textile_erp_cloud.FinanceCore.Dates.{Date}
use textile_erp_cloud.FinanceCore.Store.{
  Key, of_txn, of_reversal, foreign, Voucher, Line, Db, Tx, ◌>>=◌, ◌>>◌, pure, or_fail, gets,
  modify, check_rows, is_decimal, is_party_of,
}
use textile_erp_cloud.FinanceCore.Lookups.{ensure_branch, ensure_account}

unfoldable pub key_eq : Key → Key → Bool
key_eq (of_txn s) (of_txn t) = text_eq s t
key_eq (of_reversal a) (of_reversal b) = beq_ℤ a b
key_eq (foreign s) (foreign t) = text_eq s t
key_eq _ _ = false

abbrev pub voucher_by_key : ℤ → Key → Db → Option Voucher
voucher_by_key co key db = find (λ v. beq_ℤ v.company co && key_eq v.key key) db.vouchers

abbrev pub voucher_by_id : ℤ → ℤ → Db → Option Voucher
voucher_by_id co id db = find (λ v. beq_ℤ v.company co && beq_ℤ v.id id) db.vouchers

-- The constraint `ck_journal_line_one_side`.
unfoldable pub is_one_sided : ℤ → ℤ → Bool
is_one_sided debit credit =
    leb_ℤ (pos 0) debit
    && leb_ℤ (pos 0) credit
    && ((ltb_ℤ (pos 0) debit && beq_ℤ credit (pos 0))
        || (ltb_ℤ (pos 0) credit && beq_ℤ debit (pos 0)))

abbrev pub line_of : ℤ → ℤ → ℤ → Leg → Line
line_of co voucher party leg = record {
  company = co;
  voucher = voucher;
  account = leg.account;
  party = if leg.party && ltb_ℤ (pos 0) party then party else pos 0;
  debit = leg.debit;
  credit = leg.credit;
}

abbrev pub add_line : Line → Db → Db
add_line l db = record db { lines = db.lines ++ (l ∷ []) }

-- The constraints of journal_voucher_lines on the amounts.
unfoldable pub has_fit_sides : ℤ → ℤ → Bool
unfolding is_one_sided is_decimal
has_fit_sides debit credit = is_one_sided debit credit && is_decimal debit && is_decimal credit

-- The constraints that an INSERT into journal_voucher_lines could break: those on the amounts, and
-- `fk_journal_voucher_lines_company_party`.
abbrev pub fits_line : Line → Db → Bool
fits_line l db = has_fit_sides l.debit l.credit && is_party_of l.company l.party db

-- The loop over the legs.
unfoldable pub insert_lines : ℤ → ℤ → ℤ → List Leg → Tx (Unit {0})
unfolding has_fit_sides is_party_of
insert_lines co voucher party [] = pure tt
insert_lines co voucher party (leg ∷ legs) = do
  modify (ensure_account co leg.account)
  check_rows (fits_line (line_of co voucher party leg))
  modify (add_line (line_of co voucher party leg))
  insert_lines co voucher party legs

-- `INSERT INTO journal_vouchers … 'Draft' … RETURNING id`
unfoldable pub draft_voucher : ℤ → Key → Date → ℤ → Db → Db
draft_voucher co key date reversal_of db = record db {
  vouchers =
      db.vouchers
      ++ (record {
        id = pos db.next_voucher;
        company = co;
        key = key;
        date = date;
        posted = false;
        reversal_of = reversal_of;
      }
          ∷ []);
  next_voucher = suc db.next_voucher;
}

abbrev pub post_if : ℤ → ℤ → Voucher → Voucher
post_if co id v =
    if beq_ℤ v.company co && beq_ℤ v.id id && not v.posted then record v { posted = true } else v

-- `UPDATE journal_vouchers SET status='Posted' … WHERE status='Draft'`
unfoldable pub post_voucher : ℤ → ℤ → Db → Db
post_voucher co id db = record db { vouchers = map (post_if co id) db.vouchers }

unfoldable pub write_voucher : ℤ → Key → Date → ℤ → List Leg → Tx ℤ
write_voucher co key date party legs db =
    let id = pos db.next_voucher in
    (do
      modify (draft_voucher co key date (pos 0))
      insert_lines co id party legs
      modify (post_voucher co id)
      pure id)
      db

-- After `ON CONFLICT DO NOTHING`: the voucher that is there already, or a new one.
abbrev pub reuse_or_write : ℤ → Request → Date → List Leg → Option Voucher → Tx ℤ
reuse_or_write co req date legs (some v) = pure v.id
reuse_or_write co req date legs none =
    write_voucher co (of_txn req.external_id) date req.party_id legs

unfoldable pub insert_voucher : ℤ → Request → Date → List Leg → Tx ℤ
unfolding key_eq
insert_voucher co req date legs = do
  modify (ensure_branch co)
  known ← gets (voucher_by_key co (of_txn req.external_id))
  reuse_or_write co req date legs known

abbrev pub mirror : ℤ → Line → Line
mirror id l = record l { voucher = id; debit = l.credit; credit = l.debit }

abbrev pub is_line_of : ℤ → ℤ → Line → Bool
is_line_of co voucher l = beq_ℤ l.voucher voucher && beq_ℤ l.company co

-- `INSERT INTO journal_voucher_lines … SELECT …, credit, debit, …`
unfoldable pub mirror_lines : ℤ → ℤ → ℤ → Db → Db
mirror_lines co voucher id db = record db {
  lines = db.lines ++ map (mirror id) (keep (is_line_of co voucher) db.lines);
}

unfoldable pub write_reversal : ℤ → Voucher → Db → Db
unfolding draft_voucher mirror_lines post_voucher
write_reversal co v db =
    let id = pos db.next_voucher in
    post_voucher co id
      (mirror_lines co v.id id (draft_voucher co (of_reversal v.id) v.date v.id db))

abbrev pub write_unless : ℤ → Voucher → Option Voucher → Tx (Unit {0})
write_unless co v (some reversal) = pure tt
write_unless co v none = modify (write_reversal co v)

unfoldable pub reverse_voucher : ℤ → ℤ → Tx (Unit {0})
unfolding key_eq write_reversal
reverse_voucher co voucher = do
  found ← gets (voucher_by_id co voucher)
  v ← or_fail found Error.constraint_failed
  known ← gets (voucher_by_key co (of_reversal v.id))
  write_unless co v known
