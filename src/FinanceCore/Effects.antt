-- ===== src/FinanceCore/Effects.antt =====
-- financecore/service.go: `applyPartyBalance` and `saveAllocations`.
pub mod Allocations
pub mod Net
pub mod Undo
pub mod Changed
use textile_erp_cloud.Base.{
  Bool, true, false, not, ◌&&◌, ◌||◌, Option, none, some, List, [], ◌∷◌, ◌++◌, if◌then◌else◌, find,
  is_some, update_first,
}
use textile_erp_cloud.Base.Int.{ℤ, pos, ltb_ℤ, leb_ℤ, beq_ℤ, ◌+ℤ◌}
use textile_erp_cloud.Base.Int64.{◌+₆₄◌, ◌-₆₄◌, neg64}
use textile_erp_cloud.Base.Text.{Text, codes, is_empty, trim_space}
use textile_erp_cloud.FinanceCore.Types.{TxnType, type_of, AllocationInput, Request, Error}
use textile_erp_cloud.FinanceCore.Validate.{is_receipt, allowed_document}
use textile_erp_cloud.FinanceCore.Plan.{party_balance_effect}
use textile_erp_cloud.FinanceCore.Store.{
  Balance, Allocation, Db, Tx, ◌>>=◌, ◌>>◌, pure, modify, fail_if, check_rows, is_decimal,
  is_party_of,
}

abbrev pub is_supplier_payment : Request → Bool
is_supplier_payment req = elim (type_of req.txn_type) [
  | some TxnType.supplier_payment ↦ true
  | _ ↦ false
]

-- The row that `WHERE party_id AND company_id AND sub_project_id IS NULL ORDER BY id LIMIT 1` finds
-- first.
abbrev pub is_balance_of : ℤ → ℤ → Balance → Bool
is_balance_of co party b = beq_ℤ b.party party && beq_ℤ b.company co && not b.of_sub_project

abbrev pub add_to : ℤ → ℤ → Balance → Balance
add_to debit credit b = record b { debit = b.debit +ℤ debit; credit = b.credit +ℤ credit }

unfoldable pub change_balance : ℤ → ℤ → ℤ → ℤ → List Balance → List Balance
change_balance co party debit credit bs =
    if is_some (find (is_balance_of co party) bs)
    then update_first (is_balance_of co party) (add_to debit credit) bs
    else bs
      ++ (record {
        company = co;
        party = party;
        of_sub_project = false;
        debit = debit;
        credit = credit;
      }
          ∷ [])

abbrev pub signed_effect : Bool → Request → ℤ
signed_effect reverse req =
    if reverse then neg64 (party_balance_effect req) else party_balance_effect req

-- `deltaDebit, deltaCredit`
abbrev pub delta : Bool → Request → ℤ × ℤ
delta reverse req =
    if is_supplier_payment req
    then (pos 0, neg64 (signed_effect reverse req))
    else (signed_effect reverse req, pos 0)

-- `effect == 0 || req.PartyID <= 0`, or the row of the party is changed or inserted.
unfoldable pub balances_after : ℤ → Request → Bool → List Balance → List Balance
unfolding change_balance
balances_after co req reverse bs =
    if beq_ℤ (signed_effect reverse req) (pos 0) || leb_ℤ req.party_id (pos 0)
    then bs
    else change_balance co req.party_id (delta reverse req).0 (delta reverse req).1 bs

unfoldable pub apply_party_balance : ℤ → Request → Bool → Db → Db
unfolding balances_after
apply_party_balance co req reverse db = record db {
  balances = balances_after co req reverse db.balances;
}

-- The row that a statement on ar_ap_balances leaves holds its amounts.
abbrev pub is_decimal_row : Option Balance → Bool
is_decimal_row none = true
is_decimal_row (some b) = is_decimal b.debit && is_decimal b.credit

-- The constraints that the statement on ar_ap_balances could break: `fk_ar_ap_balances_company_party` for
-- a new row, and the type of the two amounts.
unfoldable pub fits_balances : ℤ → Request → Bool → Db → Bool
unfolding balances_after is_decimal is_party_of
fits_balances co req reverse db =
    beq_ℤ (signed_effect reverse req) (pos 0)
    || leb_ℤ req.party_id (pos 0)
    || ((is_some (find (is_balance_of co req.party_id) db.balances)
          || is_party_of co req.party_id db)
        && is_decimal_row
            (find (is_balance_of co req.party_id) (balances_after co req reverse db.balances)))

-- `applyPartyBalance`, with these constraints.
unfoldable pub change_party_balance : ℤ → Request → Bool → Tx (Unit {0})
unfolding fits_balances apply_party_balance
change_party_balance co req reverse = do
  check_rows (fits_balances co req reverse)
  modify (apply_party_balance co req reverse)

abbrev pub document_type : AllocationInput → Text
document_type a =
    if is_empty (trim_space a.document_type)
    then codes "OTHER_DOCUMENT"
    else trim_space a.document_type

abbrev pub add_allocation : Allocation → Db → Db
add_allocation a db = record db { allocations = db.allocations ++ (a ∷ []) }

-- One INSERT, with the CHECK constraints of the table.
unfoldable pub insert_allocation : ℤ → ℤ → ℤ → Text → ℤ → Tx (Unit {0})
unfolding allowed_document
insert_allocation co txn party kind amount = do
  fail_if (not (allowed_document kind) || leb_ℤ amount (pos 0)) Error.constraint_failed
  modify (
      add_allocation (record {
        company = co;
        txn = txn;
        document_type = kind;
        party = party;
        allocated = amount;
      }))

-- The loop of `saveAllocations`, with the sum so far.
unfoldable pub insert_allocations : ℤ → ℤ → ℤ → ℤ → List AllocationInput → Tx ℤ
insert_allocations co txn party total [] = pure total
insert_allocations co txn party total (a ∷ rest) = do
  insert_allocation co txn party (document_type a) a.allocated
  insert_allocations co txn party (total +₆₄ a.allocated) rest

abbrev pub is_empty_list : List AllocationInput → Bool
is_empty_list [] = true
is_empty_list (a ∷ rest) = false

-- The remainder that stays as a credit of the party.
unfoldable pub save_remainder : ℤ → ℤ → Request → ℤ → Tx (Unit {0})
save_remainder co txn req total =
    if (is_empty_list req.allocations || ltb_ℤ total req.amount)
      && ltb_ℤ (pos 0) (req.amount -₆₄ total)
    then insert_allocation co txn req.party_id (codes "UNALLOCATED_CREDIT") (req.amount -₆₄ total)
    else pure tt

unfoldable pub save_allocations : ℤ → ℤ → Request → Tx (Unit {0})
save_allocations co txn req =
    if not (is_receipt req) || leb_ℤ req.party_id (pos 0)
    then pure tt
    else (insert_allocations co txn req.party_id (pos 0) req.allocations >>= λ total.
        save_remainder co txn req total)
