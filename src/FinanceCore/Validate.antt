-- ===== src/FinanceCore/Validate.antt =====
-- financecore/service.go: `Validate`, `validateAllocations`, `maxInt64` and `TypeRequiresParty`.
use textile_erp_cloud.Base.{
  Bool, true, false, not, ◌&&◌, ◌||◌, none, some, List, [], ◌∷◌, ltb, if◌then◌else◌,
}
use textile_erp_cloud.Base.Int.{ℤ, pos, ltb_ℤ, leb_ℤ, beq_ℤ}
use textile_erp_cloud.Base.Int64.{◌+₆₄◌}
use textile_erp_cloud.Base.Result.{Result, ok, ◌>>=◌, ◌>>◌, refuse_if, or_err}
use textile_erp_cloud.Base.Text.{Text, codes, text_eq, is_empty, byte_len, trim_space, to_upper}
use textile_erp_cloud.FinanceCore.Types.{
  TxnType, TypeRule, type_of, type_rule, dir_in, dir_out, AllocationInput, Request, Error,
}

-- `TypeRequiresParty`.
pub type_requires_party : Text → Bool
type_requires_party s = elim (type_of s) [ none ↦ false | some t ↦ (type_rule t).requires_party ]

unfoldable pub max_int64 : ℤ → ℤ → ℤ
max_int64 value floor = if ltb_ℤ floor value then value else floor

-- The trimmed copy that `Validate` reads, and that `PostTransaction` goes on with.
unfoldable pub normalize : Request → Request
normalize req = record req {
  external_id = trim_space req.external_id;
  txn_type = trim_space req.txn_type;
  direction = to_upper (trim_space req.direction);
}

unfoldable pub allowed_document : Text → Bool
allowed_document s =
    text_eq s (codes "INVOICE")
    || text_eq s (codes "UNALLOCATED_CREDIT")
    || text_eq s (codes "OTHER_DOCUMENT")

-- The loop of `validateAllocations` over the running total.
unfoldable pub allocation_total : ℤ → List AllocationInput → Result Error ℤ
unfolding allowed_document
allocation_total total [] = ok total
allocation_total total (a ∷ rest) = do
  refuse_if (leb_ℤ a.allocated (pos 0)) Error.bad_allocation
  refuse_if (not (allowed_document (trim_space a.document_type))) Error.bad_document_type
  allocation_total (total +₆₄ a.allocated) rest

abbrev pub is_receipt : Request → Bool
is_receipt req = elim (type_of req.txn_type) [ some TxnType.customer_receipt ↦ true | _ ↦ false ]

abbrev pub check_allocations : Request → List AllocationInput → Result Error (Unit {0})
check_allocations req [] = ok tt
check_allocations req (a ∷ rest) = do
  refuse_if (not (is_receipt req)) Error.allocation_not_allowed
  total ← allocation_total (pos 0) (a ∷ rest)
  refuse_if (ltb_ℤ req.amount total) Error.too_much_allocated

unfoldable pub validate_allocations : Request → Result Error (Unit {0})
validate_allocations req = check_allocations req req.allocations

abbrev pub is_loan_repayment : Request → Bool
is_loan_repayment req = elim (type_of req.txn_type) [
  | some TxnType.loan_repayment ↦ true
  | _ ↦ false
]

abbrev pub no_counter : TypeRule → Request → Bool
no_counter rule req =
    rule.requires_counter
    && leb_ℤ req.counter_account_id (pos 0)
    && is_empty (trim_space req.counter_account_name)

abbrev pub counter_is_bank : TypeRule → Request → Bool
counter_is_bank rule req =
    rule.requires_counter
    && ltb_ℤ (pos 0) req.counter_account_id
    && beq_ℤ req.counter_account_id req.bank_account_id

-- The tests of `Validate` once the type is known.
abbrev pub after_type : Request → TxnType → Result Error (Unit {0})
after_type req t = do
  refuse_if (not (text_eq req.direction dir_in) && not (text_eq req.direction dir_out))
      Error.bad_direction
  let rule = type_rule t
  refuse_if (not (is_empty rule.direction) && not (text_eq req.direction rule.direction))
      Error.wrong_direction
  refuse_if (rule.requires_party && leb_ℤ req.party_id (pos 0)) Error.party_required
  refuse_if (no_counter rule req) Error.counter_required
  refuse_if (counter_is_bank rule req) Error.same_account
  refuse_if (is_loan_repayment req && ltb_ℤ req.interest (pos 0)) Error.negative_interest
  refuse_if (ltb_ℤ req.amount req.interest) Error.large_interest
  validate_allocations req

-- `Validate` after its three assignments.
unfoldable pub validate_clean : Request → Result Error (Unit {0})
validate_clean req = do
  refuse_if (is_empty req.external_id) Error.missing_id
  refuse_if (ltb 120 (byte_len req.external_id)) Error.long_id
  refuse_if (leb_ℤ req.amount (pos 0)) Error.bad_amount
  t ← or_err (type_of req.txn_type) Error.unknown_type
  after_type req t

unfoldable pub validate : Request → Result Error (Unit {0})
validate req = validate_clean (normalize req)
