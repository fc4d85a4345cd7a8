-- ===== src/Domain/Settlement.antt =====
-- financial/internal/domain/entity/settlement.go and service/settlement_validator.go. A message is the
-- number of its line and its kind.
pub mod Accepted
use textile_erp_cloud.Base.{
  ℕ, suc, Bool, true, false, not, ◌&&◌, ◌||◌, Option, none, some, List, [], ◌∷◌, ◌++◌,
  if◌then◌else◌,
}
use textile_erp_cloud.Base.Int.{ℤ, pos, ltb_ℤ, leb_ℤ, beq_ℤ, ◌-ℤ◌}
use textile_erp_cloud.Base.Text.{Text, text_eq}
use textile_erp_cloud.Base.Float.{Float}
use textile_erp_cloud.Domain.Money.{Money, zero_money, add, subtract, is_greater_than, is_negative}
use textile_erp_cloud.Domain.Credit.{CreditProfile, high}
use textile_erp_cloud.Domain.Duration.{since, hours}

pub data SettlementType : Type 0 where
  cash check product material internal_transfer : SettlementType

pub record Line (W : Type 0) : Type 0 where
  pub kind : SettlementType
  pub amount : Money
  pub check_no : Text
  pub check_due_date : Option ℤ
  pub bank_name : Text
  pub item_id : Option ℤ
  pub qty : Option W
  pub created_at : ℤ

pub record Settlement (W : Type 0) : Type 0 where
  pub party_id : ℤ
  pub date : ℤ
  pub total_amount : Money
  pub status : Text
  pub lines : List (Line W)
  pub created_by : ℤ
  pub created_at : ℤ

pub data Message : Type 0 where
  check_not_allowed barter_not_allowed bad_details bad_transfer : ℕ → Message
  due_too_late : ℕ → ℤ → Message
  limit_exceeded : Money → Message

pub record ValidationResult : Type 0 where
  pub is_valid : Bool
  pub errors : List Message
  pub warnings : List Message

abbrev pub is_high_risk : CreditProfile → Bool
is_high_risk profile = text_eq profile.risk_group high

-- `result.IsValid = false` with the message appended.
abbrev pub refuse : Message → ValidationResult → ValidationResult
refuse m r = record r { is_valid = false; errors = r.errors ++ (m ∷ []) }

abbrev pub refuse_when : Bool → Message → ValidationResult → ValidationResult
refuse_when b m r = if b then refuse m r else r

abbrev pub warn_when : Bool → Message → ValidationResult → ValidationResult
warn_when b m r = if b then record r { warnings = r.warnings ++ (m ∷ []) } else r

module _ {W : Type 0} where
  abbrev new_line : ℤ → SettlementType → Money → Line W
  new_line now kind amount = record {
    kind = kind;
    amount = amount;
    check_no = [];
    check_due_date = none;
    bank_name = [];
    item_id = none;
    qty = none;
    created_at = now;
  }

  abbrev pub append_line : Line W → Settlement W → Settlement W
  append_line line s = record s {
    lines = s.lines ++ (line ∷ []);
    total_amount = add s.total_amount line.amount;
  }

  -- `AddCashLine`
  unfoldable pub add_cash_line : ℤ → Money → Settlement W → Settlement W
  add_cash_line now amount s = append_line (new_line now cash amount) s

  -- `AddCheckLine`
  unfoldable pub add_check_line : ℤ → Money → Text → Text → ℤ → Settlement W → Settlement W
  add_check_line now amount number bank due s =
      append_line
        (record (new_line now check amount) {
          check_no = number;
          bank_name = bank;
          check_due_date = some due;
        })
        s

-- `int(line.CheckDueDate.Sub(settlement.SettlementDate).Hours() / 24)`
unfoldable pub days_until : (W : Type 0) ⦃fl : Float W⦄ → ℤ → ℤ → ℤ
unfolding hours since
days_until W ⦃fl⦄ due date =
    fl.trunc (fl.over (hours {W = W} (since due date)) (fl.of_int (pos 24)))

abbrev pub clean : ValidationResult
clean = record { is_valid = true; errors = []; warnings = [] }

module _ {W : Type 0} ⦃fl : Float W⦄ where
  abbrev pub is_late : CreditProfile → ℤ → Line W → Bool
  is_late profile date line = elim line.check_due_date [
    | none ↦ false
    | some due ↦ ltb_ℤ profile.credit_days (days_until W due date)
  ]

  abbrev pub late_days : ℤ → Line W → ℤ
  late_days date line = elim line.check_due_date [ none ↦ pos 0 | some due ↦ days_until W due date ]

  abbrev pub has_bad_details : Line W → Bool
  has_bad_details line = elim line.item_id [
    | none ↦ true
    | some item ↦ elim line.qty [ none ↦ true | some qty ↦ fl.at_most qty (fl.of_int (pos 0)) ]
  ]

  abbrev pub check_barter : CreditProfile → ℕ → Line W → ValidationResult → ValidationResult
  check_barter profile i line r =
      refuse_when (has_bad_details line) (bad_details i)
        (refuse_when (is_high_risk profile) (barter_not_allowed i) r)

  -- The `switch` of the loop.
  abbrev pub check_as :
      CreditProfile → ℤ → ℕ → Line W → SettlementType → ValidationResult → ValidationResult
  check_as profile date i line cash r = r
  check_as profile date i line check r =
      warn_when (is_late profile date line) (due_too_late i (late_days date line))
        (refuse_when (is_high_risk profile) (check_not_allowed i) r)
  check_as profile date i line product r = check_barter profile i line r
  check_as profile date i line material r = check_barter profile i line r
  check_as profile date i line internal_transfer r =
      refuse_when (is_negative line.amount || beq_ℤ line.amount (pos 0)) (bad_transfer i) r

  abbrev pub check_line : CreditProfile → ℤ → ℕ → Line W → ValidationResult → ValidationResult
  check_line profile date i line r = check_as profile date i line line.kind r

  -- The loop; `i` is the number of the line.
  abbrev pub check_lines :
      CreditProfile → ℤ → ℕ → List (Line W) → ValidationResult → ValidationResult
  check_lines profile date i [] r = r
  check_lines profile date i (line ∷ lines) r =
      check_lines profile date (suc i) lines (check_line profile date i line r)

  -- `ValidateSettlement`
  unfoldable pub validate_settlement : Settlement W → CreditProfile → Money → ValidationResult
  unfolding days_until
  validate_settlement s profile debt =
      let r = check_lines profile s.date 1 s.lines clean in
      let left = subtract debt s.total_amount in
      warn_when (is_greater_than left profile.credit_limit) (limit_exceeded left) r
