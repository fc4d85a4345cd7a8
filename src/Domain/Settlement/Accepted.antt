-- ===== src/Domain/Settlement/Accepted.antt =====
-- What `ValidateSettlement` of settlement_validator.go lets through.
use textile_erp_cloud.Base.{
  ℕ, suc, ◌≡◌, refl, sym, ◌∙◌, ◌↔◌, inl, inr, Bool, true, false, not, ◌||◌, List, [], ◌∷◌, arith,
  Bool-cases, All,
}
use textile_erp_cloud.Base.Int.{ℤ, pos, leb_ℤ, beq_ℤ, ◌<ℤ◌}
use textile_erp_cloud.Base.Text.{text_eq}
use textile_erp_cloud.Base.Float.{Float}
use textile_erp_cloud.Domain.Money.{Money, subtract, is_negative, is_greater_than}
use textile_erp_cloud.Domain.Credit.{CreditProfile, risk_group, credit_terms}
use textile_erp_cloud.Domain.Settlement.{
  SettlementType, cash, check, product, material, internal_transfer, Line, Settlement, Message,
  ValidationResult, is_high_risk, refuse_when, warn_when, has_bad_details, is_late, late_days,
  check_as, check_barter, check_not_allowed, barter_not_allowed, bad_details, bad_transfer,
  due_too_late, limit_exceeded, check_line, check_lines, clean, validate_settlement,
}

refuse_when_iff :
    (b : Bool) (m : Message) (r : ValidationResult)
    → ((refuse_when b m r).is_valid ≡ true) ↔ ((r.is_valid ≡ true) × (b ≡ false))
refuse_when_iff true m r = (λ h. cc, λ h. cc)
refuse_when_iff false m r = (λ h. (h, refl), λ h. h.0)

warn_when-valid :
    (b : Bool) (m : Message) (r : ValidationResult) → (warn_when b m r).is_valid ≡ r.is_valid
warn_when-valid true m r = refl
warn_when-valid false m r = refl

not_zero : (a : ℤ) → (is_negative a || beq_ℤ a (pos 0)) ≡ false → pos 0 <ℤ a
not_zero a h = ground arith

is_positive : (a : ℤ) → pos 0 <ℤ a → (is_negative a || beq_ℤ a (pos 0)) ≡ false
is_positive a h = ground arith

module _ {W : Type 0} ⦃fl : Float W⦄ where
  -- A check and goods need a customer that is not of high risk; goods need an item and a positive
  -- quantity; a transfer needs a positive amount.
  abbrev pub IsAcceptableAs : CreditProfile → Line W → SettlementType → Type 0
  IsAcceptableAs profile line cash = Unit
  IsAcceptableAs profile line check = is_high_risk profile ≡ false
  IsAcceptableAs profile line product =
      (is_high_risk profile ≡ false) × (has_bad_details line ≡ false)
  IsAcceptableAs profile line material =
      (is_high_risk profile ≡ false) × (has_bad_details line ≡ false)
  IsAcceptableAs profile line internal_transfer = pos 0 <ℤ line.amount

  abbrev pub IsAcceptable : CreditProfile → Line W → Type 0
  IsAcceptable profile line = IsAcceptableAs profile line line.kind

  barter_iff :
      (profile : CreditProfile) (i : ℕ) (line : Line W) (r : ValidationResult)
      → ((check_barter profile i line r).is_valid ≡ true)
        ↔ ((r.is_valid ≡ true) × IsAcceptableAs profile line product)
  barter_iff profile i line r =
      let inner = refuse_when (is_high_risk profile) (barter_not_allowed i) r in
      let high_risk = refuse_when_iff (is_high_risk profile) (barter_not_allowed i) r in
      let details = refuse_when_iff (has_bad_details line) (bad_details i) inner in
      (
        λ h. ((high_risk.0 (details.0 h).0).0, ((high_risk.0 (details.0 h).0).1, (details.0 h).1)),
        λ h. details.1 (high_risk.1 (h.0, h.1.0), h.1.1),
      )

  check_as_iff :
      (profile : CreditProfile) (date : ℤ) (i : ℕ) (line : Line W) (kind : SettlementType)
      (r : ValidationResult)
      → ((check_as profile date i line kind r).is_valid ≡ true)
        ↔ ((r.is_valid ≡ true) × IsAcceptableAs profile line kind)
  check_as_iff profile date i line cash r = (λ h. (h, tt), λ h. h.0)
  check_as_iff profile date i line check r =
      let high_risk = refuse_when_iff (is_high_risk profile) (check_not_allowed i) r in
      let kept =
        warn_when-valid (is_late profile date line) (due_too_late i (late_days date line))
          (refuse_when (is_high_risk profile) (check_not_allowed i) r) in
      (λ h. high_risk.0 (sym kept ∙ h), λ h. kept ∙ high_risk.1 h)
  check_as_iff profile date i line product r = barter_iff profile i line r
  check_as_iff profile date i line material r = barter_iff profile i line r
  check_as_iff profile date i line internal_transfer r =
      let amount =
        refuse_when_iff (is_negative line.amount || beq_ℤ line.amount (pos 0)) (bad_transfer i) r in
      (
        λ h. ((amount.0 h).0, not_zero line.amount (amount.0 h).1),
        λ h. amount.1 (h.0, is_positive line.amount h.1),
      )

  check_lines_iff :
      (profile : CreditProfile) (date : ℤ) (i : ℕ) (lines : List (Line W)) (r : ValidationResult)
      → ((check_lines profile date i lines r).is_valid ≡ true)
        ↔ ((r.is_valid ≡ true) × All (IsAcceptable profile) lines)
  check_lines_iff profile date i [] r = (λ h. (h, tt), λ h. h.0)
  check_lines_iff profile date i (line ∷ lines) r =
      let first = check_as_iff profile date i line line.kind r in
      let others = check_lines_iff profile date (suc i) lines (check_line profile date i line r) in
      (
        λ h. ((first.0 (others.0 h).0).0, ((first.0 (others.0 h).0).1, (others.0 h).1)),
        λ h. others.1 (first.1 (h.0, h.1.0), h.1.1),
      )

  -- `ValidateSettlement` says that a settlement is valid exactly when each of its lines is acceptable:
  -- no check and no goods of a customer of high risk, an item and a positive quantity for goods, and
  -- a positive amount for an internal transfer. Due dates and the credit limit never make it invalid.
  pub validate_settlement_iff :
      (s : Settlement W) (profile : CreditProfile) (debt : Money)
      → ((validate_settlement s profile debt).is_valid ≡ true) ↔ All (IsAcceptable profile) s.lines
  unfolding validate_settlement
  validate_settlement_iff s profile debt =
      let lines = check_lines_iff profile s.date 1 s.lines clean in
      let left = subtract debt s.total_amount in
      let kept =
        warn_when-valid (is_greater_than left profile.credit_limit) (limit_exceeded left)
          (check_lines profile s.date 1 s.lines clean) in
      (λ h. (lines.0 (sym kept ∙ h)).1, λ h. kept ∙ lines.1 (refl, h))

-- For every score, the terms of its risk group allow checks, and goods, exactly when the validator
-- does not take a customer of that group as one of high risk.
pub terms_agree :
    (W : Type 0) ⦃fl : Float W⦄ (score : ℤ) (profile : CreditProfile)
    → profile.risk_group ≡ risk_group score
    → ((credit_terms {W = W} (risk_group score)).allow_check ≡ not (is_high_risk profile))
      × ((credit_terms {W = W} (risk_group score)).allow_barter ≡ not (is_high_risk profile))
unfolding risk_group credit_terms text_eq
terms_agree W score profile e = elim (Bool-cases (leb_ℤ (pos 70) score)) [
  | inl best ↦ rw (e, best) (refl, refl)
  | inr less ↦ elim (Bool-cases (leb_ℤ (pos 40) score)) [
    | inl middle ↦ rw (e, less, middle) (refl, refl)
    | inr worst ↦ rw (e, less, worst) (refl, refl)
  ]
]
