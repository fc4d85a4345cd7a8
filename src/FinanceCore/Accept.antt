-- ===== src/FinanceCore/Accept.antt =====
-- What `Validate` of financecore/service.go lets through.
use textile_erp_cloud.Base.{
  ℕ, ◌≤◌, ◌≡◌, refl, ◌⊎◌, ◌↔◌, inl, Bool, true, false, not, ◌&&◌, some, [], ◌∷◌, arith, ltb,
}
use textile_erp_cloud.Base.Int.{ℤ, pos, ltb_ℤ, leb_ℤ, beq_ℤ, ◌≤ℤ◌, ◌<ℤ◌}
use textile_erp_cloud.Base.Result.{ok, refuse_if-ok, or_err-ok, pass}
use textile_erp_cloud.Base.Text.{
  Text, text_eq, text_eq_sound, text_eq_refl, is_empty, byte_len, trim_space,
}
use textile_erp_cloud.FinanceCore.Types.{
  TxnType, type_of, type_rule, dir_in, dir_out, dir_any, TypeRule, Request, Error,
}
use textile_erp_cloud.FinanceCore.Validate.{
  validate_clean, after_type, no_counter, counter_is_bank, validate_allocations, is_loan_repayment,
  normalize, validate,
}

pub record IsAccepted (t : TxnType) (req : Request) : Type 0 where
  pub has_id : is_empty req.external_id ≡ false
  pub short_id : byte_len req.external_id ≤ 120
  pub positive : pos 0 <ℤ req.amount
  pub known : type_of req.txn_type ≡ some t
  pub directed : (req.direction ≡ dir_in) ⊎ (req.direction ≡ dir_out)
  pub as_ruled : ((type_rule t).direction ≡ dir_any) ⊎ (req.direction ≡ (type_rule t).direction)
  pub has_party : (type_rule t).requires_party ≡ true → pos 0 <ℤ req.party_id
  pub has_counter :
      (type_rule t).requires_counter ≡ true
      → (pos 0 <ℤ req.counter_account_id) ⊎ (is_empty (trim_space req.counter_account_name) ≡ false)
  pub other_counter :
      (type_rule t).requires_counter ≡ true
      → pos 0 <ℤ req.counter_account_id
      → beq_ℤ req.counter_account_id req.bank_account_id ≡ false
  pub interest_nonneg : is_loan_repayment req ≡ true → pos 0 ≤ℤ req.interest
  pub interest_le : req.interest ≤ℤ req.amount
  pub allocated : validate_allocations req ≡ ok tt

known_direction :
    (d : Text)
    → (not (text_eq d dir_in) && not (text_eq d dir_out)) ≡ false
    → (d ≡ dir_in) ⊎ (d ≡ dir_out)
known_direction d h = ground (arith, text_eq_sound d dir_in, text_eq_sound d dir_out)

ruled_direction :
    (d r : Text) → (not (is_empty r) && not (text_eq d r)) ≡ false → (r ≡ dir_any) ⊎ (d ≡ r)
ruled_direction d [] h = inl refl
ruled_direction d (c ∷ r) h = ground (arith, text_eq_sound d (c ∷ r))

-- What the failing tests say, one for each shape.
not_above : (a b : ℕ) → ltb a b ≡ false → b ≤ a
not_above a b h = ground arith

not_leb_ℤ : (a b : ℤ) → leb_ℤ a b ≡ false → b <ℤ a
not_leb_ℤ a b h = ground arith

not_ltb_ℤ : (a b : ℤ) → ltb_ℤ a b ≡ false → b ≤ℤ a
not_ltb_ℤ a b h = ground arith

implied : (a b : Bool) → (a && b) ≡ false → a ≡ true → b ≡ false
implied a b h e = ground arith

counter_given :
    (r e : Bool) (a : ℤ)
    → (r && leb_ℤ a (pos 0) && e) ≡ false
    → r ≡ true
    → (pos 0 <ℤ a) ⊎ (e ≡ false)
counter_given r e a h k = ground arith

counter_differs :
    (r : Bool) (a b : ℤ)
    → (r && ltb_ℤ (pos 0) a && beq_ℤ a b) ≡ false
    → r ≡ true
    → pos 0 <ℤ a
    → beq_ℤ a b ≡ false
counter_differs r a b h k p = ground arith

validate_clean_sound :
    (req : Request) → validate_clean req ≡ ok tt → (t : TxnType) × IsAccepted t req
unfolding validate_clean
validate_clean_sound req h0 =
    let (a1, h1) = refuse_if-ok (is_empty req.external_id) Error.missing_id _ _ h0 in
    let (a2, h2) = refuse_if-ok (ltb 120 (byte_len req.external_id)) Error.long_id _ _ h1 in
    let (a3, h3) = refuse_if-ok (leb_ℤ req.amount (pos 0)) Error.bad_amount _ _ h2 in
    let (t, a4, h4) = or_err-ok (type_of req.txn_type) Error.unknown_type (after_type req) _ h3 in
    let (a5, h5) =
      refuse_if-ok (not (text_eq req.direction dir_in) && not (text_eq req.direction dir_out))
        Error.bad_direction _ _ h4 in
    let rule : TypeRule = type_rule t in
    let (a6, h6) =
      refuse_if-ok (not (is_empty rule.direction) && not (text_eq req.direction rule.direction))
        Error.wrong_direction _ _ h5 in
    let (a7, h7) =
      refuse_if-ok (rule.requires_party && leb_ℤ req.party_id (pos 0)) Error.party_required _ _
        h6 in
    let (a8, h8) = refuse_if-ok (no_counter rule req) Error.counter_required _ _ h7 in
    let (a9, h9) = refuse_if-ok (counter_is_bank rule req) Error.same_account _ _ h8 in
    let (a10, h10) =
      refuse_if-ok (is_loan_repayment req && ltb_ℤ req.interest (pos 0)) Error.negative_interest _ _
        h9 in
    let (a11, h11) = refuse_if-ok (ltb_ℤ req.amount req.interest) Error.large_interest _ _ h10 in
    (
      t,
      record {
        has_id = a1;
        short_id = not_above 120 (byte_len req.external_id) a2;
        positive = not_leb_ℤ req.amount (pos 0) a3;
        known = a4;
        directed = known_direction req.direction a5;
        as_ruled = ruled_direction req.direction rule.direction a6;
        has_party = λ e. not_leb_ℤ req.party_id (pos 0) (implied rule.requires_party _ a7 e);
        has_counter = counter_given rule.requires_counter _ req.counter_account_id a8;
        other_counter =
            counter_differs rule.requires_counter req.counter_account_id req.bank_account_id a9;
        interest_nonneg =
            λ e. not_ltb_ℤ req.interest (pos 0) (implied (is_loan_repayment req) _ a10 e);
        interest_le = not_ltb_ℤ req.amount req.interest a11;
        allocated = h11;
      },
    )

direction_passes :
    (d : Text)
    → (d ≡ dir_in) ⊎ (d ≡ dir_out)
    → (not (text_eq d dir_in) && not (text_eq d dir_out)) ≡ false
direction_passes d h = ground (arith, text_eq_refl d)

rule_passes :
    (d r : Text) → (r ≡ dir_any) ⊎ (d ≡ r) → (not (is_empty r) && not (text_eq d r)) ≡ false
rule_passes d r h = ground (arith, text_eq_refl d)

guard_passes : (a b : Bool) → (a ≡ true → b ≡ false) → (a && b) ≡ false
guard_passes true b h = h refl
guard_passes false b h = refl

ltb→lt_ℤ : (a b : ℤ) → ltb_ℤ a b ≡ true → a <ℤ b
ltb→lt_ℤ a b h = ground arith

le→leb_ℤ : (a : ℤ) → pos 0 <ℤ a → leb_ℤ a (pos 0) ≡ false
le→leb_ℤ a h = ground arith

le→ltb_ℤ : (a b : ℤ) → b ≤ℤ a → ltb_ℤ a b ≡ false
le→ltb_ℤ a b h = ground arith

counter_passes :
    (r e : Bool) (a : ℤ)
    → (r ≡ true → (pos 0 <ℤ a) ⊎ (e ≡ false))
    → (r && leb_ℤ a (pos 0) && e) ≡ false
counter_passes true e a h = let k = h refl in ground arith
counter_passes false e a h = refl

differs_passes :
    (r : Bool) (a b : ℤ)
    → (r ≡ true → pos 0 <ℤ a → beq_ℤ a b ≡ false)
    → (r && ltb_ℤ (pos 0) a && beq_ℤ a b) ≡ false
differs_passes true a b h =
    guard_passes (ltb_ℤ (pos 0) a) (beq_ℤ a b) (λ e. h refl (ltb→lt_ℤ (pos 0) a e))
differs_passes false a b h = refl

after_type_passes : (t : TxnType) (req : Request) → IsAccepted t req → after_type req t ≡ ok tt
after_type_passes t req a =
    let rule : TypeRule = type_rule t in
    pass _ _ _ (direction_passes req.direction a.directed) (
      pass _ _ _ (rule_passes req.direction rule.direction a.as_ruled) (
        pass _ _ _ (guard_passes rule.requires_party _ (λ e. le→leb_ℤ req.party_id (a.has_party e)))
          (pass _ _ _ (counter_passes rule.requires_counter _ req.counter_account_id a.has_counter)
            (pass _ _ _
              (differs_passes rule.requires_counter req.counter_account_id req.bank_account_id
                a.other_counter)
              (pass _ _ _
                (guard_passes (is_loan_repayment req) _
                  (λ e. le→ltb_ℤ req.interest (pos 0) (a.interest_nonneg e)))
                (pass _ _ _ (le→ltb_ℤ req.amount req.interest a.interest_le) a.allocated))))))

validate_clean_complete :
    (t : TxnType) (req : Request) → IsAccepted t req → validate_clean req ≡ ok tt
unfolding validate_clean
validate_clean_complete t req a = pass _ _ _ a.has_id (
    pass _ _ _ (ground arith)
      (pass _ _ _ (le→leb_ℤ req.amount a.positive) (rw a.known (after_type_passes t req a))))

-- `Validate` accepts a request exactly when, after trimming, its id is present and at most 120
-- bytes long, its amount is positive, its type is known, its direction is IN or OUT and the one
-- that the type wants, a party and a distinct counter account are given where the type wants them,
-- the interest is not above the amount and, for a loan repayment, not negative, and the allocations
-- are accepted.
pub validate_iff :
    (req : Request) → (validate req ≡ ok tt) ↔ ((t : TxnType) × IsAccepted t (normalize req))
unfolding validate
validate_iff req =
    (validate_clean_sound (normalize req), λ h. validate_clean_complete h.0 (normalize req) h.1)
