-- ===== src/FinanceCore/Done/Journal.antt =====
-- `insertVoucher` of financecore/service.go goes through when every leg has one positive side.
use textile_erp_cloud.Base.{
  ◌≡◌, refl, ◌∙◌, inl, inr, Bool, true, false, ◌&&◌, if◌then◌else◌, Option, none, some, List, [],
  ◌∷◌, arith, Bool-cases, All,
}
use textile_erp_cloud.Base.Int.{ℤ, pos, ltb_ℤ, ◌≤ℤ◌, ◌<ℤ◌, ◌-ℤ◌, int_laws}
use textile_erp_cloud.Base.Int64.{InInt64}
use textile_erp_cloud.Base.Result.{Result, ok}
use textile_erp_cloud.Base.Text.{equal_fold}
use textile_erp_cloud.FinanceCore.Types.{TxnType, Account, Request, dir_in, Error}
use textile_erp_cloud.FinanceCore.Plan.{
  Leg, interest_of, is_bank, repayment_legs, transfer_legs, plan_for, substitute_cash,
}
use textile_erp_cloud.FinanceCore.Validate.{max_int64}
use textile_erp_cloud.Base.Bools.{and_both}
use textile_erp_cloud.FinanceCore.Balance.{principal_lem}
use textile_erp_cloud.FinanceCore.Dates.{Date}
use textile_erp_cloud.FinanceCore.Store.{
  is_decimal, is_party_of, Db, Voucher, of_txn, ◌>>◌, modify, pure,
}
use textile_erp_cloud.FinanceCore.Lookups.{ensure_account, ensure_branch}
use textile_erp_cloud.FinanceCore.Vouchers.{
  is_one_sided, has_fit_sides, fits_line, line_of, add_line, insert_lines, draft_voucher,
  post_voucher, write_voucher, reuse_or_write, insert_voucher, voucher_by_key,
}
use textile_erp_cloud.FinanceCore.Done.{Does-check_rows, Does, Does-weaken, Does-bind}

-- The amounts of a leg are those of a line of the journal.
abbrev pub IsOneSided : Leg → Type 0
IsOneSided leg = has_fit_sides leg.debit leg.credit ≡ true

-- The tables have the same parties and balances.
abbrev pub SameParties : Db → Db → Type 0
SameParties a b = (b.parties ≡ a.parties) × (b.balances ≡ a.balances)

pub SameParties-after : (a b c : Db) → SameParties a b → SameParties b c → SameParties a c
SameParties-after a b c (p, h) (q, k) = (q ∙ p, k ∙ h)

ensure_account-SameParties :
    (co : ℤ) (a : Account) (db : Db) → SameParties db (ensure_account co a db)
unfolding ensure_account
ensure_account-SameParties co a db = (ground arith, ground arith)

ensure_branch-SameParties : (co : ℤ) (db : Db) → SameParties db (ensure_branch co db)
unfolding ensure_branch
ensure_branch-SameParties co db = (ground arith, ground arith)

-- A party of the company stays one.
still_party :
    (co party : ℤ) (a b : Db)
    → SameParties a b
    → is_party_of co party a ≡ true
    → is_party_of co party b ≡ true
unfolding is_party_of
still_party co party a b s h = rw s.0 h

-- The party of a line is that of the request or none.
party_of_line :
    (co party : ℤ) (given : Bool) (db : Db)
    → is_party_of co party db ≡ true
    → is_party_of co (if given then party else pos 0) db ≡ true
unfolding is_party_of
party_of_line co party true db h = h
party_of_line co party false db h = refl

insert_lines-Does :
    (co voucher party : ℤ) (legs : List Leg) (db : Db)
    → is_party_of co party db ≡ true
    → All IsOneSided legs
    → Does (λ _ d. SameParties db d) (insert_lines co voucher party legs db)
unfolding insert_lines
insert_lines-Does co voucher party [] db own h = (refl, refl)
insert_lines-Does co voucher party (leg ∷ legs) db own (one, h) =
    let a = ensure_account co leg.account db in
    let l = line_of co voucher party leg in
    let b = add_line l a in
    let same = ensure_account-SameParties co leg.account db in
    Does-check_rows (λ _ d. SameParties db d) (fits_line l)
      (modify (add_line l) >> insert_lines co voucher party legs) a
      (and_both (has_fit_sides leg.debit leg.credit) _ one (
        party_of_line co party (leg.party && ltb_ℤ (pos 0) party) a
          (still_party co party db a same own)))
      (Does-weaken (λ _ d. SameParties b d) (λ _ d. SameParties db d)
        (insert_lines co voucher party legs b) (λ _ d k. SameParties-after db b d same k)
        (insert_lines-Does co voucher party legs b (still_party co party db b same own) h))

write_voucher-Does :
    (co : ℤ) (req : Request) (date : Date) (legs : List Leg) (db : Db)
    → is_party_of co req.party_id db ≡ true
    → All IsOneSided legs
    → Does
        (λ _ d. SameParties db d)
        (write_voucher co (of_txn req.external_id) date req.party_id legs db)
unfolding write_voucher draft_voucher post_voucher
write_voucher-Does co req date legs db own h =
    let id = pos db.next_voucher in
    let a = draft_voucher co (of_txn req.external_id) date (pos 0) db in
    Does-bind (λ _ d. SameParties a d) (λ _ d. SameParties db d)
      (insert_lines co id req.party_id legs) (λ _. modify (post_voucher co id) >> pure id) a
      (insert_lines-Does co id req.party_id legs a
        (still_party co req.party_id db a (refl, refl) own) h)
      (λ _ d k. k)

reuse_or_write-Does :
    (co : ℤ) (req : Request) (date : Date) (legs : List Leg) (db : Db) (o : Option Voucher)
    → is_party_of co req.party_id db ≡ true
    → All IsOneSided legs
    → Does (λ _ d. SameParties db d) (reuse_or_write co req date legs o db)
reuse_or_write-Does co req date legs db (some v) own h = (refl, refl)
reuse_or_write-Does co req date legs db none own h = write_voucher-Does co req date legs db own h

pub insert_voucher-Does :
    (co : ℤ) (req : Request) (date : Date) (legs : List Leg) (db : Db)
    → is_party_of co req.party_id db ≡ true
    → All IsOneSided legs
    → Does (λ _ d. SameParties db d) (insert_voucher co req date legs db)
unfolding insert_voucher
insert_voucher-Does co req date legs db own h =
    let a = ensure_branch co db in
    let known = voucher_by_key co (of_txn req.external_id) a in
    Does-weaken (λ _ d. SameParties a d) (λ _ d. SameParties db d)
      (reuse_or_write co req date legs known a)
      (λ _ d k. SameParties-after db a d (ensure_branch-SameParties co db) k)
      (reuse_or_write-Does co req date legs a known
        (still_party co req.party_id db a (ensure_branch-SameParties co db) own) h)

-- The legs of the plan.
debit-IsOneSided : (x : ℤ) → pos 0 <ℤ x → is_decimal x ≡ true → has_fit_sides x (pos 0) ≡ true
unfolding has_fit_sides is_one_sided is_decimal
debit-IsOneSided x h k = ground arith

credit-IsOneSided : (x : ℤ) → pos 0 <ℤ x → is_decimal x ≡ true → has_fit_sides (pos 0) x ≡ true
unfolding has_fit_sides is_one_sided is_decimal
credit-IsOneSided x h k = ground arith

-- What is positive and not above an amount that fits, fits.
below-is_decimal : (x a : ℤ) → pos 0 <ℤ x → x ≤ℤ a → is_decimal a ≡ true → is_decimal x ≡ true
unfolding is_decimal
below-is_decimal x a p h k = ground arith

pub substituted-All :
    (till : Account) (legs : List Leg)
    → All IsOneSided legs
    → All IsOneSided (substitute_cash till legs)
unfolding substitute_cash
substituted-All till [] h = tt
substituted-All till (l ∷ legs) (one, h) = elim (Bool-cases (is_bank l.account)) [
  | inl bank ↦ rw bank (one, substituted-All till legs h)
  | inr other ↦ rw other (one, substituted-All till legs h)
]

-- A loan repayment pays back more than its interest.
abbrev pub HasPrincipal : TxnType → Request → Type 0
HasPrincipal TxnType.loan_repayment req = interest_of req <ℤ req.amount
HasPrincipal _ req = Unit

abbrev pub HasOneSided : Result Error (List Leg) → Type 0
HasOneSided r = (legs : List Leg) × (r ≡ ok legs) × All IsOneSided legs

positive_principal : (a i : ℤ) → i <ℤ a → pos 0 <ℤ (a -ℤ i)
positive_principal a i h = omega int_laws

not_below : (a : ℤ) → pos 0 <ℤ a → ltb_ℤ a (pos 0) ≡ false
not_below a h = ground arith

principal_le : (a x : ℤ) → (a -ℤ max_int64 x (pos 0)) ≤ℤ a
unfolding max_int64 ◌-ℤ◌
principal_le a x = ground arith

interest_lt : (i a : ℤ) → i <ℤ a → i ≤ℤ a
interest_lt i a h = ground arith

above : (a : ℤ) → ltb_ℤ (pos 0) a ≡ true → pos 0 <ℤ a
above a h = ground arith

repayment-HasOneSided :
    (req : Request)
    → InInt64 req.amount
    → pos 0 <ℤ req.amount
    → req.interest ≤ℤ req.amount
    → interest_of req <ℤ req.amount
    → is_decimal req.amount ≡ true
    → HasOneSided (repayment_legs req)
unfolding repayment_legs
repayment-HasOneSided req r p h k f =
    let e = principal_lem req r p h in
    let rest = positive_principal req.amount (interest_of req) k in
    let fits =
      below-is_decimal (req.amount -ℤ interest_of req) req.amount rest
        (principal_le req.amount req.interest) f in
    let small = not_below (req.amount -ℤ interest_of req) rest in
    elim (Bool-cases (ltb_ℤ (pos 0) (interest_of req))) [
      | inl some_interest ↦
          rw (e, some_interest, small)
            (
              _,
              refl,
              (
                debit-IsOneSided (req.amount -ℤ interest_of req) rest fits,
                (
                  debit-IsOneSided (interest_of req) (above (interest_of req) some_interest) (
                      below-is_decimal (interest_of req) req.amount
                        (above (interest_of req) some_interest)
                        (interest_lt (interest_of req) req.amount k) f),
                  (credit-IsOneSided req.amount p f, tt),
                ),
              ),
            )
      | inr no_interest ↦
          rw (e, no_interest, small)
            (
              _,
              refl,
              (
                debit-IsOneSided (req.amount -ℤ interest_of req) rest fits,
                (credit-IsOneSided req.amount p f, tt),
              ),
            )
    ]

transfer-All :
    (req : Request)
    → pos 0 <ℤ req.amount
    → is_decimal req.amount ≡ true
    → All IsOneSided (transfer_legs req)
unfolding transfer_legs
transfer-All req p f = elim (Bool-cases (equal_fold req.direction dir_in)) [
  | inl e ↦ rw e (debit-IsOneSided req.amount p f, (credit-IsOneSided req.amount p f, tt))
  | inr e ↦ rw e (debit-IsOneSided req.amount p f, (credit-IsOneSided req.amount p f, tt))
]

pub plan_for-HasOneSided :
    (t : TxnType) (req : Request)
    → InInt64 req.amount
    → pos 0 <ℤ req.amount
    → req.interest ≤ℤ req.amount
    → HasPrincipal t req
    → is_decimal req.amount ≡ true
    → HasOneSided (plan_for t req)
unfolding plan_for
plan_for-HasOneSided TxnType.loan_repayment req r p h k f = repayment-HasOneSided req r p h k f
plan_for-HasOneSided TxnType.internal_transfer req r p h k f =
    (transfer_legs req, refl, transfer-All req p f)
plan_for-HasOneSided _ req r p h k f =
    (_, refl, (debit-IsOneSided req.amount p f, (credit-IsOneSided req.amount p f, tt)))
