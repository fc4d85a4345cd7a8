-- ===== src/FinanceCore/Vouchers/Book.antt =====
-- The balance of every voucher in the journal, under the writes of financecore/service.go.
use textile_erp_cloud.Base.{
  ◌≡◌, refl, ap, &&-true, inl, inr, true, ◌&&◌, List, [], ◌∷◌, ◌++◌, map, keep, arith, Bool-cases,
  if◌then◌else◌,
}
use textile_erp_cloud.Base.Int.{ℤ, pos, beq_ℤ, beq_ℤ_iff, ◌+ℤ◌, int_laws}
use textile_erp_cloud.FinanceCore.Types.{Account}
use textile_erp_cloud.FinanceCore.Plan.{Leg, is_bank, substitute_cash}
use textile_erp_cloud.FinanceCore.Balance.{sum_debit, sum_credit}
use textile_erp_cloud.FinanceCore.Store.{Line}
use textile_erp_cloud.FinanceCore.Vouchers.{line_of, is_line_of, mirror}

-- The sum of one column over the lines of a voucher.
abbrev pub column : (Line → ℤ) → ℤ → ℤ → List Line → ℤ
column f co id [] = pos 0
column f co id (l ∷ ls) = if is_line_of co id l then f l +ℤ column f co id ls else column f co id ls

abbrev pub debits : ℤ → ℤ → List Line → ℤ
debits = column (λ l. l.debit)

abbrev pub credits : ℤ → ℤ → List Line → ℤ
credits = column (λ l. l.credit)

-- Each voucher of each company has as much on its debit side as on its credit side.
abbrev pub IsBookBalanced : List Line → Type 0
IsBookBalanced ls = (co id : ℤ) → debits co id ls ≡ credits co id ls

pub column-append :
    (f : Line → ℤ) (co id : ℤ) (xs ys : List Line)
    → column f co id (xs ++ ys) ≡ column f co id xs +ℤ column f co id ys
column-append f co id [] ys = omega int_laws
column-append f co id (x ∷ xs) ys = elim (Bool-cases (is_line_of co id x)) [
  | inl mine ↦ rw (mine, column-append f co id xs ys) (omega int_laws)
  | inr other ↦ rw (other, column-append f co id xs ys) refl
]

pub IsBookBalanced-append :
    (xs ys : List Line) → IsBookBalanced xs → IsBookBalanced ys → IsBookBalanced (xs ++ ys)
IsBookBalanced-append xs ys hx hy co id = rw (
  column-append (λ l. l.debit) co id xs ys,
  column-append (λ l. l.credit) co id xs ys,
  hx co id,
  hy co id,
)

-- The lines of one voucher.
debits-legs :
    (co v party c i : ℤ) (legs : List Leg)
    → debits c i (map (line_of co v party) legs)
      ≡ (if beq_ℤ v i && beq_ℤ co c then sum_debit legs else pos 0)
debits-legs co v party c i [] = ground arith
debits-legs co v party c i (l ∷ legs) = elim (Bool-cases (beq_ℤ v i && beq_ℤ co c)) [
  | inl mine ↦ rw (mine, debits-legs co v party c i legs, mine) refl
  | inr other ↦ rw (other, debits-legs co v party c i legs, other) refl
]

credits-legs :
    (co v party c i : ℤ) (legs : List Leg)
    → credits c i (map (line_of co v party) legs)
      ≡ (if beq_ℤ v i && beq_ℤ co c then sum_credit legs else pos 0)
credits-legs co v party c i [] = ground arith
credits-legs co v party c i (l ∷ legs) = elim (Bool-cases (beq_ℤ v i && beq_ℤ co c)) [
  | inl mine ↦ rw (mine, credits-legs co v party c i legs, mine) refl
  | inr other ↦ rw (other, credits-legs co v party c i legs, other) refl
]

pub legs-IsBookBalanced :
    (co v party : ℤ) (legs : List Leg)
    → sum_debit legs ≡ sum_credit legs
    → IsBookBalanced (map (line_of co v party) legs)
legs-IsBookBalanced co v party legs h c i =
    rw (debits-legs co v party c i legs, credits-legs co v party c i legs, h) refl

pub sum_debit-substitute_cash :
    (till : Account) (legs : List Leg) → sum_debit (substitute_cash till legs) ≡ sum_debit legs
unfolding substitute_cash
sum_debit-substitute_cash till [] = refl
sum_debit-substitute_cash till (l ∷ legs) = elim (Bool-cases (is_bank l.account)) [
  | inl bank ↦ rw (bank, sum_debit-substitute_cash till legs)
  | inr other ↦ rw (other, sum_debit-substitute_cash till legs)
]

pub sum_credit-substitute_cash :
    (till : Account) (legs : List Leg) → sum_credit (substitute_cash till legs) ≡ sum_credit legs
unfolding substitute_cash
sum_credit-substitute_cash till [] = refl
sum_credit-substitute_cash till (l ∷ legs) = elim (Bool-cases (is_bank l.account)) [
  | inl bank ↦ rw (bank, sum_credit-substitute_cash till legs)
  | inr other ↦ rw (other, sum_credit-substitute_cash till legs)
]

is_line_of-mirror :
    (co v new c i : ℤ) (l : Line)
    → is_line_of co v l ≡ true
    → is_line_of c i (mirror new l) ≡ (beq_ℤ new i && beq_ℤ co c)
is_line_of-mirror co v new c i l mine =
    let e : l.company ≡ co = (beq_ℤ_iff l.company co).0 (&&-true _ _ mine).1 in
    ap (λ t. beq_ℤ new i && beq_ℤ t c) e

-- A mirrored voucher has the two sides of the voucher exchanged.
debits-mirror :
    (co v new c i : ℤ) (ls : List Line)
    → debits c i (map (mirror new) (keep (is_line_of co v) ls))
      ≡ (if beq_ℤ new i && beq_ℤ co c then credits co v ls else pos 0)
debits-mirror co v new c i [] = ground arith
debits-mirror co v new c i (l ∷ ls) = elim (Bool-cases (is_line_of co v l)) [
  | inr other ↦ rw (other, debits-mirror co v new c i ls) refl
  | inl mine ↦
      let moved = is_line_of-mirror co v new c i l mine in
      elim (Bool-cases (beq_ℤ new i && beq_ℤ co c)) [
        | inl here ↦ rw (mine, moved, debits-mirror co v new c i ls, here) refl
        | inr away ↦ rw (mine, moved, debits-mirror co v new c i ls, away) refl
      ]
]

credits-mirror :
    (co v new c i : ℤ) (ls : List Line)
    → credits c i (map (mirror new) (keep (is_line_of co v) ls))
      ≡ (if beq_ℤ new i && beq_ℤ co c then debits co v ls else pos 0)
credits-mirror co v new c i [] = ground arith
credits-mirror co v new c i (l ∷ ls) = elim (Bool-cases (is_line_of co v l)) [
  | inr other ↦ rw (other, credits-mirror co v new c i ls) refl
  | inl mine ↦
      let moved = is_line_of-mirror co v new c i l mine in
      elim (Bool-cases (beq_ℤ new i && beq_ℤ co c)) [
        | inl here ↦ rw (mine, moved, credits-mirror co v new c i ls, here) refl
        | inr away ↦ rw (mine, moved, credits-mirror co v new c i ls, away) refl
      ]
]

pub mirror-IsBookBalanced :
    (co v new : ℤ) (ls : List Line)
    → IsBookBalanced ls
    → IsBookBalanced (map (mirror new) (keep (is_line_of co v) ls))
mirror-IsBookBalanced co v new ls h c i =
    rw (debits-mirror co v new c i ls, credits-mirror co v new c i ls, h co v) refl
