-- ===== src/Domain/Invoice/Totals.antt =====
-- The amounts of an invoice under the operations of entity/invoice.go.
use textile_erp_cloud.Base.{
  ◌≡◌, refl, inl, inr, true, false, not, ◌&&◌, arith, Bool-cases, if◌then◌else◌,
}
use textile_erp_cloud.Base.Int.{ℤ, pos, ltb_ℤ, leb_ℤ, ◌≤ℤ◌, ◌+ℤ◌, ◌-ℤ◌}
use textile_erp_cloud.Base.Int64.{wrap64}
use textile_erp_cloud.Base.Text.{Text}
use textile_erp_cloud.Base.Float.{Float}
use textile_erp_cloud.Domain.Money.{Money, zero_money, add, subtract}
use textile_erp_cloud.Domain.Invoice.{
  Status, InvoiceNo, Invoice, is_paid, is_cancelled, sum_lines, issue, check_overdue, new_invoice,
  add_line, add_payment,
}

-- The amounts agree with the lines and with each other, and what is marked as paid is paid.
pub record IsSound {W : Type 0} (inv : Invoice W) : Type 0 where
  pub subtotal : inv.subtotal ≡ sum_lines zero_money inv.lines
  pub total : inv.total_amount ≡ subtract (add inv.subtotal inv.tax_amount) inv.discount
  pub balance : inv.balance ≡ subtract inv.total_amount inv.paid_amount
  pub settled : is_paid inv.status ≡ true → inv.balance ≤ℤ pos 0

settled_after :
    (balance paid : ℤ) (status : Status)
    → is_paid status ≡ false
    → is_paid (
        if leb_ℤ balance (pos 0)
        then Status.paid
        else if ltb_ℤ (pos 0) paid
        then Status.partially_paid
        else status)
      ≡ true
    → balance ≤ℤ pos 0
settled_after balance paid status h e = ground arith

never : {P : Type 0} (status : Status) → is_paid status ≡ false → is_paid status ≡ true → P
never status h e = cc

module _ {W : Type 0} where
  pub issue-IsSound : (inv : Invoice W) → IsSound inv → IsSound (issue inv)
  unfolding issue
  issue-IsSound inv s = record {
    subtotal = s.subtotal;
    total = s.total;
    balance = s.balance;
    settled = λ e. cc;
  }

  pub check_overdue-IsSound :
      (now : ℤ) (inv : Invoice W) → IsSound inv → IsSound (check_overdue now inv)
  unfolding check_overdue
  check_overdue-IsSound now inv s =
      elim (Bool-cases
        (not (is_paid inv.status) && not (is_cancelled inv.status) && ltb_ℤ inv.due_date now)) [
          | inr fine ↦ rw fine s
          | inl late ↦ rw late (record {
            subtotal = s.subtotal;
            total = s.total;
            balance = s.balance;
            settled = λ e. cc;
          })
        ]

module _ {W : Type 0} ⦃fl : Float W⦄ where
  pub new_invoice-IsSound :
      (now : ℤ) (number : InvoiceNo) (customer : ℤ) (name : Text)
      → IsSound {W = W} (new_invoice now number customer name)
  unfolding new_invoice wrap64 ◌+ℤ◌ ◌-ℤ◌
  new_invoice-IsSound now number customer name = record {
    subtotal = refl;
    total = refl;
    balance = refl;
    settled = λ e. cc;
  }

  pub add_line-IsSound :
      (item : ℤ) (name description : Text) (qty : W) (unit : Text) (price : Money) (inv : Invoice W)
      → is_paid inv.status ≡ false
      → IsSound (add_line item name description qty unit price inv)
  unfolding add_line
  add_line-IsSound item name description qty unit price inv open_ = record {
    subtotal = refl;
    total = refl;
    balance = refl;
    settled = λ e. never inv.status open_ e;
  }

  pub add_payment-IsSound :
      (amount : Money) (inv : Invoice W)
      → is_paid inv.status ≡ false
      → IsSound (add_payment amount inv)
  unfolding add_payment
  add_payment-IsSound amount inv h = record {
    subtotal = refl;
    total = refl;
    balance = refl;
    settled = settled_after _ _ inv.status h;
  }
