-- ===== src/Domain/Invoice.antt =====
-- financial/internal/domain/entity/invoice.go. A point in time is an integer of nanoseconds; the
-- fields `Notes` and `CreatedBy`, which no operation writes or reads, are left out.
pub mod Totals
use textile_erp_cloud.Base.{
  suc, Bool, true, false, not, ◌&&◌, List, [], ◌∷◌, ◌++◌, ◌*◌, length, if◌then◌else◌,
}
use textile_erp_cloud.Base.Int.{ℤ, pos, ltb_ℤ, leb_ℤ, ◌+ℤ◌}
use textile_erp_cloud.Base.Text.{Text}
use textile_erp_cloud.Base.Float.{Float}
use textile_erp_cloud.Domain.Money.{Money, zero_money, add, subtract, new_money, multiply}

pub data Status : Type 0 where
  draft issued partially_paid paid overdue cancelled : Status

-- "INV-1402-…" of the samples, and "INV-%d-1402-%03d" of a company and a number.
pub data InvoiceNo : Type 0 where
  sample : ℤ → InvoiceNo
  numbered : ℤ → ℤ → InvoiceNo

pub record InvoiceLine (W : Type 0) : Type 0 where
  pub id : ℤ
  pub item_id : ℤ
  pub item_name : Text
  pub description : Text
  pub qty : W
  pub unit : Text
  pub unit_price : Money
  pub line_total : Money

pub record Invoice (W : Type 0) : Type 0 where
  pub id : ℤ
  pub invoice_no : InvoiceNo
  pub customer_id : ℤ
  pub customer_name : Text
  pub issue_date : ℤ
  pub due_date : ℤ
  pub status : Status
  pub lines : List (InvoiceLine W)
  pub subtotal : Money
  pub discount : Money
  pub tax_rate : W
  pub tax_amount : Money
  pub total_amount : Money
  pub paid_amount : Money
  pub balance : Money
  pub created_at : ℤ

-- `AddDate(0, 0, days)` where no clock is changed in between.
abbrev pub thirty_days : ℤ
thirty_days = pos 2_592_000_000_000_000

abbrev pub is_paid : Status → Bool
is_paid Status.paid = true
is_paid _ = false

abbrev pub is_cancelled : Status → Bool
is_cancelled Status.cancelled = true
is_cancelled _ = false

module _ {W : Type 0} where
  abbrev pub sum_lines : Money → List (InvoiceLine W) → Money
  sum_lines subtotal [] = subtotal
  sum_lines subtotal (line ∷ lines) = sum_lines (add subtotal line.line_total) lines

  unfoldable pub issue : Invoice W → Invoice W
  issue inv = record inv { status = Status.issued }

  unfoldable pub check_overdue : ℤ → Invoice W → Invoice W
  check_overdue now inv =
      if not (is_paid inv.status) && not (is_cancelled inv.status) && ltb_ℤ inv.due_date now
      then record inv { status = Status.overdue }
      else inv

  -- The status after a payment.
  abbrev pub paid_status : Invoice W → Status
  paid_status inv =
      if leb_ℤ inv.balance (pos 0)
      then Status.paid
      else if ltb_ℤ (pos 0) inv.paid_amount
      then Status.partially_paid
      else inv.status

module _ {W : Type 0} ⦃fl : Float W⦄ where
  unfoldable pub new_invoice : ℤ → InvoiceNo → ℤ → Text → Invoice W
  new_invoice now number customer name = record {
    id = pos 0;
    invoice_no = number;
    customer_id = customer;
    customer_name = name;
    issue_date = now;
    due_date = now +ℤ thirty_days;
    status = Status.draft;
    lines = [];
    subtotal = zero_money;
    discount = zero_money;
    tax_rate = fl.decimal 9 2;
    tax_amount = zero_money;
    total_amount = zero_money;
    paid_amount = zero_money;
    balance = zero_money;
    created_at = now;
  }

  unfoldable pub recalculate : Invoice W → Invoice W
  recalculate inv =
      let subtotal = sum_lines zero_money inv.lines in
      let tax = multiply subtotal inv.tax_rate in
      let total = subtract (add subtotal tax) inv.discount in
      record inv {
        subtotal = subtotal;
        tax_amount = tax;
        total_amount = total;
        balance = subtract total inv.paid_amount;
      }

  unfoldable pub add_line : ℤ → Text → Text → W → Text → Money → Invoice W → Invoice W
  unfolding recalculate
  add_line item name description qty unit price inv =
      let line : InvoiceLine W = record {
        id = pos (suc (length inv.lines));
        item_id = item;
        item_name = name;
        description = description;
        qty = qty;
        unit = unit;
        unit_price = price;
        line_total = multiply price qty;
      } in
      recalculate (record inv { lines = inv.lines ++ (line ∷ []) })

  unfoldable pub add_payment : Money → Invoice W → Invoice W
  unfolding recalculate
  add_payment amount inv =
      let after = recalculate (record inv { paid_amount = add inv.paid_amount amount }) in
      record after { status = paid_status after }
