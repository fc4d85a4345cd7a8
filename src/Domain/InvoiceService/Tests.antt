-- ===== src/Domain/InvoiceService/Tests.antt =====
-- Runs of invoice_service.go over hundredths.
use textile_erp_cloud.Base.{◌≡◌, refl, true, false, List, [], ◌∷◌, All, map}
use textile_erp_cloud.Base.Int.{ℤ, pos, beq_ℤ, leb_ℤ, neg, ◌+ℤ◌, ◌-ℤ◌}
use textile_erp_cloud.Base.Int64.{wrap64}
use textile_erp_cloud.Base.Result.{ok, err}
use textile_erp_cloud.Base.Text.{codes}
use textile_erp_cloud.Base.Float.{Float, hundredths}
use textile_erp_cloud.Domain.Tenants.{normalized_company}
use textile_erp_cloud.Domain.Invoice.{
  Status, Invoice, issue, check_overdue, new_invoice, recalculate, add_line, add_payment,
}
use textile_erp_cloud.Domain.Invoice.Totals.{IsSound}
use textile_erp_cloud.Domain.InvoiceService.{
  InvoiceService, InvoiceError, LineRequest, toman, lines_1, lines_2, lines_3, sample_1, sample_2,
  sample_3, with_id, add_invoice, seed, new_service, create_invoice, get_invoices, get_invoice,
  pay_invoice, invoice_report,
}
use textile_erp_cloud.Domain.InvoiceService.Calls.{
  Call, company_of, create, pay, run_all, invoices-IsSound, AddsUp, invoice_report-AddsUp,
}
use textile_erp_cloud.Domain.InvoiceService.Isolation.{SameFor, calls-SameFor}
use textile_erp_cloud.Domain.InvoiceService.Payment.{pay_twice}

instance abbrev float_hundredths : Float ℤ
float_hundredths = hundredths

-- Unfolds all that a run computes with.
unfoldable running : Unit {0}
unfolding hundredths wrap64 ◌+ℤ◌ ◌-ℤ◌ neg normalized_company issue check_overdue new_invoice
    recalculate add_line add_payment toman lines_1 lines_2 lines_3 sample_1 sample_2 sample_3
    add_invoice seed create_invoice get_invoices get_invoice pay_invoice invoice_report
running = tt

-- Ten pieces at 5 Toman.
abbrev order : List (LineRequest ℤ)
order =
    record {
      item_id = pos 1;
      item_name = codes "yarn";
      description = [];
      qty = pos 1000;
      unit = codes "KG";
      unit_price = pos 500;
    }
    ∷ []

-- An invoice of company 3 is the fourth after the samples; 545 Rials with the tax.
abbrev two_calls : List (ℤ × Call ℤ)
two_calls =
    (pos 10, create (pos 3) (pos 9) (codes "A") order)
    ∷ (pos 20, pay (pos 3) (pos 4) (pos 1000))
    ∷ []

abbrev after_calls : InvoiceService ℤ
after_calls = run_all two_calls (new_service (pos 0))

balances :
    map (λ inv. inv.balance) (after_calls.invoices (pos 3))
    ≡ pos 0 ∷ pos 263_000_000 ∷ pos 654_000_000 ∷ pos 445 ∷ []
unfolding running
balances = refl

statuses :
    map (λ inv. inv.status) (after_calls.invoices (pos 3))
    ≡ Status.paid ∷ Status.partially_paid ∷ Status.overdue ∷ Status.partially_paid ∷ []
unfolding running
statuses = refl

invoices-IsSound_example : All IsSound (after_calls.invoices (pos 3))
invoices-IsSound_example = invoices-IsSound (pos 0) two_calls (pos 3)

invoice_report-AddsUp_example : AddsUp (invoice_report (pos 30) (pos 3) after_calls).0
invoice_report-AddsUp_example = invoice_report-AddsUp (pos 0) (pos 30) (pos 3) two_calls

sales : (invoice_report (pos 30) (pos 3) after_calls).0.total_sales ≡ pos 1_787_600_545
unfolding running
sales = refl

other_company :
    All (λ call. beq_ℤ (normalized_company (company_of call.1)) (pos 1) ≡ false) two_calls
unfolding normalized_company
other_company = (refl, (refl, tt))

calls-SameFor_example : SameFor (pos 1) (new_service (pos 0)) after_calls
calls-SameFor_example = calls-SameFor (pos 1) two_calls (new_service (pos 0)) other_company

-- The whole of the second sample, and more.
abbrev new : InvoiceService ℤ
new = new_service (pos 0)

abbrev whole : ℤ
whole = pos 2_630_000_000

abbrev settled_sample : Invoice ℤ
settled_sample = add_payment (pos 263_000_000) (with_id (pos 2) (sample_2 (pos 0)))

settled_ok : (pay_invoice (pos 5) (pos 1) (pos 2) whole new).0 ≡ ok settled_sample
unfolding running
settled_ok = refl

settled_low : leb_ℤ settled_sample.balance (pos 0) ≡ true
unfolding running
settled_low = refl

pay_twice_example :
    pay_invoice (pos 6) (pos 1) (pos 2) (pos 100) (pay_invoice (pos 5) (pos 1) (pos 2) whole new).1
    ≡ (err InvoiceError.already_paid, (pay_invoice (pos 5) (pos 1) (pos 2) whole new).1)
pay_twice_example =
    pay_twice (pos 5) (pos 6) (pos 1) (pos 2) whole (pos 100) new settled_sample settled_ok
      settled_low
