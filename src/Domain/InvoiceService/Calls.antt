-- ===== src/Domain/InvoiceService/Calls.antt =====
-- Sequences of calls of invoice_service.go.
use textile_erp_cloud.Base.{◌≡◌, refl, ap, ◌∙◌, inl, inr, not, ◌&&◌, List, [], ◌∷◌, Bool-cases, All}
use textile_erp_cloud.Base.Int.{ℤ, pos, ltb_ℤ, ◌+ℤ◌}
use textile_erp_cloud.Base.Int64.{wrap64, ◌+₆₄◌}
use textile_erp_cloud.Base.Wrap.{split_sum}
use textile_erp_cloud.Base.Text.{Text}
use textile_erp_cloud.Base.Float.{Float}
use textile_erp_cloud.Domain.Money.{add}
use textile_erp_cloud.Domain.Invoice.{Invoice, check_overdue, is_paid, is_cancelled}
use textile_erp_cloud.Domain.Invoice.Totals.{IsSound}
use textile_erp_cloud.Domain.InvoiceService.{
  InvoiceService, InvoiceReport, LineRequest, new_service, create_invoice, get_invoices,
  get_invoice, pay_invoice, report_on, report_all, invoice_report, empty_report, empty_service,
}
use textile_erp_cloud.Domain.InvoiceService.Kept.{
  AllSound, seed-AllSound, create-AllSound, listed-All, list-AllSound, get-AllSound, pay-AllSound,
}

abbrev pub AddsUp : InvoiceReport → Type 0
AddsUp r = add r.total_collected r.total_outstanding ≡ r.total_sales

-- A method with its arguments; the company stands first.
pub data Call (W : Type 0) : Type 0 where
  create : ℤ → ℤ → Text → List (LineRequest W) → Call W
  list report : ℤ → Call W
  get : ℤ → ℤ → Call W
  pay : ℤ → ℤ → W → Call W

abbrev pub company_of : {W : Type 0} → Call W → ℤ
company_of (create co customer name lines) = co
company_of (list co) = co
company_of (report co) = co
company_of (get co id) = co
company_of (pay co id amount) = co

module _ {W : Type 0} ⦃fl : Float W⦄ where
  -- The service after one call, made at the time `now`.
  abbrev pub run : ℤ × Call W → InvoiceService W → InvoiceService W
  run (now, create co customer name lines) is = (create_invoice now co customer name lines is).1
  run (now, list co) is = (get_invoices now co is).1
  run (now, report co) is = (invoice_report now co is).1
  run (now, get co id) is = (get_invoice now co id is).1
  run (now, pay co id amount) is = (pay_invoice now co id amount is).1

  abbrev pub run_all : List (ℤ × Call W) → InvoiceService W → InvoiceService W
  run_all [] is = is
  run_all (call ∷ calls) is = run_all calls (run call is)

  run-AllSound : (call : ℤ × Call W) (is : InvoiceService W) → AllSound is → AllSound (run call is)
  unfolding invoice_report
  run-AllSound (now, create co customer name lines) is h =
      create-AllSound now co customer name lines is h
  run-AllSound (now, list co) is h = list-AllSound now co is h
  run-AllSound (now, report co) is h = list-AllSound now co is h
  run-AllSound (now, get co id) is h = get-AllSound now co id is h
  run-AllSound (now, pay co id amount) is h = pay-AllSound now co id amount is h

  run_all-AllSound :
      (calls : List (ℤ × Call W)) (is : InvoiceService W)
      → AllSound is
      → AllSound (run_all calls is)
  run_all-AllSound [] is h = h
  run_all-AllSound (call ∷ calls) is h =
      run_all-AllSound calls (run call is) (run-AllSound call is h)

  -- After any calls on a new service, every invoice of every company has the subtotal of its lines, the
  -- total of the subtotal, the tax and the discount, the balance of the total and the payments, and
  -- is marked as paid only if the balance is not positive.
  pub invoices-IsSound :
      (start : ℤ) (calls : List (ℤ × Call W)) (c : ℤ)
      → All IsSound ((run_all calls (new_service start)).invoices c)
  invoices-IsSound start calls =
      run_all-AllSound calls (new_service start)
        (seed-AllSound start (pos 1) empty_service (λ c. tt))

  check_overdue-amounts :
      (now : ℤ) (inv : Invoice W)
      → ((check_overdue now inv).total_amount ≡ inv.total_amount)
        × ((check_overdue now inv).paid_amount ≡ inv.paid_amount)
        × ((check_overdue now inv).balance ≡ inv.balance)
  unfolding check_overdue
  check_overdue-amounts now inv =
      elim (Bool-cases
        (not (is_paid inv.status) && not (is_cancelled inv.status) && ltb_ℤ inv.due_date now)) [
          | inr fine ↦ rw fine (refl, refl, refl)
          | inl late ↦ rw late (refl, refl, refl)
        ]

  report_on-AddsUp :
      (now : ℤ) (r : InvoiceReport) (inv : Invoice W)
      → IsSound inv
      → AddsUp r
      → AddsUp (report_on now r inv)
  report_on-AddsUp now r inv s h =
      let (t, p, b) = check_overdue-amounts now inv in
      rw (t, p, b, s.balance)
        (split_sum r.total_collected r.total_outstanding inv.paid_amount inv.total_amount
          ∙ ap (λ x. x +₆₄ inv.total_amount) h)

  report_all-AddsUp :
      (now : ℤ) (r : InvoiceReport) (invs : List (Invoice W))
      → All IsSound invs
      → AddsUp r
      → AddsUp (report_all now r invs)
  report_all-AddsUp now r [] s h = h
  report_all-AddsUp now r (inv ∷ invs) (s, ss) h =
      report_all-AddsUp now (report_on now r inv) invs ss (report_on-AddsUp now r inv s h)

  -- After any calls on a new service, the report of any company has total sales that are the sum, in
  -- `int64` arithmetic, of what was collected and what is outstanding.
  pub invoice_report-AddsUp :
      (start now company : ℤ) (calls : List (ℤ × Call W))
      → AddsUp (invoice_report now company (run_all calls (new_service start))).0
  unfolding invoice_report wrap64 ◌+ℤ◌
  invoice_report-AddsUp start now company calls =
      let is = run_all calls (new_service start) in
      let kept = listed-All now company is (invoices-IsSound start calls) in
      report_all-AddsUp now empty_report (get_invoices now company is).0 kept refl
