-- ===== src/Domain/InvoiceService/Payment.antt =====
-- Payments in invoice_service.go.
use textile_erp_cloud.Base.{
  ◌≡◌, refl, sym, ap, ◌∙◌, inl, inr, true, List, [], ◌∷◌, Bool-cases, Option, none, some, find,
  update_first, find-update_first,
}
use mathlib.Core.Path.{subst}
use textile_erp_cloud.Base.Int.{ℤ, pos, leb_ℤ}
use textile_erp_cloud.Base.Result.{ok, err}
use textile_erp_cloud.Base.Float.{Float}
use textile_erp_cloud.Domain.Money.{Money, new_money}
use textile_erp_cloud.Domain.Invoice.{Invoice, is_paid, add_payment}
use textile_erp_cloud.Domain.Tenants.{normalized_company, put-here}
use textile_erp_cloud.Domain.InvoiceService.{
  InvoiceService, InvoiceError, has_id, seed, add_samples, set_invoices, pay_found, pay_invoice,
}

module _ {W : Type 0} ⦃fl : Float W⦄ where
  add_payment-id :
      (id : ℤ) (amount : Money) (inv : Invoice W)
      → has_id id (add_payment amount inv) ≡ has_id id inv
  unfolding add_payment
  add_payment-id id amount inv = refl

  settled :
      (amount : Money) (inv : Invoice W)
      → leb_ℤ (add_payment amount inv).balance (pos 0) ≡ true
      → is_paid (add_payment amount inv).status ≡ true
  unfolding add_payment
  settled amount inv h = rw h refl

  -- A company with an invoice is not seeded.
  seed-found :
      (now co id : ℤ) (inv : Invoice W) (is : InvoiceService W)
      → find (has_id id) (is.invoices co) ≡ some inv
      → seed now co is ≡ is
  unfolding seed
  seed-found now co id inv is h = go (is.invoices co) h
    where
      go :
          (invs : List (Invoice W))
          → find (has_id id) invs ≡ some inv
          → (elim invs as (λ _. InvoiceService W) [ [] ↦ add_samples now co is | _ ∷ _ ↦ is ]) ≡ is
      go [] e = cc
      go (x ∷ xs) e = refl

  -- What a payment that went through has done.
  abbrev Took : ℤ → ℤ → Money → InvoiceService W → Invoice W → InvoiceService W → Type 0
  Took co id amount is inv is' =
      (old : Invoice W) × (find (has_id id) (is.invoices co) ≡ some old)
      × (inv ≡ add_payment amount old)
      × (is' ≡ set_invoices co (update_first (has_id id) (add_payment amount) (is.invoices co)) is)

  pay_found-Took :
      (co id : ℤ) (amount : Money) (found : Option (Invoice W)) (is : InvoiceService W)
      (inv : Invoice W)
      → find (has_id id) (is.invoices co) ≡ found
      → (pay_found co id amount found is).0 ≡ ok inv
      → Took co id amount is inv (pay_found co id amount found is).1
  pay_found-Took co id amount none is inv f h = cc
  pay_found-Took co id amount (some old) is inv f h = elim (Bool-cases (is_paid old.status)) [
    | inl closed ↦ absurd (cc (rw closed at h))
    | inr open_ ↦ rw open_ (old, f, cc (rw open_ at h), refl)
  ]

  refused :
      (now company id : ℤ) (amount : W) (is : InvoiceService W) (inv : Invoice W)
      → find (has_id id) (is.invoices (normalized_company company)) ≡ some inv
      → is_paid inv.status ≡ true
      → pay_invoice now company id amount is ≡ (err InvoiceError.already_paid, is)
  unfolding pay_invoice
  refused now company id amount is inv f closed =
      let co = normalized_company company in
      rw (seed-found now co id inv is f)
        (ap (λ found. pay_found co id (new_money amount) found is) f ∙ rw closed refl)

  found_after :
      (co id : ℤ) (amount : Money) (is is' : InvoiceService W) (inv : Invoice W)
      → Took co id amount is inv is'
      → find (has_id id) (is'.invoices co) ≡ some inv
  found_after co id amount is is' inv (old, f, e, h) =
      let invs = update_first (has_id id) (add_payment amount) (is.invoices co) in
      rw (h, e, put-here co invs is.invoices)
        (find-update_first (has_id id) (add_payment amount) (is.invoices co) old
          (add_payment-id id amount) f)

  -- If a payment was accepted and left the invoice with a balance that is not positive, then any
  -- further payment of that invoice is refused as already paid and changes nothing.
  pub pay_twice :
      (now later company id : ℤ) (amount more : W) (is : InvoiceService W) (inv : Invoice W)
      → (pay_invoice now company id amount is).0 ≡ ok inv
      → leb_ℤ inv.balance (pos 0) ≡ true
      → pay_invoice later company id more (pay_invoice now company id amount is).1
        ≡ (err InvoiceError.already_paid, (pay_invoice now company id amount is).1)
  unfolding pay_invoice
  pay_twice now later company id amount more is inv h low =
      let co = normalized_company company in
      let is1 = seed now co is in
      let is2 = (pay_found co id (new_money amount) (find (has_id id) (is1.invoices co)) is1).1 in
      let took =
        pay_found-Took co id (new_money amount) (find (has_id id) (is1.invoices co)) is1 inv refl
          h in
      let (old, f, e, same) = took in
      let paid : is_paid inv.status ≡ true =
        subst (λ x. is_paid x.status ≡ true) (sym e)
          (settled (new_money amount) old (rw e at low)) in
      refused later company id more is2 inv (found_after co id (new_money amount) is1 is2 inv took)
        paid
