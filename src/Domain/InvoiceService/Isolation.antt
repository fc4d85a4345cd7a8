-- ===== src/Domain/InvoiceService/Isolation.antt =====
-- A call of invoice_service.go for one company leaves the other companies alone.
use textile_erp_cloud.Base.{
  ◌≡◌, refl, ◌∙◌, inl, inr, false, List, [], ◌∷◌, Bool-cases, All, Option, none, some, find,
  update_first, map,
}
use textile_erp_cloud.Base.Int.{ℤ, pos, beq_ℤ}
use textile_erp_cloud.Base.Int64.{◌+₆₄◌}
use textile_erp_cloud.Base.Float.{Float}
use textile_erp_cloud.Domain.Money.{Money, new_money}
use textile_erp_cloud.Domain.Invoice.{Invoice, InvoiceNo, is_paid, check_overdue}
use textile_erp_cloud.Domain.Tenants.{normalized_company, put, put-other}
use textile_erp_cloud.Domain.InvoiceService.{
  InvoiceService, has_id, sample_1, sample_2, sample_3, add_invoice, add_samples, seed,
  create_invoice, get_invoices, get_invoice, pay_found, pay_invoice, invoice_report, set_invoices,
  from_start, requested_invoice,
}
use textile_erp_cloud.Domain.InvoiceService.Calls.{
  Call, create, list, report, get, pay, company_of, run, run_all,
}

module _ {W : Type 0} ⦃fl : Float W⦄ where
  -- What a call leaves of another company.
  abbrev pub SameFor : ℤ → InvoiceService W → InvoiceService W → Type 0
  SameFor c a b =
      (b.invoices c ≡ a.invoices c)
      × (b.next_id c ≡ a.next_id c)
      × (b.next_number c ≡ a.next_number c)

  SameFor-trans : (c : ℤ) (a b d : InvoiceService W) → SameFor c a b → SameFor c b d → SameFor c a d
  SameFor-trans c a b d (i, n, m) (i', n', m') = (i' ∙ i, n' ∙ n, m' ∙ m)

  add_invoice-SameFor :
      (c co : ℤ) (inv : Invoice W) (is : InvoiceService W)
      → beq_ℤ co c ≡ false
      → SameFor c is (add_invoice co inv is).1
  unfolding add_invoice
  add_invoice-SameFor c co inv is other =
      (put-other co c _ is.invoices other, put-other co c _ is.next_id other, refl)

  seed-SameFor :
      (c now co : ℤ) (is : InvoiceService W) → beq_ℤ co c ≡ false → SameFor c is (seed now co is)
  unfolding seed
  seed-SameFor c now co is other = go (is.invoices co)
    where
      seeded : SameFor c is (add_samples now co is)
      seeded =
          let one = add_invoice co (sample_1 now) is in
          let two = add_invoice co (sample_2 now) one.1 in
          let three = add_invoice co (sample_3 now) two.1 in
          SameFor-trans c is one.1 three.1 (add_invoice-SameFor c co (sample_1 now) is other) (
            SameFor-trans c one.1 two.1 three.1
              (add_invoice-SameFor c co (sample_2 now) one.1 other)
              (add_invoice-SameFor c co (sample_3 now) two.1 other))

      go :
          (invs : List (Invoice W))
          → SameFor c is
              (elim invs as (λ _. InvoiceService W) [ [] ↦ add_samples now co is | _ ∷ _ ↦ is ])
      go [] = seeded
      go (x ∷ xs) = (refl, refl, refl)

  set_invoices-SameFor :
      (c co : ℤ) (invs : List (Invoice W)) (is : InvoiceService W)
      → beq_ℤ co c ≡ false
      → SameFor c is (set_invoices co invs is)
  set_invoices-SameFor c co invs is other = (put-other co c invs is.invoices other, refl, refl)

  pay_found-SameFor :
      (c co id : ℤ) (amount : Money) (found : Option (Invoice W)) (is : InvoiceService W)
      → beq_ℤ co c ≡ false
      → SameFor c is (pay_found co id amount found is).1
  pay_found-SameFor c co id amount none is other = (refl, refl, refl)
  pay_found-SameFor c co id amount (some inv) is other = elim (Bool-cases (is_paid inv.status)) [
    | inl closed ↦ rw closed (refl, refl, refl)
    | inr open_ ↦ rw open_ (set_invoices-SameFor c co _ is other)
  ]

  seed_then_set :
      (c now co : ℤ) (invs : List (Invoice W)) (is : InvoiceService W)
      → beq_ℤ co c ≡ false
      → SameFor c is (set_invoices co invs (seed now co is))
  seed_then_set c now co invs is other =
      SameFor-trans c is (seed now co is) (set_invoices co invs (seed now co is))
        (seed-SameFor c now co is other) (set_invoices-SameFor c co invs (seed now co is) other)

  listed-SameFor :
      (c now co : ℤ) (is : InvoiceService W)
      → beq_ℤ co c ≡ false
      → SameFor c is (
          set_invoices co (map (check_overdue now) ((seed now co is).invoices co)) (seed now co is))
  listed-SameFor c now co is other =
      seed_then_set c now co (map (check_overdue now) ((seed now co is).invoices co)) is other

  run-SameFor :
      (c : ℤ) (call : ℤ × Call W) (is : InvoiceService W)
      → beq_ℤ (normalized_company (company_of call.1)) c ≡ false
      → SameFor c is (run call is)
  unfolding create_invoice get_invoices get_invoice pay_invoice invoice_report
  run-SameFor c (now, create company customer name lines) is other =
      let co = normalized_company company in
      let is1 = seed now co is in
      let number = from_start (pos 1001) (is1.next_number co) in
      let is2 : InvoiceService W = record is1 {
        next_number = put co (number +₆₄ pos 1) is1.next_number;
      } in
      let inv = requested_invoice now (InvoiceNo.numbered co number) customer name lines in
      let done = (add_invoice co inv is2).1 in
      SameFor-trans c is is1 done (seed-SameFor c now co is other) (
        SameFor-trans c is1 is2 done
          (refl, refl, put-other co c (number +₆₄ pos 1) is1.next_number other)
          (add_invoice-SameFor c co inv is2 other))
  run-SameFor c (now, list company) is other =
      listed-SameFor c now (normalized_company company) is other
  run-SameFor c (now, report company) is other =
      listed-SameFor c now (normalized_company company) is other
  run-SameFor c (now, get company id) is other =
      let co = normalized_company company in
      seed_then_set c now co
        (update_first (has_id id) (check_overdue now) ((seed now co is).invoices co)) is other
  run-SameFor c (now, pay company id amount) is other =
      let co = normalized_company company in
      let is1 = seed now co is in
      let found = find (has_id id) (is1.invoices co) in
      let done = (pay_found co id (new_money amount) found is1).1 in
      SameFor-trans c is is1 done (seed-SameFor c now co is other)
        (pay_found-SameFor c co id (new_money amount) found is1 other)

  -- A company that none of the calls is for, after a company of 0 or less counts as 1, keeps its
  -- invoices and both of its counters.
  pub calls-SameFor :
      (c : ℤ) (calls : List (ℤ × Call W)) (is : InvoiceService W)
      → All (λ call. beq_ℤ (normalized_company (company_of call.1)) c ≡ false) calls
      → SameFor c is (run_all calls is)
  calls-SameFor c [] is others = (refl, refl, refl)
  calls-SameFor c (call ∷ calls) is (other, others) =
      SameFor-trans c is (run call is) (run_all calls (run call is)) (run-SameFor c call is other)
        (calls-SameFor c calls (run call is) others)
