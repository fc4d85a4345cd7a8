-- ===== src/Domain/InvoiceService/Kept.antt =====
-- What every call of invoice_service.go keeps: the amounts of all invoices of all companies agree.
use textile_erp_cloud.Base.{
  ◌≡◌, refl, sym, ap, ◌∙◌, inl, inr, false, Option, none, some, List, [], ◌∷◌, Bool-cases, find,
  All, All-append, All-map, All-update_first,
}
use mathlib.Core.Option.{some-injective}
use textile_erp_cloud.Base.Int.{ℤ, pos, beq_ℤ, ◌-ℤ◌}
use textile_erp_cloud.Base.Text.{Text, codes}
use textile_erp_cloud.Base.Float.{Float}
use textile_erp_cloud.Domain.Money.{Money, new_money}
use textile_erp_cloud.Domain.Invoice.{
  InvoiceNo, Invoice, is_paid, issue, check_overdue, new_invoice, add_line, add_payment,
}
use textile_erp_cloud.Domain.Invoice.Totals.{
  IsSound, issue-IsSound, check_overdue-IsSound, new_invoice-IsSound, add_line-IsSound,
  add_payment-IsSound,
}
use textile_erp_cloud.Domain.SampleNames.{cotton_fabric, white_cotton_fabric, weaving_workshop}
use textile_erp_cloud.Domain.Tenants.{normalized_company, put}
use textile_erp_cloud.Domain.InvoiceService.{
  InvoiceService, LineRequest, has_id, with_id, add_invoice, toman, lines_1, lines_2, lines_3,
  sample_1, sample_2, sample_3, add_samples, seed, add_lines, requested_invoice, create_invoice,
  get_invoices, get_invoice, pay_found, pay_invoice,
}

abbrev pub AllSound : {W : Type 0} → InvoiceService W → Type 0
AllSound is = (c : ℤ) → All IsSound (is.invoices c)

module _ {W : Type 0} where
  put-All :
      (co : ℤ) (invs : List (Invoice W)) (m : ℤ → List (Invoice W))
      → All IsSound invs
      → ((c : ℤ) → All IsSound (m c))
      → (c : ℤ) → All IsSound (put co invs m c)
  put-All co invs m h hs c = elim (Bool-cases (beq_ℤ co c)) [
    | inl here ↦ rw here h
    | inr other ↦ rw other (hs c)
  ]

  with_id-IsSound : (id : ℤ) (inv : Invoice W) → IsSound inv → IsSound (with_id id inv)
  with_id-IsSound id inv s = record {
    subtotal = s.subtotal;
    total = s.total;
    balance = s.balance;
    settled = s.settled;
  }

  add_invoice-AllSound :
      (co : ℤ) (inv : Invoice W) (is : InvoiceService W)
      → IsSound inv
      → AllSound is
      → AllSound (add_invoice co inv is).1
  unfolding add_invoice
  add_invoice-AllSound co inv is s h =
      put-All co _ is.invoices
        (All-append IsSound (is.invoices co) _ (h co) (with_id-IsSound _ inv s, tt)) h

new_open :
    (W : Type 0) ⦃fl : Float W⦄ (now : ℤ) (number : InvoiceNo) (customer : ℤ) (name : Text)
    → is_paid (new_invoice {W = W} now number customer name).status ≡ false
unfolding new_invoice
new_open W now number customer name = refl

module _ {W : Type 0} ⦃fl : Float W⦄ where
  issue_open : (inv : Invoice W) → is_paid (issue inv).status ≡ false
  unfolding issue
  issue_open inv = refl

  sample_1-IsSound : (now : ℤ) → IsSound (sample_1 {W = W} now)
  unfolding sample_1
  sample_1-IsSound now =
      let inv : Invoice W = issue (lines_1 now) in
      add_payment-IsSound inv.total_amount inv (issue_open (lines_1 now))

  sample_2-IsSound : (now : ℤ) → IsSound (sample_2 {W = W} now)
  unfolding sample_2
  sample_2-IsSound now =
      add_payment-IsSound (toman W (pos 50_000_000)) (issue (lines_2 now))
        (issue_open (lines_2 now))

  lines_3-IsSound : (now : ℤ) → IsSound (lines_3 {W = W} now)
  unfolding lines_3 new_invoice
  lines_3-IsSound now =
      add_line-IsSound (pos 4) cotton_fabric white_cotton_fabric (fl.of_int (pos 150))
        (codes "Meter") (toman W (pos 400_000))
        (new_invoice now (InvoiceNo.sample (pos 3)) (pos 2) weaving_workshop) refl

  moved-IsSound :
      (due : ℤ) (inv : Invoice W) → IsSound inv → IsSound (record inv { due_date = due })
  moved-IsSound due inv s = record {
    subtotal = s.subtotal;
    total = s.total;
    balance = s.balance;
    settled = s.settled;
  }

  sample_3-IsSound : (now : ℤ) → IsSound (sample_3 {W = W} now)
  unfolding sample_3
  sample_3-IsSound now =
      let due = now -ℤ pos 1_296_000_000_000_000 in
      let inv = record (lines_3 now) { due_date = due } in
      check_overdue-IsSound now (issue inv)
        (issue-IsSound inv (moved-IsSound due (lines_3 now) (lines_3-IsSound now)))

  pub seed-AllSound : (now co : ℤ) (is : InvoiceService W) → AllSound is → AllSound (seed now co is)
  unfolding seed
  seed-AllSound now co is h = go (is.invoices co)
    where
      seeded : AllSound (add_samples now co is)
      seeded =
          let one = add_invoice co (sample_1 now) is in
          let two = add_invoice co (sample_2 now) one.1 in
          add_invoice-AllSound co (sample_3 now) two.1 (sample_3-IsSound now) (
            add_invoice-AllSound co (sample_2 now) one.1 (sample_2-IsSound now)
              (add_invoice-AllSound co (sample_1 now) is (sample_1-IsSound now) h))

      go :
          (invs : List (Invoice W))
          → AllSound
              (elim invs as (λ _. InvoiceService W) [ [] ↦ add_samples now co is | _ ∷ _ ↦ is ])
      go [] = seeded
      go (x ∷ xs) = h

  -- A new invoice is not paid while its lines are added.
  add_line-open :
      (l : LineRequest W) (inv : Invoice W)
      → (add_line l.item_id l.item_name l.description l.qty l.unit
          (new_money l.unit_price)
          inv).status
        ≡ inv.status
  unfolding add_line
  add_line-open l inv = refl

  add_lines-IsSound :
      (ls : List (LineRequest W)) (inv : Invoice W)
      → is_paid inv.status ≡ false
      → IsSound inv
      → IsSound (add_lines ls inv)
  add_lines-IsSound [] inv h s = s
  add_lines-IsSound (l ∷ ls) inv h s =
      let added =
        add_line l.item_id l.item_name l.description l.qty l.unit (new_money l.unit_price) inv in
      add_lines-IsSound ls added (ap is_paid (add_line-open l inv) ∙ h) (
        add_line-IsSound l.item_id l.item_name l.description l.qty l.unit (new_money l.unit_price)
          inv h)

  requested-IsSound :
      (now : ℤ) (number : InvoiceNo) (customer : ℤ) (name : Text) (ls : List (LineRequest W))
      → IsSound (requested_invoice now number customer name ls)
  requested-IsSound now number customer name ls =
      let inv = new_invoice now number customer name in
      issue-IsSound (add_lines ls inv) (
        add_lines-IsSound ls inv (new_open W now number customer name)
          (new_invoice-IsSound now number customer name))

  pub create-AllSound :
      (now company customer : ℤ) (name : Text) (ls : List (LineRequest W)) (is : InvoiceService W)
      → AllSound is
      → AllSound (create_invoice now company customer name ls is).1
  unfolding create_invoice
  create-AllSound now company customer name ls is h =
      add_invoice-AllSound _ (requested_invoice now _ customer name ls) _
        (requested-IsSound now _ customer name ls)
        (seed-AllSound now (normalized_company company) is h)

  pub listed-All :
      (now company : ℤ) (is : InvoiceService W)
      → AllSound is
      → All IsSound (get_invoices now company is).0
  unfolding get_invoices
  listed-All now company is h =
      let co = normalized_company company in
      All-map IsSound (check_overdue now) ((seed now co is).invoices co) (check_overdue-IsSound now)
        (seed-AllSound now co is h co)

  pub list-AllSound :
      (now company : ℤ) (is : InvoiceService W)
      → AllSound is
      → AllSound (get_invoices now company is).1
  unfolding get_invoices
  list-AllSound now company is h =
      let co = normalized_company company in
      put-All co (get_invoices now company is).0 (seed now co is).invoices
        (listed-All now company is h) (seed-AllSound now co is h)

  pub get-AllSound :
      (now company id : ℤ) (is : InvoiceService W)
      → AllSound is
      → AllSound (get_invoice now company id is).1
  unfolding get_invoice
  get-AllSound now company id is h =
      let co = normalized_company company in
      let seeded = seed-AllSound now co is h in
      put-All co _ (seed now co is).invoices
        (All-update_first IsSound (has_id id) (check_overdue now) _
          (λ x e. check_overdue-IsSound now x) (seeded co))
        seeded

  -- Only an invoice that is not paid yet takes a payment.
  pay_found-AllSound :
      (co id : ℤ) (amount : Money) (found : Option (Invoice W)) (is : InvoiceService W)
      → find (has_id id) (is.invoices co) ≡ found
      → AllSound is
      → AllSound (pay_found co id amount found is).1
  pay_found-AllSound co id amount none is e h = h
  pay_found-AllSound co id amount (some inv) is e h = elim (Bool-cases (is_paid inv.status)) [
    | inl closed ↦ rw closed h
    | inr open_ ↦ rw open_ (
        put-All co _ is.invoices
          (All-update_first IsSound (has_id id) (add_payment amount) (is.invoices co)
            (λ x f s.
              add_payment-IsSound amount x
                (ap (λ y. is_paid y.status) (some-injective x inv (sym f ∙ e)) ∙ open_))
            (h co))
          h)
  ]

  pub pay-AllSound :
      (now company id : ℤ) (amount : W) (is : InvoiceService W)
      → AllSound is
      → AllSound (pay_invoice now company id amount is).1
  unfolding pay_invoice
  pay-AllSound now company id amount is h =
      pay_found-AllSound (normalized_company company) id (new_money amount) _
        (seed now (normalized_company company) is) refl
        (seed-AllSound now (normalized_company company) is h)
