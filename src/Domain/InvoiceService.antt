-- ===== src/Domain/InvoiceService.antt =====
-- financial/internal/domain/service/invoice_service.go. Each method runs under the mutex, one after the
-- other; `now` is what `time.Now()` returns in the call. The methods without a company are those
-- of company 1.
pub mod Kept
mod Tests
pub mod Calls
pub mod Payment
pub mod Isolation
use textile_erp_cloud.Base.{
  Bool, true, false, Option, none, some, List, [], ◌∷◌, ◌++◌, map, length, find, update_first,
  if◌then◌else◌,
}
use textile_erp_cloud.Base.Int.{ℤ, pos, beq_ℤ, ◌+ℤ◌, ◌-ℤ◌}
use textile_erp_cloud.Base.Int64.{◌+₆₄◌}
use textile_erp_cloud.Base.Result.{Result, ok, err}
use textile_erp_cloud.Base.Text.{Text, codes}
use textile_erp_cloud.Base.Float.{Float}
use textile_erp_cloud.Domain.Money.{Money, zero_money, add, new_money}
use textile_erp_cloud.Domain.Invoice.{
  Status, InvoiceNo, Invoice, is_paid, issue, check_overdue, new_invoice, add_line, add_payment,
}
use textile_erp_cloud.Domain.SampleNames.{
  sample_company, polyester_yarn, polyester_yarn_grade_1, cotton_yarn, fine_cotton_yarn,
  polyester_fabric, fabric_width_150, weaving_workshop, cotton_fabric, white_cotton_fabric,
}
use textile_erp_cloud.Domain.Tenants.{normalized_company, put}

pub record InvoiceService (W : Type 0) : Type 0 where
  pub invoices : ℤ → List (Invoice W)
  pub next_id : ℤ → ℤ
  pub next_number : ℤ → ℤ

pub record LineRequest (W : Type 0) : Type 0 where
  pub item_id : ℤ
  pub item_name : Text
  pub description : Text
  pub qty : W
  pub unit : Text
  pub unit_price : W

pub data InvoiceError : Type 0 where
  already_paid not_found : InvoiceError

-- A counter that reads 0 has not started yet.
abbrev pub from_start : ℤ → ℤ → ℤ
from_start first n = if beq_ℤ n (pos 0) then first else n

abbrev pub has_id : {W : Type 0} → ℤ → Invoice W → Bool
has_id id inv = beq_ℤ inv.id id

module _ {W : Type 0} where
  abbrev empty_service : InvoiceService W
  empty_service = record { invoices = λ c. []; next_id = λ c. pos 0; next_number = λ c. pos 0 }

  abbrev pub with_id : ℤ → Invoice W → Invoice W
  with_id id inv = record inv { id = id }

  -- `AddInvoiceForCompany`, of a company that is normalized already.
  unfoldable pub add_invoice : ℤ → Invoice W → InvoiceService W → Invoice W × InvoiceService W
  add_invoice co inv is =
      let id = from_start (pos 1) (is.next_id co) in
      (
        with_id id inv,
        record is {
          invoices = put co (is.invoices co ++ (with_id id inv ∷ [])) is.invoices;
          next_id = put co (id +₆₄ pos 1) is.next_id;
        },
      )

  abbrev pub set_invoices : ℤ → List (Invoice W) → InvoiceService W → InvoiceService W
  set_invoices co invs is = record is { invoices = put co invs is.invoices }

unfoldable pub toman : (W : Type 0) ⦃fl : Float W⦄ → ℤ → Money
toman W ⦃fl⦄ n = new_money (fl.of_int n)

module _ {W : Type 0} ⦃fl : Float W⦄ where
  -- The three invoices of `createSampleInvoicesForCompany`, with their lines and then as they are added.
  unfoldable pub lines_1 : ℤ → Invoice W
  unfolding toman new_invoice add_line
  lines_1 now =
      let inv = new_invoice now (InvoiceNo.sample (pos 1)) (pos 1) sample_company in
      let yarn =
        add_line (pos 1) polyester_yarn polyester_yarn_grade_1 (fl.of_int (pos 100)) (codes "KG")
          (toman W (pos 200_000)) inv in
      add_line (pos 2) cotton_yarn fine_cotton_yarn (fl.of_int (pos 50)) (codes "KG")
        (toman W (pos 280_000)) yarn

  unfoldable pub lines_2 : ℤ → Invoice W
  unfolding toman new_invoice add_line
  lines_2 now =
      add_line (pos 3) polyester_fabric fabric_width_150 (fl.of_int (pos 200)) (codes "Meter")
        (toman W (pos 350_000)) (new_invoice now (InvoiceNo.sample (pos 2)) (pos 1) sample_company)

  unfoldable pub lines_3 : ℤ → Invoice W
  unfolding toman new_invoice add_line
  lines_3 now =
      add_line (pos 4) cotton_fabric white_cotton_fabric (fl.of_int (pos 150)) (codes "Meter")
        (toman W (pos 400_000))
        (new_invoice now (InvoiceNo.sample (pos 3)) (pos 2) weaving_workshop)

  unfoldable pub sample_1 : ℤ → Invoice W
  unfolding lines_1 issue add_payment
  sample_1 now = add_payment (issue (lines_1 now)).total_amount (issue (lines_1 now))

  unfoldable pub sample_2 : ℤ → Invoice W
  unfolding lines_2 issue add_payment toman
  sample_2 now = add_payment (toman W (pos 50_000_000)) (issue (lines_2 now))

  -- Due 15 days ago.
  unfoldable pub sample_3 : ℤ → Invoice W
  unfolding lines_3 issue check_overdue
  sample_3 now =
      check_overdue now
        (issue (record (lines_3 now) { due_date = now -ℤ pos 1_296_000_000_000_000 }))

  abbrev pub add_samples : ℤ → ℤ → InvoiceService W → InvoiceService W
  add_samples now co is =
      (add_invoice co (sample_3 now)
        (add_invoice co (sample_2 now) (add_invoice co (sample_1 now) is).1).1).1

  -- `createSampleInvoicesForCompany`
  unfoldable pub seed : ℤ → ℤ → InvoiceService W → InvoiceService W
  seed now co is = elim (is.invoices co) [ [] ↦ add_samples now co is | _ ∷ _ ↦ is ]

  abbrev pub new_service : ℤ → InvoiceService W
  new_service now = seed now (pos 1) empty_service

  -- The loop over the requested lines.
  abbrev pub add_lines : List (LineRequest W) → Invoice W → Invoice W
  add_lines [] inv = inv
  add_lines (l ∷ ls) inv =
      add_lines ls
        (add_line l.item_id l.item_name l.description l.qty l.unit (new_money l.unit_price) inv)

  abbrev pub requested_invoice : ℤ → InvoiceNo → ℤ → Text → List (LineRequest W) → Invoice W
  requested_invoice now number customer name lines =
      issue (add_lines lines (new_invoice now number customer name))

  -- `CreateInvoiceForCompany`
  unfoldable pub create_invoice :
      ℤ → ℤ → ℤ → Text → List (LineRequest W) → InvoiceService W → Invoice W × InvoiceService W
  unfolding seed
  create_invoice now company customer name lines is =
      let co = normalized_company company in
      let is1 = seed now co is in
      let number = from_start (pos 1001) (is1.next_number co) in
      let is2 = record is1 { next_number = put co (number +₆₄ pos 1) is1.next_number } in
      add_invoice co (requested_invoice now (InvoiceNo.numbered co number) customer name lines) is2

  -- `GetInvoicesForCompany`
  unfoldable pub get_invoices : ℤ → ℤ → InvoiceService W → List (Invoice W) × InvoiceService W
  unfolding seed
  get_invoices now company is =
      let co = normalized_company company in
      let is1 = seed now co is in
      let invs = map (check_overdue now) (is1.invoices co) in (invs, set_invoices co invs is1)

  -- `GetInvoiceForCompany`
  unfoldable pub get_invoice : ℤ → ℤ → ℤ → InvoiceService W → Option (Invoice W) × InvoiceService W
  unfolding seed
  get_invoice now company id is =
      let co = normalized_company company in
      let is1 = seed now co is in
      let invs = update_first (has_id id) (check_overdue now) (is1.invoices co) in
      (find (has_id id) invs, set_invoices co invs is1)

  abbrev pub pay_found :
      ℤ
      → ℤ
      → Money
      → Option (Invoice W)
      → InvoiceService W
      → Result InvoiceError (Invoice W) × InvoiceService W
  pay_found co id amount none is = (err InvoiceError.not_found, is)
  pay_found co id amount (some inv) is =
      if is_paid inv.status then (err InvoiceError.already_paid, is) else (
        ok (add_payment amount inv),
        set_invoices co (update_first (has_id id) (add_payment amount) (is.invoices co)) is,
      )

  -- `AddPaymentToInvoiceForCompany`
  unfoldable pub pay_invoice :
      ℤ → ℤ → ℤ → W → InvoiceService W → Result InvoiceError (Invoice W) × InvoiceService W
  unfolding seed
  pay_invoice now company id amount is =
      let co = normalized_company company in
      let is1 = seed now co is in
      pay_found co id (new_money amount) (find (has_id id) (is1.invoices co)) is1

pub record InvoiceReport : Type 0 where
  pub total_invoices : ℤ
  pub total_sales : Money
  pub total_collected : Money
  pub total_outstanding : Money
  pub overdue_count : ℤ
  pub paid_count : ℤ

abbrev count_if : Bool → ℤ → ℤ
count_if b n = if b then n +₆₄ pos 1 else n

abbrev is_overdue : Status → Bool
is_overdue Status.overdue = true
is_overdue _ = false

abbrev pub empty_report : InvoiceReport
empty_report = record {
  total_invoices = pos 0;
  total_sales = zero_money;
  total_collected = zero_money;
  total_outstanding = zero_money;
  overdue_count = pos 0;
  paid_count = pos 0;
}

module _ {W : Type 0} where
  abbrev pub report_on : ℤ → InvoiceReport → Invoice W → InvoiceReport
  report_on now report inv0 =
      let inv = check_overdue now inv0 in
      record {
        total_invoices = report.total_invoices +₆₄ pos 1;
        total_sales = add report.total_sales inv.total_amount;
        total_collected = add report.total_collected inv.paid_amount;
        total_outstanding = add report.total_outstanding inv.balance;
        overdue_count = count_if (is_overdue inv.status) report.overdue_count;
        paid_count = count_if (is_paid inv.status) report.paid_count;
      }

  abbrev pub report_all : ℤ → InvoiceReport → List (Invoice W) → InvoiceReport
  report_all now report [] = report
  report_all now report (inv ∷ invs) = report_all now (report_on now report inv) invs

-- `GetInvoiceReportForCompany`, without the period, which it only returns.
unfoldable pub invoice_report :
    {W : Type 0} ⦃fl : Float W⦄ → ℤ → ℤ → InvoiceService W → InvoiceReport × InvoiceService W
unfolding get_invoices
invoice_report now company is =
    let (invs, is') = get_invoices now company is in (report_all now empty_report invs, is')
