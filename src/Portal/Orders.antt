-- ===== src/Portal/Orders.antt =====
-- portal_server/orders.go: the orders of customers and how they are taken in. The file of orders is
-- a list; reading and writing it does not fail here. `parse_address` is `net/mail.ParseAddress`, and `id`
-- is what `randomHex` gave.
pub mod Repeat
pub mod Valid
mod Tests
use textile_erp_cloud.Base.{
  ℕ, suc, Bool, true, false, not, ◌&&◌, ◌||◌, Option, none, some, List, [], ◌∷◌, ◌++◌, ltb, leb,
  ◌==◌, if◌then◌else◌, length,
}
use textile_erp_cloud.Base.Int.{ℤ, pos, ltb_ℤ, leb_ℤ, beq_ℤ}
use textile_erp_cloud.Base.Result.{Result, ok, err, ◌>>=◌, ◌>>◌, refuse_if}
use textile_erp_cloud.Base.Text.{
  Text, codes, text_eq, is_empty, trim_space, to_lower, to_upper, equal_fold, byte_len,
}
use textile_erp_cloud.Domain.Duration.{since}

pub data Status : Type 0 where
  pending approved rejected : Status

-- What two orders must share to be one: the company up to case, the rest exactly.
pub record Wish : Type 0 where
  pub company_name : Text
  pub mobile : Text
  pub allow_financial : Bool
  pub allow_operational : Bool
  pub allow_weaving : Bool
  pub employee_count : ℤ
  pub machine_count : ℤ
  pub unit_count : ℤ
  pub is_trial : Bool

pub record Order : Type 0 where
  pub id : Text
  pub wish : Wish
  pub contact_name : Text
  pub email : Text
  pub billing_cycle : Text
  pub notes : Text
  pub status : Status
  pub access_id : ℤ
  pub requester_access_id : ℤ
  pub financial_company_id : ℤ
  pub requested_by : Text
  pub admin_note : Text
  pub created_at : ℤ
  pub updated_at : ℤ

pub record Request : Type 0 where
  pub wish : Wish
  pub contact_name : Text
  pub email : Text
  pub billing_cycle : Text
  pub notes : Text
  pub website : Text
  pub requester_access_id : ℤ
  pub financial_company_id : ℤ
  pub requested_by : Text

pub data OrderError : Type 0 where
  bad_request bad_company bad_contact bad_mobile bad_email no_product : OrderError
  bad_employees bad_units bad_machines long_notes : OrderError

-- The loop of `validPurchaseMobile`: the number of digits, unless a character is refused.
abbrev pub mobile_digits : Bool → Text → Option ℕ
mobile_digits first [] = some 0
mobile_digits first (c ∷ s) =
    let rest = mobile_digits false s in
    if leb b'0' c && leb c b'9'
    then elim rest [ none ↦ none | some n ↦ some (suc n) ]
    else if (c == b'+' && first) || c == b' ' || c == b'-' || c == b'(' || c == b')'
    then rest
    else none

-- `validPurchaseMobile`
unfoldable pub valid_mobile : Text → Bool
valid_mobile value =
    let s = trim_space value in
    not (ltb (byte_len s) 7 || ltb 20 (byte_len s))
    && (elim (mobile_digits true s) [ none ↦ false | some n ↦ leb 7 n ])

abbrev pub trial_wish : Wish → Wish
trial_wish w = record w { allow_financial = true; allow_operational = true; allow_weaving = true }

-- The assignments at the head of `createPurchaseOrder`.
unfoldable pub clean : Request → Request
clean req =
    let trimmed : Wish = record req.wish {
      company_name = trim_space req.wish.company_name;
      mobile = trim_space req.wish.mobile;
    } in
    record req {
      wish = if req.wish.is_trial then trial_wish trimmed else trimmed;
      contact_name = trim_space req.contact_name;
      email = trim_space req.email;
      notes = trim_space req.notes;
      billing_cycle =
          if req.wish.is_trial then codes "trial" else to_lower (trim_space req.billing_cycle);
    }

abbrev pub valid_email : (Text → Option Text) → Text → Bool
valid_email parse_address email = is_empty email || (elim (parse_address email) [
  | none ↦ false
  | some address ↦ equal_fold (trim_space address) email
])

abbrev pub bad_length : ℕ → ℕ → Text → Bool
bad_length low high s = ltb (length s) low || ltb high (length s)

abbrev pub outside : ℤ → ℤ → ℤ → Bool
outside low high n = ltb_ℤ n low || ltb_ℤ high n

-- The tests of `createPurchaseOrder`.
unfoldable pub check_order : (Text → Option Text) → Request → Result OrderError (Unit {0})
check_order parse_address req = do
  refuse_if (not (is_empty (trim_space req.website))) bad_request
  refuse_if (bad_length 2 120 req.wish.company_name) bad_company
  refuse_if (bad_length 2 100 req.contact_name) bad_contact
  refuse_if (not (valid_mobile req.wish.mobile)) bad_mobile
  refuse_if (not (valid_email parse_address req.email)) bad_email
  refuse_if
      (not req.wish.allow_financial && not req.wish.allow_operational && not req.wish.allow_weaving)
      no_product
  refuse_if (outside (pos 1) (pos 5000) req.wish.employee_count) bad_employees
  refuse_if (outside (pos 1) (pos 1000) req.wish.unit_count) bad_units
  refuse_if
      (outside (pos 0) (pos 20000) req.wish.machine_count
        || (req.wish.allow_weaving && ltb_ℤ req.wish.machine_count (pos 1)))
      bad_machines
  refuse_if (ltb 1000 (length req.notes)) long_notes

abbrev pub is_cycle : Text → Bool
is_cycle s = text_eq s (codes "monthly") || text_eq s (codes "annual") || text_eq s (codes "trial")

abbrev pub cycle_of : Text → Text
cycle_of s = if is_cycle s then s else codes "annual"

-- The order of a checked request.
unfoldable pub new_order : ℤ → Text → Request → Order
new_order now id req = record {
  id = codes "TX-" ++ to_upper id;
  wish = req.wish;
  contact_name = req.contact_name;
  email = req.email;
  billing_cycle = cycle_of req.billing_cycle;
  notes = req.notes;
  status = pending;
  access_id = pos 0;
  requester_access_id = req.requester_access_id;
  financial_company_id = req.financial_company_id;
  requested_by = req.requested_by;
  admin_note = [];
  created_at = now;
  updated_at = now;
}

-- `samePurchaseCustomer`
unfoldable pub same_customer : Order → Order → Bool
same_customer a b =
    equal_fold (trim_space a.wish.company_name) (trim_space b.wish.company_name)
    && text_eq (trim_space a.wish.mobile) (trim_space b.wish.mobile)
    && (is_empty (trim_space a.email)
        || is_empty (trim_space b.email)
        || equal_fold (trim_space a.email) (trim_space b.email))

abbrev pub is_pending : Status → Bool
is_pending pending = true
is_pending _ = false

abbrev pub is_approved : Status → Bool
is_approved approved = true
is_approved _ = false

abbrev pub is_owner_of : Order → Order → Bool
is_owner_of item order =
    beq_ℤ order.requester_access_id (pos 0)
    && is_approved item.status
    && ltb_ℤ (pos 0) item.access_id
    && same_customer item order

-- A known customer's access becomes the one that asks.
unfoldable pub adopt : Order → Order → Order
adopt item order =
    if is_owner_of item order
    then record order {
      requester_access_id = item.access_id;
      financial_company_id =
          if beq_ℤ order.financial_company_id (pos 0)
          then item.financial_company_id
          else order.financial_company_id;
    }
    else order

abbrev pub same_bool : Bool → Bool → Bool
same_bool true b = b
same_bool false b = not b

abbrev pub same_wish : Wish → Wish → Bool
same_wish a b =
    equal_fold a.company_name b.company_name
    && text_eq a.mobile b.mobile
    && same_bool a.allow_financial b.allow_financial
    && same_bool a.allow_operational b.allow_operational
    && same_bool a.allow_weaving b.allow_weaving
    && beq_ℤ a.employee_count b.employee_count
    && beq_ℤ a.machine_count b.machine_count
    && beq_ℤ a.unit_count b.unit_count
    && same_bool a.is_trial b.is_trial

abbrev pub ten_minutes : ℤ
ten_minutes = pos 600_000_000_000

-- An order of the last ten minutes that still waits and wishes the same.
abbrev pub is_repeat : ℤ → Order → Order → Bool
is_repeat now item order =
    is_pending item.status
    && leb_ℤ (since now item.created_at) ten_minutes
    && same_wish item.wish order.wish

pub data Scan : Type 0 where
  known : Order → Scan
  fresh : Order → Scan

-- The loop over the stored orders.
abbrev pub scan : ℤ → Order → List Order → Scan
scan now order [] = fresh order
scan now order (item ∷ items) =
    let rest = scan now (adopt item order) items in
    if is_repeat now item (adopt item order) then known item else rest

abbrev pub store : Scan → List Order → Order × List Order
store (known item) items = (item, items)
store (fresh order) items = (order, items ++ (order ∷ []))

-- `createPurchaseOrder`
unfoldable pub create_order :
    (Text → Option Text) → ℤ → Text → Request → List Order → Result OrderError Order × List Order
unfolding clean check_order new_order adopt
create_order parse_address now id raw items = elim (check_order parse_address (clean raw)) [
  | err e ↦ (err e, items)
  | ok _ ↦
      (let (order, items') = store (scan now (new_order now id (clean raw)) items) items in
        (ok order, items'))
]
