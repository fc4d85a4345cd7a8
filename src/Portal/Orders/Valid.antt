-- ===== src/Portal/Orders/Valid.antt =====
-- What the stored orders of portal_server/orders.go are like.
use textile_erp_cloud.Base.Bools.{or_false}
use textile_erp_cloud.Base.{
  ℕ, ◌≤◌, ◌≡◌, refl, inl, inr, Bool, true, false, not, ◌&&◌, ◌||◌, List, [], ◌∷◌, arith, Bool-cases,
  Option, ltb, length, All, All-append,
}
use textile_erp_cloud.Base.Int.{ℤ, pos, ltb_ℤ, ◌≤ℤ◌}
use textile_erp_cloud.Base.Result.{Result, ok, err, refuse_if, refuse_if-ok}
use textile_erp_cloud.Base.Text.{Text, codes, is_empty, trim_space, text_eq}
use textile_erp_cloud.Portal.Orders.{
  Wish, Order, Request, OrderError, bad_request, bad_company, bad_contact, bad_mobile, bad_email,
  no_product, bad_employees, bad_units, bad_machines, long_notes, valid_mobile, valid_email,
  bad_length, outside, is_cycle, cycle_of, clean, check_order, new_order, is_owner_of, adopt,
  is_repeat, scan, store, create_order,
}

abbrev pub HasProduct : Wish → Type 0
HasProduct w = (not w.allow_financial && not w.allow_operational && not w.allow_weaving) ≡ false

abbrev pub IsWithin : ℤ → ℤ → ℤ → Type 0
IsWithin low high n = (low ≤ℤ n) × (n ≤ℤ high)

-- A trial is one of all products.
abbrev pub IsWholeTrial : Wish → Text → Type 0
IsWholeTrial w cycle =
    w.is_trial ≡ true
    → (w.allow_financial ≡ true)
      × (w.allow_operational ≡ true)
      × (w.allow_weaving ≡ true)
      × (cycle ≡ codes "trial")

-- The order can be dealt with: names, phone, products, counts and the billing cycle are in range.
pub record IsValid (o : Order) : Type 0 where
  pub company : (2 ≤ length o.wish.company_name) × (length o.wish.company_name ≤ 120)
  pub contact : (2 ≤ length o.contact_name) × (length o.contact_name ≤ 100)
  pub mobile : valid_mobile o.wish.mobile ≡ true
  pub product : HasProduct o.wish
  pub employees : IsWithin (pos 1) (pos 5000) o.wish.employee_count
  pub units : IsWithin (pos 1) (pos 1000) o.wish.unit_count
  pub machines : IsWithin (pos 0) (pos 20000) o.wish.machine_count
  pub looms : o.wish.allow_weaving ≡ true → pos 1 ≤ℤ o.wish.machine_count
  pub notes : length o.notes ≤ 1000
  pub cycle : is_cycle o.billing_cycle ≡ true
  pub trial : IsWholeTrial o.wish o.billing_cycle

fine_length :
    (low high : ℕ) (s : Text) → bad_length low high s ≡ false → (low ≤ length s) × (length s ≤ high)
fine_length low high s h = ground arith

inside : (low high n : ℤ) → outside low high n ≡ false → IsWithin low high n
inside low high n h = ground arith

looms_given : (w : Bool) (n : ℤ) → (w && ltb_ℤ n (pos 1)) ≡ false → w ≡ true → pos 1 ≤ℤ n
looms_given w n h e = ground arith

given : (b : Bool) → not b ≡ false → b ≡ true
given b h = ground arith

not_long : (n : ℕ) → ltb 1000 n ≡ false → n ≤ 1000
not_long n h = ground arith

cycle_of-is_cycle : (s : Text) → is_cycle (cycle_of s) ≡ true
unfolding text_eq
cycle_of-is_cycle s = elim (Bool-cases (is_cycle s)) [
  | inl good ↦ rw good good
  | inr bad ↦ rw bad refl
]

clean-trial : (raw : Request) → IsWholeTrial (clean raw).wish (cycle_of (clean raw).billing_cycle)
unfolding clean text_eq
clean-trial raw e = elim (Bool-cases raw.wish.is_trial) [
  | inl trial ↦ rw trial (refl, refl, refl, refl)
  | inr bought ↦ absurd (cc (rw bought at e))
]

last-ok : (b : Bool) (e : OrderError) → refuse_if b e ≡ ok tt → b ≡ false
last-ok true e h = cc
last-ok false e h = refl

checked :
    (parse_address : Text → Option Text) (now : ℤ) (id : Text) (req : Request)
    → check_order parse_address req ≡ ok tt
    → IsWholeTrial req.wish (cycle_of req.billing_cycle)
    → IsValid (new_order now id req)
unfolding check_order new_order
checked parse_address now id req h0 trial =
    let w = req.wish in
    let (a1, h1) = refuse_if-ok (not (is_empty (trim_space req.website))) bad_request _ _ h0 in
    let (a2, h2) = refuse_if-ok (bad_length 2 120 w.company_name) bad_company _ _ h1 in
    let (a3, h3) = refuse_if-ok (bad_length 2 100 req.contact_name) bad_contact _ _ h2 in
    let (a4, h4) = refuse_if-ok (not (valid_mobile w.mobile)) bad_mobile _ _ h3 in
    let (a5, h5) = refuse_if-ok (not (valid_email parse_address req.email)) bad_email _ _ h4 in
    let (a6, h6) =
      refuse_if-ok (not w.allow_financial && not w.allow_operational && not w.allow_weaving)
        no_product _ _ h5 in
    let (a7, h7) =
      refuse_if-ok (outside (pos 1) (pos 5000) w.employee_count) bad_employees _ _ h6 in
    let (a8, h8) = refuse_if-ok (outside (pos 1) (pos 1000) w.unit_count) bad_units _ _ h7 in
    let (a9, h9) =
      refuse_if-ok
        (outside (pos 0) (pos 20000) w.machine_count
          || (w.allow_weaving && ltb_ℤ w.machine_count (pos 1)))
        bad_machines _ _ h8 in
    let (range, looms) = or_false (outside (pos 0) (pos 20000) w.machine_count) _ a9 in
    record {
      company = fine_length 2 120 w.company_name a2;
      contact = fine_length 2 100 req.contact_name a3;
      mobile = given (valid_mobile w.mobile) a4;
      product = a6;
      employees = inside (pos 1) (pos 5000) w.employee_count a7;
      units = inside (pos 1) (pos 1000) w.unit_count a8;
      machines = inside (pos 0) (pos 20000) w.machine_count range;
      looms = looms_given w.allow_weaving w.machine_count looms;
      notes = not_long (length req.notes) (last-ok (ltb 1000 (length req.notes)) long_notes h9);
      cycle = cycle_of-is_cycle req.billing_cycle;
      trial = trial;
    }

adopt-IsValid : (item order : Order) → IsValid order → IsValid (adopt item order)
unfolding adopt
adopt-IsValid item order v = elim (Bool-cases (is_owner_of item order)) [
  | inr stranger ↦ rw stranger v
  | inl owner ↦ rw owner (record {
    company = v.company;
    contact = v.contact;
    mobile = v.mobile;
    product = v.product;
    employees = v.employees;
    units = v.units;
    machines = v.machines;
    looms = v.looms;
    notes = v.notes;
    cycle = v.cycle;
    trial = v.trial;
  })
]

scan-IsValid :
    (now : ℤ) (order : Order) (items stored : List Order)
    → IsValid order
    → All IsValid items
    → All IsValid stored
    → All IsValid (store (scan now order items) stored).1
scan-IsValid now order [] stored v vs ws = All-append IsValid stored (order ∷ []) ws (v, tt)
scan-IsValid now order (item ∷ items) stored v vs ws =
    elim (Bool-cases (is_repeat now item (adopt item order))) [
      | inl hit ↦ rw hit ws
      | inr miss ↦
          rw miss
            (scan-IsValid now (adopt item order) items stored (adopt-IsValid item order v) vs.1 ws)
    ]

-- If every stored order is valid, then so it is after `createPurchaseOrder`, whatever the request: names,
-- phone, products, counts, notes and billing cycle are in their ranges, weaving comes with a
-- machine, and an order with the trial flag is one of all three products.
pub create-IsValid :
    (parse_address : Text → Option Text) (now : ℤ) (id : Text) (raw : Request) (items : List Order)
    → All IsValid items
    → All IsValid (create_order parse_address now id raw items).1
unfolding create_order
create-IsValid parse_address now id raw items vs = go (check_order parse_address req) refl
  where
    req : Request
    req = clean raw

    go :
        (x : Result OrderError (Unit {0}))
        → check_order parse_address req ≡ x
        → All IsValid
            (elim x as (λ _. Result OrderError Order × List Order) [
              | err e ↦ (err e, items)
              | ok _ ↦ (
                ok (store (scan now (new_order now id req) items) items).0,
                (store (scan now (new_order now id req) items) items).1,
              )
            ]).1
    go (err e) h = vs
    go (ok _) h =
        scan-IsValid now (new_order now id req) items items
          (checked parse_address now id req h (clean-trial raw)) vs vs
