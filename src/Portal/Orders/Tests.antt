-- ===== src/Portal/Orders/Tests.antt =====
-- Orders of one company.
use textile_erp_cloud.Base.{◌≡◌, refl, true, false, Option, some, [], All, arith}
use textile_erp_cloud.Base.Int.{ℤ, pos, leb_ℤ, ◌-ℤ◌}
use textile_erp_cloud.Base.Result.{ok, err}
use textile_erp_cloud.Base.Text.{
  Text, codes, trim_space, to_lower, to_upper, equal_fold, byte_len, text_eq, is_space,
}
use textile_erp_cloud.Domain.Duration.{since}
use textile_erp_cloud.Portal.Orders.{
  Wish, Order, Request, bad_machines, clean, valid_mobile, check_order, new_order, same_customer,
  adopt, create_order,
}
use textile_erp_cloud.Portal.Orders.Repeat.{create_twice}
use textile_erp_cloud.Portal.Orders.Valid.{IsValid, create-IsValid}

-- Unfolds all that a run computes with.
unfoldable running : Unit {0}
unfolding trim_space to_lower to_upper equal_fold byte_len text_eq is_space since ◌-ℤ◌ clean
    valid_mobile check_order new_order same_customer adopt create_order
running = tt

abbrev wish : Wish
wish = record {
  company_name = codes " Baft Co ";
  mobile = codes "+98 912 000 1111";
  allow_financial = false;
  allow_operational = false;
  allow_weaving = false;
  employee_count = pos 12;
  machine_count = pos 8;
  unit_count = pos 1;
  is_trial = true;
}

abbrev request : Request
request = record {
  wish = wish;
  contact_name = codes "Ali";
  email = [];
  billing_cycle = codes "weekly";
  notes = [];
  website = [];
  requester_access_id = pos 0;
  financial_company_id = pos 0;
  requested_by = [];
}

abbrev parse : Text → Option Text
parse s = some s

abbrev minute : ℤ
minute = pos 60_000_000_000

abbrev order : Order
order = new_order (pos 0) (codes "a1b2c3") (clean request)

created : (create_order parse (pos 0) (codes "a1b2c3") request []).0 ≡ ok order
unfolding running
created = refl

order_id : order.id ≡ codes "TX-A1B2C3"
unfolding running
order_id = refl

no_machine :
    (create_order parse
      (pos 0)
      (codes "a1b2c3")
      (record request { wish = record wish { machine_count = pos 0 } })
      []).0
    ≡ err bad_machines
unfolding running
no_machine = refl

recent : leb_ℤ (since minute order.created_at) (pos 600_000_000_000) ≡ true
unfolding running
recent = refl

create_twice_example :
    create_order parse minute
      (codes "ffffff")
      request
      (create_order parse (pos 0) (codes "a1b2c3") request []).1
    ≡ (ok order, (create_order parse (pos 0) (codes "a1b2c3") request []).1)
create_twice_example =
    create_twice parse (pos 0) minute (codes "a1b2c3") (codes "ffffff") request [] order
      (omega arith) created recent

create-IsValid_example : All IsValid (create_order parse (pos 0) (codes "a1b2c3") request []).1
create-IsValid_example = create-IsValid parse (pos 0) (codes "a1b2c3") request [] tt
