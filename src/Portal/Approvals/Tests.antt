-- ===== src/Portal/Approvals/Tests.antt =====
-- An order of a new customer is approved, and again after it was to be rejected.
use textile_erp_cloud.Base.Int.{◌+ℤ◌}
use textile_erp_cloud.Portal.Services.{
  provision_weaving, provision_tenant, sync_user, secure, must_decrypt,
}
use textile_erp_cloud.Portal.Managed.{open_access, create_managed, create_locked, create_access}
use textile_erp_cloud.Portal.Terms.{terms_of, check_modules}
use textile_erp_cloud.Base.Text.{
  to_lower, trim_space, equal_fold, to_upper, byte_len, is_space, text_eq,
}
use textile_erp_cloud.Portal.Names.{is_password, generated_password, slug_base, unique_username}
use textile_erp_cloud.Portal.Approvals.{
  order_expiry, reject, approve, find_account, customer_spec, close_order, list_orders, save_order,
  activate, marker, contains, order_by_id, upgrade_spec, portal_password,
}
use textile_erp_cloud.Portal.Access.{
  effective_can_manage, has_key, effective_operational, default_permissions, effective_role,
  effective_weaving, effective_financial, role_name, provision_role, trial_active,
  effective_permissions, normalize_permissions, normalize_role, listed, valid_project,
}
use textile_erp_cloud.Portal.Store.{
  sort_accesses, sort_places, read_accesses, username_taken, existing_company, settle, company_loop,
  existing_tenant, max_id, read_row, clashes, next_id, write_accesses, list_accesses,
}
use textile_erp_cloud.Base.{◌≡◌, refl, false, true, List, [], ◌∷◌}
use textile_erp_cloud.Base.Int.{ℤ, pos}
use textile_erp_cloud.Base.Result.{ok}
use textile_erp_cloud.Base.Text.{Text, codes}
use textile_erp_cloud.Portal.Access.{Access}
use textile_erp_cloud.Portal.Approvals.{Desk}
use textile_erp_cloud.Portal.Approvals.Decisions.{
  Decision, approves, rejects, decided, all_decided, Moves, decisions-Moves,
}
use textile_erp_cloud.Portal.Approvals.Lists.{IsDistinctOrders}
use textile_erp_cloud.Portal.Approvals.Saves.{Pairs}
use textile_erp_cloud.Portal.Approvals.Twice.{LeavesAccounts, approve_twice}
use textile_erp_cloud.Portal.Orders.{Order, Wish, pending, approved}
use textile_erp_cloud.Portal.Samples.{head_account, servers, no_servers, draws, company}

abbrev wish : Wish
wish = record {
  company_name = codes "Naz";
  mobile = codes "+98 912 000 1111";
  allow_financial = true;
  allow_operational = false;
  allow_weaving = false;
  employee_count = pos 12;
  machine_count = pos 8;
  unit_count = pos 1;
  is_trial = false;
}

abbrev order : Order
order = record {
  id = codes "TX-A1";
  wish = wish;
  contact_name = codes "Ali";
  email = [];
  billing_cycle = codes "monthly";
  notes = [];
  status = pending;
  admin_note = [];
  access_id = pos 0;
  requester_access_id = pos 0;
  financial_company_id = pos 0;
  requested_by = [];
  created_at = pos 1;
  updated_at = pos 1;
}

abbrev desk : Desk
desk = record { orders = order ∷ []; file = company }

abbrev describe : Order → Text
describe o = codes "order"

desk-IsDistinctOrders : IsDistinctOrders desk.orders
desk-IsDistinctOrders = (tt, tt)

unfoldable running : Unit {0}
unfolding decided list_orders order_by_id marker contains find_account save_order portal_password
    close_order upgrade_spec customer_spec activate approve reject text_eq is_space to_lower
    to_upper trim_space equal_fold byte_len ◌+ℤ◌ read_row read_accesses write_accesses max_id
    next_id username_taken clashes company_loop existing_company existing_tenant slug_base
    unique_username generated_password is_password provision_tenant provision_weaving sync_user
    must_decrypt secure terms_of check_modules open_access create_locked create_access
    create_managed valid_project role_name normalize_role default_permissions has_key listed
    normalize_permissions effective_role effective_permissions trial_active effective_financial
    effective_operational effective_weaving effective_can_manage provision_role list_accesses
    sort_accesses settle sort_places
running = tt

-- The new account of the customer, who is the owner of the company that the server opened.
abbrev opened : Access
opened = record head_account {
  id = pos 3;
  company_name = codes "Naz";
  contact_name = codes "Ali";
  username = codes "ali-ab12";
  allow_operational = false;
  expires_at = order_expiry (pos 10) order;
  access_token = codes "f00d";
  password_hash = codes "Portal@ali-ab12AB12";
  password_enc = codes "Portal@ali-ab12AB12";
  notes = codes "[purchase_order:TX-A1]\norder";
  created_at = pos 10;
}

-- What is answered; its time of change is set where it is saved.
abbrev done : Order
done = record order { status = approved; access_id = pos 3; financial_company_id = pos 7 }

approves_order :
    (approve servers describe (pos 10) draws (codes " tx-a1 ") [] desk).0
    ≡ ok (done, opened, codes "Portal@ali-ab12AB12")
unfolding running
approves_order = refl

approve_twice_example :
    LeavesAccounts (approve servers describe (pos 10) draws (codes " tx-a1 ") [] desk).1 (
      approve no_servers describe
        (pos 20)
        draws
        (codes " tx-a1 ")
        (codes "again")
        (approve servers describe (pos 10) draws (codes " tx-a1 ") [] desk).1)
approve_twice_example =
    approve_twice servers describe (pos 10) draws (codes " tx-a1 ") [] desk
      (done, opened, codes "Portal@ali-ab12AB12") desk-IsDistinctOrders approves_order no_servers
      (pos 20) draws (codes "again")

abbrev decisions : List (ℤ × Decision)
decisions =
    (pos 10, approves draws (codes "TX-A1") [])
    ∷ (pos 11, rejects (codes "TX-A1") (codes "late"))
    ∷ (pos 12, approves draws (codes "TX-B2") [])
    ∷ []

decisions-Moves_example :
    Pairs Moves desk.orders (all_decided servers describe decisions desk).orders
decisions-Moves_example = decisions-Moves servers describe decisions desk desk-IsDistinctOrders
