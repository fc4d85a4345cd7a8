-- ===== src/Portal/Team/Tests.antt =====
-- The owner of a company adds an account and edits one.
use textile_erp_cloud.Base.Int.{◌+ℤ◌}
use textile_erp_cloud.Base.Text.{
  to_lower, byte_len, to_upper, equal_fold, text_eq, trim_space, is_space,
}
use textile_erp_cloud.Portal.Names.{is_password, generated_password, unique_username, slug_base}
use textile_erp_cloud.Portal.Services.{
  sync_user, provision_weaving, secure, provision_tenant, must_decrypt,
}
use textile_erp_cloud.Portal.Accounts.{company_weaving_ready, weaving_ready}
use textile_erp_cloud.Portal.Access.{
  effective_can_manage, provision_role, effective_permissions, role_name, normalize_permissions,
  trial_active, effective_operational, normalize_role, listed, effective_role, same_tenant,
  effective_financial, valid_project, effective_weaving, default_permissions, requires_setup_now,
  has_key,
}
use textile_erp_cloud.Portal.Team.{team_target, check_manager, changed_spec, member_spec}
use textile_erp_cloud.Portal.Store.{
  clashes, sort_places, tenant_accesses, tenant_access_by_id, sort_accesses, settle,
  existing_company, list_accesses, max_id, read_accesses, write_accesses, next_id, username_taken,
  existing_tenant, company_loop, read_row,
}
use textile_erp_cloud.Portal.Managed.{
  open_access, update_access, renewed_password, update_found, create_access, update_managed,
  create_locked, create_managed, renew_access,
}
use textile_erp_cloud.Portal.Terms.{terms_of, check_modules}
use textile_erp_cloud.Base.{◌≡◌, refl, none, [], ◌∷◌}
use textile_erp_cloud.Base.Int.{pos, ◌≤ℤ◌}
use textile_erp_cloud.Base.Result.{ok}
use textile_erp_cloud.Base.Text.{codes}
use textile_erp_cloud.Portal.Access.{Access}
use textile_erp_cloud.Portal.Samples.{servers, draws, head_account, clerk, company}
use textile_erp_cloud.Portal.Team.{MemberRequest, as_before, add_member, edit_member}
use textile_erp_cloud.Portal.Team.Trials.{has_trial_in}
use textile_erp_cloud.Portal.Team.Bounded.{add_member-IsBelow, edit_member-IsBelow}
use textile_erp_cloud.Portal.Team.Below.{IsBelow, IsBelowOr}

abbrev request : MemberRequest
request = record {
  contact_name = codes "Nima";
  username = codes "nima";
  password = [];
  notes = [];
  access_role = codes "owner";
  permissions = codes "costs" ∷ codes "all" ∷ [];
  can_manage_team = none;
  allow_financial = none;
  allow_operational = none;
  allow_weaving = none;
  expiry = as_before;
}

unfoldable running : Unit {0}
unfolding text_eq is_space to_lower to_upper trim_space equal_fold byte_len ◌+ℤ◌ read_row
    read_accesses write_accesses max_id next_id username_taken clashes company_loop existing_company
    existing_tenant slug_base unique_username generated_password is_password provision_tenant
    provision_weaving sync_user must_decrypt secure terms_of check_modules open_access create_locked
    create_access create_managed renewed_password renew_access update_found update_access
    update_managed check_manager member_spec add_member team_target changed_spec edit_member
    valid_project role_name normalize_role default_permissions has_key listed normalize_permissions
    effective_role effective_permissions trial_active effective_financial effective_operational
    effective_weaving effective_can_manage requires_setup_now same_tenant provision_role
    list_accesses sort_accesses settle sort_places tenant_accesses tenant_access_by_id
    company_weaving_ready weaving_ready
running = tt

-- No owner is made, and no page is given that the catalogue has not.
abbrev added : Access
added = record clerk {
  id = pos 3;
  contact_name = codes "Nima";
  username = codes "nima";
  access_role = codes "manager";
  permissions = codes "costs" ∷ codes "mobileApp" ∷ [];
  access_token = codes "f00d";
  password_hash = codes "Portal@nimaAB12";
  password_enc = codes "Portal@nimaAB12";
  created_at = pos 10;
}

adds :
    (add_member servers (pos 10) draws draws head_account request company).0
    ≡ ok (added, codes "Portal@nimaAB12")
unfolding running
adds = refl

add_member-IsBelow_example :
    IsBelow head_account (pos 10) added
    × (added.expires_at ≤ℤ pos 1000)
    × (added.trial_ends_at ≡ head_account.trial_ends_at)
add_member-IsBelow_example =
    add_member-IsBelow servers (pos 10) draws draws head_account request company added
      (codes "Portal@nimaAB12") adds

abbrev edited : Access
edited = record added {
  id = pos 2;
  access_token = codes "tok2";
  password_hash = codes "secret123";
  password_enc = codes "secret123";
  created_at = pos 2;
}

edits :
    (edit_member servers (pos 10) draws draws head_account (pos 2) request company).0
    ≡ ok (edited, [])
unfolding running
edits = refl

edit_member-IsBelow_example :
    IsBelowOr (has_trial_in (pos 2) (pos 10) company) head_account (pos 10) edited
edit_member-IsBelow_example =
    edit_member-IsBelow servers (pos 10) draws draws head_account (pos 2) request company edited []
      edits
