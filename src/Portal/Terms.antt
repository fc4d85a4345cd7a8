-- ===== src/Portal/Terms.antt =====
-- portal_server/main.go: the arguments of `createManagedAccess` and `updateManagedAccess`, and what both make
-- of them before the other servers are asked.
use textile_erp_cloud.Base.{Bool, false, not, ◌&&◌, ◌||◌, List, [], if◌then◌else◌}
use textile_erp_cloud.Base.Int.{ℤ, pos, ltb_ℤ, leb_ℤ, beq_ℤ}
use textile_erp_cloud.Base.Result.{Result, ◌>>◌, refuse_if}
use textile_erp_cloud.Base.Text.{Text, is_empty, trim_space}
use textile_erp_cloud.Portal.Access.{
  Project, textile_erp, cooler_store, is_textile, Role, customer, role_name, normalize_role, Access,
  normalize_permissions, provision_role,
}
use textile_erp_cloud.Portal.Names.{unique_username, generated_password}
use textile_erp_cloud.Portal.Services.{
  AccessError, no_module, setup_too_early, TenantCall, WeavingCall, Draws,
}
use textile_erp_cloud.Portal.Store.{existing_company}

-- The arguments of both functions.
pub record Spec : Type 0 where
  pub project_key : Text
  pub company_name : Text
  pub contact_name : Text
  pub username : Text
  pub password : Text
  pub financial_company_id : ℤ
  pub expires_at : ℤ
  pub trial_ends_at : ℤ
  pub notes : Text
  pub access_role : Text
  pub permissions : List Text
  pub can_manage_team : Bool
  pub requires_setup : Bool
  pub allow_financial : Bool
  pub allow_operational : Bool
  pub allow_weaving : Bool
  pub external_org_ref : Text

abbrev pub trim_spec : Spec → Spec
trim_spec s = record s {
  company_name = trim_space s.company_name;
  contact_name = trim_space s.contact_name;
  username = trim_space s.username;
  password = trim_space s.password;
  notes = trim_space s.notes;
  external_org_ref = trim_space s.external_org_ref;
}

-- What an account may do, after the assignments that follow `normalizeAccessRole`.
pub record Terms : Type 0 where
  pub role : Role
  pub permissions : List Text
  pub can_manage_team : Bool
  pub requires_setup : Bool
  pub allow_financial : Bool
  pub allow_operational : Bool
  pub allow_weaving : Bool

unfoldable pub terms_of : Project → Spec → Terms
terms_of textile_erp s = record {
  role = normalize_role s.access_role;
  permissions =
      if s.allow_financial
      then normalize_permissions s.permissions (normalize_role s.access_role)
      else [];
  can_manage_team = s.can_manage_team;
  requires_setup = s.requires_setup;
  allow_financial = s.allow_financial;
  allow_operational = s.allow_operational;
  allow_weaving = s.allow_weaving;
}
terms_of cooler_store s = record {
  role = customer;
  permissions = [];
  can_manage_team = false;
  requires_setup = false;
  allow_financial = false;
  allow_operational = false;
  allow_weaving = false;
}

abbrev pub trial_on : ℤ → ℤ → Bool
trial_on now ends = not (beq_ℤ ends (pos 0)) && ltb_ℤ now ends

abbrev pub no_flag : Terms → Bool
no_flag t = not t.allow_financial && not t.allow_operational && not t.allow_weaving

-- The refusals of an account without a module, and of weaving before the setup.
unfoldable pub check_modules : Project → Terms → Bool → Result AccessError (Unit {0})
check_modules project t trial = do
  refuse_if (is_textile project && no_flag t && not trial) no_module
  refuse_if (is_textile project && t.requires_setup && (t.allow_weaving || trial)) setup_too_early

-- The fields that both functions write.
abbrev pub with_terms : Project → Spec → Terms → Text → ℤ → Access → Access
with_terms project s t username company a = record a {
  project = project;
  company_name = s.company_name;
  contact_name = s.contact_name;
  username = username;
  financial_company_id = company;
  access_role = role_name t.role;
  permissions = t.permissions;
  can_manage_team = t.can_manage_team;
  requires_setup = t.requires_setup;
  allow_financial = t.allow_financial;
  allow_operational = t.allow_operational;
  allow_weaving = t.allow_weaving;
  module_access_set = is_textile project;
  expires_at = s.expires_at;
  notes = s.notes;
}

abbrev pub blank : Access
blank = record {
  id = pos 0;
  project = textile_erp;
  company_name = [];
  contact_name = [];
  username = [];
  financial_company_id = pos 0;
  external_org_ref = [];
  access_role = [];
  permissions = [];
  can_manage_team = false;
  requires_setup = false;
  must_change_password = false;
  module_access_set = false;
  allow_financial = false;
  allow_operational = false;
  allow_weaving = false;
  weaving_tenant_id = [];
  trial_ends_at = pos 0;
  expires_at = pos 0;
  access_token = [];
  password_hash = [];
  password_enc = [];
  notes = [];
  is_active = false;
  created_at = pos 0;
  last_used_at = pos 0;
}

abbrev pub tenant_call : ℤ → ℤ → Spec → Role → Text → Text → TenantCall
tenant_call company id s role username password = record {
  company_id = company;
  access_id = id;
  company_name = s.company_name;
  contact_name = s.contact_name;
  username = username;
  password = password;
  role = provision_role role;
}

abbrev pub weaving_call : ℤ → ℤ → Spec → Text → Text → WeavingCall
weaving_call company id s username password = record {
  company_id = company;
  access_id = id;
  tenant_name = s.company_name;
  display_name = s.contact_name;
  username = username;
  password = password;
}

-- The company, the name and the password of a new account.
abbrev pub company_for : Project → Spec → List Access → ℤ
company_for project s items =
    if is_textile project && leb_ℤ s.financial_company_id (pos 0)
    then existing_company items s.company_name s.external_org_ref
    else s.financial_company_id

abbrev pub name_for : Project → Spec → Terms → ℤ → Draws → List Access → Text
name_for project s t id dr items =
    if t.requires_setup
    then []
    else if is_empty s.username
    then unique_username items project s.contact_name s.company_name id dr.clock dr.suffixes
    else s.username

abbrev pub password_for : Spec → Terms → Draws → Text → Text
password_for s t dr username =
    if t.requires_setup
    then []
    else if is_empty s.password
    then generated_password dr.password_suffix username
    else s.password
