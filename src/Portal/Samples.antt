-- ===== src/Portal/Samples.antt =====
-- A company of the portal, and servers that answer.
use textile_erp_cloud.Base.{refl}
use textile_erp_cloud.Base.Text.{is_space, to_lower, trim_space, equal_fold}
use textile_erp_cloud.Portal.Access.{normalize_role}
use textile_erp_cloud.Portal.Store.{read_row, read_accesses}
use textile_erp_cloud.Portal.Store.Kept.{IsSoundFile}
use textile_erp_cloud.Base.{true, false, none, some, List, [], ◌∷◌}
use textile_erp_cloud.Base.Int.{pos}
use textile_erp_cloud.Base.Text.{codes, text_eq}
use textile_erp_cloud.Portal.Access.{textile_erp, Access, catalog}
use textile_erp_cloud.Portal.Terms.{Spec}
use textile_erp_cloud.Portal.Services.{Services, Draws}
use textile_erp_cloud.Portal.Store.{Row, write_row}

-- The hash of a password is the password, and so is what it is sealed to.
abbrev pub servers : Services
servers = record {
  hash_password = λ s. some s;
  password_matches = text_eq;
  seal = λ s. some s;
  open_seal = λ s. some s;
  weaving_app_url = codes "http://weaving";
  weaving_monitor_token = codes "0123456789abcdef0123456789abcdef";
  tenant_reply = λ call. some (record { status = 200; success = true; company_id = pos 7 });
  weaving_reply = λ call. some (record { status = 200; tenant_id = codes "w7" });
  user_reply = λ call. some 200;
}

abbrev pub no_servers : Services
no_servers = record servers {
  tenant_reply = λ call. none;
  weaving_reply = λ call. none;
  user_reply = λ call. none;
}

abbrev pub draws : Draws
draws = record {
  token = codes "f00d";
  suffixes = codes "ab12" ∷ [];
  clock = codes "99";
  password_suffix = codes "ab12";
  spare_password = codes "cd34";
}

abbrev pub head_account : Access
head_account = record {
  id = pos 1;
  project = textile_erp;
  company_name = codes "Baft";
  contact_name = codes "Sara";
  username = codes "sara";
  financial_company_id = pos 7;
  external_org_ref = [];
  access_role = codes "owner";
  permissions = catalog;
  can_manage_team = true;
  requires_setup = false;
  must_change_password = false;
  module_access_set = true;
  allow_financial = true;
  allow_operational = true;
  allow_weaving = false;
  weaving_tenant_id = [];
  trial_ends_at = pos 0;
  expires_at = pos 1000;
  access_token = codes "tok1";
  password_hash = codes "secret123";
  password_enc = codes "secret123";
  notes = [];
  is_active = true;
  created_at = pos 1;
  last_used_at = pos 0;
}

abbrev pub clerk : Access
clerk = record head_account {
  id = pos 2;
  contact_name = codes "Reza";
  username = codes "reza";
  access_role = codes "accountant";
  permissions = codes "costs" ∷ [];
  can_manage_team = false;
  allow_operational = false;
  access_token = codes "tok2";
  created_at = pos 2;
}

abbrev pub company : List Row
company = write_row head_account ∷ write_row clerk ∷ []

abbrev pub member : Spec
member = record {
  project_key = codes "textile-erp";
  company_name = codes "Baft";
  contact_name = codes "Nima";
  username = codes "nima";
  password = [];
  financial_company_id = pos 7;
  expires_at = pos 900;
  trial_ends_at = pos 0;
  notes = [];
  access_role = codes "viewer";
  permissions = [];
  can_manage_team = false;
  requires_setup = false;
  allow_financial = true;
  allow_operational = false;
  allow_weaving = false;
  external_org_ref = [];
}

pub company-IsSoundFile : IsSoundFile company
unfolding read_row read_accesses text_eq is_space to_lower trim_space equal_fold normalize_role
company-IsSoundFile = record { sound = ((refl, (refl, tt)), (((refl, refl), tt), (tt, tt))) }
