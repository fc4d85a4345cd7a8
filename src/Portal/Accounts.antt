-- ===== src/Portal/Accounts.antt =====
-- portal_server/main.go: the first setup of an account, its token, its switch, its deletion and its weaving
-- tenant.
pub mod Calls
pub mod Setup
pub mod Hashes
mod Tests
use textile_erp_cloud.Portal.Steps.{and_then, changed, change_first, project_key}
use textile_erp_cloud.Base.{
  ℕ, ◌*◌, Bool, true, false, not, ◌&&◌, ◌||◌, Option, none, some, List, [], ◌∷◌, ◌++◌, ltb,
  if◌then◌else◌, find, keep, update_first,
}
use textile_erp_cloud.Base.Int.{ℤ, pos, ltb_ℤ, beq_ℤ, ◌+ℤ◌}
use textile_erp_cloud.Base.Result.{Result, ok, err, ◌>>=◌, ◌>>◌, refuse_if, or_err}
use textile_erp_cloud.Base.Text.{Text, codes, text_eq, is_empty, trim_space, equal_fold}
use textile_erp_cloud.Portal.Access.{
  Project, textile_erp, cooler_store, is_textile, owner, is_owner, role_name, Access,
  default_permissions, normalize_modules, day, effective_role, effective_permissions,
  effective_weaving, effective_can_manage,
}
use textile_erp_cloud.Portal.Managed.{stored, update_managed}
use textile_erp_cloud.Portal.Terms.{Spec}
use textile_erp_cloud.Portal.Names.{is_password}
use textile_erp_cloud.Portal.Services.{
  WeavingCall, AccessError, short_password, username_used, not_hashed, downstream, no_access,
  bad_trial, not_owner, no_name, Services, Draws, provision_weaving, sync_user, must_decrypt,
  decrypt, secure,
}
use textile_erp_cloud.Portal.Store.{
  Row, read_accesses, write_accesses, list_accesses, has_id, has_token, username_taken,
  tenant_accesses, existing_tenant,
}

abbrev pub must_change : Bool → Access → Access
must_change must a = record a { must_change_password = if a.requires_setup then false else must }

-- `setAccessMustChangePassword`
unfoldable pub set_must_change : ℤ → Bool → List Row → Result AccessError Access × List Row
set_must_change id must = change_first (has_id id) (must_change must)

abbrev pub first_owner : Access → Access
first_owner a =
    if is_textile a.project && is_empty a.access_role
    then record a {
      access_role = role_name owner;
      permissions = default_permissions owner;
      can_manage_team = true;
    }
    else a

abbrev pub with_modules : Access → Access
with_modules a =
    let (f, o, w) =
      normalize_modules a.project (a.allow_financial, a.allow_operational, a.allow_weaving) in
    record a { allow_financial = f; allow_operational = o; allow_weaving = w }

-- The assignments of `finalizeAccessSetup`.
abbrev pub set_up : Text → Text → Text → Text → Access → Access
set_up contact username hash enc a = with_modules (
    first_owner (record a {
      contact_name = if is_empty contact then a.contact_name else contact;
      username = username;
      password_hash = hash;
      password_enc = enc;
      requires_setup = false;
      must_change_password = false;
    }))

-- The tests of `finalizeAccessSetup`, of texts that are trimmed, with the hash and the sealed password.
unfoldable pub check_setup :
    Services → Text → Text → Text → List Access → Result AccessError (Text × Text)
check_setup sv token username password items = do
  refuse_if (is_empty username || is_empty password) no_name
  refuse_if (not (is_password password)) short_password
  (hash, enc) ← secure sv password
  a ← or_err (find (has_token token) items) no_access
  refuse_if (username_taken items a.project username a.id) username_used
  ok (hash, enc)

-- `finalizeAccessSetup`
unfoldable pub finalize_setup :
    Services → Text → Text → Text → Text → List Row → Result AccessError Access × List Row
finalize_setup sv token contact username password file =
    and_then
      (λ (r : Text × Text).
        change_first (has_token token) (set_up (trim_space contact) (trim_space username) r.0 r.1))
      (check_setup sv token (trim_space username) (trim_space password) (read_accesses file), file)

abbrev pub with_token : Text → Access → Access
with_token token a = record a { access_token = token }

-- `rotateAccessToken`
unfoldable pub rotate_token : Text → ℤ → List Row → Result AccessError Access × List Row
rotate_token token id = change_first (has_id id) (with_token token)

abbrev pub used_at : ℤ → Access → Access
used_at now a = record a { last_used_at = now }

-- `markAccessUsed`
unfoldable pub mark_used : ℤ → ℤ → List Row → List Row
mark_used now id file = (change_first (has_id id) (used_at now) file).1

-- What `toggleAccess` asks of the weaving hall.
unfoldable pub check_toggle : Services → ℤ → ℤ → List Access → Result AccessError (Unit {0})
check_toggle sv now id items = do
  a ← or_err (find (has_id id) items) no_access
  (if is_empty (trim_space a.weaving_tenant_id)
      then ok tt
      else sync_user sv a (must_decrypt sv a) (not a.is_active && effective_weaving a now))

abbrev pub switched : Access → Access
switched a = record a { is_active = not a.is_active }

-- `toggleAccess`
unfoldable pub toggle_access : Services → ℤ → ℤ → List Row → Result AccessError Access × List Row
toggle_access sv now id file =
    and_then (λ (_ : Unit {0}). change_first (has_id id) switched)
      (check_toggle sv now id (read_accesses file), file)

-- The loop of `deleteAccess`: every account with the id leaves the weaving hall first.
unfoldable pub removed : Services → ℤ → List Access → Result AccessError (Unit {0})
removed sv id [] = ok tt
removed sv id (a ∷ more) =
    (if has_id id a && not (is_empty (trim_space a.weaving_tenant_id))
      then sync_user sv a (must_decrypt sv a) false
      else ok tt)
    >> removed sv id more

abbrev pub check_delete : Services → ℤ → List Access → Result AccessError Access
check_delete sv id items = removed sv id items >> or_err (find (has_id id) items) no_access

-- `deleteAccess`
unfoldable pub delete_access : Services → ℤ → List Row → Result AccessError Access × List Row
delete_access sv id file =
    let items = read_accesses file in
    stored file (λ (_ : Access). keep (λ a. not (has_id id a)) items) (check_delete sv id items)

abbrev pub with_tenant : Text → Access → Access
with_tenant tenant a = record a { weaving_tenant_id = tenant }

-- `persistWeavingTenantID`
unfoldable pub persist_tenant : ℤ → Text → List Row → Result AccessError Access × List Row
persist_tenant id tenant0 file =
    let tenant = trim_space tenant0 in
    if is_empty tenant
    then (err downstream, file)
    else change_first (has_id id) (with_tenant tenant) file

abbrev pub ready_call : Services → Draws → Access → WeavingCall
ready_call sv dr a =
    let kept = trim_space (must_decrypt sv a) in
    record {
      company_id = a.financial_company_id;
      access_id = a.id;
      tenant_name = a.company_name;
      display_name = a.contact_name;
      username = a.username;
      password = if is_empty kept then dr.spare_password else kept;
    }

-- `ensureWeavingReady`
unfoldable pub weaving_ready :
    Services → Draws → Access → List Row → Result AccessError Access × List Row
weaving_ready sv dr a file =
    if not (is_empty (trim_space a.weaving_tenant_id))
    then (ok a, file)
    else and_then (persist_tenant a.id) (provision_weaving sv (ready_call sv dr a), file)

abbrev pub owns : Access → Bool
owns a = is_owner (effective_role a)

-- The owner by whom `ensureCompanyWeavingReady` provisions.
abbrev pub weaving_owner : List Access → Result AccessError Access
weaving_owner items = do
  o ← or_err (find owns items) not_owner
  refuse_if (beq_ℤ o.id (pos 0)) not_owner
  ok o

-- `ensureCompanyWeavingReady`; where it has nothing to do, the account that asks is returned.
unfoldable pub company_weaving_ready :
    Services → Draws → Access → List Row → Result AccessError Access × List Row
company_weaving_ready sv dr a file =
    let items = tenant_accesses a file in
    if not (is_empty (existing_tenant items a.financial_company_id))
    then (ok a, file)
    else and_then (weaving_ready sv dr) (weaving_owner items, file)
