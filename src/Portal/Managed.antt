-- ===== src/Portal/Managed.antt =====
-- portal_server/main.go: `createManagedAccess` and `updateManagedAccess`. One call reads the clock once.
pub mod Sound
pub mod Granted
use textile_erp_cloud.Portal.Terms.{
  Spec, trim_spec, Terms, terms_of, trial_on, check_modules, with_terms, blank, tenant_call,
  weaving_call, company_for, name_for, password_for,
}
use textile_erp_cloud.Base.{
  Bool, true, false, not, ◌&&◌, ◌||◌, List, [], ◌∷◌, ◌++◌, if◌then◌else◌, find, update_first,
}
use textile_erp_cloud.Base.Int.{ℤ, pos, ltb_ℤ, leb_ℤ, beq_ℤ}
use textile_erp_cloud.Base.Result.{Result, ok, err, ◌>>=◌, ◌>>◌, refuse_if, or_err}
use textile_erp_cloud.Base.Text.{Text, is_empty, trim_space}
use textile_erp_cloud.Portal.Access.{
  Project, textile_erp, cooler_store, is_textile, valid_project, Role, customer, is_owner,
  role_name, normalize_role, Access, normalize_permissions, effective_weaving, provision_role,
}
use textile_erp_cloud.Portal.Names.{unique_username, generated_password, is_password}
use textile_erp_cloud.Portal.Services.{
  AccessError, invalid_project, no_company, expired, no_module, setup_too_early, short_password,
  username_used, no_access, no_weaving_owner, TenantCall, WeavingCall, Services, Draws,
  provision_tenant, provision_weaving, sync_user, must_decrypt, secure,
}
use textile_erp_cloud.Portal.Store.{
  Row, read_accesses, write_accesses, next_id, has_id, username_taken, existing_company,
  existing_tenant,
}

-- From `nextAccessID` to the end of `createManagedAccess`.
unfoldable pub open_access :
    Services
    → ℤ
    → Draws
    → Project
    → Spec
    → Terms
    → Bool
    → ℤ
    → Text
    → Text
    → List Access
    → Result AccessError (Access × Text)
open_access sv now dr project s t trial company0 username password items = do
  (hash, enc) ← if t.requires_setup then ok ([], []) else secure sv password
  company ←
      (if is_textile project && not t.requires_setup
        then provision_tenant sv (tenant_call company0 (next_id items) s t.role username password)
        else ok company0)
  refuse_if (is_textile project && leb_ℤ company (pos 0)) no_company
  tenant ←
      (if is_textile project
          && (t.allow_weaving || trial)
          && is_empty (existing_tenant items company)
        then provision_weaving sv (weaving_call company (next_id items) s username password)
        else ok (existing_tenant items company))
  let a : Access = with_terms project s t username company (record blank {
    id = next_id items;
    external_org_ref = s.external_org_ref;
    weaving_tenant_id = tenant;
    trial_ends_at = s.trial_ends_at;
    access_token = dr.token;
    password_hash = hash;
    password_enc = enc;
    is_active = true;
    created_at = now;
  })
  (if (t.allow_weaving || trial) && not (is_empty tenant)
      then sync_user sv a password true
      else ok tt)
  ok (a, if t.requires_setup then [] else password)

-- The part of `createManagedAccess` under the lock.
unfoldable pub create_locked :
    Services
    → ℤ
    → Draws
    → Project
    → Spec
    → Terms
    → Bool
    → List Access
    → Result AccessError (Access × Text)
create_locked sv now dr project s t trial items =
    let company = company_for project s items in
    let username = name_for project s t (pos 0) dr items in
    let password = password_for s t dr username in
    do
      refuse_if (not t.requires_setup && not (is_password password)) short_password
      refuse_if (username_taken items project username (pos 0)) username_used
      open_access sv now dr project s t trial company username password items

unfoldable pub create_access :
    Services → ℤ → Draws → Spec → List Access → Result AccessError (Access × Text)
create_access sv now dr raw items = do
  project ← or_err (valid_project raw.project_key) invalid_project
  let s = trim_spec raw
  refuse_if (is_textile project && leb_ℤ s.financial_company_id (pos 0) && s.requires_setup)
      no_company
  refuse_if (ltb_ℤ s.expires_at now) expired
  check_modules project (terms_of project s) (is_textile project && trial_on now s.trial_ends_at)
  create_locked sv now dr project s (terms_of project s)
      (is_textile project && trial_on now s.trial_ends_at) items

-- The file after a call that returns with an error, or else writes what `f` makes of its result.
abbrev pub stored :
    {A : Type 0}
    → List Row
    → (A → List Access)
    → Result AccessError A
    → Result AccessError A × List Row
stored file f (err e) = (err e, file)
stored file f (ok r) = (ok r, write_accesses (f r))

-- `createManagedAccess`
unfoldable pub create_managed :
    Services → ℤ → Draws → Spec → List Row → Result AccessError (Access × Text) × List Row
create_managed sv now dr spec file =
    let items = read_accesses file in
    stored file (λ (r : Access × Text). items ++ (r.0 ∷ [])) (create_access sv now dr spec items)

-- The end of the trial that `updateManagedAccess` keeps or takes.
abbrev pub trial_end : Project → ℤ → ℤ → ℤ
trial_end textile_erp given stored = if beq_ℤ given (pos 0) then stored else given
trial_end cooler_store given stored = pos 0

-- The stored hash and sealed password, the password to show, and the one for the other servers.
unfoldable pub renewed_password :
    Services → Bool → Text → Access → Result AccessError (Text × Text × Text × Text)
renewed_password sv setup password old =
    if setup
    then ok ([], [], [], [])
    else if is_empty password
    then ok (old.password_hash, old.password_enc, [], trim_space (must_decrypt sv old))
    else (secure sv password >>= λ r. ok (r.0, r.1, password, password))

-- From the passwords to the end of `updateManagedAccess`.
unfoldable pub renew_access :
    Services
    → ℤ
    → Draws
    → Project
    → Spec
    → Terms
    → Bool
    → ℤ
    → Text
    → Text
    → Access
    → List Access
    → Result AccessError (Access × Text)
renew_access sv now dr project s t trial ends username password old items = do
  (hash, enc, raw, down) ← renewed_password sv t.requires_setup password old
  let down' =
      if is_empty down && (t.allow_operational || t.allow_weaving || trial)
      then dr.spare_password
      else down
  _ ←
      (if t.allow_operational || trial
        then provision_tenant sv (tenant_call s.financial_company_id old.id s t.role username down')
        else ok (pos 0))
  let tenant0 =
      if is_empty (trim_space old.weaving_tenant_id)
      then existing_tenant items s.financial_company_id
      else trim_space old.weaving_tenant_id
  let missing = (t.allow_weaving || trial) && is_empty tenant0
  refuse_if (missing && not (is_owner t.role)) no_weaving_owner
  tenant ←
      (if missing
        then provision_weaving sv (weaving_call s.financial_company_id old.id s username down')
        else ok tenant0)
  let a : Access = with_terms project s t username s.financial_company_id (record old {
    must_change_password = false;
    weaving_tenant_id = tenant;
    trial_ends_at = ends;
    password_hash = hash;
    password_enc = enc;
  })
  (if not (is_empty tenant) && (t.allow_weaving || trial || effective_weaving old now)
      then sync_user sv a down' ((t.allow_weaving || trial) && a.is_active)
      else ok tt)
  ok (a, raw)

-- The part of `updateManagedAccess` after the account is found.
unfoldable pub update_found :
    Services
    → ℤ
    → Draws
    → Project
    → Spec
    → Terms
    → List Access
    → Access
    → Result AccessError (Access × Text)
update_found sv now dr project s t items old =
    let ends = trial_end project s.trial_ends_at old.trial_ends_at in
    let trial = trial_on now ends in
    let username = name_for project s t old.id dr items in
    let password = if t.requires_setup then [] else s.password in
    do
      check_modules project t trial
      refuse_if (not t.requires_setup && not (is_empty password) && not (is_password password))
          short_password
      refuse_if (username_taken items project username old.id) username_used
      renew_access sv now dr project s t trial ends username password old items

unfoldable pub update_access :
    Services → ℤ → Draws → ℤ → Spec → List Access → Result AccessError (Access × Text)
update_access sv now dr id raw items = do
  project ← or_err (valid_project raw.project_key) invalid_project
  let s = trim_spec raw
  refuse_if (is_textile project && leb_ℤ s.financial_company_id (pos 0)) no_company
  refuse_if (ltb_ℤ s.expires_at now) expired
  old ← or_err (find (has_id id) items) no_access
  update_found sv now dr project s (terms_of project s) items old

-- `updateManagedAccess`
unfoldable pub update_managed :
    Services → ℤ → Draws → ℤ → Spec → List Row → Result AccessError (Access × Text) × List Row
update_managed sv now dr id spec file =
    let items = read_accesses file in
    stored file (λ (r : Access × Text). update_first (has_id id) (λ _. r.0) items)
      (update_access sv now dr id spec items)
