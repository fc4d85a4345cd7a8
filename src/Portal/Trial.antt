-- ===== src/Portal/Trial.antt =====
-- portal_server/main.go: `grantFullTrial` and `startFullTrialOnFirstUse`. `trial_note` is the sentence that
-- `grantFullTrial` adds to the notes.
pub mod Sound
pub mod Lasting
mod Tests
use textile_erp_cloud.Portal.Steps.{and_then, changed, change_first, project_key}
use textile_erp_cloud.Base.{
  ℕ, ◌*◌, Bool, true, false, not, ◌&&◌, ◌||◌, Option, none, some, List, [], ◌∷◌, ◌++◌, ltb,
  if◌then◌else◌, find, keep, update_first,
}
use textile_erp_cloud.Base.Int.{ℤ, pos, ltb_ℤ, beq_ℤ, ◌+ℤ◌}
use textile_erp_cloud.Base.Result.{Result, ok, err, ◌>>=◌, ◌>>◌, refuse_if, or_err}
use textile_erp_cloud.Base.Text.{Text, codes, text_eq, is_empty, trim_space, equal_fold}
use textile_erp_cloud.Portal.Access.{
  Project, textile_erp, cooler_store, is_textile, owner, is_owner, role_name, Access,
  default_permissions, normalize_modules, day, effective_role, effective_permissions,
  effective_weaving, effective_can_manage,
}
use textile_erp_cloud.Portal.Managed.{stored, update_managed}
use textile_erp_cloud.Portal.Terms.{Spec}
use textile_erp_cloud.Portal.Names.{is_password}
use textile_erp_cloud.Portal.Services.{
  WeavingCall, AccessError, short_password, username_used, not_hashed, downstream, no_access,
  bad_trial, not_owner, no_name, Services, Draws, provision_weaving, sync_user, must_decrypt,
  decrypt, secure,
}
use textile_erp_cloud.Portal.Store.{
  Row, read_accesses, write_accesses, list_accesses, has_id, has_token, username_taken,
  tenant_accesses, existing_tenant,
}

-- The arguments by which an account is updated to itself.
abbrev pub spec_of : Access → ℤ → ℤ → Text → Spec
spec_of a expires trial notes = record {
  project_key = project_key a.project;
  company_name = a.company_name;
  contact_name = a.contact_name;
  username = a.username;
  password = [];
  financial_company_id = a.financial_company_id;
  expires_at = expires;
  trial_ends_at = trial;
  notes = notes;
  access_role = role_name (effective_role a);
  permissions = effective_permissions a;
  can_manage_team = effective_can_manage a;
  requires_setup = false;
  allow_financial = a.allow_financial;
  allow_operational = a.allow_operational;
  allow_weaving = a.allow_weaving;
  external_org_ref = [];
}

abbrev pub days_after : ℤ → ℕ → ℤ
days_after now days = now +ℤ pos (days * day)

abbrev pub later_of : ℤ → ℤ → ℤ
later_of a b = if ltb_ℤ a b then b else a

abbrev pub trial_terms : ℤ → ℤ → Text → Access → Access
trial_terms ends expires notes a = record a {
  trial_ends_at = ends;
  expires_at = expires;
  notes = notes;
}

-- The account that `grantFullTrial` may give a trial to.
unfoldable pub trial_target : ℤ → List Row → Result AccessError Access
trial_target id file = do
  a ← or_err (find (has_id id) (list_accesses file)) no_access
  refuse_if (beq_ℤ a.id (pos 0) || not (is_textile a.project)) no_access
  refuse_if (not (is_owner (effective_role a))) not_owner
  ok a

-- Once the trial is stored, what the other servers answer does not undo it.
abbrev pub or_stored :
    Access
    → List Row
    → Result AccessError (Access × Text) × List Row
    → Result AccessError (Access × Text) × List Row
or_stored target stored (err e, file) = (ok (target, []), file)
or_stored target stored (ok r, file) = (ok r, file)

abbrev pub trial_notes : Access → Text → Text
trial_notes target trial_note = trim_space (target.notes ++ codes "\n" ++ trial_note)

-- The update of the modules, with the account that was stored.
abbrev pub push_trial :
    Services
    → ℤ
    → Draws
    → ℤ
    → ℤ
    → Text
    → Access
    → List Row
    → Result AccessError (Access × Text) × List Row
push_trial sv now dr expires ends notes a file =
    or_stored a file (update_managed sv now dr a.id (spec_of a expires ends notes) file)

-- From the stored trial on.
unfoldable pub store_trial :
    Services
    → ℤ
    → Draws
    → Text
    → ℕ
    → Access
    → List Row
    → Result AccessError (Access × Text) × List Row
store_trial sv now dr trial_note days target file =
    let ends = days_after now days in
    let expires = later_of target.expires_at ends in
    let notes = trial_notes target trial_note in
    and_then (push_trial sv now dr expires ends notes)
      (change_first (has_id target.id) (trial_terms ends expires notes) file)

-- `grantFullTrial`
unfoldable pub grant_full_trial :
    Services → ℤ → Draws → Text → ℤ → ℕ → List Row → Result AccessError (Access × Text) × List Row
grant_full_trial sv now dr trial_note id days file =
    if ltb days 1 || ltb 90 days
    then (err bad_trial, file)
    else and_then (store_trial sv now dr trial_note days) (trial_target id file, file)

abbrev pub started : Access → Result AccessError (Access × Text) × List Row → Access × List Row
started a (err e, file) = (a, file)
started a (ok r, file) = (r.0, file)

abbrev pub may_start : Access → Bool
may_start a = is_textile a.project && is_owner (effective_role a) && beq_ℤ a.trial_ends_at (pos 0)

-- `startFullTrialOnFirstUse`: the account, with the trial if it was started.
unfoldable pub start_trial : Services → ℤ → Draws → Text → Access → List Row → Access × List Row
start_trial sv now dr trial_note a file =
    if may_start a
    then started a (grant_full_trial sv now dr trial_note a.id 30 file)
    else (a, file)
