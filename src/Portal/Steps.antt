-- ===== src/Portal/Steps.antt =====
-- portal_server/main.go: functions that change one account of the file, one after the other.
pub mod Sound
use textile_erp_cloud.Base.{
  ℕ, ◌*◌, Bool, true, false, not, ◌&&◌, ◌||◌, Option, none, some, List, [], ◌∷◌, ◌++◌, ltb,
  if◌then◌else◌, find, keep, update_first,
}
use textile_erp_cloud.Base.Int.{ℤ, pos, ltb_ℤ, beq_ℤ, ◌+ℤ◌}
use textile_erp_cloud.Base.Result.{Result, ok, err, ◌>>=◌, ◌>>◌, refuse_if, or_err}
use textile_erp_cloud.Base.Text.{Text, codes, text_eq, is_empty, trim_space, equal_fold}
use textile_erp_cloud.Portal.Access.{
  Project, textile_erp, cooler_store, is_textile, owner, is_owner, role_name, Access,
  default_permissions, normalize_modules, day, effective_role, effective_permissions,
  effective_weaving, effective_can_manage,
}
use textile_erp_cloud.Portal.Managed.{stored, update_managed}
use textile_erp_cloud.Portal.Terms.{Spec}
use textile_erp_cloud.Portal.Names.{is_password}
use textile_erp_cloud.Portal.Services.{
  WeavingCall, AccessError, short_password, username_used, not_hashed, downstream, no_access,
  bad_trial, not_owner, no_name, Services, Draws, provision_weaving, sync_user, must_decrypt,
  decrypt, secure,
}
use textile_erp_cloud.Portal.Store.{
  Row, read_accesses, write_accesses, list_accesses, has_id, has_token, username_taken,
  tenant_accesses, existing_tenant,
}

-- The next step, with the file that this one left, unless it failed.
abbrev pub and_then :
    {A B : Type 0}
    → (A → List Row → Result AccessError B × List Row)
    → Result AccessError A × List Row
    → Result AccessError B × List Row
and_then k (err e, file) = (err e, file)
and_then k (ok a, file) = k a file

abbrev pub changed :
    (Access → Bool)
    → (Access → Access)
    → List Row
    → Option Access
    → Result AccessError Access × List Row
changed p f file none = (err no_access, file)
changed p f file (some a) = (ok (f a), write_accesses (update_first p f (read_accesses file)))

-- Reads the file, changes the first account that passes the test, and writes the file.
unfoldable pub change_first :
    (Access → Bool) → (Access → Access) → List Row → Result AccessError Access × List Row
change_first p f file = changed p f file (find p (read_accesses file))

abbrev pub project_key : Project → Text
project_key textile_erp = codes "textile-erp"
project_key cooler_store = codes "cooler-store"
