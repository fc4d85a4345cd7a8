-- ===== src/Portal/Passwords.antt =====
-- portal_server/main.go: the passwords of accounts, `changeTemporaryPassword`, `repairAccessHashes`,
-- `verifyAccessPassword` and `authenticateTextileUser`.
pub mod Sound
pub mod Secrets
pub mod Login
mod Tests
use textile_erp_cloud.Portal.Steps.{and_then, changed, change_first, project_key}
use textile_erp_cloud.Base.{
  ℕ, ◌*◌, Bool, true, false, not, ◌&&◌, ◌||◌, Option, none, some, List, [], ◌∷◌, ◌++◌, ltb,
  if◌then◌else◌, find, keep, update_first,
}
use textile_erp_cloud.Base.Int.{ℤ, pos, ltb_ℤ, beq_ℤ, ◌+ℤ◌}
use textile_erp_cloud.Base.Result.{Result, ok, err, ◌>>=◌, ◌>>◌, refuse_if, or_err}
use textile_erp_cloud.Base.Text.{Text, codes, text_eq, is_empty, trim_space, equal_fold}
use textile_erp_cloud.Portal.Access.{
  Project, textile_erp, cooler_store, is_textile, owner, is_owner, role_name, Access,
  default_permissions, normalize_modules, day, effective_role, effective_permissions,
  effective_weaving, effective_can_manage,
}
use textile_erp_cloud.Portal.Managed.{stored, update_managed}
use textile_erp_cloud.Portal.Terms.{Spec}
use textile_erp_cloud.Portal.Names.{is_password}
use textile_erp_cloud.Portal.Services.{
  WeavingCall, AccessError, short_password, username_used, not_hashed, downstream, no_access,
  bad_trial, not_owner, no_name, Services, Draws, provision_weaving, sync_user, must_decrypt,
  decrypt, secure,
}
use textile_erp_cloud.Portal.Store.{
  Row, read_accesses, write_accesses, list_accesses, has_id, has_token, username_taken,
  tenant_accesses, existing_tenant,
}

abbrev pub check_password : Services → Text → Result AccessError (Text × Text)
check_password sv password =
    refuse_if (not (is_password password)) short_password >> secure sv password

abbrev pub new_password : Text → Text → Access → Access
new_password hash enc a = record a {
  password_hash = hash;
  password_enc = enc;
  must_change_password = false;
}

-- `changeTemporaryPassword`
unfoldable pub change_password :
    Services → Text → Text → List Row → Result AccessError Access × List Row
change_password sv token password file =
    and_then (λ (r : Text × Text). change_first (has_token token) (new_password r.0 r.1))
      (check_password sv (trim_space password), file)

abbrev pub with_hash : Text → Access → Access
with_hash hash a = record a { password_hash = hash }

abbrev pub is_old : Access → Bool
is_old a = is_empty (trim_space a.password_hash) && not (is_empty (trim_space a.password_enc))

-- An old account in `repairAccessHashes`, by its decrypted password.
abbrev pub repaired_old : Services → Access → Option Text → Result AccessError (Bool × Access)
repaired_old sv a none = ok (false, a)
repaired_old sv a (some raw) =
    if is_empty (trim_space raw)
    then ok (false, a)
    else (or_err (sv.hash_password raw) not_hashed >>= λ hash. ok (true, with_hash hash a))

-- The step of `repairAccessHashes` for one account: whether it is changed, and what it becomes.
unfoldable pub repaired : Services → Access → Result AccessError (Bool × Access)
repaired sv a = if is_old a then repaired_old sv a (decrypt sv a.password_enc) else ok (false, a)

unfoldable pub repair_loop : Services → List Access → Result AccessError (Bool × List Access)
unfolding repaired
repair_loop sv [] = ok (false, [])
repair_loop sv (a ∷ more) = do
  (hit, a') ← repaired sv a
  (hits, more') ← repair_loop sv more
  ok (hit || hits, a' ∷ more')

abbrev pub repaired_file :
    List Row → Result AccessError (Bool × List Access) → Result AccessError (Unit {0}) × List Row
repaired_file file (err e) = (err e, file)
repaired_file file (ok (hit, items)) = (ok tt, if hit then write_accesses items else file)

-- `repairAccessHashes`
unfoldable pub repair_hashes : Services → List Row → Result AccessError (Unit {0}) × List Row
repair_hashes sv file = repaired_file file (repair_loop sv (read_accesses file))

abbrev pub rehashed : Text → List Row → Option Text → Bool × List Row
rehashed token file none = (false, file)
rehashed token file (some hash) = (true, (change_first (has_token token) (with_hash hash) file).1)

-- The answer for an account without a hash, by its decrypted password.
abbrev pub verify_old : Services → Text → Text → Access → List Row → Option Text → Bool × List Row
verify_old sv token password a file none = (false, file)
verify_old sv token password a file (some raw) =
    if text_eq raw password
    then rehashed token file (sv.hash_password password)
    else (sv.password_matches a.password_hash password, file)

abbrev pub verify_found : Services → Text → Text → List Row → Option Access → Bool × List Row
verify_found sv token password file none = (false, file)
verify_found sv token password file (some a) =
    if is_old a
    then verify_old sv token password a file (decrypt sv a.password_enc)
    else (sv.password_matches a.password_hash password, file)

-- `verifyAccessPassword`: whether the password is right, and the file, where an old account without a
-- hash gets one.
unfoldable pub verify_password : Services → Text → Text → List Row → Bool × List Row
verify_password sv token password file =
    verify_found sv token password file (find (has_token token) (read_accesses file))

abbrev pub may_log_in : ℤ → Text → Access → Bool
may_log_in now username a =
    is_textile a.project
    && a.is_active
    && not (ltb_ℤ a.expires_at now)
    && equal_fold username (trim_space a.username)

-- The loop of `authenticateTextileUser`, outside the local mode.
unfoldable pub try_accounts :
    Services → ℤ → Text → Text → List Access → List Row → Option Access × List Row
try_accounts sv now username password [] file = (none, file)
try_accounts sv now username password (a ∷ more) file =
    let tried = verify_password sv a.access_token password file in
    let later =
      try_accounts sv now username password more
        (if may_log_in now username a then tried.1 else file) in
    if may_log_in now username a && tried.0 then (some a, tried.1) else later

unfoldable pub authenticate : Services → ℤ → Text → Text → List Row → Option Access × List Row
unfolding try_accounts
authenticate sv now username password file =
    try_accounts sv now (trim_space username) password (list_accesses file) file
