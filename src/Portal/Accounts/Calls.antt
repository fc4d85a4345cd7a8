-- ===== src/Portal/Accounts/Calls.antt =====
-- The accounts of portal_server/main.go stay distinct, whatever is called.
use textile_erp_cloud.Portal.Passwords.Sound.{
  change_password-IsSoundFile, verify_password-IsSoundFile, try_accounts-IsSoundFile,
}
use textile_erp_cloud.Portal.Trial.Sound.{grant_full_trial-IsSoundFile, start_trial-IsSoundFile}
use textile_erp_cloud.Portal.Steps.Sound.{change_first-IsSoundFile, Keeps, and_then-IsSoundFile}
use textile_erp_cloud.Base.{ℕ, refl, inl, inr, Bool, not, List, [], ◌∷◌, Bool-cases, keep}
use textile_erp_cloud.Base.Int.{ℤ}
use textile_erp_cloud.Base.Result.{Result, ok, err, Yields, fails, gives}
use textile_erp_cloud.Base.Text.{Text, is_empty, trim_space}
use textile_erp_cloud.Portal.Access.{Access}
use textile_erp_cloud.Portal.Managed.{create_managed, update_managed}
use textile_erp_cloud.Portal.Terms.{Spec}
use textile_erp_cloud.Portal.Managed.Sound.{
  stored-IsSoundFile, create_managed-IsSoundFile, update_managed-IsSoundFile,
}
use textile_erp_cloud.Portal.Services.{AccessError, Services, Draws, provision_weaving}
use textile_erp_cloud.Portal.Store.{
  Row, read_accesses, has_id, list_accesses, tenant_accesses, existing_tenant,
}
use textile_erp_cloud.Portal.Store.Distinct.{IsCounted, All-keep, IsDistinct-keep}
use textile_erp_cloud.Portal.Store.Kept.{IsSoundFile}
use textile_erp_cloud.Portal.Accounts.Setup.{finalize_setup-IsSoundFile}
use textile_erp_cloud.Portal.Accounts.Hashes.{repair_hashes-IsSoundFile}
use textile_erp_cloud.Portal.Accounts.{
  must_change, with_token, used_at, with_tenant, ready_call, weaving_owner, check_toggle,
  set_must_change, finalize_setup, rotate_token, mark_used, switched, toggle_access, check_delete,
  delete_access, persist_tenant, weaving_ready, company_weaving_ready,
}
use textile_erp_cloud.Portal.Passwords.{
  change_password, repair_hashes, verify_password, authenticate,
}
use textile_erp_cloud.Portal.Trial.{grant_full_trial, start_trial}
use textile_erp_cloud.Portal.Steps.{change_first}

-- Changes that leave the key.
toggle_access-IsSoundFile :
    (sv : Services) (now id : ℤ) (file : List Row)
    → IsSoundFile file
    → IsSoundFile (toggle_access sv now id file).1
unfolding toggle_access
toggle_access-IsSoundFile sv now id file h =
    and_then-IsSoundFile (λ (_ : Unit {0}). change_first (has_id id) switched)
      (check_toggle sv now id (read_accesses file), file)
      (λ _ file h. change_first-IsSoundFile (has_id id) switched file (λ a. (refl, refl, refl)) h) h

delete_access-IsSoundFile :
    (sv : Services) (id : ℤ) (file : List Row)
    → IsSoundFile file
    → IsSoundFile (delete_access sv id file).1
unfolding delete_access
delete_access-IsSoundFile sv id file h =
    stored-IsSoundFile file (λ (_ : Access). keep (λ a. not (has_id id a)) (read_accesses file))
      (check_delete sv id (read_accesses file))
      (all_results (check_delete sv id (read_accesses file)) (
        All-keep IsCounted (λ a. not (has_id id a)) (read_accesses file) h.sound.0,
        IsDistinct-keep (λ a. not (has_id id a)) (read_accesses file) h.sound.1,
      ))
      h
  where
    all_results : {P : Type 0} (r : Result AccessError Access) → P → Yields (λ (_ : Access). P) r
    all_results (ok a) p = gives p
    all_results (err e) p = fails

persist_tenant-IsSoundFile : (id : ℤ) → Keeps (persist_tenant id)
unfolding persist_tenant
persist_tenant-IsSoundFile id tenant file h = elim (Bool-cases (is_empty (trim_space tenant))) [
  | inl missing ↦ rw missing h
  | inr given ↦ rw given (
      change_first-IsSoundFile (has_id id) (with_tenant (trim_space tenant)) file
        (λ a. (refl, refl, refl)) h)
]

weaving_ready-IsSoundFile : (sv : Services) (dr : Draws) → Keeps (weaving_ready sv dr)
unfolding weaving_ready
weaving_ready-IsSoundFile sv dr a file h =
    elim (Bool-cases (not (is_empty (trim_space a.weaving_tenant_id)))) [
      | inl ready ↦ rw ready h
      | inr missing ↦ rw missing (
          and_then-IsSoundFile (persist_tenant a.id)
            (provision_weaving sv (ready_call sv dr a), file) (persist_tenant-IsSoundFile a.id) h)
    ]

company_weaving_ready-IsSoundFile :
    (sv : Services) (dr : Draws) → Keeps (company_weaving_ready sv dr)
unfolding company_weaving_ready
company_weaving_ready-IsSoundFile sv dr a file h =
    elim (Bool-cases
      (not (is_empty (existing_tenant (tenant_accesses a file) a.financial_company_id)))) [
        | inl ready ↦ rw ready h
        | inr missing ↦ rw missing (
            and_then-IsSoundFile (weaving_ready sv dr)
              (weaving_owner (tenant_accesses a file), file) (weaving_ready-IsSoundFile sv dr) h)
      ]

-- The functions that change the file of accounts, with their arguments.
pub data Call : Type 0 where
  creates : Draws → Spec → Call
  updates : Draws → ℤ → Spec → Call
  grants_trial : Draws → Text → ℤ → ℕ → Call
  starts_trial : Draws → Text → Access → Call
  sets_must_change : ℤ → Bool → Call
  sets_up : Text → Text → Text → Text → Call
  changes_password : Text → Text → Call
  rotates : Text → ℤ → Call
  marks_used : ℤ → Call
  toggles : ℤ → Call
  deletes : ℤ → Call
  persists_tenant : ℤ → Text → Call
  readies_weaving : Draws → Access → Call
  readies_company : Draws → Access → Call
  repairs_hashes : Call
  verifies : Text → Text → Call
  authenticates : Text → Text → Call

-- The file after a call at a time.
unfoldable pub after : Services → ℤ → Call → List Row → List Row
after sv now (creates dr spec) file = (create_managed sv now dr spec file).1
after sv now (updates dr id spec) file = (update_managed sv now dr id spec file).1
after sv now (grants_trial dr note id days) file = (grant_full_trial sv now dr note id days file).1
after sv now (starts_trial dr note a) file = (start_trial sv now dr note a file).1
after sv now (sets_must_change id must) file = (set_must_change id must file).1
after sv now (sets_up token contact username password) file =
    (finalize_setup sv token contact username password file).1
after sv now (changes_password token password) file = (change_password sv token password file).1
after sv now (rotates token id) file = (rotate_token token id file).1
after sv now (marks_used id) file = mark_used now id file
after sv now (toggles id) file = (toggle_access sv now id file).1
after sv now (deletes id) file = (delete_access sv id file).1
after sv now (persists_tenant id tenant) file = (persist_tenant id tenant file).1
after sv now (readies_weaving dr a) file = (weaving_ready sv dr a file).1
after sv now (readies_company dr a) file = (company_weaving_ready sv dr a file).1
after sv now repairs_hashes file = (repair_hashes sv file).1
after sv now (verifies token password) file = (verify_password sv token password file).1
after sv now (authenticates username password) file = (authenticate sv now username password file).1

abbrev pub after_all : Services → List (ℤ × Call) → List Row → List Row
after_all sv [] file = file
after_all sv ((now, call) ∷ calls) file = after_all sv calls (after sv now call file)

after-IsSoundFile :
    (sv : Services) (now : ℤ) (call : Call) (file : List Row)
    → IsSoundFile file
    → IsSoundFile (after sv now call file)
unfolding after set_must_change rotate_token mark_used authenticate
after-IsSoundFile sv now (creates dr spec) file h = create_managed-IsSoundFile sv now dr spec file h
after-IsSoundFile sv now (updates dr id spec) file h =
    update_managed-IsSoundFile sv now dr id spec file h
after-IsSoundFile sv now (grants_trial dr note id days) file h =
    grant_full_trial-IsSoundFile sv now dr note id days file h
after-IsSoundFile sv now (starts_trial dr note a) file h =
    start_trial-IsSoundFile sv now dr note a file h
after-IsSoundFile sv now (sets_must_change id must) file h =
    change_first-IsSoundFile (has_id id) (must_change must) file (λ a. (refl, refl, refl)) h
after-IsSoundFile sv now (sets_up token contact username password) file h =
    finalize_setup-IsSoundFile sv token contact username password file h
after-IsSoundFile sv now (changes_password token password) file h =
    change_password-IsSoundFile sv token password file h
after-IsSoundFile sv now (rotates token id) file h =
    change_first-IsSoundFile (has_id id) (with_token token) file (λ a. (refl, refl, refl)) h
after-IsSoundFile sv now (marks_used id) file h =
    change_first-IsSoundFile (has_id id) (used_at now) file (λ a. (refl, refl, refl)) h
after-IsSoundFile sv now (toggles id) file h = toggle_access-IsSoundFile sv now id file h
after-IsSoundFile sv now (deletes id) file h = delete_access-IsSoundFile sv id file h
after-IsSoundFile sv now (persists_tenant id tenant) file h =
    persist_tenant-IsSoundFile id tenant file h
after-IsSoundFile sv now (readies_weaving dr a) file h = weaving_ready-IsSoundFile sv dr a file h
after-IsSoundFile sv now (readies_company dr a) file h =
    company_weaving_ready-IsSoundFile sv dr a file h
after-IsSoundFile sv now repairs_hashes file h = repair_hashes-IsSoundFile sv file h
after-IsSoundFile sv now (verifies token password) file h =
    verify_password-IsSoundFile sv token password file h
after-IsSoundFile sv now (authenticates username password) file h =
    try_accounts-IsSoundFile sv now (trim_space username) password (list_accesses file) file h

-- Where the accounts of the file have positive ids and no two share an id, nor a project and a user name
-- up to case and outer spaces, that stays so whatever functions are called, with whatever arguments
-- and answers of the other servers, whether they succeed or fail.
pub calls-IsSoundFile :
    (sv : Services) (calls : List (ℤ × Call)) (file : List Row)
    → IsSoundFile file
    → IsSoundFile (after_all sv calls file)
calls-IsSoundFile sv [] file h = h
calls-IsSoundFile sv ((now, call) ∷ calls) file h =
    calls-IsSoundFile sv calls (after sv now call file) (after-IsSoundFile sv now call file h)
