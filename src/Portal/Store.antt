-- ===== src/Portal/Store.antt =====
-- portal_server/main.go: the file of accounts and what is looked up in it. Reading and writing the
-- file does not fail here, and JSON gives back what was written; `names_flag` is whether the JSON
-- object of an account has a key for one of the modules, which it has not if all are false.
pub mod Distinct
pub mod Kept
pub mod Sorted
pub mod Hits
pub mod Order
mod Tests
use textile_erp_cloud.Base.{
  ℕ, zero, suc, Bool, true, false, not, ◌&&◌, ◌||◌, Option, none, some, List, [], ◌∷◌, map,
  if◌then◌else◌, find, keep,
}
use textile_erp_cloud.Base.Int.{ℤ, pos, ltb_ℤ, beq_ℤ, ◌+ℤ◌}
use textile_erp_cloud.Base.Text.{Text, text_eq, is_empty, trim_space, equal_fold}
use textile_erp_cloud.Portal.Access.{
  Project, is_textile, same_project, owner, role_name, normalize_role, Access, default_permissions,
  same_tenant,
}

pub record Row : Type 0 where
  pub names_flag : Bool
  pub access : Access

abbrev pub named_owner : Access → Access
named_owner a =
    if is_empty a.access_role
    then record a {
      access_role = role_name owner;
      permissions = default_permissions owner;
      can_manage_team = true;
    }
    else a

abbrev pub old_modules : Bool → Access → Access
old_modules names_flag a =
    if not a.module_access_set && not names_flag
    then record a { allow_financial = true; allow_operational = true }
    else a

abbrev pub old_permissions : Access → Access
old_permissions a = elim a.permissions [
  | [] ↦
      (if a.allow_financial
        then record a { permissions = default_permissions (normalize_role a.access_role) }
        else a)
  | p ∷ ps ↦ a
]

-- The body of the loop of `readAccesses`.
unfoldable pub read_row : Row → Access
read_row r =
    if is_textile r.access.project
    then old_permissions (old_modules r.names_flag (named_owner r.access))
    else r.access

-- `readAccesses`
unfoldable pub read_accesses : List Row → List Access
read_accesses = map read_row

abbrev pub write_row : Access → Row
write_row a = record {
  names_flag = a.allow_financial || a.allow_operational || a.allow_weaving;
  access = a;
}

-- `writeAccesses`
unfoldable pub write_accesses : List Access → List Row
write_accesses = map write_row

-- The loop of `nextAccessID`.
unfoldable pub max_id : ℤ → List Access → ℤ
max_id m [] = m
max_id m (a ∷ more) = max_id (if ltb_ℤ m a.id then a.id else m) more

-- `nextAccessID`
unfoldable pub next_id : List Access → ℤ
unfolding max_id
next_id items = max_id (pos 0) items +ℤ pos 1

-- The order of `sortAccesses`: the newest first.
abbrev pub is_newer : Access → Access → Bool
is_newer a b =
    ltb_ℤ b.created_at a.created_at || (beq_ℤ a.created_at b.created_at && ltb_ℤ b.id a.id)

-- The inner loop for one place: what stays there, and the rest with its swaps.
unfoldable pub settle : Access → List Access → Access × List Access
settle a [] = (a, [])
settle a (b ∷ bs) =
    let (top, rest) = settle (if is_newer b a then b else a) bs in
    (top, (if is_newer b a then a else b) ∷ rest)

-- The outer loop of `sortAccesses`, over the number of places.
unfoldable pub sort_places : ℕ → List Access → List Access
unfolding settle
sort_places zero items = items
sort_places (suc n) [] = []
sort_places (suc n) (a ∷ more) = let (top, rest) = settle a more in top ∷ sort_places n rest

abbrev pub count_of : List Access → ℕ
count_of [] = 0
count_of (a ∷ more) = suc (count_of more)

unfoldable pub sort_accesses : List Access → List Access
unfolding sort_places
sort_accesses items = sort_places (count_of items) items

-- `listAccesses`
unfoldable pub list_accesses : List Row → List Access
unfolding read_accesses sort_accesses
list_accesses file = sort_accesses (read_accesses file)

abbrev pub has_id : ℤ → Access → Bool
has_id id a = beq_ℤ a.id id

abbrev pub has_token : Text → Access → Bool
has_token token a = text_eq a.access_token token

-- `findAccessByToken`; `none` is `os.ErrNotExist`.
unfoldable pub find_by_token : Text → List Row → Option Access
unfolding read_accesses
find_by_token token file = find (has_token token) (read_accesses file)

-- `tenantAccesses`
unfoldable pub tenant_accesses : Access → List Row → List Access
unfolding read_accesses sort_accesses
tenant_accesses asker file = sort_accesses (keep (same_tenant asker) (read_accesses file))

-- `tenantAccessByID`
unfoldable pub tenant_access_by_id : Access → ℤ → List Row → Option Access
unfolding tenant_accesses
tenant_access_by_id asker id file = find (has_id id) (tenant_accesses asker file)

-- The test in the loop of `accessUsernameTaken`: another account of the project has the name.
unfoldable pub clashes : Project → Text → ℤ → Access → Bool
clashes project username exclude a =
    not (beq_ℤ a.id exclude)
    && same_project project a.project
    && equal_fold (trim_space a.username) username

abbrev pub any : (Access → Bool) → List Access → Bool
any p [] = false
any p (a ∷ more) = p a || any p more

-- `accessUsernameTaken`; of the scope it reads the project only.
unfoldable pub username_taken : List Access → Project → Text → ℤ → Bool
unfolding clashes
username_taken items project username exclude =
    not (is_empty (trim_space username))
    && any (clashes project (trim_space username) exclude) items

-- `existingFinancialCompanyID`, with `ref` and `company` trimmed.
unfoldable pub company_loop : ℤ → Text → Text → List Access → ℤ
company_loop found company ref [] = found
company_loop found company ref (a ∷ more) =
    company_loop
      (if not (is_textile a.project) || not (ltb_ℤ (pos 0) a.financial_company_id)
        then found
        else if not (is_empty ref)
        then (if text_eq (trim_space a.external_org_ref) ref && ltb_ℤ found a.financial_company_id
            then a.financial_company_id
            else found)
        else if equal_fold (trim_space a.company_name) company && ltb_ℤ found a.financial_company_id
        then a.financial_company_id
        else found)
      company ref more

unfoldable pub existing_company : List Access → Text → Text → ℤ
unfolding company_loop
existing_company items company ref =
    company_loop (pos 0) (trim_space company) (trim_space ref) items

abbrev pub has_tenant : ℤ → Access → Bool
has_tenant company a =
    is_textile a.project
    && beq_ℤ a.financial_company_id company
    && not (is_empty (trim_space a.weaving_tenant_id))

-- `existingWeavingTenantID`
unfoldable pub existing_tenant : List Access → ℤ → Text
existing_tenant items company = elim (find (has_tenant company) items) [
  | none ↦ []
  | some a ↦ trim_space a.weaving_tenant_id
]
