-- ===== src/Portal/Owners.antt =====
-- portal_server/owner_integrity.go: the repair of companies that have lost their owner. The map of groups is
-- gone through in the order of the accounts, which the result does not depend on: groups share no
-- account, and a key that comes again finds its group repaired.
pub mod Settled
pub mod Twice
mod Tests
use textile_erp_cloud.Base.{
  ℕ, ◌+◌, Bool, true, false, not, ◌&&◌, ◌||◌, Option, none, some, List, [], ◌∷◌, if◌then◌else◌,
}
use textile_erp_cloud.Base.Int.{ℤ, pos, ltb_ℤ, beq_ℤ}
use textile_erp_cloud.Base.Text.{Text, text_eq, is_empty, trim_space, to_lower}
use textile_erp_cloud.Portal.Access.{
  is_textile, owner, is_owner, role_name, normalize_role, Access, catalog, requires_setup_now,
}
use textile_erp_cloud.Portal.Store.{any}

-- The two kinds of keys, "company-id:…" and "company-name:…".
pub data TenantKey : Type 0 where
  company_id : ℤ → TenantKey
  company_name : Text → TenantKey

abbrev pub same_key : TenantKey → TenantKey → Bool
same_key (company_id i) (company_id j) = beq_ℤ i j
same_key (company_name s) (company_name t) = text_eq s t
same_key _ _ = false

-- `tenantOwnerKey`; `none` is the empty key.
unfoldable pub tenant_key : Access → Option TenantKey
tenant_key a =
    let name = to_lower (trim_space a.company_name) in
    if not (is_textile a.project)
    then none
    else if ltb_ℤ (pos 0) a.financial_company_id
    then some (company_id a.financial_company_id)
    else if is_empty name
    then none
    else some (company_name name)

abbrev pub has_key_of : TenantKey → Option TenantKey → Bool
has_key_of k none = false
has_key_of k (some j) = same_key j k

abbrev pub in_group : TenantKey → Access → Bool
in_group k a = has_key_of k (tenant_key a)

abbrev pub owns_group : TenantKey → Access → Bool
owns_group k a = in_group k a && is_owner (normalize_role a.access_role)

abbrev pub is_candidate : TenantKey → Access → Bool
is_candidate k a = in_group k a && a.is_active && not (requires_setup_now a)

-- The order of the candidates. The zero time is before all others.
abbrev pub is_older : Access → Access → Bool
is_older a b =
    if beq_ℤ a.created_at b.created_at then ltb_ℤ a.id b.id else ltb_ℤ a.created_at b.created_at

abbrev pub promote : Access → Access
promote a = record a {
  access_role = role_name owner;
  can_manage_team = true;
  permissions = catalog;
}

abbrev pub choose : Access → List Access → Option (Access × List Access) → Access × List Access
choose a more none = (a, promote a ∷ more)
choose a more (some (b, more')) = if is_older b a then (b, a ∷ more') else (a, promote a ∷ more)

abbrev pub pass_over : Access → Option (Access × List Access) → Option (Access × List Access)
pass_over a none = none
pass_over a (some (b, more)) = some (b, a ∷ more)

-- The first of the candidates once they are sorted, and the accounts with it promoted.
unfoldable pub pick : TenantKey → List Access → Option (Access × List Access)
pick k [] = none
pick k (a ∷ more) =
    let rest = pick k more in
    if is_candidate k a then some (choose a more rest) else pass_over a rest

abbrev pub picked : List Access → Option (Access × List Access) → List Access × ℕ
picked items none = (items, 0)
picked items (some (b, items')) = (items', 1)

-- The body of the loop over the groups, and whether it has repaired one.
unfoldable pub repair_group : TenantKey → List Access → List Access × ℕ
unfolding pick
repair_group k items = if any (owns_group k) items then (items, 0) else picked items (pick k items)

abbrev pub with_key : Option TenantKey → List TenantKey → List TenantKey
with_key none keys = keys
with_key (some k) keys = k ∷ keys

abbrev pub keys_of : List Access → List TenantKey
keys_of [] = []
keys_of (a ∷ more) = with_key (tenant_key a) (keys_of more)

abbrev pub repair_keys : List TenantKey → List Access → List Access × ℕ
repair_keys [] items = (items, 0)
repair_keys (k ∷ keys) items =
    let (items', n) = repair_group k items in
    let (items'', m) = repair_keys keys items' in (items'', n + m)

-- `repairTenantOwnerIntegrity`
unfoldable pub repair_owners : List Access → List Access × ℕ
unfolding repair_group
repair_owners items = repair_keys (keys_of items) items
