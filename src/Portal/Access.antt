-- ===== src/Portal/Access.antt =====
-- portal_server/main.go: the account of a customer (`projectAccess`), its role, its permissions, its modules
-- and its trial. Points in time are nanoseconds from Go's zero time. `ProjectKey` is one of the two that
-- `validProject` lets in.
pub mod Days
use textile_erp_cloud.Base.{
  ℕ, ◌+◌, ◌/◌, ◌%◌, Bool, true, false, not, ◌&&◌, ◌||◌, Option, none, some, List, [], ◌∷◌, ◌++◌,
  ltb, ◌==◌, if◌then◌else◌,
}
use textile_erp_cloud.Base.Int.{ℤ, pos, ltb_ℤ, beq_ℤ, pos_part}
use textile_erp_cloud.Base.Text.{Text, codes, text_eq, is_empty, trim_space, to_lower, equal_fold}
use textile_erp_cloud.Domain.Duration.{since}

pub data Project : Type 0 where
  textile_erp cooler_store : Project

abbrev pub is_textile : Project → Bool
is_textile textile_erp = true
is_textile cooler_store = false

abbrev pub same_project : Project → Project → Bool
same_project textile_erp b = is_textile b
same_project cooler_store b = not (is_textile b)

-- `validProject`, with the project that the key names.
unfoldable pub valid_project : Text → Option Project
valid_project key =
    if text_eq key (codes "textile-erp")
    then some textile_erp
    else if text_eq key (codes "cooler-store")
    then some cooler_store
    else none

-- The strings that `AccessRole` takes once it is normalized.
pub data Role : Type 0 where
  owner manager accountant viewer customer : Role

unfoldable pub role_name : Role → Text
role_name owner = codes "owner"
role_name manager = codes "manager"
role_name accountant = codes "accountant"
role_name viewer = codes "viewer"
role_name customer = codes "customer"

abbrev pub is_owner : Role → Bool
is_owner owner = true
is_owner _ = false

-- `normalizeAccessRole`
unfoldable pub normalize_role : Text → Role
normalize_role raw =
    let role = to_lower (trim_space raw) in
    if is_empty role || text_eq role (codes "owner") || text_eq role (codes "customer")
    then owner
    else if text_eq role (codes "manager")
    then manager
    else if text_eq role (codes "accountant")
    then accountant
    else viewer

pub record Access : Type 0 where
  pub id : ℤ
  pub project : Project
  pub company_name : Text
  pub contact_name : Text
  pub username : Text
  pub financial_company_id : ℤ
  pub external_org_ref : Text
  pub access_role : Text
  pub permissions : List Text
  pub can_manage_team : Bool
  pub requires_setup : Bool
  pub must_change_password : Bool
  pub module_access_set : Bool
  pub allow_financial : Bool
  pub allow_operational : Bool
  pub allow_weaving : Bool
  pub weaving_tenant_id : Text
  pub trial_ends_at : ℤ
  pub expires_at : ℤ
  pub access_token : Text
  pub password_hash : Text
  pub password_enc : Text
  pub notes : Text
  pub is_active : Bool
  pub created_at : ℤ
  pub last_used_at : ℤ

-- `financialPermissionCatalog`
abbrev pub catalog : List Text
catalog =
    codes "dashboard"
    ∷ codes "financialHealth"
    ∷ codes "financialSupervisor"
    ∷ codes "initialData"
    ∷ codes "operational"
    ∷ codes "incomingInvoices"
    ∷ codes "yarnOutInvoices"
    ∷ codes "invoices"
    ∷ codes "inventory"
    ∷ codes "costs"
    ∷ codes "receivableDocs"
    ∷ codes "payableDocs"
    ∷ codes "bankCash"
    ∷ codes "accounting"
    ∷ codes "reports"
    ∷ codes "taxReports"
    ∷ codes "credit"
    ∷ codes "advisor"
    ∷ codes "mobileApp"
    ∷ []

-- `defaultPermissionsForRole`, of a role that is normalized.
unfoldable pub default_permissions : Role → List Text
default_permissions viewer = codes "dashboard" ∷ codes "financialHealth" ∷ codes "reports" ∷ []
default_permissions accountant =
    codes "dashboard"
    ∷ codes "financialHealth"
    ∷ codes "initialData"
    ∷ codes "incomingInvoices"
    ∷ codes "yarnOutInvoices"
    ∷ codes "invoices"
    ∷ codes "inventory"
    ∷ codes "costs"
    ∷ codes "receivableDocs"
    ∷ codes "payableDocs"
    ∷ codes "bankCash"
    ∷ codes "accounting"
    ∷ codes "reports"
    ∷ codes "taxReports"
    ∷ codes "credit"
    ∷ codes "advisor"
    ∷ codes "mobileApp"
    ∷ []
default_permissions manager =
    codes "dashboard"
    ∷ codes "financialHealth"
    ∷ codes "initialData"
    ∷ codes "operational"
    ∷ codes "incomingInvoices"
    ∷ codes "yarnOutInvoices"
    ∷ codes "invoices"
    ∷ codes "inventory"
    ∷ codes "costs"
    ∷ codes "receivableDocs"
    ∷ codes "payableDocs"
    ∷ codes "bankCash"
    ∷ codes "reports"
    ∷ codes "taxReports"
    ∷ codes "credit"
    ∷ codes "advisor"
    ∷ codes "accounting"
    ∷ codes "mobileApp"
    ∷ []
default_permissions owner = catalog
default_permissions customer = catalog

-- A key of the maps `allowed` and `seen`.
unfoldable pub has_key : Text → List Text → Bool
has_key key [] = false
has_key key (k ∷ ks) = text_eq k key || has_key key ks

-- The loop of `normalizePermissions`.
unfoldable pub listed : List Text → List Text → List Text
unfolding has_key
listed seen [] = []
listed seen (raw ∷ rest) =
    let key = trim_space raw in
    let more = listed (key ∷ seen) rest in
    let skipped = listed seen rest in
    if not (has_key key catalog) || has_key key seen then skipped else key ∷ more

abbrev pub is_viewer : Role → Bool
is_viewer viewer = true
is_viewer _ = false

-- `normalizePermissions`, of a role that is normalized.
unfoldable pub normalize_permissions : List Text → Role → List Text
unfolding default_permissions
normalize_permissions input role = elim (listed [] input) [
  | [] ↦ default_permissions role
  | p ∷ ps ↦
      (if not (is_viewer role) && not (has_key (codes "mobileApp") (p ∷ ps))
        then (p ∷ ps) ++ (codes "mobileApp" ∷ [])
        else p ∷ ps)
]

-- `effectiveAccessRole`
unfoldable pub effective_role : Access → Role
effective_role a = if is_textile a.project then normalize_role a.access_role else customer

-- `effectivePermissions`
unfoldable pub effective_permissions : Access → List Text
effective_permissions a =
    if not (is_textile a.project)
    then []
    else if is_owner (effective_role a)
    then catalog
    else normalize_permissions a.permissions (effective_role a)

-- `fullTrialActiveAt`
unfoldable pub trial_active : Access → ℤ → Bool
trial_active a now =
    is_textile a.project && not (beq_ℤ a.trial_ends_at (pos 0)) && ltb_ℤ now a.trial_ends_at

-- `effectiveAllowFinancial`, and below `effectiveAllowOperational` and `effectiveAllowWeaving`
unfoldable pub effective_financial : Access → ℤ → Bool
effective_financial a now = is_textile a.project && (a.allow_financial || trial_active a now)

unfoldable pub effective_operational : Access → ℤ → Bool
effective_operational a now = is_textile a.project && (a.allow_operational || trial_active a now)

unfoldable pub effective_weaving : Access → ℤ → Bool
effective_weaving a now = is_textile a.project && (a.allow_weaving || trial_active a now)

abbrev pub day : ℕ
day = 86_400_000_000_000

-- The division of a `Duration` by a day, rounded up.
unfoldable pub days_of : ℕ → ℕ
days_of n =
    let days = if n % day == 0 then n / day else n / day + 1 in if ltb days 1 then 1 else days

-- `fullTrialDaysRemaining`; what remains of an active trial is not negative.
unfoldable pub trial_days_remaining : Access → ℤ → ℕ
unfolding days_of
trial_days_remaining a now =
    if not (trial_active a now) then 0 else days_of (pos_part (since a.trial_ends_at now))

-- `effectiveCanManageTeam`
unfoldable pub effective_can_manage : Access → Bool
effective_can_manage a = is_textile a.project && (a.can_manage_team || is_owner (effective_role a))

-- `accessRequiresSetup`
unfoldable pub requires_setup_now : Access → Bool
requires_setup_now a =
    a.requires_setup || is_empty (trim_space a.username) || is_empty (trim_space a.password_hash)

-- `normalizeModuleAccess`
abbrev pub normalize_modules : Project → Bool × Bool × Bool → Bool × Bool × Bool
normalize_modules textile_erp flags = flags
normalize_modules cooler_store flags = (false, false, false)

-- `sameTenantAccess`
unfoldable pub same_tenant : Access → Access → Bool
same_tenant a b =
    if not (same_project a.project b.project)
    then false
    else if is_textile a.project
        && ltb_ℤ (pos 0) a.financial_company_id
        && ltb_ℤ (pos 0) b.financial_company_id
    then beq_ℤ a.financial_company_id b.financial_company_id
    else equal_fold (trim_space a.company_name) (trim_space b.company_name)

-- `moduleAllowed`; a module is one of the three names.
pub data Module : Type 0 where
  financial operational weaving : Module

unfoldable pub module_allowed : Access → Module → ℤ → Bool
module_allowed a financial now = effective_financial a now
module_allowed a operational now = effective_operational a now
module_allowed a weaving now = effective_weaving a now

-- `operationalProvisionRole`
unfoldable pub provision_role : Role → Text
provision_role owner = codes "admin"
provision_role manager = codes "manager"
provision_role accountant = codes "accountant"
provision_role viewer = codes "viewer"
provision_role customer = codes "admin"
