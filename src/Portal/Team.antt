-- ===== src/Portal/Team.antt =====
-- portal_server/main.go: the handlers by which a manager of a company keeps its team, `portalTeam` and
-- `portalTeamByID`, after the request is decoded. What `resolveExpiry` makes of a request is an argument.
pub mod Returned
pub mod Pages
pub mod Trials
pub mod Ends
pub mod Below
pub mod Bounded
mod Tests
use textile_erp_cloud.Base.{
  Bool, true, false, not, ◌&&◌, ◌||◌, Option, none, some, List, if◌then◌else◌, find,
}
use textile_erp_cloud.Base.Int.{ℤ, pos, ltb_ℤ, beq_ℤ}
use textile_erp_cloud.Base.Result.{Result, ok, err, ◌>>=◌, ◌>>◌, refuse_if, or_err}
use textile_erp_cloud.Base.Text.{Text, is_empty, trim_space}
use textile_erp_cloud.Portal.Access.{
  is_textile, Role, owner, manager, is_owner, role_name, normalize_role, Access, effective_role,
  effective_financial, effective_operational, effective_weaving, effective_can_manage,
}
use textile_erp_cloud.Portal.Accounts.{
  delete_access, toggle_access, rotate_token, company_weaving_ready,
}
use textile_erp_cloud.Portal.Steps.{and_then, project_key}
use textile_erp_cloud.Portal.Managed.{create_managed, update_managed}
use textile_erp_cloud.Portal.Terms.{Spec}
use textile_erp_cloud.Portal.Services.{
  AccessError, no_access, no_name, forbidden, itself, expired, Services, Draws,
}
use textile_erp_cloud.Portal.Store.{Row, find_by_token, tenant_access_by_id}

-- `accessRecordFromRequest`, of the value of the cookie.
unfoldable pub session_access : ℤ → Text → List Row → Result AccessError Access
session_access now cookie file = do
  refuse_if (is_empty (trim_space cookie)) no_access
  a ← or_err (find_by_token (trim_space cookie) file) no_access
  refuse_if (not a.is_active) no_access
  refuse_if (ltb_ℤ a.expires_at now) expired
  ok a

-- No expiry was asked for, or it is not a date, or it is one.
pub data Expiry : Type 0 where
  as_before unreadable : Expiry
  until : ℤ → Expiry

pub record MemberRequest : Type 0 where
  pub contact_name : Text
  pub username : Text
  pub password : Text
  pub notes : Text
  pub access_role : Text
  pub permissions : List Text
  pub can_manage_team : Option Bool
  pub allow_financial : Option Bool
  pub allow_operational : Option Bool
  pub allow_weaving : Option Bool
  pub expiry : Expiry

-- `boolPtrValue`
abbrev pub bool_or : Option Bool → Bool → Bool
bool_or none fallback = fallback
bool_or (some b) fallback = b

abbrev pub below_owner : Role → Role
below_owner owner = manager
below_owner role = role

-- `minTime`
abbrev pub min_time : ℤ → ℤ → ℤ
min_time a b = if ltb_ℤ a b then a else b

abbrev pub expiry_of : Expiry → ℤ → ℤ → Result AccessError ℤ
expiry_of as_before default limit = ok default
expiry_of unreadable default limit = err expired
expiry_of (until t) default limit = ok (min_time t limit)

-- Who may use the handlers.
unfoldable pub check_manager : Access → Result AccessError (Unit {0})
check_manager m = do
  refuse_if (not (is_textile m.project)) forbidden
  refuse_if (not (effective_can_manage m)) forbidden

-- The POST of `portalTeam` up to the call of `createManagedAccess`: its arguments.
unfoldable pub member_spec : ℤ → Access → MemberRequest → Result AccessError Spec
member_spec now m req = do
  check_manager m
  refuse_if (is_empty (trim_space req.contact_name)) no_name
  refuse_if (not (is_owner (effective_role m)) && bool_or req.can_manage_team false) forbidden
  expires ← expiry_of req.expiry m.expires_at m.expires_at
  ok (record {
    project_key = project_key m.project;
    company_name = m.company_name;
    contact_name = req.contact_name;
    username = req.username;
    password = req.password;
    financial_company_id = m.financial_company_id;
    expires_at = expires;
    trial_ends_at = m.trial_ends_at;
    notes = req.notes;
    access_role = role_name (below_owner (normalize_role req.access_role));
    permissions = req.permissions;
    can_manage_team = bool_or req.can_manage_team false;
    requires_setup = false;
    allow_financial = bool_or req.allow_financial true && effective_financial m now;
    allow_operational = bool_or req.allow_operational false && effective_operational m now;
    allow_weaving = bool_or req.allow_weaving false && effective_weaving m now;
    external_org_ref = m.external_org_ref;
  })

abbrev pub weaving_first :
    Services → Draws → Access → Bool → List Row → Result AccessError Access × List Row
weaving_first sv dr m wanted file =
    if wanted then company_weaving_ready sv dr m file else (ok m, file)

abbrev pub create_member :
    Services
    → ℤ
    → Draws
    → Draws
    → Access
    → Spec
    → List Row
    → Result AccessError (Access × Text) × List Row
create_member sv now dr dr' m spec file =
    and_then (λ (_ : Access). create_managed sv now dr' spec)
      (weaving_first sv dr m spec.allow_weaving file)

-- `portalTeam`, POST. The draws are those of the weaving hall and those of the account.
unfoldable pub add_member :
    Services
    → ℤ
    → Draws
    → Draws
    → Access
    → MemberRequest
    → List Row
    → Result AccessError (Access × Text) × List Row
add_member sv now dr dr' m req file =
    and_then (create_member sv now dr dr' m) (member_spec now m req, file)

-- The account of the team that `portalTeamByID` is about.
unfoldable pub team_target : Access → ℤ → List Row → Result AccessError Access
team_target m id file = do
  check_manager m
  target ← or_err (tenant_access_by_id m id file) no_access
  refuse_if (beq_ℤ target.id m.id) itself
  ok target

-- The PUT of `portalTeamByID` up to the call of `updateManagedAccess`.
unfoldable pub changed_spec : ℤ → Access → Access → MemberRequest → Result AccessError Spec
changed_spec now m target req = do
  refuse_if
      (not (is_owner (effective_role m)) && bool_or req.can_manage_team target.can_manage_team)
      forbidden
  expires ← expiry_of req.expiry target.expires_at m.expires_at
  ok (record {
    project_key = project_key target.project;
    company_name = target.company_name;
    contact_name =
        if is_empty (trim_space req.contact_name) then target.contact_name else req.contact_name;
    username = req.username;
    password = req.password;
    financial_company_id = target.financial_company_id;
    expires_at = expires;
    trial_ends_at = target.trial_ends_at;
    notes = req.notes;
    access_role = role_name (below_owner (normalize_role req.access_role));
    permissions = req.permissions;
    can_manage_team = bool_or req.can_manage_team target.can_manage_team;
    requires_setup = false;
    allow_financial =
        bool_or req.allow_financial (effective_financial target now) && effective_financial m now;
    allow_operational =
        bool_or req.allow_operational (effective_operational target now)
        && effective_operational m now;
    allow_weaving =
        bool_or req.allow_weaving (effective_weaving target now) && effective_weaving m now;
    external_org_ref = target.external_org_ref;
  })

abbrev pub change_member :
    Services
    → ℤ
    → Draws
    → Draws
    → Access
    → ℤ
    → Spec
    → List Row
    → Result AccessError (Access × Text) × List Row
change_member sv now dr dr' m id spec file =
    and_then (λ (_ : Access). update_managed sv now dr' id spec)
      (weaving_first sv dr m spec.allow_weaving file)

abbrev pub change_target :
    Services
    → ℤ
    → Draws
    → Draws
    → Access
    → ℤ
    → MemberRequest
    → Access
    → List Row
    → Result AccessError (Access × Text) × List Row
change_target sv now dr dr' m id req target file =
    and_then (change_member sv now dr dr' m id) (changed_spec now m target req, file)

-- `portalTeamByID`, PUT
unfoldable pub edit_member :
    Services
    → ℤ
    → Draws
    → Draws
    → Access
    → ℤ
    → MemberRequest
    → List Row
    → Result AccessError (Access × Text) × List Row
edit_member sv now dr dr' m id req file =
    and_then (change_target sv now dr dr' m id req) (team_target m id file, file)

-- `portalTeamByID`, DELETE
unfoldable pub remove_member :
    Services → Access → ℤ → List Row → Result AccessError Access × List Row
remove_member sv m id file =
    and_then (λ (_ : Access). delete_access sv id) (team_target m id file, file)

-- `portalTeamByID`, toggle
unfoldable pub toggle_member :
    Services → ℤ → Access → ℤ → List Row → Result AccessError Access × List Row
toggle_member sv now m id file =
    and_then (λ (_ : Access). toggle_access sv now id) (team_target m id file, file)

-- `portalTeamByID`, rotate-link
unfoldable pub rotate_member : Text → Access → ℤ → List Row → Result AccessError Access × List Row
rotate_member token m id file =
    and_then (λ (_ : Access). rotate_token token id) (team_target m id file, file)
