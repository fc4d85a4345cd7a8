-- ===== src/Portal/Team/Bounded.antt =====
-- What a manager can give to a member of the team (portal_server/main.go) is what the manager has.
use textile_erp_cloud.Base.Bools.{and_right}
use textile_erp_cloud.Portal.Team.Trials.{
  has_trial_in, weaving_first-SameTrials, tenant_access_by_id-has_trial,
}
use textile_erp_cloud.Portal.Team.Below.{
  IsBelow, IsBelowOr, HasBelow, trial-HasAll, HasBelow-IsBelow, HasBelow-IsBelowOr,
}
use textile_erp_cloud.Portal.Team.Ends.{create_managed-trial, update_managed-trial}
use textile_erp_cloud.Portal.Trial.Lasting.{or_err-found}
use textile_erp_cloud.Portal.Team.Returned.{
  and_then-ok, create_managed-IsGranted, update_managed-IsGranted,
}
use textile_erp_cloud.Portal.Team.Pages.{
  not_customer, normalize-role_name, member_role, IsPage, normalize_permissions-IsPage,
}
use textile_erp_cloud.Base.{
  ◌≡◌, refl, sym, ap, ◌∙◌, inl, inr, Bool, true, false, not, ◌&&◌, some, List, [], arith,
  Option-cases, All, if◌then◌else◌,
}
use mathlib.Core.Option.{some-injective}
use textile_erp_cloud.Base.Int.{ℤ, pos, ltb_ℤ, beq_ℤ, ◌≤ℤ◌}
use textile_erp_cloud.Base.Result.{
  or_err, ok, Yields, gives, Yields-bind, Yields-guard, Yields-ok, ok-same, refuse_if-ok,
}
use textile_erp_cloud.Base.Text.{equal_fold, Text, text_eq, is_empty, trim_space}
use textile_erp_cloud.Portal.Access.{
  Project, textile_erp, cooler_store, is_textile, valid_project, Role, is_owner, role_name,
  normalize_role, Access, normalize_permissions, effective_role, effective_financial,
  effective_operational, effective_weaving, same_tenant,
}
use textile_erp_cloud.Portal.Steps.{project_key}
use textile_erp_cloud.Portal.Managed.{create_managed, update_managed}
use textile_erp_cloud.Portal.Terms.{Spec, terms_of, trial_on}
use textile_erp_cloud.Portal.Managed.Granted.{IsGranted}
use textile_erp_cloud.Portal.Services.{forbidden, no_name, no_access, itself, Services, Draws}
use textile_erp_cloud.Portal.Store.{Row, tenant_access_by_id}
use textile_erp_cloud.Portal.Store.Sorted.{tenant_access_by_id-same_tenant}
use textile_erp_cloud.Portal.Team.{
  Expiry, as_before, unreadable, until, MemberRequest, bool_or, min_time, expiry_of, check_manager,
  member_spec, weaving_first, create_member, add_member, team_target, changed_spec, change_member,
  change_target, edit_member,
}

-- The same of the arguments that the handlers pass on.
pub record IsSpecBelow (m : Access) (now : ℤ) (s : Spec) : Type 0 where
  pub key : s.project_key ≡ project_key textile_erp
  pub role : is_owner (normalize_role s.access_role) ≡ false
  pub financial : s.allow_financial ≡ true → effective_financial m now ≡ true
  pub operational : s.allow_operational ≡ true → effective_operational m now ≡ true
  pub weaving : s.allow_weaving ≡ true → effective_weaving m now ≡ true
  pub team : s.can_manage_team ≡ true → is_owner (effective_role m) ≡ true

pub textile_key : (p : Project) → valid_project (project_key textile_erp) ≡ some p → p ≡ textile_erp
unfolding valid_project text_eq
textile_key p h = sym (some-injective _ _ h)

normalized_again :
    (raw : Text)
    → is_owner (normalize_role raw) ≡ false
    → is_owner (normalize_role (role_name (normalize_role raw))) ≡ false
normalized_again raw h = elim (not_customer raw) [
  | inl top ↦ absurd (cc (rw top at h))
  | inr low ↦ rw (normalize-role_name (normalize_role raw) low) h
]

IsPage-list :
    (b : Bool) (input : List Text) (role : Role)
    → All IsPage (if b then normalize_permissions input role else [])
IsPage-list true input role = normalize_permissions-IsPage input role
IsPage-list false input role = tt

terms-HasBelow :
    (m : Access) (now : ℤ) (raw : Spec) (a : Access) (shown : Text)
    → IsSpecBelow m now raw
    → IsGranted raw (a, shown)
    → HasBelow m now a
unfolding terms_of effective_role
terms-HasBelow m now raw a shown b (named, (p, role, pages, team, f, o, w, e)) =
    let textile : a.project ≡ textile_erp = textile_key a.project (rw (← b.key) named) in
    record {
      project = textile;
      role = rw (textile, role, textile) (normalized_again raw.access_role b.role);
      financial = λ h. b.financial (rw textile at (sym f ∙ h));
      operational = λ h. b.operational (rw textile at (sym o ∙ h));
      weaving = λ h. b.weaving (rw textile at (sym w ∙ h));
      team = λ h. b.team (rw textile at (sym team ∙ h));
      pages =
          rw (pages, textile)
            (IsPage-list raw.allow_financial raw.permissions (normalize_role raw.access_role));
    }

granted_by : (top wants : Bool) → (not top && wants) ≡ false → wants ≡ true → top ≡ true
granted_by top wants h e = ground arith

may_manage : (m : Access) → check_manager m ≡ ok tt → m.project ≡ textile_erp
unfolding check_manager
may_manage m h = by_project m.project (refuse_if-ok (not (is_textile m.project)) forbidden _ _ h).0
  where
    by_project : (p : Project) → not (is_textile p) ≡ false → p ≡ textile_erp
    by_project textile_erp h = refl
    by_project cooler_store h = absurd (cc)

-- The arguments of the POST, with their expiry.
abbrev IsMemberSpec : Access → ℤ → Spec → Type 0
IsMemberSpec m now s =
    IsSpecBelow m now s
    × (s.expires_at ≤ℤ m.expires_at)
    × (s.trial_ends_at ≡ m.trial_ends_at)
    × (m.project ≡ textile_erp)

earlier : (a b : ℤ) → min_time a b ≤ℤ b
earlier a b = ground arith

expiry_of-le :
    (expiry : Expiry) (limit expires : ℤ)
    → expiry_of expiry limit limit ≡ ok expires
    → expires ≤ℤ limit
expiry_of-le as_before limit expires h = rw (← ok-same h) (omega arith)
expiry_of-le unreadable limit expires h = absurd (cc)
expiry_of-le (until t) limit expires h = rw (← ok-same h) (earlier t limit)

member_spec-IsMemberSpec :
    (now : ℤ) (m : Access) (req : MemberRequest)
    → Yields (IsMemberSpec m now) (member_spec now m req)
unfolding member_spec
member_spec-IsMemberSpec now m req = Yields-bind (check_manager m) _ λ (_ : Unit {0}) fine.
    Yields-guard (is_empty (trim_space req.contact_name)) no_name _ λ named.
      Yields-guard (not (is_owner (effective_role m)) && bool_or req.can_manage_team false)
        forbidden _
        λ team. Yields-bind (expiry_of req.expiry m.expires_at m.expires_at) _ λ expires e. gives (
          record {
            key = ap project_key (may_manage m fine);
            role = member_role req.access_role;
            financial = and_right _ _;
            operational = and_right _ _;
            weaving = and_right _ _;
            team = granted_by _ _ team;
          },
          expiry_of-le req.expiry m.expires_at expires e,
          refl,
          may_manage m fine,
        )

-- An account that a manager adds to the team is not an owner; it has no module at that time, by a flag or
-- by a trial of its own, that the manager has not; its trial ends with the manager's; it may manage the team
-- only if the manager is an owner, has pages of the catalogue only, and does not outlast the manager's own
-- account.
pub add_member-IsBelow :
    (sv : Services) (now : ℤ) (dr dr' : Draws) (m : Access) (req : MemberRequest) (file : List Row)
    (a : Access) (shown : Text)
    → (add_member sv now dr dr' m req file).0 ≡ ok (a, shown)
    → IsBelow m now a × (a.expires_at ≤ℤ m.expires_at) × (a.trial_ends_at ≡ m.trial_ends_at)
unfolding add_member
add_member-IsBelow sv now dr dr' m req file a shown h =
    let (spec, made, ran) =
      and_then-ok (create_member sv now dr dr' m) (member_spec now m req, file) (a, shown) h in
    let (ready, _, created) =
      and_then-ok (λ (_ : Access). create_managed sv now dr' spec)
        (weaving_first sv dr m spec.allow_weaving file) (a, shown) ran in
    let g =
      create_managed-IsGranted sv now dr' spec (weaving_first sv dr m spec.allow_weaving file).1
        (a, shown) created in
    let (below, expiry, trial, textile) = Yields-ok (member_spec-IsMemberSpec now m req) made in
    let ends =
      create_managed-trial sv now dr' spec (weaving_first sv dr m spec.allow_weaving file).1
        (a, shown) created
      ∙ trial in
    (
      HasBelow-IsBelow m now a (terms-HasBelow m now spec a shown below g)
          (λ on. trial-HasAll m now textile (ap (trial_on now) (sym ends) ∙ on)),
      rw (g.1.7) expiry,
      ends,
    )

same_tenant-project :
    (m a : Access) → same_tenant m a ≡ true → m.project ≡ textile_erp → a.project ≡ textile_erp
unfolding same_tenant
same_tenant-project m a h e = by_project a.project (rw e at h)
  where
    by_project :
        (p : Project)
        → (if not (is_textile p)
            then false
            else if ltb_ℤ (pos 0) m.financial_company_id && ltb_ℤ (pos 0) a.financial_company_id
            then beq_ℤ m.financial_company_id a.financial_company_id
            else equal_fold (trim_space m.company_name) (trim_space a.company_name))
          ≡ true
        → p ≡ textile_erp
    by_project textile_erp h = refl
    by_project cooler_store h = absurd (cc)

target_of :
    (m : Access) (id : ℤ) (file : List Row) (target : Access)
    → check_manager m ≡ ok tt
    → or_err (tenant_access_by_id m id file) no_access ≡ ok target
    → target.project ≡ textile_erp
target_of m id file target fine e = elim (Option-cases (tenant_access_by_id m id file)) [
  | inl missing ↦ absurd (cc (rw missing at e))
  | inr (b, hit) ↦
      let same : b ≡ target = ok-same (rw hit at e) in
      same_tenant-project m target
        (tenant_access_by_id-same_tenant m id file target (hit ∙ ap some same)) (may_manage m fine)
]

-- The account to edit is one of the tenant.
abbrev IsTarget : Access → ℤ → List Row → Access → Type 0
IsTarget m id file target =
    (target.project ≡ textile_erp) × (tenant_access_by_id m id file ≡ some target)

team_target-IsTarget :
    (m : Access) (id : ℤ) (file : List Row) → Yields (IsTarget m id file) (team_target m id file)
unfolding team_target
team_target-IsTarget m id file = Yields-bind (check_manager m) _ λ (_ : Unit {0}) fine.
    Yields-bind (or_err (tenant_access_by_id m id file) no_access) _ λ target e.
      Yields-guard (beq_ℤ target.id m.id) itself _
        λ other. gives (target_of m id file target fine e, or_err-found _ target e)

changed_spec-IsSpecBelow :
    (now : ℤ) (m target : Access) (req : MemberRequest)
    → target.project ≡ textile_erp
    → Yields
        (λ s. IsSpecBelow m now s × (s.trial_ends_at ≡ target.trial_ends_at))
        (changed_spec now m target req)
unfolding changed_spec
changed_spec-IsSpecBelow now m target req textile =
    Yields-guard
      (not (is_owner (effective_role m)) && bool_or req.can_manage_team target.can_manage_team)
      forbidden _
      λ team. Yields-bind (expiry_of req.expiry target.expires_at m.expires_at) _ λ expires e.
        gives (
          record {
            key = ap project_key textile;
            role = member_role req.access_role;
            financial = and_right _ _;
            operational = and_right _ _;
            weaving = and_right _ _;
            team = granted_by _ _ team;
          },
          refl,
        )

-- An account of the team that a manager edits, the owner's account among them, is no owner's any more, may
-- manage the team only if the manager is an owner, and has pages of the catalogue only. A module that it
-- has by a flag is one that the manager has at that time. So is one that it has by a trial, unless the
-- file had an account of that id before whose trial ends after that time.
pub edit_member-IsBelow :
    (sv : Services) (now : ℤ) (dr dr' : Draws) (m : Access) (id : ℤ) (req : MemberRequest)
    (file : List Row) (a : Access) (shown : Text)
    → (edit_member sv now dr dr' m id req file).0 ≡ ok (a, shown)
    → IsBelowOr (has_trial_in id now file) m now a
unfolding edit_member
edit_member-IsBelow sv now dr dr' m id req file a shown h =
    let (target, found, ran) =
      and_then-ok (change_target sv now dr dr' m id req) (team_target m id file, file) (a, shown)
        h in
    let (spec, made, ran') =
      and_then-ok (change_member sv now dr dr' m id) (changed_spec now m target req, file)
        (a, shown) ran in
    let (ready, _, changed) =
      and_then-ok (λ (_ : Access). update_managed sv now dr' id spec)
        (weaving_first sv dr m spec.allow_weaving file) (a, shown) ran' in
    let file' = (weaving_first sv dr m spec.allow_weaving file).1 in
    let (textile, stood) = Yields-ok (team_target-IsTarget m id file) found in
    let (below, trial) = Yields-ok (changed_spec-IsSpecBelow now m target req textile) made in
    HasBelow-IsBelowOr (has_trial_in id now file) m now a
      (terms-HasBelow m now spec a shown below
        (update_managed-IsGranted sv now dr' id spec file' (a, shown) changed))
      (λ on. elim (update_managed-trial sv now dr' id spec file' (a, shown) changed on) [
        | inl given ↦
            tenant_access_by_id-has_trial m id now file target stood
              (ap (trial_on now) (sym trial) ∙ given)
        | inr kept ↦ sym (weaving_first-SameTrials id now sv dr m spec.allow_weaving file) ∙ kept
      ])
