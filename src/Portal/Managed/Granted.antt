-- ===== src/Portal/Managed/Granted.antt =====
-- What an account may do after `createManagedAccess` and `updateManagedAccess` of portal_server/main.go.
use textile_erp_cloud.Base.{◌≡◌, refl, ap, none, Bool, Option, some, List}
use textile_erp_cloud.Base.Int.{ℤ}
use textile_erp_cloud.Base.Result.{
  Result, ok, err, Yields, fails, gives, Yields-bind, Yields-guard, or_err, ok-same,
}
use textile_erp_cloud.Base.Text.{Text}
use textile_erp_cloud.Portal.Access.{Project, valid_project, role_name, Access}
use textile_erp_cloud.Portal.Managed.{
  open_access, create_locked, create_access, renew_access, update_found, update_access,
}
use textile_erp_cloud.Portal.Terms.{Spec, trim_spec, Terms, terms_of}
use textile_erp_cloud.Portal.Services.{AccessError, invalid_project, Services, Draws}

-- The account is one of the project and has the terms.
abbrev HasTerms : Project → Spec → Terms → Access × Text → Type 0
HasTerms project s t r =
    (r.0.project ≡ project)
    × (r.0.access_role ≡ role_name t.role)
    × (r.0.permissions ≡ t.permissions)
    × (r.0.can_manage_team ≡ t.can_manage_team)
    × (r.0.allow_financial ≡ t.allow_financial)
    × (r.0.allow_operational ≡ t.allow_operational)
    × (r.0.allow_weaving ≡ t.allow_weaving)
    × (r.0.expires_at ≡ s.expires_at)

all_same :
    {project : Project} {role : Text} {permissions : List Text} {m f o w : Bool} {e : ℤ}
    → (project ≡ project)
      × (role ≡ role)
      × (permissions ≡ permissions)
      × (m ≡ m)
      × (f ≡ f)
      × (o ≡ o)
      × (w ≡ w)
      × (e ≡ e)
all_same = (refl, refl, refl, refl, refl, refl, refl, refl)

open_access-HasTerms :
    (sv : Services) (now : ℤ) (dr : Draws) (project : Project) (s : Spec) (t : Terms) (trial : Bool)
    (company : ℤ) (username password : Text) (items : List Access)
    → Yields
        (HasTerms project s t)
        (open_access sv now dr project s t trial company username password items)
unfolding open_access
open_access-HasTerms sv now dr project s t trial company username password items =
    search (Yields-bind, Yields-guard, gives, all_same) depth 12

renew_access-HasTerms :
    (sv : Services) (now : ℤ) (dr : Draws) (project : Project) (s : Spec) (t : Terms) (trial : Bool)
    (ends : ℤ) (username password : Text) (old : Access) (items : List Access)
    → Yields
        (HasTerms project s t)
        (renew_access sv now dr project s t trial ends username password old items)
unfolding renew_access
renew_access-HasTerms sv now dr project s t trial ends username password old items =
    search (Yields-bind, Yields-guard, gives, all_same) depth 12

-- The project is the one that the key names, and the terms are those of the arguments.
abbrev pub IsGranted : Spec → Access × Text → Type 0
IsGranted raw r =
    (valid_project raw.project_key ≡ some r.0.project)
    × HasTerms r.0.project (trim_spec raw) (terms_of r.0.project (trim_spec raw)) r

granted :
    (raw : Spec) (project : Project) (r : Result AccessError (Access × Text))
    → or_err (valid_project raw.project_key) invalid_project ≡ ok project
    → Yields (HasTerms project (trim_spec raw) (terms_of project (trim_spec raw))) r
    → Yields (IsGranted raw) r
granted raw project (err x) e y = fails
granted raw project (ok r) e (gives k) =
    gives (
      rw (k.0) (named (valid_project raw.project_key) e, (refl, k.1, k.2, k.3, k.4, k.5, k.6, k.7)))
  where
    named : (o : Option Project) → or_err o invalid_project ≡ ok project → o ≡ some project
    named none e = absurd (cc)
    named (some p) e = ap some (ok-same e)

pub create_access-IsGranted :
    (sv : Services) (now : ℤ) (dr : Draws) (raw : Spec) (items : List Access)
    → Yields (IsGranted raw) (create_access sv now dr raw items)
unfolding create_access create_locked
create_access-IsGranted sv now dr raw items =
    Yields-bind (or_err (valid_project raw.project_key) invalid_project) _ λ project e.
      granted raw project _ e (search (Yields-bind, Yields-guard, open_access-HasTerms) depth 12)

update_found-HasTerms :
    (sv : Services) (now : ℤ) (dr : Draws) (project : Project) (s : Spec) (t : Terms)
    (items : List Access) (old : Access)
    → Yields (HasTerms project s t) (update_found sv now dr project s t items old)
unfolding update_found
update_found-HasTerms sv now dr project s t items old =
    search (Yields-bind, Yields-guard, renew_access-HasTerms) depth 12

pub update_access-IsGranted :
    (sv : Services) (now : ℤ) (dr : Draws) (id : ℤ) (raw : Spec) (items : List Access)
    → Yields (IsGranted raw) (update_access sv now dr id raw items)
unfolding update_access
update_access-IsGranted sv now dr id raw items =
    Yields-bind (or_err (valid_project raw.project_key) invalid_project) _ λ project e.
      granted raw project _ e (search (Yields-bind, Yields-guard, update_found-HasTerms) depth 12)
