-- ===== src/Portal/Team/Ends.antt =====
-- The trial of an account after `createManagedAccess` and `updateManagedAccess` of portal_server/main.go.
use textile_erp_cloud.Base.{
  ◌≡◌, ◌⊎◌, refl, sym, ap, ◌∙◌, inl, inr, Bool, true, List, [], ◌∷◌, ◌++◌, Bool-cases, find,
  update_first,
}
use textile_erp_cloud.Base.Int.{ℤ, pos, beq_ℤ}
use textile_erp_cloud.Base.Result.{
  ◌>>=◌, or_err, ok, Yields, gives, Yields-bind, Yields-guard, Yields-ok, Yields-map,
}
use textile_erp_cloud.Base.Text.{Text}
use textile_erp_cloud.Portal.Access.{Project, textile_erp, cooler_store, Access, valid_project}
use textile_erp_cloud.Portal.Managed.{
  trial_end, open_access, create_locked, create_access, create_managed, update_found, update_access,
  update_managed,
}
use textile_erp_cloud.Portal.Services.{no_access, invalid_project, Services, Draws}
use textile_erp_cloud.Portal.Store.{Row, read_accesses, has_id, any}
use textile_erp_cloud.Portal.Team.Returned.{stored-ok}
use textile_erp_cloud.Portal.Team.Trials.{has_trial, has_trial_in, found-has_trial}
use textile_erp_cloud.Portal.Terms.{Spec, trim_spec, Terms, terms_of, trial_on}
use textile_erp_cloud.Portal.Trial.Lasting.{update_found-trial, or_err-found}

trial_end-on :
    (p : Project) (now given stored : ℤ)
    → trial_on now (trial_end p given stored) ≡ true
    → (trial_on now given ≡ true) ⊎ (trial_on now stored ≡ true)
trial_end-on textile_erp now given stored h = elim (Bool-cases (beq_ℤ given (pos 0))) [
  | inl missing ↦ inr (rw missing at h)
  | inr named ↦ inl (rw named at h)
]
trial_end-on cooler_store now given stored h = absurd (cc)

-- Where a trial of an account after an update comes from: the arguments or the account before.
abbrev TrialFrom : ℤ → ℤ → Spec → List Access → Access × Text → Type 0
TrialFrom id now raw items r =
    trial_on now r.0.trial_ends_at ≡ true
    → (trial_on now raw.trial_ends_at ≡ true) ⊎ (any (has_trial id now) items ≡ true)

update_found-TrialFrom :
    (sv : Services) (now : ℤ) (dr : Draws) (project : Project) (id : ℤ) (s : Spec) (t : Terms)
    (items : List Access) (old : Access)
    → or_err (find (has_id id) items) no_access ≡ ok old
    → Yields (TrialFrom id now s items) (update_found sv now dr project s t items old)
update_found-TrialFrom sv now dr project id s t items old e =
    Yields-map (update_found-trial sv now dr project s t items old) λ r ends on.
      elim (trial_end-on project now s.trial_ends_at old.trial_ends_at
        (ap (trial_on now) (sym ends) ∙ on)) [
          | inl given ↦ inl given
          | inr stored ↦ inr (found-has_trial id now items old (or_err-found _ old e) stored)
        ]

from_found :
    (sv : Services) (now : ℤ) (dr : Draws) (project : Project) (id : ℤ) (s : Spec) (t : Terms)
    (items : List Access)
    → Yields (TrialFrom id now s items) (do
      old ← or_err (find (has_id id) items) no_access
      update_found sv now dr project s t items old)
from_found sv now dr project id s t items =
    Yields-bind (or_err (find (has_id id) items) no_access) _
      λ old e. update_found-TrialFrom sv now dr project id s t items old e

update_access-TrialFrom :
    (sv : Services) (now : ℤ) (dr : Draws) (id : ℤ) (raw : Spec) (items : List Access)
    → Yields (TrialFrom id now raw items) (update_access sv now dr id raw items)
unfolding update_access
update_access-TrialFrom sv now dr id raw items =
    Yields-bind (or_err (valid_project raw.project_key) invalid_project) _ λ project _.
      search
        (
          Yields-guard,
          from_found sv now dr project id (trim_spec raw) (terms_of project (trim_spec raw)) items,
        )
        depth 12

-- An update gives no trial but that of its arguments or one that an account of the id has.
pub update_managed-trial :
    (sv : Services) (now : ℤ) (dr : Draws) (id : ℤ) (raw : Spec) (file : List Row)
    (r : Access × Text)
    → (update_managed sv now dr id raw file).0 ≡ ok r
    → trial_on now r.0.trial_ends_at ≡ true
    → (trial_on now raw.trial_ends_at ≡ true) ⊎ (has_trial_in id now file ≡ true)
unfolding update_managed
update_managed-trial sv now dr id raw file r h =
    let items = read_accesses file in
    Yields-ok (update_access-TrialFrom sv now dr id raw items)
      (stored-ok file (λ (r : Access × Text). update_first (has_id id) (λ _. r.0) items) _ r h)

open_access-trial :
    (sv : Services) (now : ℤ) (dr : Draws) (project : Project) (s : Spec) (t : Terms) (trial : Bool)
    (company : ℤ) (username password : Text) (items : List Access)
    → Yields
        (λ r. r.0.trial_ends_at ≡ s.trial_ends_at)
        (open_access sv now dr project s t trial company username password items)
unfolding open_access
open_access-trial sv now dr project s t trial company username password items =
    search (Yields-bind, Yields-guard, gives, refl) depth 12

create_access-trial :
    (sv : Services) (now : ℤ) (dr : Draws) (raw : Spec) (items : List Access)
    → Yields (λ r. r.0.trial_ends_at ≡ raw.trial_ends_at) (create_access sv now dr raw items)
unfolding create_access create_locked
create_access-trial sv now dr raw items =
    search (Yields-bind, Yields-guard, open_access-trial) depth 12

-- A new account has the trial of the arguments.
pub create_managed-trial :
    (sv : Services) (now : ℤ) (dr : Draws) (raw : Spec) (file : List Row) (r : Access × Text)
    → (create_managed sv now dr raw file).0 ≡ ok r
    → r.0.trial_ends_at ≡ raw.trial_ends_at
unfolding create_managed
create_managed-trial sv now dr raw file r h =
    let items = read_accesses file in
    Yields-ok (create_access-trial sv now dr raw items)
      (stored-ok file (λ (r : Access × Text). items ++ (r.0 ∷ [])) _ r h)
