-- ===== src/Portal/Trial/Sound.antt =====
-- The trial of portal_server/main.go keeps the accounts of the file distinct.
use textile_erp_cloud.Portal.Steps.Sound.{change_first-IsSoundFile, Keeps, and_then-IsSoundFile}
use textile_erp_cloud.Base.{ℕ, ltb, refl, inl, inr, ◌||◌, List, Bool-cases}
use textile_erp_cloud.Base.Int.{ℤ}
use textile_erp_cloud.Base.Result.{Result, ok, err}
use textile_erp_cloud.Base.Text.{Text}
use textile_erp_cloud.Portal.Access.{Access}
use textile_erp_cloud.Portal.Managed.{stored, update_managed}
use textile_erp_cloud.Portal.Managed.Sound.{update_managed-IsSoundFile}
use textile_erp_cloud.Portal.Services.{AccessError, Services, Draws}
use textile_erp_cloud.Portal.Store.{Row, has_id}
use textile_erp_cloud.Portal.Store.Kept.{IsSoundFile}
use textile_erp_cloud.Portal.Trial.{
  spec_of, days_after, later_of, trial_notes, trial_terms, trial_target, or_stored, push_trial,
  store_trial, grant_full_trial, started, may_start, start_trial,
}
use textile_erp_cloud.Portal.Steps.{change_first}

or_stored-IsSoundFile :
    (target : Access) (stored : List Row) (r : Result AccessError (Access × Text) × List Row)
    → IsSoundFile r.1
    → IsSoundFile (or_stored target stored r).1
or_stored-IsSoundFile target stored (ok r, file) h = h
or_stored-IsSoundFile target stored (err e, file) h = h

started-IsSoundFile :
    (a : Access) (r : Result AccessError (Access × Text) × List Row)
    → IsSoundFile r.1
    → IsSoundFile (started a r).1
started-IsSoundFile a (ok r, file) h = h
started-IsSoundFile a (err e, file) h = h

push_trial-Keeps :
    (sv : Services) (now : ℤ) (dr : Draws) (expires ends : ℤ) (notes : Text)
    → Keeps (push_trial sv now dr expires ends notes)
push_trial-Keeps sv now dr expires ends notes a file h =
    or_stored-IsSoundFile a file (update_managed sv now dr a.id (spec_of a expires ends notes) file)
      (update_managed-IsSoundFile sv now dr a.id (spec_of a expires ends notes) file h)

store_trial-Keeps :
    (sv : Services) (now : ℤ) (dr : Draws) (trial_note : Text) (days : ℕ)
    → Keeps (store_trial sv now dr trial_note days)
unfolding store_trial
store_trial-Keeps sv now dr trial_note days target file h =
    let ends = days_after now days in
    let expires = later_of target.expires_at ends in
    let notes = trial_notes target trial_note in
    let change = trial_terms ends expires notes in
    and_then-IsSoundFile (push_trial sv now dr expires ends notes)
      (change_first (has_id target.id) change file) (push_trial-Keeps sv now dr expires ends notes)
      (change_first-IsSoundFile (has_id target.id) change file (λ a. (refl, refl, refl)) h)

pub grant_full_trial-IsSoundFile :
    (sv : Services) (now : ℤ) (dr : Draws) (trial_note : Text) (id : ℤ) (days : ℕ) (file : List Row)
    → IsSoundFile file
    → IsSoundFile (grant_full_trial sv now dr trial_note id days file).1
unfolding grant_full_trial
grant_full_trial-IsSoundFile sv now dr trial_note id days file h =
    elim (Bool-cases (ltb days 1 || ltb 90 days)) [
      | inl bad ↦ rw bad h
      | inr fine ↦ rw fine (
          and_then-IsSoundFile (store_trial sv now dr trial_note days) (trial_target id file, file)
            (store_trial-Keeps sv now dr trial_note days) h)
    ]

pub start_trial-IsSoundFile :
    (sv : Services) (now : ℤ) (dr : Draws) (trial_note : Text) (a : Access) (file : List Row)
    → IsSoundFile file
    → IsSoundFile (start_trial sv now dr trial_note a file).1
unfolding start_trial
start_trial-IsSoundFile sv now dr trial_note a file h = elim (Bool-cases (may_start a)) [
  | inr no_start ↦ rw no_start h
  | inl start ↦ rw start (
      started-IsSoundFile a (grant_full_trial sv now dr trial_note a.id 30 file)
        (grant_full_trial-IsSoundFile sv now dr trial_note a.id 30 file h))
]
