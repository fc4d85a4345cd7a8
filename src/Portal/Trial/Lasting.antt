-- ===== src/Portal/Trial/Lasting.antt =====
-- The trial of portal_server/main.go is granted whatever the other servers answer.
use mathlib.Core.Option.{some-injective}
use textile_erp_cloud.Base.{
  ℕ, ◌≡◌, ◌≤◌, refl, sym, ap, ◌∙◌, inl, inr, Bool, true, false, Option, none, some, List, [], ◌∷◌,
  ltb, ◌||◌, not, arith, Bool-cases, find, find-All, All, update_first,
}
use textile_erp_cloud.Base.Int.{ℤ, pos, beq_ℤ, ◌≤ℤ◌, ◌+ℤ◌, beq_ℤ_iff}
use textile_erp_cloud.Base.Result.{
  Result, ok, err, or_err, Yields, fails, gives, Yields-bind, Yields-guard, Yields-ok, ok-same,
}
use textile_erp_cloud.Base.Text.{Text}
use textile_erp_cloud.Portal.Access.{
  Project, textile_erp, cooler_store, is_textile, valid_project, Access, is_owner, effective_role,
}
use textile_erp_cloud.Portal.Managed.{
  trial_end, renew_access, update_found, update_access, update_managed,
}
use textile_erp_cloud.Portal.Managed.Granted.{update_access-IsGranted}
use textile_erp_cloud.Portal.Services.{
  AccessError, invalid_project, no_access, not_owner, Services, Draws,
}
use textile_erp_cloud.Portal.Steps.{project_key, change_first}
use textile_erp_cloud.Portal.Store.{Row, read_accesses, list_accesses, has_id}
use textile_erp_cloud.Portal.Terms.{Spec, Terms}
use mathlib.Core.Path.{subst}
use textile_erp_cloud.Base.{Option-cases, find_sound, is_some}
use textile_erp_cloud.Base.Text.{text_eq}
use textile_erp_cloud.Portal.Store.Hits.{any-found, list_accesses-any}
use textile_erp_cloud.Portal.Store.Sorted.{sort_accesses-All}
use textile_erp_cloud.Portal.Team.Returned.{stored-ok}
use textile_erp_cloud.Portal.Trial.{
  spec_of, days_after, later_of, trial_terms, trial_target, or_stored, trial_notes, push_trial,
  store_trial, grant_full_trial,
}

-- What an account's trial is after an update that names one.
renew_access-trial :
    (sv : Services) (now : ℤ) (dr : Draws) (project : Project) (s : Spec) (t : Terms) (trial : Bool)
    (ends : ℤ) (username password : Text) (old : Access) (items : List Access)
    → Yields
        (λ r. r.0.trial_ends_at ≡ ends)
        (renew_access sv now dr project s t trial ends username password old items)
unfolding renew_access
renew_access-trial sv now dr project s t trial ends username password old items =
    search (Yields-bind, Yields-guard, gives, refl) depth 12

pub update_found-trial :
    (sv : Services) (now : ℤ) (dr : Draws) (project : Project) (s : Spec) (t : Terms)
    (items : List Access) (old : Access)
    → Yields
        (λ r. r.0.trial_ends_at ≡ trial_end project s.trial_ends_at old.trial_ends_at)
        (update_found sv now dr project s t items old)
unfolding update_found
update_found-trial sv now dr project s t items old =
    search (Yields-bind, Yields-guard, renew_access-trial) depth 12

trial_end-given :
    (project : Project) (given stored : ℤ)
    → project ≡ textile_erp
    → beq_ℤ given (pos 0) ≡ false
    → trial_end project given stored ≡ given
trial_end-given textile_erp given stored e h = rw h refl
trial_end-given cooler_store given stored e h = absurd (cc)

Yields-eq :
    {A : Type 0} (f : A → ℤ) (x y : ℤ) (r : Result AccessError A)
    → Yields (λ a. f a ≡ x) r
    → x ≡ y
    → Yields (λ a. f a ≡ y) r
Yields-eq f x y (ok a) (gives h) e = gives (h ∙ e)
Yields-eq f x y (err b) h e = fails

update_found-given :
    (sv : Services) (now : ℤ) (dr : Draws) (project : Project) (s : Spec) (t : Terms)
    (items : List Access) (old : Access)
    → project ≡ textile_erp
    → beq_ℤ s.trial_ends_at (pos 0) ≡ false
    → Yields
        (λ (r : Access × Text). r.0.trial_ends_at ≡ s.trial_ends_at)
        (update_found sv now dr project s t items old)
update_found-given sv now dr project s t items old e h =
    Yields-eq (λ (r : Access × Text). r.0.trial_ends_at) _ _
      (update_found sv now dr project s t items old)
      (update_found-trial sv now dr project s t items old)
      (trial_end-given project s.trial_ends_at old.trial_ends_at e h)

update_access-trial :
    (sv : Services) (now : ℤ) (dr : Draws) (id : ℤ) (raw : Spec) (items : List Access)
    → valid_project raw.project_key ≡ some textile_erp
    → beq_ℤ raw.trial_ends_at (pos 0) ≡ false
    → Yields
        (λ (r : Access × Text). r.0.trial_ends_at ≡ raw.trial_ends_at)
        (update_access sv now dr id raw items)
unfolding update_access
update_access-trial sv now dr id raw items key h =
    Yields-bind (or_err (valid_project raw.project_key) invalid_project) _ λ project e.
      let named : project ≡ textile_erp = sym (ok-same (rw key at e)) in
      search (Yields-bind, Yields-guard, update_found-given, named, h) depth 12

same_ids : (i j k : ℤ) → beq_ℤ i k ≡ true → beq_ℤ j k ≡ true → beq_ℤ i j ≡ false → ⊥
same_ids i j k e f h = ground arith

-- No two accounts have the same id.
abbrev pub HasDistinctIds : List Access → Type 0
HasDistinctIds [] = Unit
HasDistinctIds (a ∷ more) = All (λ b. beq_ℤ a.id b.id ≡ false) more × HasDistinctIds more

others-Apart :
    (id : ℤ) (x a : Access) (rest : List Access)
    → has_id id x ≡ true
    → All (λ b. beq_ℤ x.id b.id ≡ false) rest
    → All (λ b. has_id id b ≡ true → b ≡ a) rest
others-Apart id x a [] e h = tt
others-Apart id x a (y ∷ rest) e h =
    (λ same. absurd (same_ids x.id y.id id e same h.0), others-Apart id x a rest e h.1)

-- Where ids are distinct, an id has one account.
one_by_id :
    (id : ℤ) (items : List Access) (a : Access)
    → HasDistinctIds items
    → find (has_id id) items ≡ some a
    → All (λ b. has_id id b ≡ true → b ≡ a) items
one_by_id id [] a d e = tt
one_by_id id (x ∷ more) a d e = elim (Bool-cases (has_id id x)) [
  | inl hit ↦ (λ _. some-injective _ _ (rw hit at e), others-Apart id x a more hit d.0)
  | inr miss ↦ (λ hit. absurd (cc), one_by_id id more a d.1 (rw miss at e))
]

-- The account of an id is the same in the file and in the sorted list.
target-found :
    (id : ℤ) (file : List Row) (target : Access)
    → HasDistinctIds (read_accesses file)
    → find (has_id id) (list_accesses file) ≡ some target
    → find (has_id target.id) (read_accesses file) ≡ some target
unfolding list_accesses
target-found id file target s h =
    let own : target.id ≡ id = (beq_ℤ_iff target.id id).0 (find_sound (has_id id) _ target h) in
    let there : is_some (find (has_id id) (read_accesses file)) ≡ true =
      any-found (has_id id) (read_accesses file)
      ∙ sym (list_accesses-any (has_id id) file)
      ∙ ap is_some h in
    subst (λ i. find (has_id i) (read_accesses file) ≡ some target) (sym own)
      (elim (Option-cases (find (has_id id) (read_accesses file))) [
        | inl missing ↦ absurd (cc (rw missing at there))
        | inr (a, hit) ↦
            hit
            ∙ ap some (
                sym (
                  find-All (λ b. has_id id b ≡ true → b ≡ a) (has_id id) _ target
                    (sort_accesses-All (λ b. has_id id b ≡ true → b ≡ a) (read_accesses file)
                      (one_by_id id (read_accesses file) a s hit))
                    h (find_sound (has_id id) _ target h)))
      ])

IsTarget : ℤ → List Row → Access → Type 0
IsTarget id file a = (find (has_id id) (list_accesses file) ≡ some a) × (a.project ≡ textile_erp)

pub or_err-found : (o : Option Access) (a : Access) → or_err o no_access ≡ ok a → o ≡ some a
or_err-found none a h = absurd (cc)
or_err-found (some b) a h = ap some (ok-same h)

textile_of : (p : Project) (b : Bool) → (b || not (is_textile p)) ≡ false → p ≡ textile_erp
textile_of textile_erp b h = refl
textile_of cooler_store true h = absurd (cc)
textile_of cooler_store false h = absurd (cc)

trial_target-IsTarget :
    (id : ℤ) (file : List Row) → Yields (IsTarget id file) (trial_target id file)
unfolding trial_target IsTarget
trial_target-IsTarget id file =
    Yields-bind (or_err (find (has_id id) (list_accesses file)) no_access) _ λ a e.
      Yields-guard (beq_ℤ a.id (pos 0) || not (is_textile a.project)) no_access _ λ textile.
        Yields-guard (not (is_owner (effective_role a))) not_owner _
          λ top. gives (or_err-found _ a e, textile_of a.project _ textile)

-- A trial that lasts to a time, and the account with it.
abbrev pub HasTrial : ℤ → ℤ → Access → Type 0
HasTrial ends expires a = (a.trial_ends_at ≡ ends) × (a.expires_at ≡ expires)

abbrev pub Granted : ℤ → ℤ → Result AccessError (Access × Text) → Type 0
Granted ends expires r =
    (a : Access) × (shown : Text) × (r ≡ ok (a, shown)) × HasTrial ends expires a

or_stored-Granted :
    (ends expires : ℤ) (a : Access) (file : List Row)
    (r : Result AccessError (Access × Text) × List Row)
    → HasTrial ends expires a
    → ((x : Access × Text) → r.0 ≡ ok x → HasTrial ends expires x.0)
    → Granted ends expires (or_stored a file r).0
or_stored-Granted ends expires a file (err e, file') h k = (a, [], refl, h)
or_stored-Granted ends expires a file (ok x, file') h k = (x.0, x.1, refl, k x refl)

is_not_zero :
    (now : ℤ) (days : ℕ) → pos 0 ≤ℤ now → 1 ≤ days → beq_ℤ (days_after now days) (pos 0) ≡ false
unfolding days_after ◌+ℤ◌
is_not_zero now days h d = ground arith

allowed_days : (days : ℕ) → 1 ≤ days → days ≤ 90 → (ltb days 1 || ltb 90 days) ≡ false
allowed_days days h k = ground arith

textile-valid_project :
    (p : Project) → p ≡ textile_erp → valid_project (project_key p) ≡ some textile_erp
unfolding valid_project text_eq
textile-valid_project textile_erp e = refl
textile-valid_project cooler_store e = absurd (cc)

updated-HasTrial :
    (sv : Services) (now : ℤ) (dr : Draws) (id ends expires : ℤ) (notes : Text) (a : Access)
    (file : List Row) (x : Access × Text)
    → a.project ≡ textile_erp
    → beq_ℤ ends (pos 0) ≡ false
    → (update_managed sv now dr id (spec_of a expires ends notes) file).0 ≡ ok x
    → HasTrial ends expires x.0
unfolding update_managed
updated-HasTrial sv now dr id ends expires notes a file x textile h e =
    let raw = spec_of a expires ends notes in
    let items = read_accesses file in
    let done : update_access sv now dr id raw items ≡ ok x =
      stored-ok file (λ (r : Access × Text). update_first (has_id id) (λ _. r.0) items) _ x e in
    (
      Yields-ok
          (update_access-trial sv now dr id raw items (textile-valid_project a.project textile) h)
          done,
      (Yields-ok (update_access-IsGranted sv now dr id raw items) done).1.7,
    )

push_trial-Granted :
    (sv : Services) (now : ℤ) (dr : Draws) (ends expires : ℤ) (notes : Text) (a : Access)
    (file : List Row)
    → a.project ≡ textile_erp
    → beq_ℤ ends (pos 0) ≡ false
    → Granted ends expires
        (push_trial sv now dr expires ends notes (trial_terms ends expires notes a) file).0
push_trial-Granted sv now dr ends expires notes a file textile h =
    let a' = trial_terms ends expires notes a in
    or_stored-Granted ends expires a' file
      (update_managed sv now dr a'.id (spec_of a' expires ends notes) file) (refl, refl)
      (λ x e. updated-HasTrial sv now dr a'.id ends expires notes a' file x textile h e)

-- Where no two accounts of the file have the same id and the time is not before Go's zero time,
-- `grantFullTrial` for 1 to 90 days on the account of an owner of the textile project succeeds whatever
-- the other servers answer, and also where the update of the account is refused: the account that it
-- returns has a trial for that many days from now, and lasts as long as it did or as the trial, whichever
-- is later.
pub trial_lasts :
    (sv : Services) (now : ℤ) (dr : Draws) (note : Text) (id : ℤ) (days : ℕ) (file : List Row)
    (target : Access)
    → HasDistinctIds (read_accesses file)
    → trial_target id file ≡ ok target
    → pos 0 ≤ℤ now
    → 1 ≤ days
    → days ≤ 90
    → Granted
        (days_after now days)
        (later_of target.expires_at (days_after now days))
        (grant_full_trial sv now dr note id days file).0
unfolding grant_full_trial store_trial change_first IsTarget
trial_lasts sv now dr note id days file target s h n d d' =
    let (hit, textile) = Yields-ok (trial_target-IsTarget id file) h in
    rw (allowed_days days d d', h, target-found id file target s hit)
      (push_trial-Granted sv now dr (days_after now days)
        (later_of target.expires_at (days_after now days)) (trial_notes target note) target _
        textile (is_not_zero now days n d))
