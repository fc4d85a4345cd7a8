-- ===== src/Portal/Managed/Sound.antt =====
-- The accounts stay distinct under `createManagedAccess` and `updateManagedAccess` of
-- portal_server/main.go.
use mathlib.Core.Path.{subst}
use textile_erp_cloud.Base.{
  true, is_some, ◌∙◌, ap, some, inl, inr, Option-cases, ◌≡◌, refl, Bool, false, some, List, [], ◌∷◌,
  ◌++◌, find, find_sound, find-All, update_first, All,
}
use textile_erp_cloud.Base.Int.{ℤ, pos, beq_ℤ_iff}
use textile_erp_cloud.Base.Result.{
  Result, ok, err, or_err, Yields, fails, gives, Yields-bind, Yields-guard, ok-same,
}
use textile_erp_cloud.Base.Text.{Text}
use textile_erp_cloud.Portal.Access.{Project, Access}
use textile_erp_cloud.Portal.Managed.{
  open_access, create_locked, create_access, stored, create_managed, renew_access, update_found,
  update_access, update_managed,
}
use textile_erp_cloud.Portal.Terms.{Spec, Terms, terms_of}
use textile_erp_cloud.Portal.Services.{AccessError, no_access, Services, Draws}
use textile_erp_cloud.Portal.Store.{Row, read_accesses, next_id, has_id, username_taken}
use textile_erp_cloud.Portal.Store.Distinct.{IsCounted, IsSound}
use textile_erp_cloud.Portal.Store.Kept.{
  IsSoundFile, IsSound-append, IsSound-replace, IsSound-written,
}

-- The id, the project and the name of the account that a call gives.
abbrev Keyed : ℤ → Project → Text → Access × Text → Type 0
Keyed id project username r = (r.0.id ≡ id) × (r.0.project ≡ project) × (r.0.username ≡ username)

key :
    {id : ℤ} {project : Project} {username : Text}
    → (id ≡ id) × (project ≡ project) × (username ≡ username)
key = (refl, refl, refl)

open_access-Keyed :
    (sv : Services) (now : ℤ) (dr : Draws) (project : Project) (s : Spec) (t : Terms) (trial : Bool)
    (company : ℤ) (username password : Text) (items : List Access)
    → Yields
        (Keyed (next_id items) project username)
        (open_access sv now dr project s t trial company username password items)
unfolding open_access
open_access-Keyed sv now dr project s t trial company username password items =
    search (Yields-bind, Yields-guard, gives, key) depth 12

renew_access-Keyed :
    (sv : Services) (now : ℤ) (dr : Draws) (project : Project) (s : Spec) (t : Terms) (trial : Bool)
    (ends : ℤ) (username password : Text) (old : Access) (items : List Access)
    → Yields
        (Keyed old.id project username)
        (renew_access sv now dr project s t trial ends username password old items)
unfolding renew_access
renew_access-Keyed sv now dr project s t trial ends username password old items =
    search (Yields-bind, Yields-guard, gives, key) depth 12

-- The new account can be added.
abbrev CanAppend : List Access → Access × Text → Type 0
CanAppend items r = IsSound (items ++ (r.0 ∷ []))

weaken :
    {P Q : Access × Text → Type 0} {r : Result AccessError (Access × Text)}
    → ((a : Access × Text) → P a → Q a)
    → Yields P r
    → Yields Q r
weaken f fails = fails
weaken f (gives p) = gives (f _ p)

open_access-CanAppend :
    (sv : Services) (now : ℤ) (dr : Draws) (project : Project) (s : Spec) (t : Terms) (trial : Bool)
    (company : ℤ) (username password : Text) (items : List Access)
    → IsSound items
    → username_taken items project username (pos 0) ≡ false
    → Yields
        (CanAppend items)
        (open_access sv now dr project s t trial company username password items)
open_access-CanAppend sv now dr project s t trial company username password items sound free =
    weaken (λ r k. IsSound-append items r.0 sound k.0 (rw (k.1, k.2) free))
      (open_access-Keyed sv now dr project s t trial company username password items)

create_access-CanAppend :
    (sv : Services) (now : ℤ) (dr : Draws) (raw : Spec) (items : List Access)
    → IsSound items
    → Yields (CanAppend items) (create_access sv now dr raw items)
unfolding create_access create_locked
create_access-CanAppend sv now dr raw items sound =
    search (Yields-bind, Yields-guard, open_access-CanAppend) depth 12

-- The account with the changed fields can take the place of the old one.
abbrev CanReplace : ℤ → List Access → Access × Text → Type 0
CanReplace id items r = IsSound (update_first (has_id id) (λ _. r.0) items)

renew_access-CanReplace :
    (sv : Services) (now : ℤ) (dr : Draws) (project : Project) (s : Spec) (t : Terms) (trial : Bool)
    (ends : ℤ) (username password : Text) (old : Access) (items : List Access)
    → IsSound items
    → IsCounted old
    → username_taken items project username old.id ≡ false
    → Yields
        (CanReplace old.id items)
        (renew_access sv now dr project s t trial ends username password old items)
renew_access-CanReplace sv now dr project s t trial ends username password old items sound c free =
    weaken
      (λ r k.
        subst (λ i. IsSound (update_first (has_id i) (λ _. r.0) items)) k.0
          (IsSound-replace items r.0 sound (rw (k.0) c) (rw (k.0, k.1, k.2) free)))
      (renew_access-Keyed sv now dr project s t trial ends username password old items)

update_found-CanReplace :
    (sv : Services) (now : ℤ) (dr : Draws) (project : Project) (s : Spec) (t : Terms)
    (items : List Access) (old : Access)
    → IsSound items
    → IsCounted old
    → Yields (CanReplace old.id items) (update_found sv now dr project s t items old)
unfolding update_found
update_found-CanReplace sv now dr project s t items old sound c =
    search (Yields-bind, Yields-guard, renew_access-CanReplace) depth 12

find-has_id :
    (id : ℤ) (items : List Access) (a : Access)
    → or_err (find (has_id id) items) no_access ≡ ok a
    → All IsCounted items
    → (a.id ≡ id) × IsCounted a
find-has_id id items a e c = elim (Option-cases (find (has_id id) items)) [
  | inl missing ↦ absurd (cc (rw missing at e))
  | inr (b, hit) ↦
      let same : b ≡ a = ok-same (rw hit at e) in
      let hit' : find (has_id id) items ≡ some a = rw (← same) hit in
      (
        (beq_ℤ_iff a.id id).0 (find_sound (has_id id) items a hit'),
        find-All IsCounted (has_id id) items a c hit',
      )
]

found-CanReplace :
    (sv : Services) (now : ℤ) (dr : Draws) (id : ℤ) (project : Project) (s : Spec)
    (items : List Access)
    → IsSound items
    → (old : Access) → or_err (find (has_id id) items) no_access ≡ ok old
    → Yields (CanReplace id items) (update_found sv now dr project s (terms_of project s) items old)
found-CanReplace sv now dr id project s items sound old e =
    let (same, c) = find-has_id id items old e sound.0 in
    subst
      (λ i.
        Yields (CanReplace i items)
          (update_found sv now dr project s (terms_of project s) items old))
      same (update_found-CanReplace sv now dr project s (terms_of project s) items old sound c)

update_access-CanReplace :
    (sv : Services) (now : ℤ) (dr : Draws) (id : ℤ) (raw : Spec) (items : List Access)
    → IsSound items
    → Yields (CanReplace id items) (update_access sv now dr id raw items)
unfolding update_access
update_access-CanReplace sv now dr id raw items sound =
    search (Yields-bind, Yields-guard, found-CanReplace) depth 12

-- What a call leaves of the file.
pub stored-IsSoundFile :
    {A : Type 0} (file : List Row) (f : A → List Access) (r : Result AccessError A)
    → Yields (λ a. IsSound (f a)) r
    → IsSoundFile file
    → IsSoundFile (stored file f r).1
stored-IsSoundFile file f (ok a) (gives s) h = IsSound-written (f a) s
stored-IsSoundFile file f (err e) y h = h

pub create_managed-IsSoundFile :
    (sv : Services) (now : ℤ) (dr : Draws) (spec : Spec) (file : List Row)
    → IsSoundFile file
    → IsSoundFile (create_managed sv now dr spec file).1
unfolding create_managed
create_managed-IsSoundFile sv now dr spec file h =
    stored-IsSoundFile file (λ r. read_accesses file ++ (r.0 ∷ []))
      (create_access sv now dr spec (read_accesses file))
      (create_access-CanAppend sv now dr spec (read_accesses file) h.sound) h

pub update_managed-IsSoundFile :
    (sv : Services) (now : ℤ) (dr : Draws) (id : ℤ) (spec : Spec) (file : List Row)
    → IsSoundFile file
    → IsSoundFile (update_managed sv now dr id spec file).1
unfolding update_managed
update_managed-IsSoundFile sv now dr id spec file h =
    stored-IsSoundFile file (λ r. update_first (has_id id) (λ _. r.0) (read_accesses file))
      (update_access sv now dr id spec (read_accesses file))
      (update_access-CanReplace sv now dr id spec (read_accesses file) h.sound) h

-- The ids of the accounts that the two functions give.
abbrev pub HasNextId : List Access → Access × Text → Type 0
HasNextId items r = r.0.id ≡ next_id items

open_access-HasNextId :
    (sv : Services) (now : ℤ) (dr : Draws) (project : Project) (s : Spec) (t : Terms) (trial : Bool)
    (company : ℤ) (username password : Text) (items : List Access)
    → Yields
        (HasNextId items)
        (open_access sv now dr project s t trial company username password items)
open_access-HasNextId sv now dr project s t trial company username password items =
    weaken (λ r k. k.0)
      (open_access-Keyed sv now dr project s t trial company username password items)

pub create_access-HasNextId :
    (sv : Services) (now : ℤ) (dr : Draws) (raw : Spec) (items : List Access)
    → Yields (HasNextId items) (create_access sv now dr raw items)
unfolding create_access create_locked
create_access-HasNextId sv now dr raw items =
    search (Yields-bind, Yields-guard, open_access-HasNextId) depth 12

-- The account was there before.
abbrev pub HasOldId : ℤ → List Access → Access × Text → Type 0
HasOldId id items r = (r.0.id ≡ id) × (is_some (find (has_id id) items) ≡ true)

renew_access-HasId :
    (sv : Services) (now : ℤ) (dr : Draws) (project : Project) (s : Spec) (t : Terms) (trial : Bool)
    (ends : ℤ) (username password : Text) (old : Access) (items : List Access)
    → Yields
        (λ r. r.0.id ≡ old.id)
        (renew_access sv now dr project s t trial ends username password old items)
renew_access-HasId sv now dr project s t trial ends username password old items =
    weaken (λ r k. k.0)
      (renew_access-Keyed sv now dr project s t trial ends username password old items)

update_found-HasId :
    (sv : Services) (now : ℤ) (dr : Draws) (project : Project) (s : Spec) (t : Terms)
    (items : List Access) (old : Access)
    → Yields (λ r. r.0.id ≡ old.id) (update_found sv now dr project s t items old)
unfolding update_found
update_found-HasId sv now dr project s t items old =
    search (Yields-bind, Yields-guard, renew_access-HasId) depth 12

found-HasOldId :
    (sv : Services) (now : ℤ) (dr : Draws) (id : ℤ) (project : Project) (s : Spec)
    (items : List Access) (old : Access)
    → or_err (find (has_id id) items) no_access ≡ ok old
    → Yields (HasOldId id items) (update_found sv now dr project s (terms_of project s) items old)
found-HasOldId sv now dr id project s items old e = elim (Option-cases (find (has_id id) items)) [
  | inl missing ↦ absurd (cc (rw missing at e))
  | inr (b, hit) ↦
      let same : b ≡ old = ok-same (rw hit at e) in
      let own : old.id ≡ id =
        (beq_ℤ_iff old.id id).0 (find_sound (has_id id) items old (hit ∙ ap some same)) in
      weaken (λ r k. (k ∙ own, rw hit refl))
        (update_found-HasId sv now dr project s (terms_of project s) items old)
]

pub update_access-HasOldId :
    (sv : Services) (now : ℤ) (dr : Draws) (id : ℤ) (raw : Spec) (items : List Access)
    → Yields (HasOldId id items) (update_access sv now dr id raw items)
unfolding update_access
update_access-HasOldId sv now dr id raw items =
    search (Yields-bind, Yields-guard, found-HasOldId) depth 12
