-- ===== src/Portal/Accounts/Setup.antt =====
-- The first use of an account of portal_server/main.go, `finalizeAccessSetup`: the new name is no one else's.
use mathlib.Core.Path.{subst}
use mathlib.Core.Option.{some-injective}
use textile_erp_cloud.Base.{
  ◌≡◌, refl, ap, inl, inr, Bool, true, false, ◌&&◌, Option, none, some, List, [], ◌∷◌, Bool-cases,
  find, find-All, update_first, if◌then◌else◌,
}
use textile_erp_cloud.Base.Int.{beq_ℤ_iff}
use textile_erp_cloud.Base.Result.{
  Result, ok, err, Yields, gives, Yields-bind, Yields-guard, ok-same, or_err,
}
use textile_erp_cloud.Base.Text.{Text, is_empty, trim_space}
use textile_erp_cloud.Portal.Access.{Access, is_textile}
use textile_erp_cloud.Portal.Services.{AccessError, no_access, Services}
use textile_erp_cloud.Portal.Store.{Row, read_accesses, has_id, has_token, username_taken}
use textile_erp_cloud.Portal.Store.Distinct.{Apart, IsCounted, IsDistinct, IsSound}
use textile_erp_cloud.Portal.Store.Kept.{IsSoundFile, IsSound-written, IsSound-replace}
use textile_erp_cloud.Portal.Accounts.{first_owner, set_up, check_setup, finalize_setup}
use textile_erp_cloud.Portal.Steps.{and_then, changed, change_first}

-- Where ids are distinct, the first hit is replaced by its id.
update_first-by_id :
    (p : Access → Bool) (f : Access → Access) (items : List Access) (a : Access)
    → IsDistinct items
    → find p items ≡ some a
    → update_first p f items ≡ update_first (has_id a.id) (λ _. f a) items
update_first-by_id p f [] a d e = refl
update_first-by_id p f (x ∷ more) a d e = elim (Bool-cases (p x)) [
  | inl hit ↦
      let same : x ≡ a = some-injective _ _ (rw hit at e) in
      let own : has_id a.id x ≡ true = (beq_ℤ_iff x.id a.id).1 (ap (λ (y : Access). y.id) same) in
      rw (hit, own) (ap (λ y. f y ∷ more) same)
  | inr miss ↦
      let e' : find p more ≡ some a = rw miss at e in
      let other : has_id a.id x ≡ false = (find-All (Apart x) p more a d.0 e').0 in
      rw (miss, other) (ap (λ rest. x ∷ rest) (update_first-by_id p f more a d.1 e'))
]

first_owner-key :
    (a : Access)
    → ((first_owner a).id ≡ a.id)
      × ((first_owner a).project ≡ a.project)
      × ((first_owner a).username ≡ a.username)
first_owner-key a = elim (Bool-cases (is_textile a.project && is_empty a.access_role)) [
  | inl new ↦ rw new (refl, refl, refl)
  | inr old ↦ rw old (refl, refl, refl)
]

set_up-key :
    (contact username hash enc : Text) (a : Access)
    → ((set_up contact username hash enc a).id ≡ a.id)
      × ((set_up contact username hash enc a).project ≡ a.project)
      × ((set_up contact username hash enc a).username ≡ username)
set_up-key contact username hash enc a = first_owner-key (record a {
  contact_name = if is_empty contact then a.contact_name else contact;
  username = username;
  password_hash = hash;
  password_enc = enc;
  requires_setup = false;
  must_change_password = false;
})

-- What `check_setup` has made sure of.
abbrev IsFreeFor : Text → Text → List Access → Text × Text → Type 0
IsFreeFor token username items r =
    (a : Access)
    → find (has_token token) items ≡ some a
    → username_taken items a.project username a.id ≡ false

free_for :
    (token username : Text) (items : List Access) (r : Text × Text) (a : Access)
    → or_err (find (has_token token) items) no_access ≡ ok a
    → username_taken items a.project username a.id ≡ false
    → IsFreeFor token username items r
free_for token username items r a e free b hit =
    let same : b ≡ a = ok-same (rw hit at e) in rw same free

check_setup-IsFreeFor :
    (sv : Services) (token username password : Text) (items : List Access)
    → Yields (IsFreeFor token username items) (check_setup sv token username password items)
unfolding check_setup
check_setup-IsFreeFor sv token username password items =
    search (Yields-bind, Yields-guard, gives, free_for) depth 12

set_up-IsSound :
    (token contact username hash enc : Text) (items : List Access) (a : Access)
    → IsSound items
    → find (has_token token) items ≡ some a
    → username_taken items a.project username a.id ≡ false
    → IsSound (update_first (has_token token) (set_up contact username hash enc) items)
set_up-IsSound token contact username hash enc items a s hit free =
    let n = set_up contact username hash enc a in
    let (i, p, u) = set_up-key contact username hash enc a in
    rw (update_first-by_id (has_token token) (set_up contact username hash enc) items a s.1 hit) (
      subst (λ id. IsSound (update_first (has_id id) (λ _. n) items)) i
        (IsSound-replace items n s (rw i (find-All IsCounted (has_token token) items a s.0 hit))
          (rw (i, p, u) free)))

changed-IsSoundFile :
    (token contact username hash enc : Text) (file : List Row) (found : Option Access)
    → find (has_token token) (read_accesses file) ≡ found
    → IsFreeFor token username (read_accesses file) (hash, enc)
    → IsSoundFile file
    → IsSoundFile (changed (has_token token) (set_up contact username hash enc) file found).1
changed-IsSoundFile token contact username hash enc file none e free h = h
changed-IsSoundFile token contact username hash enc file (some a) e free h =
    IsSound-written _
      (set_up-IsSound token contact username hash enc (read_accesses file) a h.sound e (free a e))

checked-IsSoundFile :
    (token contact username : Text) (file : List Row) (r : Result AccessError (Text × Text))
    → Yields (IsFreeFor token username (read_accesses file)) r
    → IsSoundFile file
    → IsSoundFile
        (and_then
          (λ (r : Text × Text). change_first (has_token token) (set_up contact username r.0 r.1))
          (r, file)).1
unfolding change_first
checked-IsSoundFile token contact username file (ok (hash, enc)) (gives free) h =
    changed-IsSoundFile token contact username hash enc file
      (find (has_token token) (read_accesses file)) refl free h
checked-IsSoundFile token contact username file (err e) y h = h

pub finalize_setup-IsSoundFile :
    (sv : Services) (token contact username password : Text) (file : List Row)
    → IsSoundFile file
    → IsSoundFile (finalize_setup sv token contact username password file).1
unfolding finalize_setup
finalize_setup-IsSoundFile sv token contact username password file h =
    checked-IsSoundFile token (trim_space contact) (trim_space username) file
      (check_setup sv token (trim_space username) (trim_space password) (read_accesses file))
      (check_setup-IsFreeFor sv token (trim_space username) (trim_space password)
        (read_accesses file))
      h
