-- ===== src/Portal/Team/Trials.antt =====
-- What the handlers of the team in portal_server/main.go do to the ends of trials in the file of accounts.
use textile_erp_cloud.Base.{
  ◌≡◌, refl, sym, ap, ◌∙◌, inl, inr, Bool, true, false, not, ◌&&◌, ◌||◌, none, some, Option, List,
  [], ◌∷◌, map, arith, Bool-cases, find, find_sound, keep, update_first,
}
use textile_erp_cloud.Base.Bools.{and_both, or_right}
use textile_erp_cloud.Base.Int.{ℤ}
use textile_erp_cloud.Base.Result.{Result, ok, err}
use textile_erp_cloud.Base.Text.{Text, is_empty, trim_space}
use textile_erp_cloud.Portal.Access.{Access, is_textile, same_tenant}
use textile_erp_cloud.Portal.Accounts.{
  with_tenant, persist_tenant, ready_call, weaving_ready, weaving_owner, company_weaving_ready,
}
use textile_erp_cloud.Portal.Services.{AccessError, Services, Draws, provision_weaving}
use textile_erp_cloud.Portal.Steps.{and_then, changed, change_first}
use textile_erp_cloud.Portal.Store.{
  Row, named_owner, old_modules, old_permissions, read_row, read_accesses, write_row, has_id, any,
  tenant_accesses, tenant_access_by_id, existing_tenant,
}
use textile_erp_cloud.Portal.Store.Hits.{find-any, sort_accesses-any}
use textile_erp_cloud.Portal.Store.Kept.{read_row-key, read_written}
use textile_erp_cloud.Portal.Team.{weaving_first}
use textile_erp_cloud.Portal.Terms.{trial_on}

-- An account of that id whose trial ends after that time.
abbrev pub has_trial : ℤ → ℤ → Access → Bool
has_trial id now a = has_id id a && trial_on now a.trial_ends_at

old_permissions-trial : (a : Access) → (old_permissions a).trial_ends_at ≡ a.trial_ends_at
old_permissions-trial a = ground arith

old_modules-trial : (b : Bool) (a : Access) → (old_modules b a).trial_ends_at ≡ a.trial_ends_at
old_modules-trial b a = ground arith

named_owner-trial : (a : Access) → (named_owner a).trial_ends_at ≡ a.trial_ends_at
named_owner-trial a = ground arith

read_row-trial : (r : Row) → (read_row r).trial_ends_at ≡ r.access.trial_ends_at
unfolding read_row
read_row-trial r = elim (Bool-cases (is_textile r.access.project)) [
  | inr other ↦ rw other refl
  | inl textile ↦ rw textile (
      old_permissions-trial (old_modules r.names_flag (named_owner r.access))
      ∙ old_modules-trial r.names_flag (named_owner r.access)
      ∙ named_owner-trial r.access)
]

written-has_trial :
    (id now : ℤ) (a : Access) → has_trial id now (read_row (write_row a)) ≡ has_trial id now a
written-has_trial id now a = rw ((read_row-key (write_row a)).0, read_row-trial (write_row a)) refl

map-any :
    (q : Access → Bool) (f : Access → Access) (items : List Access)
    → ((a : Access) → q (f a) ≡ q a)
    → any q (map f items) ≡ any q items
map-any q f [] h = refl
map-any q f (a ∷ more) h = rw (h a, map-any q f more h) refl

update_first-any :
    (q p : Access → Bool) (f : Access → Access) (items : List Access)
    → ((a : Access) → q (f a) ≡ q a)
    → any q (update_first p f items) ≡ any q items
update_first-any q p f [] h = refl
update_first-any q p f (a ∷ more) h = elim (Bool-cases (p a)) [
  | inl hit ↦ rw (hit, h a) refl
  | inr miss ↦ rw (miss, update_first-any q p f more h) refl
]

keep-any :
    (q p : Access → Bool) (items : List Access) → any q (keep p items) ≡ true → any q items ≡ true
keep-any q p [] h = h
keep-any q p (a ∷ more) h = elim (Bool-cases (p a)) [
  | inl hit ↦ first (q a) (any q (keep p more)) (any q more) (keep-any q p more) (rw hit at h)
  | inr miss ↦ or_right (q a) (any q more) (keep-any q p more (rw miss at h))
]
  where
    first : (b c d : Bool) → (c ≡ true → d ≡ true) → (b || c) ≡ true → (b || d) ≡ true
    first true c d k h = refl
    first false c d k h = k h

-- Whether the file has such an account.
abbrev pub has_trial_in : ℤ → ℤ → List Row → Bool
has_trial_in id now file = any (has_trial id now) (read_accesses file)

-- A call after which the file has the same trials.
abbrev SameTrials : ℤ → ℤ → List Row → List Row → Type 0
SameTrials id now file file' = has_trial_in id now file' ≡ has_trial_in id now file

changed-SameTrials :
    (id now : ℤ) (p : Access → Bool) (tenant : Text) (file : List Row) (found : Option Access)
    → SameTrials id now file (changed p (with_tenant tenant) file found).1
changed-SameTrials id now p tenant file none = refl
changed-SameTrials id now p tenant file (some a) =
    let items = read_accesses file in
    ap (any (has_trial id now)) (read_written (update_first p (with_tenant tenant) items))
    ∙ map-any (has_trial id now) (λ a. read_row (write_row a))
        (update_first p (with_tenant tenant) items) (written-has_trial id now)
    ∙ update_first-any (has_trial id now) p (with_tenant tenant) items (λ a. refl)

persist_tenant-SameTrials :
    (id now : ℤ) (of : ℤ) (tenant : Text) (file : List Row)
    → SameTrials id now file (persist_tenant of tenant file).1
unfolding persist_tenant change_first
persist_tenant-SameTrials id now of tenant file = elim (Bool-cases (is_empty (trim_space tenant))) [
  | inl missing ↦ rw missing refl
  | inr given ↦ rw given (
      changed-SameTrials id now (has_id of) (trim_space tenant) file
        (find (has_id of) (read_accesses file)))
]

and_then-SameTrials :
    {A B : Type 0} (id now : ℤ) (k : A → List Row → Result AccessError B × List Row)
    (r : Result AccessError A) (file : List Row)
    → ((a : A) → SameTrials id now file (k a file).1)
    → SameTrials id now file (and_then k (r, file)).1
and_then-SameTrials id now k (ok a) file h = h a
and_then-SameTrials id now k (err e) file h = refl

weaving_ready-SameTrials :
    (id now : ℤ) (sv : Services) (dr : Draws) (a : Access) (file : List Row)
    → SameTrials id now file (weaving_ready sv dr a file).1
unfolding weaving_ready
weaving_ready-SameTrials id now sv dr a file =
    elim (Bool-cases (not (is_empty (trim_space a.weaving_tenant_id)))) [
      | inl ready ↦ rw ready refl
      | inr missing ↦ rw missing (
          and_then-SameTrials id now (persist_tenant a.id)
            (provision_weaving sv (ready_call sv dr a)) file
            (λ tenant. persist_tenant-SameTrials id now a.id tenant file))
    ]

company_weaving_ready-SameTrials :
    (id now : ℤ) (sv : Services) (dr : Draws) (a : Access) (file : List Row)
    → SameTrials id now file (company_weaving_ready sv dr a file).1
unfolding company_weaving_ready
company_weaving_ready-SameTrials id now sv dr a file =
    elim (Bool-cases
      (not (is_empty (existing_tenant (tenant_accesses a file) a.financial_company_id)))) [
        | inl ready ↦ rw ready refl
        | inr missing ↦ rw missing (
            and_then-SameTrials id now (weaving_ready sv dr)
              (weaving_owner (tenant_accesses a file)) file
              (λ o. weaving_ready-SameTrials id now sv dr o file))
      ]

-- Preparing the weaving hall changes no trial.
pub weaving_first-SameTrials :
    (id now : ℤ) (sv : Services) (dr : Draws) (m : Access) (wanted : Bool) (file : List Row)
    → has_trial_in id now (weaving_first sv dr m wanted file).1 ≡ has_trial_in id now file
weaving_first-SameTrials id now sv dr m true file =
    company_weaving_ready-SameTrials id now sv dr m file
weaving_first-SameTrials id now sv dr m false file = refl

-- An account of a tenant is one of the file.
pub tenant_access_by_id-has_trial :
    (asker : Access) (id now : ℤ) (file : List Row) (a : Access)
    → tenant_access_by_id asker id file ≡ some a
    → trial_on now a.trial_ends_at ≡ true
    → has_trial_in id now file ≡ true
unfolding tenant_access_by_id tenant_accesses
tenant_access_by_id-has_trial asker id now file a h e =
    let kept = keep (same_tenant asker) (read_accesses file) in
    keep-any (has_trial id now) (same_tenant asker) (read_accesses file) (
      sym (sort_accesses-any (has_trial id now) kept)
      ∙ find-any (has_id id) (has_trial id now) _ a h
          (and_both (has_id id a) _ (find_sound (has_id id) _ a h) e))

-- So is the account that an update finds.
pub found-has_trial :
    (id now : ℤ) (items : List Access) (a : Access)
    → find (has_id id) items ≡ some a
    → trial_on now a.trial_ends_at ≡ true
    → any (has_trial id now) items ≡ true
found-has_trial id now items a h e =
    find-any (has_id id) (has_trial id now) items a h
      (and_both (has_id id a) _ (find_sound (has_id id) items a h) e)
