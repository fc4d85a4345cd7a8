-- ===== src/Portal/Team/Below.antt =====
-- portal_server/main.go: what the account of a member has, by its flags or by a trial, and what the manager has.
use textile_erp_cloud.Base.Bools.{or_right}
use textile_erp_cloud.Portal.Team.Pages.{IsPage}
use textile_erp_cloud.Base.{
  ◌≡◌, ◌⊎◌, ◌||◌, refl, inl, inr, Bool, true, false, not, ◌&&◌, arith, All,
}
use textile_erp_cloud.Base.Int.{ℤ, pos, ltb_ℤ, beq_ℤ}
use textile_erp_cloud.Portal.Access.{
  textile_erp, is_textile, is_owner, Access, effective_role, effective_financial,
  effective_operational, effective_weaving, effective_can_manage, trial_active,
}
use textile_erp_cloud.Portal.Terms.{trial_on}

-- What the account of a member has at a time, by a flag or by a trial, against that of the manager.
pub record IsBelow (m : Access) (now : ℤ) (a : Access) : Type 0 where
  pub role : is_owner (effective_role a) ≡ false
  pub financial : effective_financial a now ≡ true → effective_financial m now ≡ true
  pub operational : effective_operational a now ≡ true → effective_operational m now ≡ true
  pub weaving : effective_weaving a now ≡ true → effective_weaving m now ≡ true
  pub team : effective_can_manage a ≡ true → is_owner (effective_role m) ≡ true
  pub pages : All IsPage a.permissions

-- The same of the flags that are stored, and of what they and a trial give, where a trial of the id in
-- the file before may give the modules as well.
pub record IsBelowOr (before : Bool) (m : Access) (now : ℤ) (a : Access) : Type 0 where
  pub role : is_owner (effective_role a) ≡ false
  pub financial_flag : a.allow_financial ≡ true → effective_financial m now ≡ true
  pub operational_flag : a.allow_operational ≡ true → effective_operational m now ≡ true
  pub weaving_flag : a.allow_weaving ≡ true → effective_weaving m now ≡ true
  pub financial :
      effective_financial a now ≡ true → (effective_financial m now ≡ true) ⊎ (before ≡ true)
  pub operational :
      effective_operational a now ≡ true → (effective_operational m now ≡ true) ⊎ (before ≡ true)
  pub weaving : effective_weaving a now ≡ true → (effective_weaving m now ≡ true) ⊎ (before ≡ true)
  pub team : effective_can_manage a ≡ true → is_owner (effective_role m) ≡ true
  pub pages : All IsPage a.permissions

-- What is stored in the account of a member.
pub record HasBelow (m : Access) (now : ℤ) (a : Access) : Type 0 where
  pub project : a.project ≡ textile_erp
  pub role : is_owner (effective_role a) ≡ false
  pub financial : a.allow_financial ≡ true → effective_financial m now ≡ true
  pub operational : a.allow_operational ≡ true → effective_operational m now ≡ true
  pub weaving : a.allow_weaving ≡ true → effective_weaving m now ≡ true
  pub team : a.can_manage_team ≡ true → is_owner (effective_role m) ≡ true
  pub pages : All IsPage a.permissions

flag_or_trial : (x f t : Bool) → (x && (f || t)) ≡ true → (f ≡ true) ⊎ (t ≡ true)
flag_or_trial true true t h = inl refl
flag_or_trial true false t h = inr h
flag_or_trial false f t h = absurd (cc)

not_top : (x f r : Bool) → (x && (f || r)) ≡ true → r ≡ false → f ≡ true
not_top x f r h e = ground arith

by_flag : {A : Type 0} (x f t : Bool) → (f ≡ true → A) → (t ≡ true → A) → (x && (f || t)) ≡ true → A
by_flag x f t given tried h = elim (flag_or_trial x f t h) [
  | inl flag ↦ given flag
  | inr trial ↦ tried trial
]

-- A trial gives all modules.
pub record HasAll (m : Access) (now : ℤ) : Type 0 where
  pub financial : effective_financial m now ≡ true
  pub operational : effective_operational m now ≡ true
  pub weaving : effective_weaving m now ≡ true

pub trial-HasAll :
    (m : Access) (now : ℤ)
    → m.project ≡ textile_erp
    → trial_on now m.trial_ends_at ≡ true
    → HasAll m now
unfolding effective_financial effective_operational effective_weaving trial_active
trial-HasAll m now e h = record {
  financial = rw e (or_right m.allow_financial _ h);
  operational = rw e (or_right m.allow_operational _ h);
  weaving = rw e (or_right m.allow_weaving _ h);
}

trial_of_all : (x y z : Bool) → (x && y && z) ≡ true → (y && z) ≡ true
trial_of_all x y z h = ground arith

active-trial_on :
    (a : Access) (now : ℤ) → trial_active a now ≡ true → trial_on now a.trial_ends_at ≡ true
unfolding trial_active
active-trial_on a now h =
    trial_of_all (is_textile a.project) (not (beq_ℤ a.trial_ends_at (pos 0)))
      (ltb_ℤ now a.trial_ends_at) h

pub HasBelow-IsBelow :
    (m : Access) (now : ℤ) (a : Access)
    → HasBelow m now a
    → (trial_on now a.trial_ends_at ≡ true → HasAll m now)
    → IsBelow m now a
unfolding effective_financial effective_operational effective_weaving effective_can_manage
HasBelow-IsBelow m now a b t = record {
  role = b.role;
  financial = by_flag _ _ _ b.financial (λ h. (t (active-trial_on a now h)).financial);
  operational = by_flag _ _ _ b.operational (λ h. (t (active-trial_on a now h)).operational);
  weaving = by_flag _ _ _ b.weaving (λ h. (t (active-trial_on a now h)).weaving);
  team = λ h. b.team (not_top _ _ _ h b.role);
  pages = b.pages;
}

pub HasBelow-IsBelowOr :
    (before : Bool) (m : Access) (now : ℤ) (a : Access)
    → HasBelow m now a
    → (trial_on now a.trial_ends_at ≡ true → before ≡ true)
    → IsBelowOr before m now a
unfolding effective_financial effective_operational effective_weaving effective_can_manage
HasBelow-IsBelowOr before m now a b t = record {
  role = b.role;
  financial_flag = b.financial;
  operational_flag = b.operational;
  weaving_flag = b.weaving;
  financial = by_flag _ _ _ (λ h. inl (b.financial h)) (λ h. inr (t (active-trial_on a now h)));
  operational = by_flag _ _ _ (λ h. inl (b.operational h)) (λ h. inr (t (active-trial_on a now h)));
  weaving = by_flag _ _ _ (λ h. inl (b.weaving h)) (λ h. inr (t (active-trial_on a now h)));
  team = λ h. b.team (not_top _ _ _ h b.role);
  pages = b.pages;
}
