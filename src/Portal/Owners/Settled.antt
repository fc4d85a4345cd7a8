-- ===== src/Portal/Owners/Settled.antt =====
-- After the repair of portal_server/owner_integrity.go every company that can have an owner has one.
use textile_erp_cloud.Base.Bools.{and_both, and_left, or_left, or_right, or_neither}
use textile_erp_cloud.Base.{
  ℕ, ◌≡◌, ◌⊎◌, refl, ap, ◌∙◌, inl, inr, Bool, true, false, ◌||◌, Option, none, some, List, [], ◌∷◌,
  Bool-cases, All, if◌then◌else◌,
}
use textile_erp_cloud.Base.Text.{text_eq, to_lower, trim_space}
use textile_erp_cloud.Portal.Access.{
  is_owner, normalize_role, role_name, owner, requires_setup_now, Access,
}
use textile_erp_cloud.Portal.Owners.{
  TenantKey, tenant_key, has_key_of, in_group, owns_group, is_candidate, is_older, promote, choose,
  pass_over, pick, picked, repair_group, repair_keys,
}
use textile_erp_cloud.Portal.Store.{any}

-- The company has an owner, or no account that could be one.
abbrev pub IsSettled : TenantKey → List Access → Type 0
IsSettled k items = (any (owns_group k) items ≡ true) ⊎ (any (is_candidate k) items ≡ false)

-- What the repair may do to an account.
abbrev pub Raises : Access → Access → Type 0
Raises a b = (b ≡ a) ⊎ (b ≡ promote a)

abbrev pub AllRaise : List Access → List Access → Type 0
AllRaise [] [] = Unit
AllRaise (a ∷ more) (b ∷ others) = Raises a b × AllRaise more others
AllRaise _ _ = ⊥

AllRaise-refl : (items : List Access) → AllRaise items items
AllRaise-refl [] = tt
AllRaise-refl (a ∷ more) = (inl refl, AllRaise-refl more)

pub promote-key : (a : Access) → tenant_key (promote a) ≡ tenant_key a
unfolding tenant_key
promote-key a = refl

promote-is_candidate : (k : TenantKey) (a : Access) → is_candidate k (promote a) ≡ is_candidate k a
unfolding tenant_key requires_setup_now
promote-is_candidate k a = refl

owner_again : is_owner (normalize_role (role_name owner)) ≡ true
unfolding normalize_role role_name text_eq to_lower trim_space
owner_again = refl

promote-owns : (k : TenantKey) (a : Access) → in_group k a ≡ true → owns_group k (promote a) ≡ true
promote-owns k a h = and_both _ _ (ap (has_key_of k) (promote-key a) ∙ h) owner_again

raised-owns :
    (k : TenantKey) (a b : Access) → Raises a b → owns_group k a ≡ true → owns_group k b ≡ true
raised-owns k a b (inl e) h = ap (owns_group k) e ∙ h
raised-owns k a b (inr e) h = ap (owns_group k) e ∙ promote-owns k a (and_left (in_group k a) _ h)

raised-is_candidate :
    (k : TenantKey) (a b : Access) → Raises a b → is_candidate k b ≡ is_candidate k a
raised-is_candidate k a b (inl e) = ap (is_candidate k) e
raised-is_candidate k a b (inr e) = ap (is_candidate k) e ∙ promote-is_candidate k a

or_mono :
    (a b c d : Bool)
    → (a ≡ true → b ≡ true)
    → (c ≡ true → d ≡ true)
    → (a || c) ≡ true
    → (b || d) ≡ true
or_mono true b c d f g h = ap (λ x. x || d) (f refl)
or_mono false true c d f g h = refl
or_mono false false c d f g h = g h

all_owns :
    (k : TenantKey) (items others : List Access)
    → AllRaise items others
    → any (owns_group k) items ≡ true
    → any (owns_group k) others ≡ true
all_owns k [] [] r h = h
all_owns k (a ∷ more) (b ∷ others) r h =
    or_mono (owns_group k a) (owns_group k b) _ _ (raised-owns k a b r.0)
      (all_owns k more others r.1) h
all_owns k [] (b ∷ others) r h = absurd r
all_owns k (a ∷ more) [] r h = absurd r

all_candidates :
    (k : TenantKey) (items others : List Access)
    → AllRaise items others
    → any (is_candidate k) others ≡ any (is_candidate k) items
all_candidates k [] [] r = refl
all_candidates k (a ∷ more) (b ∷ others) r =
    rw (raised-is_candidate k a b r.0, all_candidates k more others r.1) refl
all_candidates k [] (b ∷ others) r = absurd r
all_candidates k (a ∷ more) [] r = absurd r

raised-IsSettled :
    (k : TenantKey) (items others : List Access)
    → AllRaise items others
    → IsSettled k items
    → IsSettled k others
raised-IsSettled k items others r (inl h) = inl (all_owns k items others r h)
raised-IsSettled k items others r (inr h) = inr (all_candidates k items others r ∙ h)

-- The group has its owner among the new accounts, or there was no candidate.
abbrev IsPicked : TenantKey → List Access → Option (Access × List Access) → Type 0
IsPicked k items none = any (is_candidate k) items ≡ false
IsPicked k items (some (b, items')) = (any (owns_group k) items' ≡ true) × AllRaise items items'

if_IsPicked :
    (k : TenantKey) (items : List Access) (t : Bool) (x y : Access × List Access)
    → IsPicked k items (some x)
    → IsPicked k items (some y)
    → IsPicked k items (some (if t then x else y))
if_IsPicked k items true x y p q = p
if_IsPicked k items false x y p q = q

promoted-IsPicked :
    (k : TenantKey) (a b : Access) (more : List Access)
    → is_candidate k a ≡ true
    → IsPicked k (a ∷ more) (some (b, promote a ∷ more))
promoted-IsPicked k a b more h = (
  or_left (owns_group k (promote a)) (any (owns_group k) more)
      (promote-owns k a (and_left _ _ (and_left _ _ h))),
  (inr refl, AllRaise-refl more),
)

choose-IsPicked :
    (k : TenantKey) (a : Access) (more : List Access) (r : Option (Access × List Access))
    → is_candidate k a ≡ true
    → IsPicked k more r
    → IsPicked k (a ∷ more) (some (choose a more r))
choose-IsPicked k a more none h p = promoted-IsPicked k a a more h
choose-IsPicked k a more (some (b, more')) h p =
    if_IsPicked k (a ∷ more) (is_older b a) (b, a ∷ more') (a, promote a ∷ more)
      (or_right (owns_group k a) (any (owns_group k) more') p.0, (inl refl, p.1))
      (promoted-IsPicked k a a more h)

pass_over-IsPicked :
    (k : TenantKey) (a : Access) (more : List Access) (r : Option (Access × List Access))
    → is_candidate k a ≡ false
    → IsPicked k more r
    → IsPicked k (a ∷ more) (pass_over a r)
pass_over-IsPicked k a more none h p = or_neither (is_candidate k a) _ h p
pass_over-IsPicked k a more (some (b, more')) h p =
    (or_right (owns_group k a) (any (owns_group k) more') p.0, (inl refl, p.1))

pick-IsPicked : (k : TenantKey) (items : List Access) → IsPicked k items (pick k items)
unfolding pick
pick-IsPicked k [] = refl
pick-IsPicked k (a ∷ more) = elim (Bool-cases (is_candidate k a)) [
  | inl h ↦ rw h (choose-IsPicked k a more (pick k more) h (pick-IsPicked k more))
  | inr h ↦ rw h (pass_over-IsPicked k a more (pick k more) h (pick-IsPicked k more))
]

-- What a repair leaves: accounts that are as they were or raised, and the company settled.
abbrev IsRepaired : TenantKey → List Access → List Access × ℕ → Type 0
IsRepaired k items r = IsSettled k r.0 × AllRaise items r.0

picked-IsRepaired :
    (k : TenantKey) (items : List Access) (r : Option (Access × List Access))
    → IsPicked k items r
    → IsRepaired k items (picked items r)
picked-IsRepaired k items none p = (inr p, AllRaise-refl items)
picked-IsRepaired k items (some (b, items')) p = (inl p.0, p.1)

repair_group-IsRepaired :
    (k : TenantKey) (items : List Access) → IsRepaired k items (repair_group k items)
unfolding repair_group
repair_group-IsRepaired k items = elim (Bool-cases (any (owns_group k) items)) [
  | inl h ↦ rw h (inl h, AllRaise-refl items)
  | inr h ↦ rw h (picked-IsRepaired k items (pick k items) (pick-IsPicked k items))
]

Raises-then : (a b c : Access) → Raises a b → Raises b c → Raises a c
Raises-then a b c (inl e) (inl f) = inl (f ∙ e)
Raises-then a b c (inl e) (inr f) = inr (f ∙ ap promote e)
Raises-then a b c (inr e) (inl f) = inr (f ∙ e)
Raises-then a b c (inr e) (inr f) = inr (f ∙ ap promote e)

AllRaise-then :
    (items others last : List Access)
    → AllRaise items others
    → AllRaise others last
    → AllRaise items last
AllRaise-then [] [] [] r s = tt
AllRaise-then (a ∷ more) (b ∷ others) (c ∷ last) r s =
    (Raises-then a b c r.0 s.0, AllRaise-then more others last r.1 s.1)
AllRaise-then [] (b ∷ others) last r s = absurd r
AllRaise-then (a ∷ more) [] last r s = absurd r
AllRaise-then [] [] (c ∷ last) r s = absurd s
AllRaise-then (a ∷ more) (b ∷ others) [] r s = absurd s

pub repair_keys-raises :
    (keys : List TenantKey) (items : List Access) → AllRaise items (repair_keys keys items).0
repair_keys-raises [] items = AllRaise-refl items
repair_keys-raises (k ∷ keys) items =
    AllRaise-then items (repair_group k items).0 _ (repair_group-IsRepaired k items).1
      (repair_keys-raises keys (repair_group k items).0)

pub repair_keys-settles :
    (keys : List TenantKey) (items : List Access)
    → All (λ k. IsSettled k (repair_keys keys items).0) keys
repair_keys-settles [] items = tt
repair_keys-settles (k ∷ keys) items = (
  raised-IsSettled k (repair_group k items).0 _ (repair_keys-raises keys (repair_group k items).0)
      (repair_group-IsRepaired k items).0,
  repair_keys-settles keys (repair_group k items).0,
)
