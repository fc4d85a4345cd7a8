-- ===== src/Portal/Team/Pages.antt =====
-- portal_server/main.go: the roles and the pages that a member of the team can have.
use textile_erp_cloud.Base.{
  ◌≡◌, ◌⊎◌, refl, inl, inr, Bool, true, false, not, ◌&&◌, List, [], ◌∷◌, ◌++◌, arith, All,
  All-append, if◌then◌else◌,
}
use textile_erp_cloud.Base.Text.{Text, codes, text_eq, trim_space, to_lower}
use textile_erp_cloud.Portal.Access.{
  Role, owner, manager, accountant, viewer, customer, is_owner, is_viewer, role_name,
  normalize_role, catalog, default_permissions, has_key, listed, normalize_permissions,
}
use textile_erp_cloud.Portal.Team.{below_owner}

-- The roles that a member of the team can have.
abbrev is_staff : Role → Bool
is_staff manager = true
is_staff accountant = true
is_staff viewer = true
is_staff _ = false

below_staff : (role : Role) → is_staff role ≡ true → is_staff (below_owner role) ≡ true
below_staff manager h = refl
below_staff accountant h = refl
below_staff viewer h = refl
below_staff owner h = refl
below_staff customer h = absurd (cc)

pub not_customer :
    (raw : Text) → (normalize_role raw ≡ owner) ⊎ (is_staff (normalize_role raw) ≡ true)
unfolding normalize_role
not_customer raw = ground arith

staff : (raw : Text) → is_staff (below_owner (normalize_role raw)) ≡ true
staff raw = elim (not_customer raw) [
  | inl top ↦ rw top refl
  | inr low ↦ below_staff (normalize_role raw) low
]

-- A role that is written and read again.
pub normalize-role_name :
    (role : Role) → is_staff role ≡ true → normalize_role (role_name role) ≡ role
unfolding normalize_role role_name text_eq to_lower trim_space
normalize-role_name manager h = refl
normalize-role_name accountant h = refl
normalize-role_name viewer h = refl
normalize-role_name owner h = absurd (cc)
normalize-role_name customer h = absurd (cc)

staff-is_owner : (role : Role) → is_staff role ≡ true → is_owner role ≡ false
staff-is_owner manager h = refl
staff-is_owner accountant h = refl
staff-is_owner viewer h = refl
staff-is_owner owner h = absurd (cc)
staff-is_owner customer h = absurd (cc)

pub member_role :
    (raw : Text) → is_owner (normalize_role (role_name (below_owner (normalize_role raw)))) ≡ false
member_role raw =
    rw (normalize-role_name (below_owner (normalize_role raw)) (staff raw))
      (staff-is_owner (below_owner (normalize_role raw)) (staff raw))

-- The pages that exist.
abbrev pub IsPage : Text → Type 0
IsPage key = has_key key catalog ≡ true

listed-IsPage : (seen input : List Text) → All IsPage (listed seen input)
unfolding listed
listed-IsPage seen [] = tt
listed-IsPage seen (raw ∷ rest) =
    ground (arith, listed-IsPage seen rest, listed-IsPage (trim_space raw ∷ seen) rest)

default_permissions-IsPage : (role : Role) → All IsPage (default_permissions role)
unfolding default_permissions has_key text_eq
default_permissions-IsPage owner = pages
  where
    pages : All IsPage catalog
    pages = ground arith
default_permissions-IsPage manager = ground arith
default_permissions-IsPage accountant = ground arith
default_permissions-IsPage viewer = ground arith
default_permissions-IsPage customer = ground arith

mobile-IsPage : IsPage (codes "mobileApp")
unfolding has_key text_eq
mobile-IsPage = refl

with_mobile :
    (b : Bool) (keys : List Text)
    → All IsPage keys
    → All IsPage (if b then keys ++ (codes "mobileApp" ∷ []) else keys)
with_mobile true keys h = All-append IsPage keys (codes "mobileApp" ∷ []) h (mobile-IsPage, tt)
with_mobile false keys h = h

pub normalize_permissions-IsPage :
    (input : List Text) (role : Role) → All IsPage (normalize_permissions input role)
unfolding normalize_permissions
normalize_permissions-IsPage input role = go (listed [] input) (listed-IsPage [] input)
  where
    go :
        (keys : List Text)
        → All IsPage keys
        → All IsPage (elim keys as (λ _. List Text) [
          | [] ↦ default_permissions role
          | p ∷ ps ↦
              (if not (is_viewer role) && not (has_key (codes "mobileApp") (p ∷ ps))
                then (p ∷ ps) ++ (codes "mobileApp" ∷ [])
                else p ∷ ps)
        ])
    go [] h = default_permissions-IsPage role
    go (p ∷ ps) h =
        with_mobile (not (is_viewer role) && not (has_key (codes "mobileApp") (p ∷ ps))) (p ∷ ps) h
