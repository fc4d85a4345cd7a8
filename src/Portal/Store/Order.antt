-- ===== src/Portal/Store/Order.antt =====
-- `listAccesses` of portal_server/main.go lists the accounts of the file, the newest first.
use mathlib.Core.List.{Perm}
use mathlib.Core.List.Perm
use textile_erp_cloud.Base.{
  ℕ, zero, suc, ◌≡◌, refl, ap, ◌∙◌, inl, inr, Bool, true, false, List, [], ◌∷◌, All, arith,
  Bool-cases, if◌then◌else◌,
}
use textile_erp_cloud.Portal.Access.{Access}
use textile_erp_cloud.Portal.Store.{
  Row, is_newer, settle, sort_places, count_of, sort_accesses, list_accesses, read_accesses,
}
use textile_erp_cloud.Portal.Store.Sorted.{sort_places-All}

-- No account of the list stands before a newer one.
abbrev pub IsNewestFirst : List Access → Type 0
IsNewestFirst [] = Unit
IsNewestFirst (a ∷ more) = All (λ b. is_newer b a ≡ false) more × IsNewestFirst more

is_newer_trans :
    (a b c : Access) → is_newer a b ≡ false → is_newer b c ≡ false → is_newer a c ≡ false
is_newer_trans a b c h k = ground arith

is_newer_asym : (a b : Access) → is_newer a b ≡ true → is_newer b a ≡ false
is_newer_asym a b h = ground arith

is_newer_self : (a : Access) → is_newer a a ≡ false
is_newer_self a = ground arith

settle-Perm :
    (a : Access) (items : List Access) → Perm ((settle a items).0 ∷ (settle a items).1) (a ∷ items)
unfolding settle
settle-Perm a [] = Perm.refl (a ∷ [])
settle-Perm a (b ∷ bs) = elim (Bool-cases (is_newer b a)) [
  | inl newer ↦
      rw newer
        (Perm.trans (Perm.swap a (settle b bs).0 (settle b bs).1) (Perm.cons a (settle-Perm b bs)))
  | inr older ↦ rw older (
      Perm.trans (Perm.swap b (settle a bs).0 (settle a bs).1)
        (Perm.trans (Perm.cons b (settle-Perm a bs)) (Perm.swap a b bs)))
]

-- An account that comes before another one and those of a list.
abbrev IsFirst : Access → Access × List Access → Type 0
IsFirst a r = (is_newer a r.0 ≡ false) × All (λ c. is_newer c r.0 ≡ false) r.1

step-IsFirst :
    (a b : Access) (bs : List Access) (t : Bool)
    → is_newer b a ≡ t
    → IsFirst (if t then b else a) (settle (if t then b else a) bs)
    → IsFirst a (
      (settle (if t then b else a) bs).0,
      (if t then a else b) ∷ (settle (if t then b else a) bs).1,
    )
step-IsFirst a b bs true newer (own, others) =
    let after = is_newer_trans a b (settle b bs).0 (is_newer_asym b a newer) own in
    (after, (after, others))
step-IsFirst a b bs false older (own, others) =
    (own, (is_newer_trans b a (settle a bs).0 older own, others))

settle-IsFirst : (a : Access) (items : List Access) → IsFirst a (settle a items)
unfolding settle
settle-IsFirst a [] = (is_newer_self a, tt)
settle-IsFirst a (b ∷ bs) =
    step-IsFirst a b bs (is_newer b a) refl (settle-IsFirst (if is_newer b a then b else a) bs)

settle-count_of : (a : Access) (items : List Access) → count_of (settle a items).1 ≡ count_of items
unfolding settle
settle-count_of a [] = refl
settle-count_of a (b ∷ bs) = ap suc (settle-count_of (if is_newer b a then b else a) bs)

sort_places-Perm : (n : ℕ) (items : List Access) → Perm (sort_places n items) items
unfolding sort_places
sort_places-Perm zero items = Perm.refl items
sort_places-Perm (suc n) [] = Perm.refl []
sort_places-Perm (suc n) (a ∷ more) =
    Perm.trans (Perm.cons (settle a more).0 (sort_places-Perm n (settle a more).1))
      (settle-Perm a more)

sort_places-IsNewestFirst :
    (n : ℕ) (items : List Access) → count_of items ≡ n → IsNewestFirst (sort_places n items)
unfolding sort_places
sort_places-IsNewestFirst zero [] e = tt
sort_places-IsNewestFirst zero (a ∷ more) e = absurd (omega arith)
sort_places-IsNewestFirst (suc n) [] e = tt
sort_places-IsNewestFirst (suc n) (a ∷ more) e = (
  sort_places-All (λ c. is_newer c (settle a more).0 ≡ false) n (settle a more).1
      (settle-IsFirst a more).1,
  sort_places-IsNewestFirst n (settle a more).1 (settle-count_of a more ∙ omega arith),
)

-- The list has the accounts of the file, each as often as it is there, and none before a newer one (of the
-- same creation time, before one of a higher id).
pub list_accesses-IsNewestFirst :
    (file : List Row)
    → Perm (list_accesses file) (read_accesses file) × IsNewestFirst (list_accesses file)
unfolding list_accesses sort_accesses
list_accesses-IsNewestFirst file = (
  sort_places-Perm (count_of (read_accesses file)) (read_accesses file),
  sort_places-IsNewestFirst (count_of (read_accesses file)) (read_accesses file) refl,
)
