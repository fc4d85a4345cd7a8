-- ===== src/Portal/Store/Sorted.antt =====
-- What holds of all accounts holds of the list that `sortAccesses` of portal_server/main.go makes.
use textile_erp_cloud.Base.{
  ℕ, zero, suc, ◌≡◌, inl, inr, Bool, true, false, List, [], ◌∷◌, Bool-cases, some, find-All, keep,
  All, if◌then◌else◌,
}
use textile_erp_cloud.Base.Int.{ℤ}
use textile_erp_cloud.Portal.Access.{Access, same_tenant}
use textile_erp_cloud.Portal.Store.{
  Row, read_accesses, is_newer, settle, sort_places, count_of, sort_accesses, has_id,
  tenant_accesses, tenant_access_by_id,
}

choice : (P : Access → Type 0) (b : Bool) (x y : Access) → P x → P y → P (if b then x else y)
choice P true x y p q = p
choice P false x y p q = q

settle-All :
    (P : Access → Type 0) (a : Access) (items : List Access)
    → P a
    → All P items
    → P (settle a items).0 × All P (settle a items).1
unfolding settle
settle-All P a [] h hs = (h, tt)
settle-All P a (b ∷ more) h hs =
    let rest =
      settle-All P (if is_newer b a then b else a) more (choice P (is_newer b a) b a hs.0 h) hs.1 in
    (rest.0, (choice P (is_newer b a) a b h hs.0, rest.1))

pub sort_places-All :
    (P : Access → Type 0) (n : ℕ) (items : List Access) → All P items → All P (sort_places n items)
unfolding sort_places
sort_places-All P zero items h = h
sort_places-All P (suc n) [] h = tt
sort_places-All P (suc n) (a ∷ more) h =
    let (top, rest) = settle-All P a more h.0 h.1 in
    (top, sort_places-All P n (settle a more).1 rest)

pub sort_accesses-All :
    (P : Access → Type 0) (items : List Access) → All P items → All P (sort_accesses items)
unfolding sort_accesses
sort_accesses-All P items h = sort_places-All P (count_of items) items h

keep-All : (p : Access → Bool) (items : List Access) → All (λ a. p a ≡ true) (keep p items)
keep-All p [] = tt
keep-All p (a ∷ more) = elim (Bool-cases (p a)) [
  | inl hit ↦ rw hit (hit, keep-All p more)
  | inr miss ↦ rw miss (keep-All p more)
]

-- Who is found in a tenant is of the tenant.
pub tenant_access_by_id-same_tenant :
    (asker : Access) (id : ℤ) (file : List Row) (a : Access)
    → tenant_access_by_id asker id file ≡ some a
    → same_tenant asker a ≡ true
unfolding tenant_access_by_id tenant_accesses
tenant_access_by_id-same_tenant asker id file a h =
    find-All (λ b. same_tenant asker b ≡ true) (has_id id)
      (sort_accesses (keep (same_tenant asker) (read_accesses file))) a
      (sort_accesses-All (λ b. same_tenant asker b ≡ true)
        (keep (same_tenant asker) (read_accesses file))
        (keep-All (same_tenant asker) (read_accesses file)))
      h
