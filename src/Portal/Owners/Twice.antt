-- ===== src/Portal/Owners/Twice.antt =====
-- portal_server/owner_integrity.go: the whole repair, and the repair of what is repaired.
use textile_erp_cloud.Base.Bools.{or_false}
use textile_erp_cloud.Base.{
  ℕ, ◌≡◌, refl, ap, ◌∙◌, inl, inr, Bool, true, false, none, List, [], ◌∷◌, All, if◌then◌else◌,
}
use textile_erp_cloud.Portal.Access.{Access}
use textile_erp_cloud.Portal.Owners.{
  TenantKey, tenant_key, is_candidate, owns_group, pick, repair_group, keys_of, repair_keys,
  repair_owners,
}
use textile_erp_cloud.Portal.Owners.Settled.{
  IsSettled, Raises, AllRaise, promote-key, repair_keys-raises, repair_keys-settles,
}
use textile_erp_cloud.Portal.Store.{any}

raised-key : (a b : Access) → Raises a b → tenant_key b ≡ tenant_key a
raised-key a b (inl e) = ap tenant_key e
raised-key a b (inr e) = ap tenant_key e ∙ promote-key a

raised-keys_of :
    (items others : List Access) → AllRaise items others → keys_of others ≡ keys_of items
raised-keys_of [] [] r = refl
raised-keys_of (a ∷ more) (b ∷ others) r =
    rw (raised-key a b r.0, raised-keys_of more others r.1) refl
raised-keys_of [] (b ∷ others) r = absurd r
raised-keys_of (a ∷ more) [] r = absurd r

pick-none :
    (k : TenantKey) (items : List Access) → any (is_candidate k) items ≡ false → pick k items ≡ none
unfolding pick
pick-none k [] h = refl
pick-none k (a ∷ more) h =
    rw ((or_false (is_candidate k a) _ h).0, pick-none k more ((or_false (is_candidate k a) _ h).1))
      refl

either : (b : Bool) (x : List Access × ℕ) → (if b then x else x) ≡ x
either true x = refl
either false x = refl

repair_group-settled :
    (k : TenantKey) (items : List Access) → IsSettled k items → repair_group k items ≡ (items, 0)
unfolding repair_group
repair_group-settled k items (inl h) = rw h refl
repair_group-settled k items (inr h) =
    rw (pick-none k items h) (either (any (owns_group k) items) (items, 0))

repair_keys-settled :
    (keys : List TenantKey) (items : List Access)
    → All (λ k. IsSettled k items) keys
    → repair_keys keys items ≡ (items, 0)
repair_keys-settled [] items h = refl
repair_keys-settled (k ∷ keys) items h =
    rw (repair_group-settled k items h.0, repair_keys-settled keys items h.1) refl

repair-keys_of : (items : List Access) → keys_of (repair_owners items).0 ≡ keys_of items
unfolding repair_owners
repair-keys_of items = raised-keys_of items _ (repair_keys-raises (keys_of items) items)

-- The repair leaves every account as it was or promotes it to an owner with every page and the right to
-- manage the team, in its place; and every company that an account of the file belongs to has then an
-- account with the owner's role, or has no active account whose setup is done.
pub repair-IsSettled :
    (items : List Access)
    → AllRaise items (repair_owners items).0
      × All (λ k. IsSettled k (repair_owners items).0) (keys_of (repair_owners items).0)
unfolding repair_owners
repair-IsSettled items = (
  repair_keys-raises (keys_of items) items,
  rw (repair-keys_of items) (repair_keys-settles (keys_of items) items),
)

-- The repair of repaired accounts changes nothing and counts no repair.
pub repair_twice :
    (items : List Access) → repair_owners (repair_owners items).0 ≡ ((repair_owners items).0, 0)
unfolding repair_owners
repair_twice items = rw (repair-keys_of items) (
    repair_keys-settled (keys_of items) (repair_owners items).0
      (repair_keys-settles (keys_of items) items))
