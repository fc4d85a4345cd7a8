-- ===== src/Portal/Owners/Tests.antt =====
-- A company whose owner was made a viewer.
use textile_erp_cloud.Base.{◌≡◌, refl, List, [], ◌∷◌, All}
use textile_erp_cloud.Base.Text.{codes, text_eq, to_lower, trim_space, is_space}
use textile_erp_cloud.Portal.Access.{Access, normalize_role, requires_setup_now, role_name}
use textile_erp_cloud.Portal.Owners.{
  tenant_key, pick, repair_group, keys_of, repair_owners, promote,
}
use textile_erp_cloud.Portal.Owners.Settled.{AllRaise, IsSettled}
use textile_erp_cloud.Portal.Owners.Twice.{repair-IsSettled, repair_twice}
use textile_erp_cloud.Portal.Samples.{head_account, clerk}

abbrev demoted : Access
demoted = record head_account { access_role = codes "viewer" }

abbrev ownerless : List Access
ownerless = clerk ∷ demoted ∷ []

-- The oldest account is promoted.
restores : repair_owners ownerless ≡ (clerk ∷ promote demoted ∷ [], 1)
unfolding repair_owners repair_group pick tenant_key normalize_role requires_setup_now role_name
    text_eq to_lower trim_space is_space
restores = refl

repair-IsSettled_example :
    AllRaise ownerless (repair_owners ownerless).0
    × All (λ k. IsSettled k (repair_owners ownerless).0) (keys_of (repair_owners ownerless).0)
repair-IsSettled_example = repair-IsSettled ownerless

repair_twice_example : repair_owners (repair_owners ownerless).0 ≡ ((repair_owners ownerless).0, 0)
repair_twice_example = repair_twice ownerless
