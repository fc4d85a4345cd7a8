-- ===== src/Portal/Store/Tests.antt =====
-- The accounts of a company, the newest first.
use mathlib.Core.List.{Perm}
use textile_erp_cloud.Base.{◌≡◌, refl, [], ◌∷◌}
use textile_erp_cloud.Base.Text.{text_eq, trim_space, to_lower, is_space}
use textile_erp_cloud.Portal.Access.{normalize_role}
use textile_erp_cloud.Portal.Samples.{head_account, clerk, company}
use textile_erp_cloud.Portal.Store.{
  read_row, read_accesses, list_accesses, sort_accesses, sort_places, settle,
}
use textile_erp_cloud.Portal.Store.Order.{IsNewestFirst, list_accesses-IsNewestFirst}

newest : list_accesses company ≡ clerk ∷ head_account ∷ []
unfolding list_accesses read_row read_accesses sort_accesses sort_places settle normalize_role
    text_eq is_space to_lower trim_space
newest = refl

list_accesses-IsNewestFirst_example :
    Perm (list_accesses company) (read_accesses company) × IsNewestFirst (list_accesses company)
list_accesses-IsNewestFirst_example = list_accesses-IsNewestFirst company
