-- ===== src/Portal/Launch/Tests.antt =====
-- A ticket that is used twice.
use textile_erp_cloud.Base.{◌≡◌, refl, ◌+◌, ◌≤◌, List, [], ◌∷◌}
use textile_erp_cloud.Base.Int.{pos, ◌+ℤ◌}
use textile_erp_cloud.Base.Text.{codes, text_eq, trim_space, to_lower, is_space}
use textile_erp_cloud.Portal.Access.{
  module_allowed, effective_financial, trial_active, normalize_role,
}
use textile_erp_cloud.Portal.Launch.{
  module_named, check_launch, check_issue, issue, entered, consume,
}
use textile_erp_cloud.Portal.Launch.Once.{
  LaunchCall, issues, consumes, times, entries, draw_count, launch_once,
}
use textile_erp_cloud.Portal.Samples.{company}
use textile_erp_cloud.Portal.Store.{
  read_row, read_accesses, sort_accesses, list_accesses, find_by_token, settle, sort_places,
}

-- Drawn once, presented twice.
abbrev visits : List LaunchCall
visits =
    issues (pos 5) (codes "d1ce") (codes "tok1") (codes "financial") company
    ∷ consumes (pos 6) (codes "d1ce") company
    ∷ consumes (pos 7) (codes "d1ce") company
    ∷ []

-- The first of the two enters.
once : entries (codes "d1ce") visits [] ≡ 1
unfolding trim_space text_eq to_lower is_space module_allowed effective_financial trial_active
    module_named check_launch check_issue issue entered consume read_row read_accesses sort_accesses
    list_accesses find_by_token settle sort_places normalize_role ◌+ℤ◌
once = refl

launch_once_example :
    entries (codes "d1ce") visits [] ≤ times (codes "d1ce") [] + draw_count (codes "d1ce") visits
launch_once_example = launch_once (codes "d1ce") visits []
