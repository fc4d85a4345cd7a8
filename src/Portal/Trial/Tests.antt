-- ===== src/Portal/Trial/Tests.antt =====
-- A trial of 14 days while the other servers are down.
use textile_erp_cloud.Base.{◌≡◌, refl, true, arith}
use textile_erp_cloud.Base.Int.{pos, pos_part, ◌+ℤ◌, ◌-ℤ◌}
use textile_erp_cloud.Base.Result.{ok}
use textile_erp_cloud.Base.Text.{codes, text_eq, trim_space, to_lower, is_space}
use textile_erp_cloud.Portal.Access.{
  Access, effective_role, normalize_role, trial_active, trial_days_remaining, days_of,
}
use textile_erp_cloud.Domain.Duration.{since}
use textile_erp_cloud.Portal.Access.Days.{IsDaysOf, trial_days-IsDaysOf}
use textile_erp_cloud.Portal.Samples.{no_servers, draws, head_account, company}
use textile_erp_cloud.Portal.Store.{
  read_row, read_accesses, list_accesses, sort_accesses, sort_places, settle,
}
use textile_erp_cloud.Portal.Trial.{days_after, later_of, trial_target, grant_full_trial}
use textile_erp_cloud.Portal.Trial.Lasting.{HasDistinctIds, Granted, trial_lasts}

target : trial_target (pos 1) company ≡ ok head_account
unfolding trial_target effective_role normalize_role read_row read_accesses list_accesses
    sort_accesses sort_places settle text_eq is_space to_lower trim_space
target = refl

distinct : HasDistinctIds (read_accesses company)
unfolding read_row read_accesses
distinct = ((refl, tt), (tt, tt))

trial_lasts_example :
    Granted
      (days_after (pos 10) 14)
      (later_of head_account.expires_at (days_after (pos 10) 14))
      (grant_full_trial no_servers (pos 10) draws (codes "14 days") (pos 1) 14 company).0
trial_lasts_example =
    trial_lasts no_servers (pos 10) draws (codes "14 days") (pos 1) 14 company head_account distinct
      target (omega arith) (omega arith) (omega arith)

abbrev on_trial : Access
on_trial = record head_account { trial_ends_at = days_after (pos 10) 14 }

is_on_trial : trial_active on_trial (pos 11) ≡ true
unfolding trial_active ◌+ℤ◌
is_on_trial = refl

-- The fourteenth day has begun.
shown : trial_days_remaining on_trial (pos 11) ≡ 14
unfolding trial_days_remaining days_of trial_active since ◌+ℤ◌ ◌-ℤ◌
shown = refl

trial_days-IsDaysOf_example :
    IsDaysOf
      (trial_days_remaining on_trial (pos 11))
      (pos_part (since on_trial.trial_ends_at (pos 11)))
trial_days-IsDaysOf_example = trial_days-IsDaysOf on_trial (pos 11) is_on_trial
