-- ===== src/Portal/Access/Days.antt =====
-- The days of a trial that portal_server/main.go shows.
use textile_erp_cloud.Base.Bools.{and_right}
use textile_erp_cloud.Base.{ℕ, ◌≡◌, ◌≤◌, ◌<◌, ◌+◌, ◌*◌, true, not, ◌&&◌, arith}
use textile_erp_cloud.Base.Int.{ℤ, pos, pos_part, ltb_ℤ, beq_ℤ, ◌-ℤ◌}
use textile_erp_cloud.Domain.Duration.{since}
use textile_erp_cloud.Portal.Access.{
  Access, is_textile, day, days_of, trial_active, trial_days_remaining,
}

-- A number of days that covers the time, and no fewer would.
abbrev pub IsDaysOf : ℕ → ℕ → Type 0
IsDaysOf days time = (1 ≤ days) × (time ≤ days * day) × (days * day < time + day)

days_of-IsDaysOf : (n : ℕ) → 0 < n → IsDaysOf (days_of n) n
unfolding days_of
days_of-IsDaysOf n h = ground arith

since_later : (t u : ℤ) → ltb_ℤ u t ≡ true → 0 < pos_part (since t u)
unfolding since ◌-ℤ◌
since_later t u h = ground arith

-- While a trial is active, the days that are shown are at least one, and are the time that is left of it
-- (as a `Duration`, which ends at 292 years) in days, rounded up.
pub trial_days-IsDaysOf :
    (a : Access) (now : ℤ)
    → trial_active a now ≡ true
    → IsDaysOf (trial_days_remaining a now) (pos_part (since a.trial_ends_at now))
unfolding trial_days_remaining trial_active
trial_days-IsDaysOf a now h = rw h (
    days_of-IsDaysOf (pos_part (since a.trial_ends_at now)) (
      since_later a.trial_ends_at now (
        and_right (is_textile a.project && not (beq_ℤ a.trial_ends_at (pos 0)))
          (ltb_ℤ now a.trial_ends_at) h)))
