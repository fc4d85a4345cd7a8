-- ===== src/Portal/Launch.antt =====
-- portal_server/main.go: `issueLaunchTicket` and `consumeLaunchTicket`. The map of tickets is a list of
-- pairs; `drawn` is the new random ticket. The name of a module is empty, or one of three.
pub mod Once
mod Tests
use textile_erp_cloud.Base.{
  Bool, true, false, not, ◌&&◌, ◌||◌, Option, none, some, List, [], ◌∷◌, if◌then◌else◌, find, keep,
}
use textile_erp_cloud.Base.Int.{ℤ, pos, ltb_ℤ, ◌+ℤ◌}
use textile_erp_cloud.Base.Result.{Result, ok, err, ◌>>=◌, ◌>>◌, refuse_if, or_err}
use textile_erp_cloud.Base.Text.{Text, codes, text_eq, is_empty, trim_space, to_lower}
use textile_erp_cloud.Portal.Access.{
  is_textile, Access, Module, financial, operational, weaving, module_allowed,
}
use textile_erp_cloud.Portal.Services.{AccessError, no_access, no_module, no_ticket, expired}
use textile_erp_cloud.Portal.Store.{Row, find_by_token}

pub record Ticket : Type 0 where
  pub access_token : Text
  pub module_ : Option Module
  pub expires_at : ℤ

abbrev pub Tickets : Type 0
Tickets = List (Text × Ticket)

-- The name of a module; an empty name is that of the whole portal.
unfoldable pub module_named : Text → Result AccessError (Option Module)
module_named name =
    if is_empty name
    then ok none
    else if text_eq name (codes "financial")
    then ok (some financial)
    else if text_eq name (codes "operational")
    then ok (some operational)
    else if text_eq name (codes "weaving")
    then ok (some weaving)
    else err no_module

abbrev pub may_enter : Access → Option Module → ℤ → Bool
may_enter a none now = true
may_enter a (some m) now = module_allowed a m now

-- The tests of both functions on the account.
unfoldable pub check_launch : ℤ → Access → Result AccessError (Unit {0})
check_launch now a = do
  refuse_if (not (is_textile a.project) || not a.is_active || ltb_ℤ a.expires_at now) expired
  refuse_if (is_empty (trim_space a.username) || is_empty (trim_space a.password_hash)) no_access

abbrev pub two_minutes : ℤ
two_minutes = pos 120_000_000_000

abbrev pub is_live : ℤ → Text × Ticket → Bool
is_live now (key, t) = not (ltb_ℤ t.expires_at now)

-- What `issueLaunchTicket` checks: the module.
unfoldable pub check_issue : ℤ → Text → Text → List Row → Result AccessError (Option Module)
check_issue now access_token name file = do
  a ← or_err (find_by_token access_token file) no_access
  check_launch now a
  m ← module_named name
  refuse_if (not (may_enter a m now)) no_module
  ok m

abbrev pub issued :
    ℤ
    → Text
    → Text
    → Tickets
    → Result AccessError (Option Module)
    → Result AccessError Text × Tickets
issued now drawn access_token tickets (err e) = (err e, tickets)
issued now drawn access_token tickets (ok m) = (
  ok drawn,
  (drawn, record { access_token = access_token; module_ = m; expires_at = now +ℤ two_minutes })
      ∷ keep (λ entry. is_live now entry && not (text_eq drawn entry.0)) tickets,
)

-- `issueLaunchTicket`
unfoldable pub issue :
    ℤ → Text → Text → Text → List Row → Tickets → Result AccessError Text × Tickets
issue now drawn access_token name file tickets =
    issued now drawn (trim_space access_token) tickets
      (check_issue now (trim_space access_token) (to_lower (trim_space name)) file)

abbrev pub is_key : Text → Text × Ticket → Bool
is_key ticket entry = text_eq ticket entry.0

-- What `consumeLaunchTicket` does with the entry that it found and removed.
unfoldable pub entered :
    ℤ → List Row → Option (Text × Ticket) → Result AccessError (Access × Option Module)
entered now file none = err no_ticket
entered now file (some (key, t)) = do
  refuse_if (ltb_ℤ t.expires_at now) no_ticket
  a ← or_err (find_by_token t.access_token file) no_access
  check_launch now a
  refuse_if (not (may_enter a t.module_ now)) no_module
  ok (a, t.module_)

-- `consumeLaunchTicket`
unfoldable pub consume :
    ℤ → Text → List Row → Tickets → Result AccessError (Access × Option Module) × Tickets
consume now raw file tickets =
    let ticket = trim_space raw in
    if is_empty ticket then (err no_ticket, tickets) else (
      entered now file (find (is_key ticket) tickets),
      keep (λ entry. not (is_key ticket entry)) tickets,
    )
