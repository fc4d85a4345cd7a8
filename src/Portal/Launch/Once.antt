-- ===== src/Portal/Launch/Once.antt =====
-- A launch ticket of portal_server/main.go is good once.
use textile_erp_cloud.Base.{
  ℕ, suc, ◌+◌, ◌≤◌, ◌≡◌, refl, inl, inr, Bool, true, false, not, ◌&&◌, Option, none, some, List, [],
  ◌∷◌, arith, Bool-cases, Option-cases, find, keep, is_some, if◌then◌else◌,
}
use textile_erp_cloud.Base.Int.{ℤ}
use textile_erp_cloud.Base.Result.{Result, ok, err}
use textile_erp_cloud.Base.Text.{Text, text_eq, text_eq_sound, is_empty, trim_space, to_lower}
use textile_erp_cloud.Portal.Access.{Module}
use textile_erp_cloud.Portal.Launch.{
  Ticket, Tickets, check_issue, is_live, issued, issue, is_key, entered, consume,
}
use textile_erp_cloud.Portal.Services.{AccessError}
use textile_erp_cloud.Portal.Store.{Row}

-- How often a ticket stands in the table.
abbrev pub times : Text → Tickets → ℕ
times ticket [] = 0
times ticket (entry ∷ more) =
    if is_key ticket entry then suc (times ticket more) else times ticket more

abbrev one_if : Bool → ℕ
one_if true = 1
one_if false = 0

-- The calls of the two functions, each with the accounts of its time.
pub data LaunchCall : Type 0 where
  issues : ℤ → Text → Text → Text → List Row → LaunchCall
  consumes : ℤ → Text → List Row → LaunchCall

abbrev succeeds : {A : Type 0} → Result AccessError A → Bool
succeeds (ok a) = true
succeeds (err e) = false

abbrev pub table_after : LaunchCall → Tickets → Tickets
table_after (issues now drawn token name file) tickets = (issue now drawn token name file tickets).1
table_after (consumes now raw file) tickets = (consume now raw file tickets).1

-- Whether a call lets someone in by the ticket.
abbrev pub enters : Text → LaunchCall → Tickets → Bool
enters ticket (issues now drawn token name file) tickets = false
enters ticket (consumes now raw file) tickets =
    text_eq ticket (trim_space raw) && succeeds (consume now raw file tickets).0

-- Whether a call draws the ticket, which is then random.
abbrev pub draws : Text → LaunchCall → Bool
draws ticket (issues now drawn token name file) = text_eq ticket drawn
draws ticket (consumes now raw file) = false

abbrev pub entries : Text → List LaunchCall → Tickets → ℕ
entries ticket [] tickets = 0
entries ticket (call ∷ calls) tickets =
    let rest = entries ticket calls (table_after call tickets) in
    if enters ticket call tickets then suc rest else rest

abbrev pub draw_count : Text → List LaunchCall → ℕ
draw_count ticket [] = 0
draw_count ticket (call ∷ calls) =
    if draws ticket call then suc (draw_count ticket calls) else draw_count ticket calls

times-keep :
    (ticket : Text) (p : Text × Ticket → Bool) (tickets : Tickets)
    → times ticket (keep p tickets) ≤ times ticket tickets
times-keep ticket p [] = omega arith
times-keep ticket p (entry ∷ more) = ground (arith, times-keep ticket p more)

-- What is taken out of the table is in it no more.
times-removed :
    (ticket : Text) (tickets : Tickets)
    → times ticket (keep (λ entry. not (is_key ticket entry)) tickets) ≡ 0
times-removed ticket [] = refl
times-removed ticket (entry ∷ more) = ground (arith, times-removed ticket more)

times-found :
    (ticket : Text) (tickets : Tickets) (entry : Text × Ticket)
    → find (is_key ticket) tickets ≡ some entry
    → 1 ≤ times ticket tickets
times-found ticket [] entry e = absurd (cc)
times-found ticket (x ∷ more) entry e = ground (arith, times-found ticket more entry)

entered-found :
    (now : ℤ) (file : List Row) (found : Option (Text × Ticket))
    → succeeds (entered now file found) ≡ true
    → is_some found ≡ true
unfolding entered
entered-found now file none h = absurd (cc)
entered-found now file (some entry) h = refl

issue-times :
    (ticket : Text) (now : ℤ) (drawn token : Text) (tickets : Tickets)
    (checked : Result AccessError (Option Module))
    → times ticket (issued now drawn token tickets checked).1
      ≤ times ticket tickets + one_if (text_eq ticket drawn)
issue-times ticket now drawn token tickets (err e) = omega arith
issue-times ticket now drawn token tickets (ok m) =
    ground
      (arith, times-keep ticket (λ entry. is_live now entry && not (text_eq drawn entry.0)) tickets)

found_once :
    (ticket : Text) (now : ℤ) (file : List Row) (tickets : Tickets)
    → one_if (succeeds (entered now file (find (is_key ticket) tickets))) ≤ times ticket tickets
found_once ticket now file tickets =
    elim (Bool-cases (succeeds (entered now file (find (is_key ticket) tickets)))) [
      | inr refused ↦ rw refused (omega arith)
      | inl let_in ↦ elim (Option-cases (find (is_key ticket) tickets)) [
        | inl missing ↦
            absurd (cc (entered-found now file (find (is_key ticket) tickets) let_in, missing))
        | inr (entry, hit) ↦ rw let_in (times-found ticket tickets entry hit)
      ]
    ]

-- By one call, what is let in and what stays in the table were in the table or are drawn.
consume-times :
    (ticket : Text) (now : ℤ) (raw : Text) (file : List Row) (tickets : Tickets)
    → one_if (enters ticket (consumes now raw file) tickets)
        + times ticket (consume now raw file tickets).1
      ≤ times ticket tickets
unfolding consume
consume-times ticket now raw file tickets = elim (Bool-cases (is_empty (trim_space raw))) [
  | inl blank ↦ rw blank (nothing (text_eq ticket (trim_space raw)) (times ticket tickets))
  | inr given ↦ rw given (elim (Bool-cases (text_eq ticket (trim_space raw))) [
    | inr other ↦
        rw other
          (omega (arith, times-keep ticket (λ entry. not (is_key (trim_space raw) entry)) tickets))
    | inl same ↦
        let e : ticket ≡ trim_space raw = text_eq_sound ticket (trim_space raw) same in
        rw (same, ← e)
          (omega (arith, times-removed ticket tickets, found_once ticket now file tickets))
  ])
]
  where
    nothing : (b : Bool) (n : ℕ) → one_if (b && false) + n ≤ n
    nothing true n = omega arith
    nothing false n = omega arith

step-times :
    (ticket : Text) (call : LaunchCall) (tickets : Tickets)
    → one_if (enters ticket call tickets) + times ticket (table_after call tickets)
      ≤ times ticket tickets + one_if (draws ticket call)
unfolding issue
step-times ticket (issues now drawn token name file) tickets = omega (
  arith,
  issue-times ticket now drawn (trim_space token) tickets
      (check_issue now (trim_space token) (to_lower (trim_space name)) file),
)
step-times ticket (consumes now raw file) tickets =
    omega (arith, consume-times ticket now raw file tickets)

-- Over any calls of `issueLaunchTicket` and `consumeLaunchTicket`, whatever the accounts are like at
-- each, a ticket lets someone in at most as often as it stood in the table and was drawn; so a ticket
-- that is drawn once is good for one entry.
pub launch_once :
    (ticket : Text) (calls : List LaunchCall) (tickets : Tickets)
    → entries ticket calls tickets ≤ times ticket tickets + draw_count ticket calls
launch_once ticket [] tickets = omega arith
launch_once ticket (call ∷ calls) tickets =
    ground
      (arith, launch_once ticket calls (table_after call tickets), step-times ticket call tickets)
