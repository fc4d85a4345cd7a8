-- ===== src/Portal/Approvals/Decisions.antt =====
-- What approvals and rejections of portal_server/orders.go do to the orders.
use textile_erp_cloud.Base.Bools.{or_false}
use mathlib.Core.Option.{some-injective}
use textile_erp_cloud.Base.{
  ◌≡◌, refl, sym, ◌∙◌, inl, inr, false, ◌||◌, Option, none, some, List, [], ◌∷◌, Bool-cases, find,
}
use textile_erp_cloud.Base.Int.{ℤ, pos, ltb_ℤ}
use textile_erp_cloud.Base.Result.{Result, ok, err}
use textile_erp_cloud.Base.Text.{Text, trim_space}
use textile_erp_cloud.Portal.Access.{Access}
use textile_erp_cloud.Portal.Managed.{create_managed, update_managed}
use textile_erp_cloud.Portal.Orders.{Order, Status, pending, approved, rejected, is_approved}
use textile_erp_cloud.Portal.Services.{AccessError, Services, Draws}
use textile_erp_cloud.Portal.Store.{Row, list_accesses}
use textile_erp_cloud.Portal.Approvals.{
  Desk, order_by_id, find_account, save_order, portal_password, close_saved, close_order, as_trial,
  upgrade_spec, customer_spec, with_account, is_requester, upgrade, activate, approve_with,
  is_rejected, approve_found, approve, reject_saved, reject_found, reject,
}
use textile_erp_cloud.Portal.Approvals.Lists.{IsDistinctOrders, Occurs, order_by_id-Occurs}
use textile_erp_cloud.Portal.Approvals.Saves.{
  replaced, stamped, save_order-some, replaced-IsDistinctOrders, Pairs, Pairs-refl, replaced-Pairs,
}

-- The edges of the diagram of an order, with what else stays.
pub data Edge : Status → Status → Type 0 where
  stays : {s : Status} → Edge s s
  accepts : Edge pending approved
  refuses : Edge pending rejected

abbrev pub Moves : Order → Order → Type 0
Moves a b = Edge a.status b.status × (a.id ≡ b.id) × (a.created_at ≡ b.created_at)

Moves-refl : (o : Order) → Moves o o
Moves-refl o = (stays, refl, refl)

-- The orders move, and keep their ids apart.
abbrev pub Goes : List Order → List Order → Type 0
Goes before now = Pairs Moves before now × IsDistinctOrders now

same : (orders : List Order) → IsDistinctOrders orders → Goes orders orders
same orders d = (Pairs-refl Moves orders Moves-refl, d)

moved :
    (now : ℤ) (o n : Order) (orders : List Order)
    → IsDistinctOrders orders
    → Occurs o orders
    → Moves o n
    → Goes orders (replaced (stamped now n) orders)
moved now o n orders d k (edge, id, created) = (
  replaced-Pairs Moves o (stamped now n) orders Moves-refl (sym id) d k (edge, id, created),
  replaced-IsDistinctOrders (stamped now n) orders d,
)

to_approved : (s : Status) → is_rejected s ≡ false → Edge s approved
to_approved pending h = accepts
to_approved approved h = stays
to_approved rejected h = absurd (cc)

to_rejected : (s : Status) → is_approved s ≡ false → Edge s rejected
to_rejected pending h = refuses
to_rejected rejected h = stays
to_rejected approved h = absurd (cc)

close_saved-Goes :
    (o : Order) (a : Access) (shown : Text) (desk : Desk) (before orders : List Order)
    (found : Option (List Order))
    → found ≡ some orders
    → Goes before orders
    → Goes before (close_saved o a shown desk found).1.orders
close_saved-Goes o a shown desk before orders none e g = absurd (cc)
close_saved-Goes o a shown desk before orders (some others) e g = rw (some-injective _ _ e) g

close_order-Goes :
    (now : ℤ) (admin_note : Text) (o n : Order) (a : Access) (company : ℤ) (shown : Text)
    (desk : Desk)
    → IsDistinctOrders desk.orders
    → Occurs o desk.orders
    → is_rejected o.status ≡ false
    → (o.id ≡ n.id) × (o.created_at ≡ n.created_at)
    → Goes desk.orders (close_order now admin_note n a company shown desk).1.orders
unfolding close_order
close_order-Goes now admin_note o n a company shown desk d k live (id, created) =
    close_saved-Goes n' a shown desk desk.orders (replaced (stamped now n') desk.orders)
      (save_order now n' desk.orders) (save_order-some now o n' desk.orders (sym id) k)
      (moved now o n' desk.orders d k (to_approved o.status live, id, created))
  where
    n' : Order
    n' = record n {
      status = approved;
      access_id = a.id;
      financial_company_id = company;
      admin_note = trim_space admin_note;
    }

with_account-Goes :
    (now : ℤ) (admin_note : Text) (o : Order) (orders : List Order)
    (r : Result AccessError (Access × Text) × List Row)
    → IsDistinctOrders orders
    → Occurs o orders
    → is_rejected o.status ≡ false
    → Goes orders (with_account now admin_note o orders r).1.orders
with_account-Goes now admin_note o orders (err e, file) d k live = same orders d
with_account-Goes now admin_note o orders (ok (a, shown), file) d k live =
    close_order-Goes now admin_note o (as_trial o) a a.financial_company_id shown
      (record { orders = orders; file = file }) d k live (refl, refl)

upgrade-Goes :
    (sv : Services) (describe : Order → Text) (now : ℤ) (dr : Draws) (admin_note : Text) (o : Order)
    (desk : Desk) (found : Option Access)
    → IsDistinctOrders desk.orders
    → Occurs o desk.orders
    → is_rejected o.status ≡ false
    → Goes desk.orders (upgrade sv describe now dr admin_note o desk found).1.orders
upgrade-Goes sv describe now dr admin_note o desk none d k live = same desk.orders d
upgrade-Goes sv describe now dr admin_note o desk (some a) d k live =
    with_account-Goes now admin_note o desk.orders
      (update_managed sv now dr a.id (upgrade_spec describe now o a) desk.file) d k live

activate-Goes :
    (sv : Services) (describe : Order → Text) (now : ℤ) (dr : Draws) (admin_note : Text) (o : Order)
    (desk : Desk)
    → IsDistinctOrders desk.orders
    → Occurs o desk.orders
    → is_rejected o.status ≡ false
    → Goes desk.orders (activate sv describe now dr admin_note o desk).1.orders
unfolding activate
activate-Goes sv describe now dr admin_note o desk d k live =
    elim (Bool-cases (ltb_ℤ (pos 0) o.requester_access_id)) [
      | inl known ↦ rw known (
          upgrade-Goes sv describe now dr admin_note o desk
            (find (is_requester o) (list_accesses desk.file)) d k live)
      | inr new ↦ rw new (
          with_account-Goes now admin_note o desk.orders
            (create_managed sv now dr (customer_spec describe now o) desk.file) d k live)
    ]

approve_with-Goes :
    (sv : Services) (describe : Order → Text) (now : ℤ) (dr : Draws) (admin_note : Text) (o : Order)
    (desk : Desk) (found : Option Access)
    → IsDistinctOrders desk.orders
    → Occurs o desk.orders
    → is_rejected o.status ≡ false
    → Goes desk.orders (approve_with sv describe now dr admin_note o desk found).1.orders
approve_with-Goes sv describe now dr admin_note o desk (some a) d k live =
    close_order-Goes now admin_note o o a o.financial_company_id (portal_password sv a) desk d k
      live (refl, refl)
approve_with-Goes sv describe now dr admin_note o desk none d k live =
    activate-Goes sv describe now dr admin_note o desk d k live

approve_found-Goes :
    (sv : Services) (describe : Order → Text) (now : ℤ) (dr : Draws) (admin_note : Text)
    (desk : Desk) (found : Option Order)
    → IsDistinctOrders desk.orders
    → ((o : Order) → found ≡ some o → Occurs o desk.orders)
    → Goes desk.orders (approve_found sv describe now dr admin_note desk found).1.orders
approve_found-Goes sv describe now dr admin_note desk none d k = same desk.orders d
approve_found-Goes sv describe now dr admin_note desk (some o) d k =
    elim (Bool-cases (is_rejected o.status)) [
      | inl dead ↦ rw dead (same desk.orders d)
      | inr live ↦ rw live (
          approve_with-Goes sv describe now dr admin_note o desk (find_account o desk.file) d
            (k o refl) live)
    ]

reject_saved-Goes :
    (n : Order) (desk : Desk) (orders : List Order) (found : Option (List Order))
    → found ≡ some orders
    → Goes desk.orders orders
    → Goes desk.orders (reject_saved n desk found).1.orders
reject_saved-Goes n desk orders none e g = absurd (cc)
reject_saved-Goes n desk orders (some others) e g = rw (some-injective _ _ e) g

reject_found-Goes :
    (now : ℤ) (admin_note : Text) (desk : Desk) (found : Option Order)
    → IsDistinctOrders desk.orders
    → ((o : Order) → found ≡ some o → Occurs o desk.orders)
    → Goes desk.orders (reject_found now admin_note desk found).1.orders
reject_found-Goes now admin_note desk none d k = same desk.orders d
reject_found-Goes now admin_note desk (some o) d k =
    let n : Order = record o { status = rejected; admin_note = trim_space admin_note } in
    elim (Bool-cases (is_approved o.status || ltb_ℤ (pos 0) o.access_id)) [
      | inl done ↦ rw done (same desk.orders d)
      | inr undone ↦ rw undone (
          reject_saved-Goes n desk (replaced (stamped now n) desk.orders)
            (save_order now n desk.orders) (save_order-some now o n desk.orders refl (k o refl))
            (moved now o n desk.orders d (k o refl)
              (to_rejected o.status (or_false (is_approved o.status) _ undone).0, refl, refl)))
    ]

-- What an administrator does with an order.
pub data Decision : Type 0 where
  approves : Draws → Text → Text → Decision
  rejects : Text → Text → Decision

unfoldable pub decided : Services → (Order → Text) → ℤ → Decision → Desk → Desk
decided sv describe now (approves dr id note) desk = (approve sv describe now dr id note desk).1
decided sv describe now (rejects id note) desk = (reject now id note desk).1

abbrev pub all_decided : Services → (Order → Text) → List (ℤ × Decision) → Desk → Desk
all_decided sv describe [] desk = desk
all_decided sv describe ((now, x) ∷ more) desk =
    all_decided sv describe more (decided sv describe now x desk)

decided-Goes :
    (sv : Services) (describe : Order → Text) (now : ℤ) (x : Decision) (desk : Desk)
    → IsDistinctOrders desk.orders
    → Goes desk.orders (decided sv describe now x desk).orders
unfolding decided approve reject
decided-Goes sv describe now (approves dr id note) desk d =
    approve_found-Goes sv describe now dr note desk (order_by_id id desk.orders) d
      (λ o e. (order_by_id-Occurs id o desk.orders e).0)
decided-Goes sv describe now (rejects id note) desk d =
    reject_found-Goes now note desk (order_by_id id desk.orders) d
      (λ o e. (order_by_id-Occurs id o desk.orders e).0)

Edge-trans : {s t u : Status} → Edge s t → Edge t u → Edge s u
Edge-trans stays f = f
Edge-trans accepts stays = accepts
Edge-trans refuses stays = refuses

Pairs-trans : (xs ys zs : List Order) → Pairs Moves xs ys → Pairs Moves ys zs → Pairs Moves xs zs
Pairs-trans [] [] [] h k = tt
Pairs-trans (x ∷ xs) (y ∷ ys) (z ∷ zs) (h, hs) (k, ks) =
    ((Edge-trans h.0 k.0, h.1 ∙ k.1, h.2 ∙ k.2), Pairs-trans xs ys zs hs ks)
Pairs-trans [] [] (z ∷ zs) h k = absurd k
Pairs-trans [] (y ∷ ys) zs h k = absurd h
Pairs-trans (x ∷ xs) [] zs h k = absurd h
Pairs-trans (x ∷ xs) (y ∷ ys) [] h k = absurd k

-- Where no two orders share an id up to case, any approvals and rejections, failed ones and those with
-- failing servers included, keep every order in its place with its id and creation, and its status
-- stays or goes from pending to approved or to rejected: what is decided is not decided otherwise.
pub decisions-Moves :
    (sv : Services) (describe : Order → Text) (decisions : List (ℤ × Decision)) (desk : Desk)
    → IsDistinctOrders desk.orders
    → Pairs Moves desk.orders (all_decided sv describe decisions desk).orders
decisions-Moves sv describe [] desk d = Pairs-refl Moves desk.orders Moves-refl
decisions-Moves sv describe ((now, x) ∷ more) desk d =
    let (step, d') = decided-Goes sv describe now x desk d in
    let next = decided sv describe now x desk in
    Pairs-trans desk.orders next.orders (all_decided sv describe more next).orders step
      (decisions-Moves sv describe more next d')
