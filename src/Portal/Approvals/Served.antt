-- ===== src/Portal/Approvals/Served.antt =====
-- What a successful approval of portal_server/orders.go leaves.
use textile_erp_cloud.Portal.Approvals.Written.{closed}
use textile_erp_cloud.Portal.Approvals.Written.{
  written_account, HasWritten, create_managed-HasWritten, update_managed-HasWritten,
}
use mathlib.Core.Option.{some-injective}
use textile_erp_cloud.Base.{
  ◌≡◌, refl, ap, ◌∙◌, inl, inr, Bool, true, ◌&&◌, ◌||◌, Option, none, some, List, arith, Bool-cases,
  find, find_sound, is_some,
}
use textile_erp_cloud.Base.Int.{ℤ, pos, ltb_ℤ, beq_ℤ, beq_ℤ_iff}
use textile_erp_cloud.Base.Result.{Result, ok, err}
use textile_erp_cloud.Base.Text.{Text}
use textile_erp_cloud.Portal.Access.{Access}
use textile_erp_cloud.Portal.Managed.{create_managed, update_managed}
use textile_erp_cloud.Portal.Orders.{Order, approved}
use textile_erp_cloud.Portal.Services.{AccessError, Services, Draws}
use textile_erp_cloud.Portal.Store.{Row, list_accesses}
use textile_erp_cloud.Portal.Store.Hits.{find-any, any-found}
use textile_erp_cloud.Portal.Approvals.{
  Desk, asked, order_by_id, marker, contains, is_account_of, find_account, save_order,
  portal_password, close_saved, close_order, as_trial, upgrade_spec, customer_spec, with_account,
  is_requester, upgrade, activate, approve_with, is_rejected, approve_found,
}
use textile_erp_cloud.Portal.Approvals.Lists.{IsDistinctOrders, Occurs, order_by_id-Occurs}
use textile_erp_cloud.Portal.Approvals.Saves.{
  replaced, stamped, save_order-some, replaced-IsDistinctOrders, replaced-Occurs,
}

-- A desk with an order that has its account.
pub record IsServed (id : Text) (n : Order) (desk : Desk) : Type 0 where
  pub distinct : IsDistinctOrders desk.orders
  pub there : Occurs n desk.orders
  pub asked_for : asked id n ≡ true
  pub accepted : n.status ≡ approved
  pub has_account : is_some (find_account n desk.file) ≡ true

close_saved_lem :
    (o : Order) (a : Access) (shown : Text) (desk : Desk) (orders : List Order)
    (found : Option (List Order))
    → found ≡ some orders
    → close_saved o a shown desk found ≡ (ok (o, a, shown), record desk { orders = orders })
close_saved_lem o a shown desk orders none e = absurd (cc)
close_saved_lem o a shown desk orders (some others) e =
    ap (λ (x : List Order). (ok (o, a, shown), record desk { orders = x })) (some-injective _ _ e)

-- Closing an order that is there always succeeds, and leaves the accounts.
pub close_order_lem :
    (now : ℤ) (admin_note : Text) (o n : Order) (a : Access) (company : ℤ) (shown : Text)
    (desk : Desk)
    → n.id ≡ o.id
    → Occurs o desk.orders
    → close_order now admin_note n a company shown desk ≡ (
      ok (closed admin_note n a company, a, shown),
      record desk { orders = replaced (stamped now (closed admin_note n a company)) desk.orders },
    )
unfolding close_order
close_order_lem now admin_note o n a company shown desk e k =
    close_saved_lem (closed admin_note n a company) a shown desk
      (replaced (stamped now (closed admin_note n a company)) desk.orders)
      (save_order now (closed admin_note n a company) desk.orders)
      (save_order-some now o (closed admin_note n a company) desk.orders e k)

-- So the desk is served, if the account is in the file.
close_order-IsServed :
    (now : ℤ) (id admin_note : Text) (o n : Order) (a : Access) (company : ℤ) (shown : Text)
    (desk : Desk)
    → n.id ≡ o.id
    → Occurs o desk.orders
    → IsDistinctOrders desk.orders
    → asked id o ≡ true
    → is_some (find_account (stamped now (closed admin_note n a company)) desk.file) ≡ true
    → IsServed id
        (stamped now (closed admin_note n a company))
        (close_order now admin_note n a company shown desk).1
close_order-IsServed now id admin_note o n a company shown desk e k d q has =
    rw (close_order_lem now admin_note o n a company shown desk e k) (record {
      distinct =
          replaced-IsDistinctOrders (stamped now (closed admin_note n a company)) desk.orders d;
      there = replaced-Occurs o (stamped now (closed admin_note n a company)) desk.orders e k;
      asked_for = rw e q;
      accepted = refl;
      has_account = has;
    })

-- The account of an order is found again under the number that the order gets, or by the marker.
pub again :
    (o : Order) (a : Access) (i : ℤ) (m : Bool)
    → ((ltb_ℤ (pos 0) i && beq_ℤ a.id i) || m) ≡ true
    → ((ltb_ℤ (pos 0) a.id && beq_ℤ a.id a.id) || m) ≡ true
again o a i m h = ground (arith, beq_ℤ_iff a.id i, beq_ℤ_iff a.id a.id)

found_again :
    (now : ℤ) (admin_note : Text) (o : Order) (a : Access) (company : ℤ) (file : List Row)
    → find_account o file ≡ some a
    → is_some (find_account (stamped now (closed admin_note o a company)) file) ≡ true
unfolding find_account
found_again now admin_note o a company file e =
    any-found (is_account_of (stamped now (closed admin_note o a company))) (list_accesses file)
    ∙ find-any (is_account_of o) (is_account_of (stamped now (closed admin_note o a company)))
        (list_accesses file) a e
        (again o a o.access_id (contains a.notes (marker o.id))
          (find_sound (is_account_of o) (list_accesses file) a e))

with_account-IsServed :
    (now : ℤ) (id admin_note : Text) (o : Order) (orders : List Order)
    (r : Result AccessError (Access × Text) × List Row) (x : Order × Access × Text)
    → HasWritten r
    → Occurs o orders
    → IsDistinctOrders orders
    → asked id o ≡ true
    → (with_account now admin_note o orders r).0 ≡ ok x
    → (n : Order) × IsServed id n (with_account now admin_note o orders r).1
with_account-IsServed now id admin_note o orders (err e, file) x w k d q h = absurd (cc)
with_account-IsServed now id admin_note o orders (ok (a, shown), file) x w k d q h =
    let (items, e, c, hit) = w a shown refl in
    let n = as_trial o in
    (
      stamped now (closed admin_note n a a.financial_company_id),
      close_order-IsServed now id admin_note o n a a.financial_company_id shown
          (record { orders = orders; file = file }) refl k d q
          (rw e (written_account now admin_note n a a.financial_company_id items c hit)),
    )

positive_id :
    (i j : ℤ) (b : Bool) → ltb_ℤ (pos 0) j ≡ true → (beq_ℤ i j && b) ≡ true → ltb_ℤ (pos 0) i ≡ true
positive_id i j b h e = ground arith

upgrade-IsServed :
    (sv : Services) (describe : Order → Text) (now : ℤ) (dr : Draws) (id admin_note : Text)
    (o : Order) (desk : Desk) (found : Option Access) (x : Order × Access × Text)
    → ((a : Access) → found ≡ some a → ltb_ℤ (pos 0) a.id ≡ true)
    → Occurs o desk.orders
    → IsDistinctOrders desk.orders
    → asked id o ≡ true
    → (upgrade sv describe now dr admin_note o desk found).0 ≡ ok x
    → (n : Order) × IsServed id n (upgrade sv describe now dr admin_note o desk found).1
upgrade-IsServed sv describe now dr id admin_note o desk none x c k d q h = absurd (cc)
upgrade-IsServed sv describe now dr id admin_note o desk (some a) x c k d q h =
    with_account-IsServed now id admin_note o desk.orders
      (update_managed sv now dr a.id (upgrade_spec describe now o a) desk.file) x
      (update_managed-HasWritten sv now dr a.id (upgrade_spec describe now o a) desk.file
        (c a refl))
      k d q h

activate-IsServed :
    (sv : Services) (describe : Order → Text) (now : ℤ) (dr : Draws) (id admin_note : Text)
    (o : Order) (desk : Desk) (x : Order × Access × Text)
    → Occurs o desk.orders
    → IsDistinctOrders desk.orders
    → asked id o ≡ true
    → (activate sv describe now dr admin_note o desk).0 ≡ ok x
    → (n : Order) × IsServed id n (activate sv describe now dr admin_note o desk).1
unfolding activate
activate-IsServed sv describe now dr id admin_note o desk x k d q h =
    elim (Bool-cases (ltb_ℤ (pos 0) o.requester_access_id)) [
      | inl known ↦ rw known (
          upgrade-IsServed sv describe now dr id admin_note o desk
            (find (is_requester o) (list_accesses desk.file)) x
            (λ a e.
              positive_id a.id o.requester_access_id _ known
                (find_sound (is_requester o) (list_accesses desk.file) a e))
            k d q (rw known at h))
      | inr new ↦ rw new (
          with_account-IsServed now id admin_note o desk.orders
            (create_managed sv now dr (customer_spec describe now o) desk.file) x
            (create_managed-HasWritten sv now dr (customer_spec describe now o) desk.file) k d q
            (rw new at h))
    ]

approve_with-IsServed :
    (sv : Services) (describe : Order → Text) (now : ℤ) (dr : Draws) (id admin_note : Text)
    (o : Order) (desk : Desk) (found : Option Access) (x : Order × Access × Text)
    → find_account o desk.file ≡ found
    → Occurs o desk.orders
    → IsDistinctOrders desk.orders
    → asked id o ≡ true
    → (approve_with sv describe now dr admin_note o desk found).0 ≡ ok x
    → (n : Order) × IsServed id n (approve_with sv describe now dr admin_note o desk found).1
approve_with-IsServed sv describe now dr id admin_note o desk (some a) x e k d q h = (
  stamped now (closed admin_note o a o.financial_company_id),
  close_order-IsServed now id admin_note o o a o.financial_company_id (portal_password sv a) desk
      refl k d q (found_again now admin_note o a o.financial_company_id desk.file e),
)
approve_with-IsServed sv describe now dr id admin_note o desk none x e k d q h =
    activate-IsServed sv describe now dr id admin_note o desk x k d q h

pub approve_found-IsServed :
    (sv : Services) (describe : Order → Text) (now : ℤ) (dr : Draws) (id admin_note : Text)
    (desk : Desk) (found : Option Order) (x : Order × Access × Text)
    → order_by_id id desk.orders ≡ found
    → IsDistinctOrders desk.orders
    → (approve_found sv describe now dr admin_note desk found).0 ≡ ok x
    → (n : Order) × IsServed id n (approve_found sv describe now dr admin_note desk found).1
approve_found-IsServed sv describe now dr id admin_note desk none x e d h = absurd (cc)
approve_found-IsServed sv describe now dr id admin_note desk (some o) x e d h =
    let (k, q) = order_by_id-Occurs id o desk.orders e in
    elim (Bool-cases (is_rejected o.status)) [
      | inl dead ↦ absurd (cc (rw dead at h))
      | inr live ↦ rw live (
          approve_with-IsServed sv describe now dr id admin_note o desk (find_account o desk.file) x
            refl k d q (rw live at h))
    ]
