-- ===== src/Portal/Approvals/Twice.antt =====
-- An order of portal_server/orders.go is activated once.
use textile_erp_cloud.Portal.Approvals.Written.{closed}
use textile_erp_cloud.Portal.Approvals.Served.{IsServed, close_order_lem, approve_found-IsServed}
use textile_erp_cloud.Base.{◌≡◌, refl, ap, true, false, Option, none, some, is_some}
use textile_erp_cloud.Base.Int.{ℤ}
use textile_erp_cloud.Base.Result.{ok}
use textile_erp_cloud.Base.Text.{Text}
use textile_erp_cloud.Portal.Access.{Access}
use textile_erp_cloud.Portal.Orders.{Order, approved}
use textile_erp_cloud.Portal.Services.{Services, Draws}
use textile_erp_cloud.Portal.Approvals.{
  Desk, order_by_id, find_account, portal_password, Approval, approve_with, is_rejected,
  approve_found, approve,
}
use textile_erp_cloud.Portal.Approvals.Lists.{IsDistinctOrders, Occurs, order_by_id-found}

-- The order and the account that a call returns, and that it has left the accounts.
abbrev pub LeavesAccounts : Desk → Approval → Type 0
LeavesAccounts desk r =
    (n : Order) × (a : Access) × (shown : Text) × (r.0 ≡ ok (n, a, shown))
    × (n.status ≡ approved)
    × (r.1.file ≡ desk.file)

with_served :
    (sv : Services) (describe : Order → Text) (now : ℤ) (dr : Draws) (admin_note : Text) (n : Order)
    (desk : Desk) (found : Option Access)
    → is_some found ≡ true
    → Occurs n desk.orders
    → LeavesAccounts desk (approve_with sv describe now dr admin_note n desk found)
with_served sv describe now dr admin_note n desk none h k = absurd (cc)
with_served sv describe now dr admin_note n desk (some a) h k =
    rw
      (close_order_lem now admin_note n n a n.financial_company_id (portal_password sv a) desk refl
        k)
      (closed admin_note n a n.financial_company_id, a, portal_password sv a, refl, refl, refl)

served_found :
    (sv : Services) (describe : Order → Text) (now : ℤ) (dr : Draws) (id admin_note : Text)
    (n : Order) (desk : Desk)
    → IsServed id n desk
    → LeavesAccounts desk (approve sv describe now dr id admin_note desk)
unfolding approve
served_found sv describe now dr id admin_note n desk s =
    let live : is_rejected n.status ≡ false = ap is_rejected s.accepted in
    rw (order_by_id-found id n desk.orders s.distinct s.there s.asked_for, live)
      (with_served sv describe now dr admin_note n desk (find_account n desk.file) s.has_account
        s.there)

-- Where no two orders share an id up to case, an order that was approved can be approved again under the
-- same id, at any time and whatever the servers answer: the call succeeds with the order approved,
-- and makes and changes no account.
pub approve_twice :
    (sv : Services) (describe : Order → Text) (now : ℤ) (dr : Draws) (id admin_note : Text)
    (desk : Desk) (x : Order × Access × Text)
    → IsDistinctOrders desk.orders
    → (approve sv describe now dr id admin_note desk).0 ≡ ok x
    → (sv' : Services) (later : ℤ) (dr' : Draws) (note' : Text)
    → LeavesAccounts
        (approve sv describe now dr id admin_note desk).1
        (approve sv' describe later dr' id note' (approve sv describe now dr id admin_note desk).1)
unfolding approve
approve_twice sv describe now dr id admin_note desk x d h sv' later dr' note' =
    let (n, s) =
      approve_found-IsServed sv describe now dr id admin_note desk (order_by_id id desk.orders) x
        refl d h in
    served_found sv' describe later dr' id note' n
      (approve_found sv describe now dr admin_note desk (order_by_id id desk.orders)).1 s
