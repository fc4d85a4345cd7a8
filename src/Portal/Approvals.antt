-- ===== src/Portal/Approvals.antt =====
-- portal_server/orders.go: how an order is approved or rejected. `describe` is what the notes of the new
-- account say of the order between its marker and the customer's own notes.
pub mod Served
pub mod Written
pub mod Lists
pub mod Saves
pub mod Decisions
pub mod Twice
mod Tests
use textile_erp_cloud.Base.{
  ℕ, ◌*◌, Bool, true, false, not, ◌&&◌, ◌||◌, Option, none, some, List, [], ◌∷◌, ◌++◌, ◌==◌, ltb,
  if◌then◌else◌, find, update_first,
}
use textile_erp_cloud.Base.Int.{ℤ, pos, ltb_ℤ, beq_ℤ, ◌+ℤ◌}
use textile_erp_cloud.Base.Result.{Result, ok, err}
use textile_erp_cloud.Base.Text.{Text, codes, text_eq, is_empty, trim_space, equal_fold}
use textile_erp_cloud.Portal.Access.{
  is_textile, role_name, owner, Access, catalog, day, effective_role, effective_permissions,
  effective_can_manage,
}
use textile_erp_cloud.Portal.Trial.{later_of}
use textile_erp_cloud.Portal.Steps.{project_key}
use textile_erp_cloud.Portal.Managed.{create_managed, update_managed}
use textile_erp_cloud.Portal.Terms.{Spec}
use textile_erp_cloud.Portal.Orders.{Order, Wish, approved, rejected, Status, is_approved}
use textile_erp_cloud.Portal.Services.{AccessError, no_access, Services, Draws, must_decrypt}
use textile_erp_cloud.Portal.Store.{Row, list_accesses, has_id}

pub data ApprovalError : Type 0 where
  no_order already_rejected already_approved : ApprovalError
  account : AccessError → ApprovalError

-- The orders and the accounts.
pub record Desk : Type 0 where
  pub orders : List Order
  pub file : List Row

-- `sort.Slice`, the newest first.
abbrev pub insert_order : Order → List Order → List Order
insert_order o [] = o ∷ []
insert_order o (x ∷ more) =
    if ltb_ℤ o.created_at x.created_at then x ∷ insert_order o more else o ∷ x ∷ more

-- `listPurchaseOrders`
unfoldable pub list_orders : List Order → List Order
list_orders [] = []
list_orders (o ∷ more) = insert_order o (list_orders more)

abbrev pub asked : Text → Order → Bool
asked id o = equal_fold o.id (trim_space id)

-- `purchaseOrderByID`
unfoldable pub order_by_id : Text → List Order → Option Order
unfolding list_orders
order_by_id id orders = find (asked id) (list_orders orders)

-- `purchaseOrderMarker`
unfoldable pub marker : Text → Text
marker id = codes "[purchase_order:" ++ trim_space id ++ codes "]"

starts : Text → Text → Bool
starts [] s = true
starts (c ∷ p) [] = false
starts (c ∷ p) (d ∷ s) = (c == d) && starts p s

-- `strings.Contains`
unfoldable pub contains : Text → Text → Bool
unfolding starts
contains [] part = starts part []
contains (c ∷ s) part = starts part (c ∷ s) || contains s part

abbrev pub is_account_of : Order → Access → Bool
is_account_of o a =
    (ltb_ℤ (pos 0) o.access_id && beq_ℤ a.id o.access_id) || contains a.notes (marker o.id)

-- `findPurchaseOrderAccess`
unfoldable pub find_account : Order → List Row → Option Access
find_account o file = find (is_account_of o) (list_accesses file)

abbrev pub is_order : Text → Order → Bool
is_order id o = text_eq o.id id

abbrev pub saved : ℤ → Order → List Order → Option Order → Option (List Order)
saved now o orders none = none
saved now o orders (some _) =
    some (update_first (is_order o.id) (λ _. record o { updated_at = now }) orders)

-- `savePurchaseOrder`; `none` is `os.ErrNotExist`.
unfoldable pub save_order : ℤ → Order → List Order → Option (List Order)
save_order now o orders = saved now o orders (find (is_order o.id) orders)

-- `portalAccessPassword`; the parts of a token are ASCII.
first_8 : Text → Text
first_8 (a ∷ b ∷ c ∷ d ∷ e ∷ f ∷ g ∷ h ∷ s) = a ∷ b ∷ c ∷ d ∷ e ∷ f ∷ g ∷ h ∷ []
first_8 s = s

unfoldable pub portal_password : Services → Access → Text
unfolding first_8
portal_password sv a =
    let kept = trim_space (must_decrypt sv a) in
    if not (is_empty kept)
    then kept
    else codes "Portal@" ++ a.username ++ codes "_" ++ first_8 a.access_token

abbrev pub Approval : Type 0
Approval = Result ApprovalError (Order × Access × Text) × Desk

abbrev pub close_saved : Order → Access → Text → Desk → Option (List Order) → Approval
close_saved o a shown desk none = (err no_order, desk)
close_saved o a shown desk (some orders) = (ok (o, a, shown), record desk { orders = orders })

-- What the three ways to approve end with: the order is saved with the account.
unfoldable pub close_order : ℤ → Text → Order → Access → ℤ → Text → Desk → Approval
unfolding save_order
close_order now admin_note o a company shown desk =
    let o' : Order = record o {
      status = approved;
      access_id = a.id;
      financial_company_id = company;
      admin_note = trim_space admin_note;
    } in
    close_saved o' a shown desk (save_order now o' desk.orders)

abbrev pub is_trial_order : Order → Bool
is_trial_order o = o.wish.is_trial || text_eq o.billing_cycle (codes "trial")

abbrev pub as_trial : Order → Order
as_trial o = record o { wish = record o.wish { is_trial = is_trial_order o } }

abbrev pub trial_until : ℤ → Order → ℤ
trial_until now o = if is_trial_order o then now +ℤ pos (30 * day) else pos 0

-- When the account ends; 30 days also without a trial.
abbrev pub order_expiry : ℤ → Order → ℤ
order_expiry now o =
    if text_eq o.billing_cycle (codes "annual")
    then now +ℤ pos (365 * day)
    else now +ℤ pos (30 * day)

abbrev pub order_notes : (Order → Text) → Order → Text
order_notes describe o =
    marker o.id ++ codes "\n" ++ describe (as_trial o) ++ codes "\n" ++ trim_space o.notes

-- The arguments of `updateManagedAccess` for the account that has asked for more.
unfoldable pub upgrade_spec : (Order → Text) → ℤ → Order → Access → Spec
upgrade_spec describe now o a =
    let buys = not (is_trial_order o) in
    record {
      project_key = project_key a.project;
      company_name = a.company_name;
      contact_name = a.contact_name;
      username = a.username;
      password = [];
      financial_company_id = a.financial_company_id;
      expires_at = later_of (order_expiry now o) a.expires_at;
      trial_ends_at = later_of (trial_until now o) a.trial_ends_at;
      notes = trim_space (a.notes ++ codes "\n" ++ order_notes describe o);
      access_role = role_name (effective_role a);
      permissions = effective_permissions a;
      can_manage_team = effective_can_manage a;
      requires_setup = false;
      allow_financial = a.allow_financial || (buys && o.wish.allow_financial);
      allow_operational = a.allow_operational || (buys && o.wish.allow_operational);
      allow_weaving = a.allow_weaving || (buys && o.wish.allow_weaving);
      external_org_ref = [];
    }

-- The arguments of `createManagedAccess` for a new customer.
unfoldable pub customer_spec : (Order → Text) → ℤ → Order → Spec
customer_spec describe now o =
    let buys = not (is_trial_order o) in
    record {
      project_key = codes "textile-erp";
      company_name = o.wish.company_name;
      contact_name = o.contact_name;
      username = [];
      password = [];
      financial_company_id = pos 0;
      expires_at = order_expiry now o;
      trial_ends_at = trial_until now o;
      notes = order_notes describe o;
      access_role = codes "owner";
      permissions = catalog;
      can_manage_team = true;
      requires_setup = false;
      allow_financial = o.wish.allow_financial && buys;
      allow_operational = o.wish.allow_operational && buys;
      allow_weaving = o.wish.allow_weaving && buys;
      external_org_ref = [];
    }

-- What follows a call that makes or changes the account.
abbrev pub with_account :
    ℤ → Text → Order → List Order → Result AccessError (Access × Text) × List Row → Approval
with_account now admin_note o orders (err e, file) =
    (err (account e), record { orders = orders; file = file })
with_account now admin_note o orders (ok (a, shown), file) =
    close_order now admin_note (as_trial o) a a.financial_company_id shown
      (record { orders = orders; file = file })

abbrev pub is_requester : Order → Access → Bool
is_requester o a = beq_ℤ a.id o.requester_access_id && is_textile a.project

abbrev pub upgrade :
    Services → (Order → Text) → ℤ → Draws → Text → Order → Desk → Option Access → Approval
upgrade sv describe now dr admin_note o desk none = (err (account no_access), desk)
upgrade sv describe now dr admin_note o desk (some a) =
    with_account now admin_note o desk.orders
      (update_managed sv now dr a.id (upgrade_spec describe now o a) desk.file)

-- The order is for an account that is there, or for a new customer.
unfoldable pub activate : Services → (Order → Text) → ℤ → Draws → Text → Order → Desk → Approval
activate sv describe now dr admin_note o desk =
    if ltb_ℤ (pos 0) o.requester_access_id
    then upgrade sv describe now dr admin_note o desk
        (find (is_requester o) (list_accesses desk.file))
    else with_account now admin_note o desk.orders
        (create_managed sv now dr (customer_spec describe now o) desk.file)

abbrev pub approve_with :
    Services → (Order → Text) → ℤ → Draws → Text → Order → Desk → Option Access → Approval
approve_with sv describe now dr admin_note o desk (some a) =
    close_order now admin_note o a o.financial_company_id (portal_password sv a) desk
approve_with sv describe now dr admin_note o desk none =
    activate sv describe now dr admin_note o desk

abbrev pub is_rejected : Status → Bool
is_rejected rejected = true
is_rejected _ = false

abbrev pub approve_found :
    Services → (Order → Text) → ℤ → Draws → Text → Desk → Option Order → Approval
approve_found sv describe now dr admin_note desk none = (err no_order, desk)
approve_found sv describe now dr admin_note desk (some o) =
    if is_rejected o.status
    then (err already_rejected, desk)
    else approve_with sv describe now dr admin_note o desk (find_account o desk.file)

-- `approvePurchaseOrder`
unfoldable pub approve : Services → (Order → Text) → ℤ → Draws → Text → Text → Desk → Approval
approve sv describe now dr id admin_note desk =
    approve_found sv describe now dr admin_note desk (order_by_id id desk.orders)

abbrev pub reject_saved : Order → Desk → Option (List Order) → Result ApprovalError Order × Desk
reject_saved o desk none = (err no_order, desk)
reject_saved o desk (some orders) = (ok o, record desk { orders = orders })

abbrev pub reject_found : ℤ → Text → Desk → Option Order → Result ApprovalError Order × Desk
reject_found now admin_note desk none = (err no_order, desk)
reject_found now admin_note desk (some o) =
    let o' : Order = record o { status = rejected; admin_note = trim_space admin_note } in
    if is_approved o.status || ltb_ℤ (pos 0) o.access_id
    then (err already_approved, desk)
    else reject_saved o' desk (save_order now o' desk.orders)

-- `rejectPurchaseOrder`
unfoldable pub reject : ℤ → Text → Text → Desk → Result ApprovalError Order × Desk
reject now id admin_note desk = reject_found now admin_note desk (order_by_id id desk.orders)
