-- ===== src/Portal/Approvals/Lists.antt =====
-- Orders of portal_server/orders.go with distinct ids: what is found, sorted and replaced.
use mathlib.Core.Option.{some-injective}
use textile_erp_cloud.Base.{
  ◌≡◌, ◌⊎◌, ap, inl, inr, Bool, true, false, some, List, [], ◌∷◌, Bool-cases, find, find_sound, All,
}
use textile_erp_cloud.Base.Int.{ltb_ℤ}
use textile_erp_cloud.Base.Text.{Text, trim_space, equal_fold, equal_fold-join}
use textile_erp_cloud.Portal.Orders.{Order}
use textile_erp_cloud.Portal.Approvals.{insert_order, list_orders, asked, order_by_id}

-- No two orders have an id in common, up to case.
abbrev pub IsDistinctOrders : List Order → Type 0
IsDistinctOrders [] = Unit
IsDistinctOrders (o ∷ more) = All (λ x. equal_fold x.id o.id ≡ false) more × IsDistinctOrders more

abbrev pub Occurs : Order → List Order → Type 0
Occurs o [] = ⊥
Occurs o (x ∷ more) = (x ≡ o) ⊎ Occurs o more

find-Occurs :
    (p : Order → Bool) (orders : List Order) (o : Order) → find p orders ≡ some o → Occurs o orders
find-Occurs p [] o e = absurd (cc)
find-Occurs p (x ∷ more) o e = elim (Bool-cases (p x)) [
  | inl hit ↦ inl (some-injective _ _ (rw hit at e))
  | inr miss ↦ inr (find-Occurs p more o (rw miss at e))
]

swap_first : {A B C D : Type 0} → B ⊎ D → (D → A ⊎ C) → A ⊎ (B ⊎ C)
swap_first (inl b) f = inr (inl b)
swap_first (inr d) f = elim (f d) [ inl a ↦ inl a | inr c ↦ inr (inr c) ]

insert_order-Occurs :
    (n o : Order) (orders : List Order)
    → Occurs o (insert_order n orders)
    → (n ≡ o) ⊎ Occurs o orders
insert_order-Occurs n o [] h = h
insert_order-Occurs n o (x ∷ more) h = elim (Bool-cases (ltb_ℤ n.created_at x.created_at)) [
  | inr newer ↦ rw newer at h
  | inl older ↦ swap_first (rw older at h) (insert_order-Occurs n o more)
]

list_orders-Occurs :
    (o : Order) (orders : List Order) → Occurs o (list_orders orders) → Occurs o orders
unfolding list_orders
list_orders-Occurs o [] h = h
list_orders-Occurs o (x ∷ more) h = elim (insert_order-Occurs x o (list_orders more) h) [
  | inl e ↦ inl e
  | inr k ↦ inr (list_orders-Occurs o more k)
]

push_back : {A B C D : Type 0} → A ⊎ (B ⊎ C) → (A ⊎ C → D) → B ⊎ D
push_back (inl a) f = inr (f (inl a))
push_back (inr (inl b)) f = inl b
push_back (inr (inr c)) f = inr (f (inr c))

into_order :
    (n o : Order) (orders : List Order)
    → (n ≡ o) ⊎ Occurs o orders
    → Occurs o (insert_order n orders)
into_order n o [] h = h
into_order n o (x ∷ more) h = elim (Bool-cases (ltb_ℤ n.created_at x.created_at)) [
  | inr newer ↦ rw newer h
  | inl older ↦ rw older (push_back h (into_order n o more))
]

into_list : (o : Order) (orders : List Order) → Occurs o orders → Occurs o (list_orders orders)
unfolding list_orders
into_list o [] h = elim h [ ]
into_list o (x ∷ more) (inl e) = into_order x o (list_orders more) (inl e)
into_list o (x ∷ more) (inr k) = into_order x o (list_orders more) (inr (into_list o more k))

insert_order-All :
    (P : Order → Type 0) (n : Order) (orders : List Order)
    → P n
    → All P orders
    → All P (insert_order n orders)
insert_order-All P n [] h hs = (h, tt)
insert_order-All P n (x ∷ more) h hs = elim (Bool-cases (ltb_ℤ n.created_at x.created_at)) [
  | inr newer ↦ rw newer (h, hs)
  | inl older ↦ rw older (hs.0, insert_order-All P n more h hs.1)
]

-- Only `o` passes the test.
abbrev IsOnly : Text → Order → Order → Type 0
IsOnly id o x = asked id x ≡ true → x ≡ o

list_orders-IsOnly :
    (id : Text) (o : Order) (orders : List Order)
    → All (IsOnly id o) orders
    → All (IsOnly id o) (list_orders orders)
unfolding list_orders
list_orders-IsOnly id o [] h = tt
list_orders-IsOnly id o (x ∷ more) h =
    insert_order-All (IsOnly id o) x (list_orders more) h.0 (list_orders-IsOnly id o more h.1)

find_only :
    (id : Text) (o : Order) (orders : List Order)
    → All (IsOnly id o) orders
    → Occurs o orders
    → asked id o ≡ true
    → find (asked id) orders ≡ some o
find_only id o [] h k e = elim k [ ]
find_only id o (x ∷ more) h k e = elim (Bool-cases (asked id x)) [
  | inl hit ↦ rw hit (ap some (h.0 hit))
  | inr miss ↦ rw miss (find_only id o more h.1 (later k miss) e)
]
  where
    later : (x ≡ o) ⊎ Occurs o more → asked id x ≡ false → Occurs o more
    later (inl same) miss = absurd (cc (rw same at miss))
    later (inr k) miss = k

apart_at :
    (x o : Order) (orders : List Order)
    → All (λ y. equal_fold y.id x.id ≡ false) orders
    → Occurs o orders
    → equal_fold o.id x.id ≡ false
apart_at x o [] h k = elim k [ ]
apart_at x o (y ∷ more) h (inl e) = rw (← e) h.0
apart_at x o (y ∷ more) h (inr k) = apart_at x o more h.1 k

IsOnly-first :
    (id : Text) (o : Order) (more : List Order)
    → All (λ y. equal_fold y.id o.id ≡ false) more
    → asked id o ≡ true
    → All (IsOnly id o) more
IsOnly-first id o [] h e = tt
IsOnly-first id o (y ∷ more) h e = (
  λ hit. absurd (cc (equal_fold-join y.id o.id (trim_space id) hit e, h.0)),
  IsOnly-first id o more h.1 e,
)

only :
    (id : Text) (o : Order) (orders : List Order)
    → IsDistinctOrders orders
    → Occurs o orders
    → asked id o ≡ true
    → All (IsOnly id o) orders
only id o [] d k e = tt
only id o (x ∷ more) d (inl same) e = (λ _. same, IsOnly-first id o more (rw (← same) d.0) e)
only id o (x ∷ more) d (inr k) e = (
  λ hit. absurd (cc (equal_fold-join o.id x.id (trim_space id) e hit, apart_at x o more d.0 k)),
  only id o more d.1 k e,
)

-- An order that is there is found by its id.
pub order_by_id-found :
    (id : Text) (o : Order) (orders : List Order)
    → IsDistinctOrders orders
    → Occurs o orders
    → asked id o ≡ true
    → order_by_id id orders ≡ some o
unfolding order_by_id
order_by_id-found id o orders d k e =
    find_only id o (list_orders orders) (list_orders-IsOnly id o orders (only id o orders d k e))
      (into_list o orders k) e

pub order_by_id-Occurs :
    (id : Text) (o : Order) (orders : List Order)
    → order_by_id id orders ≡ some o
    → Occurs o orders × (asked id o ≡ true)
unfolding order_by_id
order_by_id-Occurs id o orders e = (
  list_orders-Occurs o orders (find-Occurs (asked id) (list_orders orders) o e),
  find_sound (asked id) (list_orders orders) o e,
)
