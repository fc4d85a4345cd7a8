-- ===== src/Portal/Approvals/Saves.antt =====
-- What `savePurchaseOrder` of portal_server/orders.go does to orders with distinct ids.
use textile_erp_cloud.Base.{
  ◌≡◌, ◌⊎◌, refl, inl, inr, true, false, Option, none, some, List, [], ◌∷◌, Bool-cases, find,
  update_first, All,
}
use textile_erp_cloud.Base.Int.{ℤ}
use textile_erp_cloud.Base.Text.{text_eq_sound, text_eq_refl, equal_fold, equal_fold_refl}
use textile_erp_cloud.Portal.Orders.{Order}
use textile_erp_cloud.Portal.Approvals.{is_order, saved, save_order}
use textile_erp_cloud.Portal.Approvals.Lists.{IsDistinctOrders, Occurs}

-- The orders with one replaced.
abbrev pub replaced : Order → List Order → List Order
replaced n = update_first (is_order n.id) (λ _. n)

abbrev pub stamped : ℤ → Order → Order
stamped now o = record o { updated_at = now }

hit_at :
    (o : Order) (orders : List Order)
    → Occurs o orders
    → (x : Order) × (find (is_order o.id) orders ≡ some x)
hit_at o [] k = elim k [ ]
hit_at o (x ∷ more) k = elim (Bool-cases (is_order o.id x)) [
  | inl hit ↦ (x, rw hit refl)
  | inr miss ↦ let (y, found) = hit_at o more (later k miss) in (y, rw miss found)
]
  where
    later : (x ≡ o) ⊎ Occurs o more → is_order o.id x ≡ false → Occurs o more
    later (inl same) miss = absurd (cc (rw same at miss, text_eq_refl o.id))
    later (inr k) miss = k

saved-some :
    (now : ℤ) (n : Order) (orders : List Order) (x : Order) (found : Option Order)
    → found ≡ some x
    → saved now n orders found ≡ some (replaced (stamped now n) orders)
saved-some now n orders x none e = absurd (cc)
saved-some now n orders x (some y) e = refl

-- An order that is there can be saved.
pub save_order-some :
    (now : ℤ) (o n : Order) (orders : List Order)
    → n.id ≡ o.id
    → Occurs o orders
    → save_order now n orders ≡ some (replaced (stamped now n) orders)
unfolding save_order
save_order-some now o n orders e k =
    let (x, found) = hit_at o orders k in
    saved-some now n orders x (find (is_order n.id) orders) (rw e found)

replaced-apart :
    (x n : Order) (orders : List Order)
    → All (λ y. equal_fold y.id x.id ≡ false) orders
    → All (λ y. equal_fold y.id x.id ≡ false) (replaced n orders)
replaced-apart x n [] h = tt
replaced-apart x n (y ∷ more) h = elim (Bool-cases (is_order n.id y)) [
  | inl hit ↦ rw hit (rw (← text_eq_sound y.id n.id hit) h.0, h.1)
  | inr miss ↦ rw miss (h.0, replaced-apart x n more h.1)
]

pub replaced-IsDistinctOrders :
    (n : Order) (orders : List Order)
    → IsDistinctOrders orders
    → IsDistinctOrders (replaced n orders)
replaced-IsDistinctOrders n [] d = tt
replaced-IsDistinctOrders n (y ∷ more) d = elim (Bool-cases (is_order n.id y)) [
  | inl hit ↦ rw hit (rw (← text_eq_sound y.id n.id hit) d.0, d.1)
  | inr miss ↦ rw miss (replaced-apart y n more d.0, replaced-IsDistinctOrders n more d.1)
]

pub replaced-Occurs :
    (o n : Order) (orders : List Order)
    → n.id ≡ o.id
    → Occurs o orders
    → Occurs n (replaced n orders)
replaced-Occurs o n [] e k = elim k [ ]
replaced-Occurs o n (y ∷ more) e k = elim (Bool-cases (is_order n.id y)) [
  | inl hit ↦ rw hit (inl refl)
  | inr miss ↦ rw miss (inr (replaced-Occurs o n more e (later k miss)))
]
  where
    later : (y ≡ o) ⊎ Occurs o more → is_order n.id y ≡ false → Occurs o more
    later (inl same) miss = absurd (cc (rw (same, e) at miss, text_eq_refl o.id))
    later (inr k) miss = k

-- Two lists of orders one by one.
abbrev pub Pairs : (Order → Order → Type 0) → List Order → List Order → Type 0
Pairs R [] [] = Unit
Pairs R (a ∷ more) (b ∷ others) = R a b × Pairs R more others
Pairs R _ _ = ⊥

pub Pairs-refl :
    (R : Order → Order → Type 0) (orders : List Order)
    → ((o : Order) → R o o)
    → Pairs R orders orders
Pairs-refl R [] h = tt
Pairs-refl R (o ∷ more) h = (h o, Pairs-refl R more h)

same_id :
    (o n y : Order) (more : List Order)
    → n.id ≡ o.id
    → is_order n.id y ≡ true
    → All (λ x. equal_fold x.id y.id ≡ false) more
    → (y ≡ o) ⊎ Occurs o more
    → y ≡ o
same_id o n y more e hit apart (inl same) = same
same_id o n y [] e hit apart (inr k) = elim k [ ]
same_id o n y (x ∷ more) e hit apart (inr (inl same)) =
    let met : equal_fold x.id y.id ≡ true =
      rw (same, text_eq_sound y.id n.id hit, e) (equal_fold_refl o.id) in
    absurd (cc (apart.0, met))
same_id o n y (x ∷ more) e hit apart (inr (inr k)) = same_id o n y more e hit apart.1 (inr k)

-- If the old order and the new one are related, so are the lists.
pub replaced-Pairs :
    (R : Order → Order → Type 0) (o n : Order) (orders : List Order)
    → ((x : Order) → R x x)
    → n.id ≡ o.id
    → IsDistinctOrders orders
    → Occurs o orders
    → R o n
    → Pairs R orders (replaced n orders)
replaced-Pairs R o n [] h e d k r = tt
replaced-Pairs R o n (y ∷ more) h e d k r = elim (Bool-cases (is_order n.id y)) [
  | inl hit ↦ rw hit (rw (same_id o n y more e hit d.0 k) r, Pairs-refl R more h)
  | inr miss ↦ rw miss (h y, replaced-Pairs R o n more h e d.1 (later k miss) r)
]
  where
    later : (y ≡ o) ⊎ Occurs o more → is_order n.id y ≡ false → Occurs o more
    later (inl same) miss = absurd (cc (rw (same, e) at miss, text_eq_refl o.id))
    later (inr k) miss = k
