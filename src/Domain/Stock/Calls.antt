-- ===== src/Domain/Stock/Calls.antt =====
-- Sequences of movements in inventory_service.go.
use textile_erp_cloud.Base.{
  ◌≡◌, refl, sym, ap, ◌∙◌, inl, inr, Bool, true, false, Option, none, some, List, [], ◌∷◌, arith,
  Bool-cases, find, update_first,
}
use textile_erp_cloud.Base.Int.{ℤ, beq_ℤ, beq_ℤ_iff}
use textile_erp_cloud.Base.Float.{Float}
use textile_erp_cloud.Domain.Money.{Money}
use textile_erp_cloud.Domain.Tenants.{normalized_company, put-other}
use textile_erp_cloud.Domain.Stock.{
  Item, Slip, StockTxn, InventoryService, is_item, add_item, samples, add_items, seed_company,
  ensure_seeded, stocked_in, in_txn, in_found, stock_in, stocked_out, out_txn, out_found, stock_out,
}
use textile_erp_cloud.Domain.Stock.Replay.{
  moved, is_for, quantities, replay, Logged, Logged-trans, Logged-same, stocked_in-moved,
  stocked_out-moved, log_txn-Logged,
}

-- `StockIn` and `StockOut` with their arguments.
pub data Call (W : Type 0) : Type 0 where
  move_in : ℤ → ℤ → W → Money → Slip → Call W
  move_out : ℤ → ℤ → W → Slip → Call W

abbrev non_empty : {A : Type 0} → List A → Bool
non_empty [] = false
non_empty (x ∷ xs) = true

-- The company has items, so that it is not seeded again.
abbrev pub HasItems : {W : Type 0} → ℤ → InventoryService W → Type 0
HasItems c is = non_empty (is.items c) ≡ true

normalized_twice : (co : ℤ) → normalized_company (normalized_company co) ≡ normalized_company co
unfolding normalized_company
normalized_twice co = ground arith

module _ {W : Type 0} ⦃fl : Float W⦄ where
  abbrev pub run : ℤ × Call W → InventoryService W → InventoryService W
  run (now, move_in co id qty cost slip) is = (stock_in now co id qty cost slip is).1
  run (now, move_out co id qty slip) is = (stock_out now co id qty slip is).1

  abbrev pub run_all : List (ℤ × Call W) → InventoryService W → InventoryService W
  run_all [] is = is
  run_all (call ∷ calls) is = run_all calls (run call is)

  in_found-Logged :
      (c now co id : ℤ) (qty : W) (cost : Money) (slip : Slip) (found : Option (Item W))
      (is : InventoryService W)
      → Logged c is (in_found now co id qty cost slip found is).1
  in_found-Logged c now co id qty cost slip none is = Logged-same c is is refl refl
  in_found-Logged c now co id qty cost slip (some item) is =
      log_txn-Logged c co (in_txn now id qty cost slip)
        (update_first (is_item id) (stocked_in now qty cost) (is.items co)) is
        (λ n.
          stocked_in-moved now id qty cost (in_txn now id qty cost slip n) (is.items co) refl refl)

  out_found-Logged :
      (c now co id : ℤ) (qty : W) (slip : Slip) (found : Option (Item W)) (is : InventoryService W)
      → Logged c is (out_found now co id qty slip found is).1
  out_found-Logged c now co id qty slip none is = Logged-same c is is refl refl
  out_found-Logged c now co id qty slip (some item) is =
      elim (Bool-cases (fl.below item.qty_on_hand qty)) [
        | inl short ↦ rw short (Logged-same c is is refl refl)
        | inr fine ↦ rw fine (
            log_txn-Logged c co (out_txn now id qty item.unit_cost slip)
              (update_first (is_item id) (stocked_out now qty) (is.items co)) is
              (λ n.
                stocked_out-moved now id qty (out_txn now id qty item.unit_cost slip n)
                  (is.items co) refl refl))
      ]

  -- Seeding changes one company.
  abbrev SameStock : ℤ → InventoryService W → InventoryService W → Type 0
  SameStock c a b = (b.items c ≡ a.items c) × (b.transactions c ≡ a.transactions c)

  add_items-SameStock :
      (c now co : ℤ) (new : List (Item W)) (is : InventoryService W)
      → normalized_company co ≡ co
      → beq_ℤ co c ≡ false
      → SameStock c is (add_items now co new is)
  unfolding add_item
  add_items-SameStock c now co [] is n other = (refl, refl)
  add_items-SameStock c now co (item ∷ rest) is n other =
      let added = (add_item now co item is).1 in
      let (i, t) = add_items-SameStock c now co rest added n other in
      (i ∙ put-other (normalized_company co) c _ is.items (rw n other), t)

  HasItems-seeded :
      (now co : ℤ) (is : InventoryService W) → HasItems co is → ensure_seeded now co is ≡ is
  unfolding ensure_seeded
  HasItems-seeded now co is h = go (is.items co) h
    where
      go :
          (items : List (Item W))
          → non_empty items ≡ true
          → (elim items as (λ _. InventoryService W) [ [] ↦ seed_company now co is | _ ∷ _ ↦ is ])
            ≡ is
      go [] e = cc
      go (x ∷ xs) e = refl

  ensure_seeded-Logged :
      (c now company : ℤ) (is : InventoryService W)
      → HasItems c is
      → Logged c is (ensure_seeded now (normalized_company company) is)
  unfolding ensure_seeded seed_company
  ensure_seeded-Logged c now company is h = elim (Bool-cases (beq_ℤ co c)) [
    | inl here ↦
        let same = HasItems-seeded now co is (rw ((beq_ℤ_iff co c).0 here) h) in
        rw same (Logged-same c is is refl refl)
    | inr other ↦ go (is.items co) other
  ]
    where
      co : ℤ
      co = normalized_company company

      go :
          (items : List (Item W))
          → beq_ℤ co c ≡ false
          → Logged c is
              (elim items as (λ _. InventoryService W) [ [] ↦ seed_company now co is | _ ∷ _ ↦ is ])
      go [] other =
          let (i, t) = add_items-SameStock c now co samples is (normalized_twice company) other in
          Logged-same c is (seed_company now co is) i t
      go (x ∷ xs) other = Logged-same c is is refl refl

  run-Logged :
      (c : ℤ) (call : ℤ × Call W) (is : InventoryService W)
      → HasItems c is
      → Logged c is (run call is)
  unfolding stock_in stock_out
  run-Logged c (now, move_in company id qty cost slip) is h =
      let co = normalized_company company in
      let is1 = ensure_seeded now co is in
      let found = find (is_item id) (is1.items co) in
      Logged-trans c is is1 (in_found now co id qty cost slip found is1).1
        (ensure_seeded-Logged c now company is h)
        (in_found-Logged c now co id qty cost slip found is1)
  run-Logged c (now, move_out company id qty slip) is h =
      let co = normalized_company company in
      let is1 = ensure_seeded now co is in
      let found = find (is_item id) (is1.items co) in
      Logged-trans c is is1 (out_found now co id qty slip found is1).1
        (ensure_seeded-Logged c now company is h) (out_found-Logged c now co id qty slip found is1)

  non_empty-replay :
      (ts : List (StockTxn W)) (qs : List (ℤ × W))
      → non_empty qs ≡ true
      → non_empty (replay ts qs) ≡ true
  non_empty-replay [] qs h = h
  non_empty-replay (t ∷ ts) [] h = cc
  non_empty-replay (t ∷ ts) (q ∷ qs) h = non_empty-replay ts _ (still t q qs)
    where
      still :
          (t : StockTxn W) (q : ℤ × W) (qs : List (ℤ × W))
          → non_empty (update_first (is_for t.item_id) (moved t) (q ∷ qs)) ≡ true
      still t q qs = elim (Bool-cases (is_for t.item_id q)) [
        | inl hit ↦ rw hit refl
        | inr miss ↦ rw miss refl
      ]

  non_empty-quantities : (items : List (Item W)) → non_empty (quantities items) ≡ non_empty items
  non_empty-quantities [] = refl
  non_empty-quantities (x ∷ xs) = refl

  Logged-HasItems : (c : ℤ) (a b : InventoryService W) → Logged c a b → HasItems c a → HasItems c b
  Logged-HasItems c a b (new, t, q) h =
      sym (non_empty-quantities (b.items c))
      ∙ ap non_empty q
      ∙ non_empty-replay new (quantities (a.items c)) (non_empty-quantities (a.items c) ∙ h)

  -- For a company that has items, after any movements of any companies, refused ones included, the
  -- log of the company is the old one with new transactions behind it, and the quantities on hand
  -- are those that replaying the new transactions on the old quantities gives.
  pub run_all-Logged :
      (c : ℤ) (calls : List (ℤ × Call W)) (is : InventoryService W)
      → HasItems c is
      → Logged c is (run_all calls is)
  run_all-Logged c [] is h = Logged-same c is is refl refl
  run_all-Logged c (call ∷ calls) is h =
      let one = run-Logged c call is h in
      Logged-trans c is (run call is) (run_all calls (run call is)) one
        (run_all-Logged c calls (run call is) (Logged-HasItems c is (run call is) one h))
