-- ===== src/Domain/Stock/Replay.antt =====
-- The log of movements of inventory_service.go and the quantities on hand.
use textile_erp_cloud.Base.{
  ◌≡◌, refl, sym, ap, ◌∙◌, inl, inr, Bool, List, [], ◌∷◌, ◌++◌, map, Bool-cases, update_first,
}
use mathlib.Core.Path.{subst}
use mathlib.Core.List.{append-nil, append_assoc}
use textile_erp_cloud.Base.Int.{ℤ, beq_ℤ, beq_ℤ_iff}
use textile_erp_cloud.Base.Float.{Float}
use textile_erp_cloud.Domain.Money.{Money}
use textile_erp_cloud.Domain.Tenants.{put-here, put-other}
use textile_erp_cloud.Domain.Stock.{
  Item, move_in, move_out, StockTxn, InventoryService, is_item, log_txn, stocked_in, stocked_out,
}

-- Each item with what is on hand of it.
abbrev pub quantities : {W : Type 0} → List (Item W) → List (ℤ × W)
quantities = map λ item. (item.id, item.qty_on_hand)

abbrev pub is_for : {W : Type 0} → ℤ → ℤ × W → Bool
is_for id q = beq_ℤ q.0 id

module _ {W : Type 0} ⦃fl : Float W⦄ where
  abbrev pub moved : StockTxn W → ℤ × W → ℤ × W
  moved t (id, qty) =
      (id, elim t.kind [ move_in ↦ fl.plus qty t.qty | move_out ↦ fl.minus qty t.qty ])

  abbrev pub replay : List (StockTxn W) → List (ℤ × W) → List (ℤ × W)
  replay [] qs = qs
  replay (t ∷ ts) qs = replay ts (update_first (is_for t.item_id) (moved t) qs)

  pub replay-append :
      (xs ys : List (StockTxn W)) (qs : List (ℤ × W))
      → replay (xs ++ ys) qs ≡ replay ys (replay xs qs)
  replay-append [] ys qs = refl
  replay-append (x ∷ xs) ys qs = replay-append xs ys (update_first (is_for x.item_id) (moved x) qs)

  -- Between the two states the log of the company grew, and replaying what is new in it on the old
  -- quantities gives the new ones.
  abbrev pub Logged : ℤ → InventoryService W → InventoryService W → Type 0
  Logged c a b =
      (new : List (StockTxn W)) × (b.transactions c ≡ a.transactions c ++ new)
      × (quantities (b.items c) ≡ replay new (quantities (a.items c)))

  pub Logged-trans :
      (c : ℤ) (a b d : InventoryService W) → Logged c a b → Logged c b d → Logged c a d
  Logged-trans c a b d (xs, h, k) (ys, h', k') = (
    xs ++ ys,
    rw (h', h) (append_assoc (a.transactions c) xs ys),
    k' ∙ ap (replay ys) k ∙ sym (replay-append xs ys (quantities (a.items c))),
  )

  pub Logged-same :
      (c : ℤ) (a b : InventoryService W)
      → b.items c ≡ a.items c
      → b.transactions c ≡ a.transactions c
      → Logged c a b
  Logged-same c a b i t = ([], t ∙ sym (append-nil (a.transactions c)), ap quantities i)

  pub stocked_in-moved :
      (now id : ℤ) (qty : W) (cost : Money) (t : StockTxn W) (items : List (Item W))
      → t.kind ≡ move_in
      → t.qty ≡ qty
      → quantities (update_first (is_item id) (stocked_in now qty cost) items)
        ≡ update_first (is_for id) (moved t) (quantities items)
  stocked_in-moved now id qty cost t [] k q = refl
  stocked_in-moved now id qty cost t (x ∷ xs) k q = elim (Bool-cases (is_item id x)) [
    | inl hit ↦ rw (hit, k, q) refl
    | inr miss ↦ rw (miss, stocked_in-moved now id qty cost t xs k q) refl
  ]

  pub stocked_out-moved :
      (now id : ℤ) (qty : W) (t : StockTxn W) (items : List (Item W))
      → t.kind ≡ move_out
      → t.qty ≡ qty
      → quantities (update_first (is_item id) (stocked_out now qty) items)
        ≡ update_first (is_for id) (moved t) (quantities items)
  stocked_out-moved now id qty t [] k q = refl
  stocked_out-moved now id qty t (x ∷ xs) k q = elim (Bool-cases (is_item id x)) [
    | inl hit ↦ rw (hit, k, q) refl
    | inr miss ↦ rw (miss, stocked_out-moved now id qty t xs k q) refl
  ]

  -- A movement that is logged with its transaction.
  pub log_txn-Logged :
      (c co : ℤ) (txn : ℤ → StockTxn W) (items : List (Item W)) (is : InventoryService W)
      → ((id : ℤ) → quantities items ≡ replay (txn id ∷ []) (quantities (is.items co)))
      → Logged c is (log_txn co txn items is).1
  log_txn-Logged c co txn items is h = elim (Bool-cases (beq_ℤ co c)) [
    | inr other ↦
        Logged-same c is (log_txn co txn items is).1 (put-other co c items is.items other)
          (put-other co c (is.transactions co ++ (txn _ ∷ [])) is.transactions other)
    | inl here ↦
        subst (λ d. Logged d is (log_txn co txn items is).1) ((beq_ℤ_iff co c).0 here)
          (
            _,
            put-here co (is.transactions co ++ (txn _ ∷ [])) is.transactions,
            ap quantities (put-here co items is.items) ∙ h _,
          )
  ]
