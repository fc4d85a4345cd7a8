-- ===== src/Domain/Stock/Floor.antt =====
-- `StockOut` of inventory_service.go takes no more than there is.
use textile_erp_cloud.Base.{
  ◌≡◌, refl, ap, ◌∙◌, inl, inr, true, false, Option, none, some, [], ◌∷◌, ◌++◌, Bool-cases, find,
  update_first, find-update_first,
}
use textile_erp_cloud.Base.Int.{ℤ, pos}
use textile_erp_cloud.Base.Result.{Result, ok}
use textile_erp_cloud.Base.Float.{Float}
use textile_erp_cloud.Domain.Tenants.{normalized_company, put-here}
use textile_erp_cloud.Domain.Stock.{
  Item, Slip, StockTxn, InventoryService, is_item, ensure_seeded, stocked_out, out_found, stock_out,
}

-- What is used of the order of `float64`: the difference of two finite numbers is not negative if the
-- first is not below the second.
pub record IsOrdered (W : Type 0) ⦃fl : Float W⦄ : Type 1 where
  pub IsFinite : W → Type 0
  pub minus_nonneg :
      (a b : W)
      → IsFinite a
      → IsFinite b
      → fl.below a b ≡ false
      → fl.at_most (fl.of_int (pos 0)) (fl.minus a b) ≡ true

ok-injective : {E A : Type 0} (a b : A) → Path (Result E A) (ok a) (ok b) → a ≡ b
ok-injective a b h = cc

module _ {W : Type 0} ⦃fl : Float W⦄ where
  -- What a movement out that went through has done.
  pub record TookOut (co id : ℤ) (qty : W) (a : InventoryService W) (txn : StockTxn W)
      (b : InventoryService W) : Type 0 where
    pub before : Item W
    pub found : find (is_item id) (a.items co) ≡ some before
    pub enough : fl.below before.qty_on_hand qty ≡ false
    pub after : Item W
    pub now_found : find (is_item id) (b.items co) ≡ some after
    pub taken : after.qty_on_hand ≡ fl.minus before.qty_on_hand qty
    pub cost_kept : after.unit_cost ≡ before.unit_cost
    pub logged : b.transactions co ≡ a.transactions co ++ (txn ∷ [])

  out_found-TookOut :
      (now co id : ℤ) (qty : W) (slip : Slip) (found : Option (Item W)) (is : InventoryService W)
      (txn : StockTxn W)
      → find (is_item id) (is.items co) ≡ found
      → (out_found now co id qty slip found is).0 ≡ ok txn
      → TookOut co id qty is txn (out_found now co id qty slip found is).1
  out_found-TookOut now co id qty slip none is txn f h = cc
  out_found-TookOut now co id qty slip (some item) is txn f h =
      elim (Bool-cases (fl.below item.qty_on_hand qty)) [
        | inl short ↦ absurd (cc (rw short at h))
        | inr fine ↦ rw fine (record {
          before = item;
          found = f;
          enough = fine;
          after = stocked_out now qty item;
          now_found =
              rw
                (put-here co (update_first (is_item id) (stocked_out now qty) (is.items co))
                  is.items)
                (find-update_first (is_item id) (stocked_out now qty) (is.items co) item (λ x. refl)
                  f);
          taken = refl;
          cost_kept = refl;
          logged =
              put-here co (is.transactions co ++ (_ ∷ [])) is.transactions
              ∙ ap (λ t. is.transactions co ++ (t ∷ [])) (ok-injective _ txn (rw fine at h));
        })
      ]

  -- If `StockOut` succeeds, and the quantity and those on hand are finite, the item was there with no less
  -- than the quantity on hand; now the same look-up finds it with that quantity subtracted, not below
  -- zero, at the same unit cost, and the log of the company has the returned transaction behind it.
  pub stock_out_floor :
      ⦃ord : IsOrdered W⦄ (now company id : ℤ) (qty : W) (slip : Slip) (is : InventoryService W)
      (txn : StockTxn W)
      → (stock_out now company id qty slip is).0 ≡ ok txn
      → ord.IsFinite qty
      → ((item : Item W)
          → find (is_item id) (
              (ensure_seeded now (normalized_company company) is).items
                (normalized_company company))
            ≡ some item
          → ord.IsFinite item.qty_on_hand)
      → (t : TookOut
          (normalized_company company)
          id
          qty
          (ensure_seeded now (normalized_company company) is)
          txn
          (stock_out now company id qty slip is).1)
        × (fl.at_most (fl.of_int (pos 0)) t.after.qty_on_hand ≡ true)
  unfolding stock_out
  stock_out_floor ⦃ord⦄ now company id qty slip is txn h finite all_finite =
      let co = normalized_company company in
      let is1 = ensure_seeded now co is in
      let t =
        out_found-TookOut now co id qty slip (find (is_item id) (is1.items co)) is1 txn refl h in
      (
        t,
        ap (fl.at_most (fl.of_int (pos 0))) t.taken
            ∙ ord.minus_nonneg t.before.qty_on_hand qty (all_finite t.before t.found) finite
                t.enough,
      )
