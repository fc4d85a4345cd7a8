-- ===== src/Domain/Stock/Tests.antt =====
-- Runs of inventory_service.go over hundredths.
use textile_erp_cloud.Base.{◌≡◌, refl, true, false, List, [], ◌∷◌, arith}
use textile_erp_cloud.Base.Int.{ℤ, pos, negsuc, ltb_ℤ, leb_ℤ, neg, ◌+ℤ◌, ◌-ℤ◌}
use textile_erp_cloud.Base.Int64.{wrap64}
use textile_erp_cloud.Base.Result.{ok, err}
use textile_erp_cloud.Base.Text.{codes}
use textile_erp_cloud.Base.Float.{Float, hundredths}
use textile_erp_cloud.Domain.Tenants.{normalized_company}
use textile_erp_cloud.Domain.Stock.{
  Slip, StockTxn, StockError, InventoryService, empty_inventory, add_item, samples, seed_company,
  ensure_seeded, stock_in, stock_out, out_txn,
}
use textile_erp_cloud.Domain.Stock.Replay.{quantities, Logged}
use textile_erp_cloud.Domain.Stock.Calls.{
  Call, move_in, move_out, run_all, HasItems, run_all-Logged,
}
use textile_erp_cloud.Domain.Stock.Floor.{IsOrdered, TookOut, stock_out_floor}

instance abbrev float_hundredths : Float ℤ
float_hundredths = hundredths

-- Unfolds all that a run computes with.
unfoldable running : Unit {0}
unfolding hundredths wrap64 ◌+ℤ◌ ◌-ℤ◌ neg normalized_company add_item samples seed_company
    ensure_seeded stock_in stock_out
running = tt

abbrev slip : Slip
slip = record { reference_no = codes "R-1"; description = []; warehouse = []; created_by = [] }

abbrev seeded : InventoryService ℤ
seeded = seed_company (pos 0) (pos 1) empty_inventory

-- 100 KG more of the first yarn at 200,000 Toman, and 5,000 of them out again.
abbrev movements : List (ℤ × Call ℤ)
movements =
    (pos 1, move_in (pos 1) (pos 1) (pos 10_000) (pos 2_000_000) slip)
    ∷ (pos 2, move_out (pos 1) (pos 1) (pos 500_000) slip)
    ∷ (pos 3, move_out (pos 1) (pos 1) (pos 500_000) slip)
    ∷ []

stock :
    quantities ((run_all movements seeded).items (pos 1))
    ≡ (pos 1, pos 10_000) ∷ (pos 2, pos 300_000) ∷ (pos 3, pos 200_000) ∷ (pos 4, pos 150_000) ∷ []
unfolding running
stock = refl

too_much :
    (stock_out (pos 3) (pos 1) (pos 2) (pos 300_001) slip seeded).0
    ≡ err StockError.insufficient_stock
unfolding running
too_much = refl

-- A negative quantity passes as well, and raises the stock.
negative :
    quantities ((stock_out (pos 3) (pos 1) (pos 2) (negsuc 99) slip seeded).1.items (pos 1))
    ≡ (pos 1, pos 500_000) ∷ (pos 2, pos 300_100) ∷ (pos 3, pos 200_000) ∷ (pos 4, pos 150_000) ∷ []
unfolding running
negative = refl

has_items : HasItems (pos 1) seeded
unfolding running
has_items = refl

run_all-Logged_example : Logged (pos 1) seeded (run_all movements seeded)
run_all-Logged_example = run_all-Logged (pos 1) movements seeded has_items

difference : (a b : ℤ) → ltb_ℤ a b ≡ false → leb_ℤ (pos 0) (a -ℤ b) ≡ true
unfolding ◌-ℤ◌
difference a b h = ground arith

instance hundredths-IsOrdered : IsOrdered ℤ
unfolding running
hundredths-IsOrdered = record {
  IsFinite = λ x. Unit {0};
  minus_nonneg = λ a b f g h. difference a b h;
}

abbrev taken : StockTxn ℤ
taken = out_txn (pos 3) (pos 1) (pos 500) (pos 1_500_000) slip (pos 1)

taken_ok : (stock_out (pos 3) (pos 1) (pos 1) (pos 500) slip seeded).0 ≡ ok taken
unfolding running
taken_ok = refl

finite : (x : ℤ) → hundredths-IsOrdered.IsFinite x
unfolding hundredths-IsOrdered
finite x = tt

stock_out_floor_example :
    (t : TookOut
      (normalized_company (pos 1))
      (pos 1)
      (pos 500)
      (ensure_seeded (pos 3) (normalized_company (pos 1)) seeded)
      taken
      (stock_out (pos 3) (pos 1) (pos 1) (pos 500) slip seeded).1)
    × (float_hundredths.at_most (float_hundredths.of_int (pos 0)) t.after.qty_on_hand ≡ true)
stock_out_floor_example =
    stock_out_floor (pos 3) (pos 1) (pos 1) (pos 500) slip seeded taken taken_ok (finite (pos 500))
      (λ item f. finite item.qty_on_hand)
