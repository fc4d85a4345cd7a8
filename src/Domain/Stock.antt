-- ===== src/Domain/Stock.antt =====
-- financial/internal/domain/service/inventory_service.go. Each method runs under the mutex; `now` is what
-- `time.Now()` returns in the call. The methods without a company are those of company 1.
mod Tests
pub mod Replay
pub mod Calls
pub mod Floor
use textile_erp_cloud.Base.{
  Bool, true, false, Option, none, some, List, [], ◌∷◌, ◌++◌, length, find, update_first, keep,
  if◌then◌else◌,
}
use textile_erp_cloud.Base.Int.{ℤ, pos, beq_ℤ, ltb_ℤ}
use textile_erp_cloud.Base.Int64.{◌+₆₄◌}
use textile_erp_cloud.Base.Result.{Result, ok, err}
use textile_erp_cloud.Base.Text.{Text, codes}
use textile_erp_cloud.Base.Float.{Float}
use textile_erp_cloud.Domain.Money.{Money, zero_money, add, new_money, multiply}
use textile_erp_cloud.Domain.SampleNames.{
  polyester_yarn, cotton_yarn, polyester_fabric, cotton_fabric, main_warehouse, product_warehouse,
}
use textile_erp_cloud.Domain.Tenants.{normalized_company, put}

pub record Item (W : Type 0) : Type 0 where
  pub id : ℤ
  pub code : Text
  pub name : Text
  pub kind : Text
  pub unit : Text
  pub qty_on_hand : W
  pub qty_reserved : W
  pub unit_cost : Money
  pub min_stock : W
  pub max_stock : W
  pub warehouse : Text
  pub updated_at : ℤ

pub data Movement : Type 0 where
  move_in move_out : Movement

-- What `StockIn` and `StockOut` are told of a movement.
pub record Slip : Type 0 where
  pub reference_no : Text
  pub description : Text
  pub warehouse : Text
  pub created_by : Text

pub record StockTxn (W : Type 0) : Type 0 where
  pub id : ℤ
  pub item_id : ℤ
  pub kind : Movement
  pub qty : W
  pub unit_cost : Money
  pub total_value : Money
  pub slip : Slip
  pub created_at : ℤ

pub record InventoryService (W : Type 0) : Type 0 where
  pub items : ℤ → List (Item W)
  pub transactions : ℤ → List (StockTxn W)
  pub next_item : ℤ → ℤ
  pub next_txn : ℤ → ℤ

pub data StockError : Type 0 where
  item_not_found insufficient_stock : StockError

abbrev started : ℤ → ℤ
started n = if beq_ℤ n (pos 0) then pos 1 else n

abbrev pub is_item : {W : Type 0} → ℤ → Item W → Bool
is_item id item = beq_ℤ item.id id

module _ {W : Type 0} where
  abbrev pub empty_inventory : InventoryService W
  empty_inventory = record {
    items = λ c. [];
    transactions = λ c. [];
    next_item = λ c. pos 0;
    next_txn = λ c. pos 0;
  }

  -- `AddItemForCompany`
  unfoldable pub add_item : ℤ → ℤ → Item W → InventoryService W → Item W × InventoryService W
  add_item now company item is =
      let co = normalized_company company in
      let id = started (is.next_item co) in
      let added : Item W = record item { id = id; updated_at = now } in
      (
        added,
        record is {
          items = put co (is.items co ++ (added ∷ [])) is.items;
          next_item = put co (id +₆₄ pos 1) is.next_item;
        },
      )

  -- A transaction under the next id of the company (`nextTransactionID`).
  abbrev pub log_txn :
      ℤ → (ℤ → StockTxn W) → List (Item W) → InventoryService W → StockTxn W × InventoryService W
  log_txn co txn items is =
      let id = started (is.next_txn co) in
      (
        txn id,
        record is {
          items = put co items is.items;
          transactions = put co (is.transactions co ++ (txn id ∷ [])) is.transactions;
          next_txn = put co (id +₆₄ pos 1) is.next_txn;
        },
      )

module _ {W : Type 0} ⦃fl : Float W⦄ where
  sample_item : Text → Text → Text → Text → ℤ → ℤ → ℤ → ℤ → Text → Item W
  sample_item code name kind unit qty cost min max warehouse = record {
    id = pos 0;
    code = code;
    name = name;
    kind = kind;
    unit = unit;
    qty_on_hand = fl.of_int qty;
    qty_reserved = fl.of_int (pos 0);
    unit_cost = new_money (fl.of_int cost);
    min_stock = fl.of_int min;
    max_stock = fl.of_int max;
    warehouse = warehouse;
    updated_at = pos 0;
  }

  unfoldable pub samples : List (Item W)
  unfolding sample_item
  samples =
      sample_item (codes "YARN-POLY") polyester_yarn (codes "Yarn") (codes "KG") (pos 5000)
        (pos 150_000) (pos 500) (pos 10_000) main_warehouse
      ∷ sample_item (codes "YARN-COTT") cotton_yarn (codes "Yarn") (codes "KG") (pos 3000)
          (pos 200_000) (pos 300) (pos 8000) main_warehouse
      ∷ sample_item (codes "FAB-POLY") polyester_fabric (codes "Fabric") (codes "Meter") (pos 2000)
          (pos 250_000) (pos 200) (pos 5000) product_warehouse
      ∷ sample_item (codes "FAB-COTT") cotton_fabric (codes "Fabric") (codes "Meter") (pos 1500)
          (pos 300_000) (pos 150) (pos 4000) product_warehouse
      ∷ []

  abbrev pub add_items : ℤ → ℤ → List (Item W) → InventoryService W → InventoryService W
  add_items now co [] is = is
  add_items now co (item ∷ rest) is = add_items now co rest (add_item now co item is).1

  -- `seedCompany`
  unfoldable pub seed_company : ℤ → ℤ → InventoryService W → InventoryService W
  unfolding samples add_item
  seed_company now co is = add_items now co samples is

  -- `ensureCompanySeeded`, of a company that is normalized already.
  unfoldable pub ensure_seeded : ℤ → ℤ → InventoryService W → InventoryService W
  unfolding seed_company
  ensure_seeded now co is = elim (is.items co) [ [] ↦ seed_company now co is | _ ∷ _ ↦ is ]

  -- The average of the old and the new stock at their costs.
  abbrev pub average_cost : Item W → W → Money → W → Money
  average_cost item qty cost after =
      let old = multiply item.unit_cost (fl.minus after qty) in
      multiply (add old (multiply cost qty)) (fl.over (fl.of_int (pos 1)) after)

  abbrev pub stocked_in : ℤ → W → Money → Item W → Item W
  stocked_in now qty cost item =
      let after = fl.plus item.qty_on_hand qty in
      record item {
        qty_on_hand = after;
        unit_cost = if ltb_ℤ (pos 0) cost then average_cost item qty cost after else item.unit_cost;
        updated_at = now;
      }

  abbrev pub in_txn : ℤ → ℤ → W → Money → Slip → ℤ → StockTxn W
  in_txn now item qty cost slip id = record {
    id = id;
    item_id = item;
    kind = move_in;
    qty = qty;
    unit_cost = cost;
    total_value = multiply cost qty;
    slip = slip;
    created_at = now;
  }

  abbrev pub in_found :
      ℤ
      → ℤ
      → ℤ
      → W
      → Money
      → Slip
      → Option (Item W)
      → InventoryService W
      → Result StockError (StockTxn W) × InventoryService W
  in_found now co id qty cost slip none is = (err item_not_found, is)
  in_found now co id qty cost slip (some item) is =
      let (txn, is') =
        log_txn co (in_txn now id qty cost slip)
          (update_first (is_item id) (stocked_in now qty cost) (is.items co)) is in
      (ok txn, is')

  -- `StockInForCompany`
  unfoldable pub stock_in :
      ℤ
      → ℤ
      → ℤ
      → W
      → Money
      → Slip
      → InventoryService W
      → Result StockError (StockTxn W) × InventoryService W
  unfolding ensure_seeded
  stock_in now company id qty cost slip is =
      let co = normalized_company company in
      let is1 = ensure_seeded now co is in
      in_found now co id qty cost slip (find (is_item id) (is1.items co)) is1

  abbrev pub stocked_out : ℤ → W → Item W → Item W
  stocked_out now qty item = record item {
    qty_on_hand = fl.minus item.qty_on_hand qty;
    updated_at = now;
  }

  abbrev pub out_txn : ℤ → ℤ → W → Money → Slip → ℤ → StockTxn W
  out_txn now item qty cost slip id = record {
    id = id;
    item_id = item;
    kind = move_out;
    qty = qty;
    unit_cost = cost;
    total_value = multiply cost qty;
    slip = slip;
    created_at = now;
  }

  abbrev pub out_found :
      ℤ
      → ℤ
      → ℤ
      → W
      → Slip
      → Option (Item W)
      → InventoryService W
      → Result StockError (StockTxn W) × InventoryService W
  out_found now co id qty slip none is = (err item_not_found, is)
  out_found now co id qty slip (some item) is =
      if fl.below item.qty_on_hand qty
      then (err insufficient_stock, is)
      else (let (txn, is') =
            log_txn co (out_txn now id qty item.unit_cost slip)
              (update_first (is_item id) (stocked_out now qty) (is.items co)) is in
          (ok txn, is'))

  -- `StockOutForCompany`, without the line that it prints on a low stock.
  unfoldable pub stock_out :
      ℤ
      → ℤ
      → ℤ
      → W
      → Slip
      → InventoryService W
      → Result StockError (StockTxn W) × InventoryService W
  unfolding ensure_seeded
  stock_out now company id qty slip is =
      let co = normalized_company company in
      let is1 = ensure_seeded now co is in
      out_found now co id qty slip (find (is_item id) (is1.items co)) is1
