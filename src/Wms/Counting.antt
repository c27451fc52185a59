-- ===== src/Wms/Counting.antt =====
-- `_get_or_create_sku` and `adjust_stock_count` of src/wms/service.py. `Effect` is about what a count leaves.
pub mod Effect
use oms_wms_tms.Prelude.{
  ℕ, suc, ◌+◌, String, Bool, true, false, not, ◌&&◌, Option, none, some, List, [], ◌∷◌, ◌++◌,
  str_eq, ltb, ◌==◌, option_eq, if◌then◌else◌, first, select, scalar_one_or_none, by_id, put,
  is_some, Result, ok, err, not_found, validation, value_error, integrity_error, or_raise, RawId,
  Txn, pure, lift, gets, modify, raise_if, ◌>>=◌, ◌>>◌,
}
use oms_wms_tms.Prelude.Int.{ℤ, pos, ◌-ℤ◌, magnitude, ltb_ℤ}
use oms_wms_tms.Wms.Model.{
  Warehouse, Location, Sku, Inventory, StockInventoryLog, Db, uuid4, inventory_key,
}

unfoldable pub get_or_create_sku : String → Txn Db Sku
unfolding first
get_or_create_sku code db = elim (first (λ (s : Sku). str_eq s.sku code) db.skus) [
  | some s ↦ ok (s, db)
  | none ↦
      let s : Sku = record { id = db.next_uuid; sku = code; name = some code } in
      ok (s, record db { skus = db.skus ++ s ∷ []; next_uuid = suc db.next_uuid })
]

-- How a request names its warehouse: `warehouse_id`, else `source_warehouse_code`, else not at all.
pub data WarehouseRef : Type 0 where
  warehouse_id : RawId → WarehouseRef
  source_warehouse_code : String → WarehouseRef
  unnamed : WarehouseRef

-- `sku` is what `item.get("sku", item.get("sku_code"))` gives.
pub record CountResult : Type 0 where
  pub sku : String
  pub actual_qty : Option ℤ
  pub actual_qty_count : Option ℤ

-- `location` is none where neither `location_id` nor `target_location_id` has a text.
pub record CountRequest : Type 0 where
  pub warehouse : WarehouseRef
  pub location : Option RawId
  pub count_results : List CountResult

unfoldable pub find_warehouse : WarehouseRef → Txn Db (Option ℕ)
unfolding first
find_warehouse (warehouse_id raw) = do id ← lift (or_raise raw value_error); pure (some id)
find_warehouse (source_warehouse_code code) = do
  found ← gets (λ (db : Db). first (λ (w : Warehouse). str_eq w.code code) db.warehouses)
  w ← lift (or_raise found not_found)
  pure (some w.id)
find_warehouse unnamed = pure none

-- `item.get("actual_qty") or item.get("actual_qty_count")`: zero counts as absent.
unfoldable pub counted_qty : CountResult → Option ℤ
counted_qty item = elim item.actual_qty [
  | none ↦ item.actual_qty_count
  | some q ↦ if magnitude q == 0 then item.actual_qty_count else some q
]

unfoldable pub at_place : Option ℕ → ℕ → ℕ → Inventory → Bool
at_place wh loc sku_id inv =
    option_eq (some inv.warehouse_id) wh
    && option_eq inv.location_id (some loc)
    && inv.sku_id == sku_id

abbrev pub system_qty : Option Inventory → ℤ
system_qty none = pos 0
system_qty (some inv) = inv.quantity

-- `abs(diff) < Decimal("0.001")`, in ten-thousandths.
abbrev pub is_small : ℤ → Bool
is_small diff = ltb (magnitude diff) 10

abbrev pub recounted : ℤ → Inventory → Inventory
recounted actual inv = record inv { quantity = actual }

abbrev pub store : Inventory → Db → Db
store inv db = record db { inventory = put inventory_key inv db.inventory }

-- The branches of the code on the row that was found. Where no warehouse is named no row is found, and the log
-- entry that follows is refused by its column.
unfoldable pub set_quantity : ℕ → Option ℕ → ℕ → ℕ → ℤ → Option Inventory → Txn Db (Unit {0})
unfolding put
set_quantity now none loc sku_id actual none = λ db. err integrity_error
set_quantity now (some wh) loc sku_id actual none = do
  id ← uuid4
  modify (λ (db : Db). record db {
    inventory =
        db.inventory
        ++ record {
          id = id;
          warehouse_id = wh;
          location_id = some loc;
          sku_id = sku_id;
          batch_no = "COUNT";
          quantity = actual;
          locked_qty = some (pos 0);
          version = 0;
          expiry_date = none;
          received_at = some now;
          is_deleted = false;
        }
          ∷ [];
  })
set_quantity now wh loc sku_id actual (some inv) =
    if ltb_ℤ (pos 0) (actual -ℤ inv.quantity)
    then modify (store (recounted actual inv))
    else (raise_if (ltb_ℤ inv.quantity (pos (magnitude (actual -ℤ inv.quantity)))) validation
        >> modify (store (recounted actual inv)))

abbrev pub log_of : ℕ → ℕ → String → ℤ → StockInventoryLog
log_of id wh sku diff = record {
  id = id;
  warehouse_id = wh;
  sku = sku;
  kind = if ltb_ℤ (pos 0) diff then "ADJUSTMENT_IN" else "ADJUSTMENT_OUT";
  reference_type = "stock_count";
  quantity_change = pos (magnitude diff);
  reason = "stock_count";
}

unfoldable pub add_stock_log : Option ℕ → String → ℤ → Txn Db (Unit {0})
add_stock_log none sku diff = λ db. err integrity_error
add_stock_log (some wh) sku diff = do
  id ← uuid4
  modify (λ (db : Db). record db {
    stock_inventory_logs = db.stock_inventory_logs ++ log_of id wh sku diff ∷ [];
  })

unfoldable pub record_count :
    ℕ → Option ℕ → ℕ → String → ℕ → ℤ → Option Inventory → Txn Db (Unit {0})
unfolding set_quantity add_stock_log
record_count now wh loc sku sku_id actual found =
    if is_small (actual -ℤ system_qty found)
    then pure tt
    else (set_quantity now wh loc sku_id actual found
        >> add_stock_log wh sku (actual -ℤ system_qty found))

-- The body of the loop.
unfoldable pub count_one : ℕ → Option ℕ → ℕ → CountResult → Txn Db (Unit {0})
unfolding counted_qty get_or_create_sku at_place select scalar_one_or_none record_count
count_one now wh loc item = do
  actual ← lift (or_raise (counted_qty item) validation)
  sku ← get_or_create_sku item.sku
  found ← (λ db. lift (scalar_one_or_none (select (at_place wh loc sku.id) db.inventory)) db)
  record_count now wh loc item.sku sku.id actual found

unfoldable pub count_all : ℕ → Option ℕ → ℕ → List CountResult → Txn Db (Unit {0})
unfolding count_one
count_all now wh loc [] = pure tt
count_all now wh loc (item ∷ items) = count_one now wh loc item >> count_all now wh loc items

abbrev pub is_empty : List CountResult → Bool
is_empty [] = true
is_empty (item ∷ items) = false

-- `adjust_stock_count`
unfoldable pub adjust_stock_count : ℕ → CountRequest → Txn Db (Unit {0})
unfolding find_warehouse by_id count_all
adjust_stock_count now request = do
  wh ← find_warehouse request.warehouse
  raw ← lift (or_raise request.location validation)
  loc ← lift (or_raise raw value_error)
  place ← gets (λ (db : Db). by_id (λ (l : Location). l.id) loc db.locations)
  raise_if (not (is_some place)) not_found
  raise_if (is_empty request.count_results) validation
  count_all now wh loc request.count_results
