-- ===== src/Wms/Tests.antt =====
-- Concrete tables for the theorems about src/wms.
use oms_wms_tms.Prelude.{
  err, missing_greenlet, ◌==◌, if◌then◌else◌, ◌&&◌, ◌||◌, inl, inr, ℕ, ◌-◌, ◌≡◌, refl, ◌⊎◌, String,
  Bool, true, false, Option, none, some, List, [], ◌∷◌, map, min, arith, by_id, select, ok, All,
}
use oms_wms_tms.Prelude.Int.{pos}
use oms_wms_tms.Prelude.OrderBy.{OrderBy, by_insertion}
use oms_wms_tms.Wms.Model.{Inventory, PickingWave, Db}
use oms_wms_tms.Wms.Picking.{fefo, expires_before, same_expiry, stocked, pick_from_stock}
use oms_wms_tms.Wms.Picking.Refinement.{
  is_loaded, batches_of, plan, batch_of, total_units, total_qty, apply_picks, IsCovered,
  pick_from_stock-plan,
}
use oms_wms_tms.Prelude.Quantified.{all}
use oms_wms_tms.Wms.Counting.{warehouse_id, CountResult}
use oms_wms_tms.Wms.Waves.{wave_key}
use oms_wms_tms.Wms.Waves.History.{
  Call, start, finish, repick, Repicked, serve, OfCompleted, serve-OfCompleted,
  serve-completed_wave,
}

-- An order of texts in which all are equal, as of a column with one batch number.
abbrev any_order : String → String → Bool
any_order a b = true

-- `fefo` with that order, on the expiry dates.
abbrev no_later : Option ℕ → Option ℕ → Bool
no_later d e = expires_before d e || same_expiry d e && true

dates_total : (d e : Option ℕ) → (no_later d e ≡ true) ⊎ (no_later e d ≡ true)
dates_total none none = inl refl
dates_total none (some e) = inr refl
dates_total (some d) none = inl refl
dates_total (some d) (some e) = ground arith

dates_trans : (d e f : Option ℕ) → no_later d e ≡ true → no_later e f ≡ true → no_later d f ≡ true
dates_trans none none none h k = refl
dates_trans (some d) e none h k = refl
dates_trans (some d) (some e) (some f) h k = ground arith
dates_trans none e f h k = ground arith
dates_trans d none f h k = ground arith

fefo_total : (a b : Inventory) → (fefo any_order a b ≡ true) ⊎ (fefo any_order b a ≡ true)
fefo_total a b = dates_total a.expiry_date b.expiry_date

fefo_trans :
    (a b c : Inventory)
    → fefo any_order a b ≡ true
    → fefo any_order b c ≡ true
    → fefo any_order a c ≡ true
fefo_trans a b c = dates_trans a.expiry_date b.expiry_date c.expiry_date

abbrev by_expiry : OrderBy (fefo any_order)
by_expiry = by_insertion (fefo any_order) fefo_total fefo_trans

-- A session that has read the article 7.
abbrev in_session : ℕ → Bool
in_session i = i == 7

abbrev batch : ℕ → ℕ → Option ℕ → Inventory
batch i quantity expiry = record {
  id = i;
  warehouse_id = 1;
  location_id = none;
  sku_id = 7;
  batch_no = "B";
  quantity = pos quantity;
  locked_qty = some (pos 5000);
  version = 0;
  expiry_date = expiry;
  received_at = none;
  is_deleted = false;
}

abbrev a_wave : ℕ → String → PickingWave
a_wave i status = record {
  id = i;
  code = "PW-1";
  status = status;
  total_items = 4;
  completed_items = 0;
  assignee_id = none;
  updated_at = 1;
}

abbrev db : Db
db = record {
  warehouses = record { id = 1; code = "WH-1" } ∷ [];
  locations = record { id = 8; code = "A-1" } ∷ [];
  stock_inventory_logs = [];
  skus = record { id = 7; sku = "B-1"; name = some "bolt" } ∷ [];
  inventory = batch 2 40000 none ∷ batch 3 25000 (some 90) ∷ [];
  inventory_logs = [];
  picking_waves = a_wave 4 "pending" ∷ a_wave 5 "completed" ∷ [];
  packing_records =
      record { id = 6; picking_wave_id = 5; packed_by = ""; box_count = 1; notes = "" } ∷ [];
  stock_movements = [];
  next_uuid = 9;
}

pick_from_stock-plan_example :
    (picks : List (Inventory × ℕ)) × (pick_from_stock in_session any_order by_expiry
        (some 1)
        "B-1"
        (pos 4)
        db
      ≡ (if all (is_loaded in_session) picks
          then ok (
            record {
              picked_batches = map (batch_of db.skus) picks;
              remaining_quantity =
                  pos (4 - total_units (batches_of any_order by_expiry 1 "B-1" db));
            },
            apply_picks picks db,
          )
          else err missing_greenlet))
    × (picks ≡ plan 0 4 (batches_of any_order by_expiry 1 "B-1" db))
    × (total_qty picks ≡ min 4 (total_units (batches_of any_order by_expiry 1 "B-1" db)))
    × All IsCovered picks
unfolding stocked by_insertion select
pick_from_stock-plan_example = pick_from_stock-plan any_order by_expiry in_session 1 4 "B-1" db refl

-- An article that lies at the location 8 once.
abbrev shelf_row : Inventory
shelf_row = record (batch 3 25000 none) { location_id = some 8 }

abbrev shelf_db : Db
shelf_db = record db { inventory = shelf_row ∷ [] }

abbrev a_count : CountResult
a_count = record { sku = "B-1"; actual_qty = some (pos 20000); actual_qty_count = none }

abbrev calls : List Call
calls =
    start 10 (some 4) none
    ∷ start 11 (some 5) none
    ∷ finish 12 (some 4)
    ∷ repick 13 (some 5) (some 3)
    ∷ []

serve-OfCompleted_example : All (OfCompleted (serve calls db)) (serve calls db).packing_records
unfolding by_id
serve-OfCompleted_example = serve-OfCompleted calls db ((a_wave 5 "completed", refl, refl), tt)

serve-completed_wave_example :
    (v' : PickingWave) × (by_id wave_key 5 (serve calls db).picking_waves ≡ some v')
    × Repicked (a_wave 5 "completed") v'
unfolding by_id
serve-completed_wave_example = serve-completed_wave calls 5 (a_wave 5 "completed") db refl refl
