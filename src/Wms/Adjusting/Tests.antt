-- ===== src/Wms/Adjusting/Tests.antt =====
-- A concrete adjustment, between whose read and write another transaction changes the row.
use mathlib.Core.List.Perm
use oms_wms_tms.Prelude.{
  ℕ, ◌+◌, ◌≡◌, refl, sym, ap, ◌∙◌, true, false, Option, none, some, List, [], ◌∷◌, map, arith,
  first, by_id,
}
use oms_wms_tms.Prelude.Int.{pos, ◌+ℤ◌}
use oms_wms_tms.Prelude.Quantified.{all}
use oms_wms_tms.Wms.Model.{Inventory, Db, inventory_key}
use oms_wms_tms.Wms.Adjusting.{
  AdjustRequest, Attempt, Outcome, done, given_up, raised, adjust_inventory,
}
use oms_wms_tms.Wms.Adjusting.Reading.{matches, is_current}
use oms_wms_tms.Wms.Adjusting.Locking.{IsHonest, IsAdjusted, adjust_inventory-IsAdjusted}

-- Another transaction empties every row.
abbrev emptied : Inventory → Inventory
emptied r = record r { quantity = pos 0; version = r.version + 1 }

abbrev empties : Db → Db
empties db = record db { inventory = map emptied db.inventory }

abbrev over : Option Inventory → Option Inventory
over none = none
over (some r) = some (emptied r)

by_id-emptied :
    (i : ℕ) (rows : List Inventory)
    → by_id inventory_key i (map emptied rows) ≡ over (by_id inventory_key i rows)
unfolding by_id
by_id-emptied i [] = refl
by_id-emptied i (r ∷ rows) = ground (arith, by_id-emptied i rows)

matches-emptied :
    (r : Inventory) (o : Option Inventory)
    → matches r o ≡ true
    → matches (emptied r) (over o) ≡ true
matches-emptied r none h = ground arith
matches-emptied r (some x) h = ground arith

emptied_rows :
    (table rows : List Inventory)
    → all (is_current table) rows ≡ true
    → all (is_current (map emptied table)) (map emptied rows) ≡ true
emptied_rows table [] h = refl
emptied_rows table (r ∷ rows) h =
    let rest = emptied_rows table rows (ground arith) in
    let head =
      ap (matches (emptied r)) (by_id-emptied r.id table)
      ∙ matches-emptied r (by_id inventory_key r.id table) (ground arith) in
    ground arith

empties-IsHonest : IsHonest empties
empties-IsHonest = record {
  keyed = λ db h. emptied_rows db.inventory db.inventory h;
  versioned = λ db i r r' h k e.
      let there = sym k ∙ by_id-emptied i db.inventory ∙ ap over h in ground arith;
}

idle-IsHonest : IsHonest (λ d. d)
idle-IsHonest = record {
  keyed = λ db h. h;
  versioned = λ db i r r' h k e. let same = sym k ∙ h in ground arith;
}

-- A row with the quantity 90.
abbrev shelf : Inventory
shelf = record {
  id = 3;
  warehouse_id = 1;
  location_id = some 8;
  sku_id = 7;
  batch_no = "B";
  quantity = pos 90;
  locked_qty = some (pos 0);
  version = 5;
  expiry_date = none;
  received_at = none;
  is_deleted = false;
}

abbrev db : Db
db = record {
  warehouses = record { id = 1; code = "WH-1" } ∷ [];
  locations = record { id = 8; code = "A-1" } ∷ [];
  stock_inventory_logs = [];
  skus = record { id = 7; sku = "B-1"; name = some "bolt" } ∷ [];
  inventory = shelf ∷ [];
  inventory_logs = [];
  picking_waves = [];
  packing_records = [];
  stock_movements = [];
  next_uuid = 9;
}

abbrev request : AdjustRequest
request = record {
  warehouse_id = 1;
  location_id = 8;
  sku = "B-1";
  quantity = pos 40;
  batch_no = "B";
  expiry_date = none;
  picking_strategy = "fefo";
}

abbrev meanwhile : (Db → Db) → Attempt
meanwhile others = record { others = others; commits = true; now = 100; reloads = true }

abbrev outcome : Outcome
outcome =
    adjust_inventory (λ st xs. xs) request (meanwhile empties) (meanwhile (λ d. d))
      (meanwhile (λ d. d)) db

-- The first attempt reads 90, and the row is emptied before it writes; the second attempt gives 40.
retried :
    elim outcome [
      | done before after id ↦ by_id inventory_key 3 after.inventory
      | given_up d id ↦ none
      | raised e d ↦ none
    ]
    ≡ some (record shelf { quantity = pos 40; version = 7 })
unfolding adjust_inventory by_id first ◌+ℤ◌
retried = refl

adjust_inventory-IsAdjusted_example : IsAdjusted request outcome
unfolding by_id
adjust_inventory-IsAdjusted_example =
    adjust_inventory-IsAdjusted (λ st xs. xs) (λ st xs. Perm.refl xs) request (meanwhile empties)
      (meanwhile (λ d. d)) (meanwhile (λ d. d)) empties-IsHonest idle-IsHonest idle-IsHonest db refl
