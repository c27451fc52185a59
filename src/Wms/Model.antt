-- ===== src/Wms/Model.antt =====
-- src/wms/models.py: the tables that picking reads and writes. A quantity of a `Numeric(20, 4)` column is an
-- integer number of ten-thousandths; times and dates are numbers, ids stand for UUIDs.
use oms_wms_tms.Prelude.{ℕ, suc, String, Bool, Option, List, Txn, ok}
use oms_wms_tms.Prelude.Int.{ℤ}

pub data InventoryChangeType : Type 0 where
  inbound outbound adjustment transfer_in transfer_out picking returned : InventoryChangeType

pub record Warehouse : Type 0 where
  pub id : ℕ
  pub code : String

pub record Location : Type 0 where
  pub id : ℕ
  pub code : String

pub record Sku : Type 0 where
  pub id : ℕ
  pub sku : String
  pub name : Option String

pub record Inventory : Type 0 where
  pub id : ℕ
  pub warehouse_id : ℕ
  pub location_id : Option ℕ
  pub sku_id : ℕ
  pub batch_no : String
  pub quantity : ℤ
  pub locked_qty : Option ℤ
  pub version : ℕ
  pub expiry_date : Option ℕ
  pub received_at : Option ℕ
  pub is_deleted : Bool

pub record InventoryLog : Type 0 where
  pub id : ℕ
  pub inventory_id : ℕ
  pub change_type : InventoryChangeType
  pub quantity_change : ℤ
  pub quantity_before : ℤ
  pub quantity_after : ℤ
  pub reference_type : String

-- src/models/wms.py; the column `type` is `kind` here, and a log without a warehouse is refused.
pub record StockInventoryLog : Type 0 where
  pub id : ℕ
  pub warehouse_id : ℕ
  pub sku : String
  pub kind : String
  pub reference_type : String
  pub quantity_change : ℤ
  pub reason : String

pub record PickingWave : Type 0 where
  pub id : ℕ
  pub code : String
  pub status : String
  pub total_items : ℕ
  pub completed_items : ℕ
  pub assignee_id : Option ℕ
  pub updated_at : ℕ

pub record PackingRecord : Type 0 where
  pub id : ℕ
  pub picking_wave_id : ℕ
  pub packed_by : String
  pub box_count : ℕ
  pub notes : String

pub data StockMovementType : Type 0 where
  transfer replenishment returned : StockMovementType

pub record StockMovement : Type 0 where
  pub id : ℕ
  pub source_warehouse_id : Option ℕ
  pub target_warehouse_id : Option ℕ
  pub source_location_id : Option ℕ
  pub target_location_id : Option ℕ
  pub sku_id : ℕ
  pub quantity : ℤ
  pub movement_type : StockMovementType

pub record Db : Type 0 where
  pub warehouses : List Warehouse
  pub locations : List Location
  pub skus : List Sku
  pub inventory : List Inventory
  pub inventory_logs : List InventoryLog
  pub stock_inventory_logs : List StockInventoryLog
  pub picking_waves : List PickingWave
  pub packing_records : List PackingRecord
  pub stock_movements : List StockMovement
  pub next_uuid : ℕ

-- `uuid.uuid4()`: a value that no earlier call gave.
abbrev pub uuid4 : Txn Db ℕ
uuid4 db = ok (db.next_uuid, record db { next_uuid = suc db.next_uuid })

abbrev pub inventory_key : Inventory → ℕ
inventory_key inv = inv.id
