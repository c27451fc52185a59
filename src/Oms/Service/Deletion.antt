-- ===== src/Oms/Service/Deletion.antt =====
-- `delete_order` and `get_order` of src/oms/service.py.
use oms_wms_tms.Prelude.{ℕ, Bool, true, not, ◌||◌, some, map, put, ◌==◌}
use oms_wms_tms.Prelude.OrderBy.{OrderBy}
use oms_wms_tms.Oms.Model.{Order, OrderItem, Db, item_earlier, order_key}
use oms_wms_tms.Oms.Service.{cascaded}

-- The item is not of the order, or is flagged.
abbrev pub gone : ℕ → OrderItem → Bool
gone i item = not (item.order_id == i) || item.is_deleted

module _ (items_by : OrderBy item_earlier) (now : ℕ) where
  abbrev removed : Order → Order
  removed order = record order { is_deleted = true; deleted_at = some now; updated_at = now }

  abbrev without : Db → Order → Db
  without db order = record db {
    orders = put order_key (removed order) db.orders;
    items = map (cascaded order.id now) db.items;
  }
