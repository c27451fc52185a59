-- ===== src/Oms/Service/Tests.antt =====
-- Concrete tables for the theorems about src/oms/service.py.
use oms_wms_tms.Prelude.{
  ◌*◌, ◌/◌, ◌+◌, length, List, String, ℕ, ◌+◌, ◌≤◌, ◌≡◌, refl, ◌⊎◌, true, false, none, some, List,
  [], ◌∷◌, ◌++◌, map, arith, ok, err, validation, by_id, length, first, put,
}
use oms_wms_tms.Prelude.Int.{ℤ, negsuc, pos}
use oms_wms_tms.Prelude.OrderBy.{OrderBy, by_insertion}
use oms_wms_tms.Outbox.{append_event, uuid, text, amount}
use oms_wms_tms.Oms.Model.{
  OrderStatus, pending, completed, medium, Order, OrderItem, OrderStatusLog, Db, item_earlier,
}
use oms_wms_tms.Oms.Orders.{OrderDict}
use oms_wms_tms.Oms.Webhooks.{do_dispatch}
use oms_wms_tms.Oms.Service.{OrderRequest, request_total, update_order_status, create_order}
use oms_wms_tms.Oms.Service.Transitions.{Follows, update_order_status-refused}
use oms_wms_tms.Oms.Service.Progress.{update_all-length, rank}
use oms_wms_tms.Oms.Service.Creation.{create_order-creates, row_facts, line_facts, rows_total}

earlier_total : (a b : OrderItem) → (item_earlier a b ≡ true) ⊎ (item_earlier b a ≡ true)
earlier_total a b = ground arith

earlier_trans :
    (a b c : OrderItem)
    → item_earlier a b ≡ true
    → item_earlier b c ≡ true
    → item_earlier a c ≡ true
earlier_trans a b c h k = ground arith

abbrev by_time : OrderBy item_earlier
by_time = by_insertion item_earlier earlier_total earlier_trans

abbrev an_order : ℕ → OrderStatus → Order
an_order i status = record {
  id = i;
  order_no = "ORD-1";
  status = status;
  customer_id = 1;
  warehouse_id = none;
  total_amount = pos 60000;
  priority = medium;
  notes = "";
  is_deleted = false;
  deleted_at = none;
  created_at = 5;
  updated_at = 5;
}

abbrev an_item : ℕ → ℕ → OrderItem
an_item i order_id = record {
  id = i;
  order_id = order_id;
  sku_id = none;
  gtin = "";
  name = "bolt";
  quantity = pos 3;
  unit_price = pos 20000;
  is_deleted = false;
  deleted_at = none;
  created_at = 5;
}

abbrev db : Db
db = record {
  webhook_targets =
      record { id = 1; is_active = true; events = some ("order.status_changed" ∷ []) } ∷ [];
  webhook_logs = [];
  customers = [];
  skus = [];
  orders = an_order 2 pending ∷ an_order 3 completed ∷ [];
  items = an_item 4 2 ∷ an_item 5 3 ∷ [];
  logs = [];
  merge_groups = [];
  split_child_orders = [];
  events = [];
  signals = [];
  next_uuid = 6;
}

never_reopened : ¬ Follows completed "picking"
never_reopened (allowed, name) = elim allowed [ ]

update_order_status-refused_example :
    update_order_status by_time 9 (some 3) "picking" "eve" db ≡ err validation
unfolding by_id
update_order_status-refused_example =
    update_order_status-refused by_time 9 "eve" db 3 (an_order 3 completed) "picking" refl
      never_reopened

abbrev two_calls : List (ℕ × String × String)
two_calls = (9, "confirmed", "eve") ∷ (10, "processing", "eve") ∷ []

update_all-length_example : length two_calls + rank pending ≤ 4
unfolding by_id update_order_status put do_dispatch
update_all-length_example =
    update_all-length by_time 2 two_calls db (an_order 2 pending) refl (omega arith) _ refl

-- A column that drops what is less than a cent.
abbrev to_cents : ℤ → ℤ
to_cents (pos n) = pos (n / 100 * 100)
to_cents (negsuc n) = negsuc n

abbrev request : OrderRequest
request = record {
  customer_id = "ACME";
  items =
      record {
        sku = some "B-1";
        gtin = none;
        product_name = some "bolt";
        quantity = some (pos 3);
        unit_price = some (pos 20000);
      }
      ∷ [];
  priority = some "high";
  notes = none;
}

create_order-creates_example :
    (d : OrderDict) × (db' : Db) × (order : Order) × (rows : List OrderItem)
    × (log : OrderStatusLog) × (event_id : ℕ) × (create_order to_cents by_time 9 "ORD-2" request db
        ≡ ok (d, db'))
    × (db'.orders ≡ db.orders ++ order ∷ [])
    × (order.order_no ≡ "ORD-2")
    × (order.status ≡ pending)
    × (order.total_amount ≡ to_cents (request_total request.items))
    × (db'.items ≡ db.items ++ rows)
    × (map row_facts rows ≡ map (line_facts order.id) request.items)
    × (rows_total rows ≡ request_total request.items)
    × (db'.logs ≡ db.logs ++ log ∷ [])
    × (log.order_id ≡ order.id)
    × (log.from_status ≡ "")
    × (log.to_status ≡ "pending")
    × (db'.events
        ≡ append_event event_id 9 "Order" order.id "order.created"
            (("order_id", uuid order.id)
              ∷ ("order_no", text "ORD-2")
              ∷ ("total_amount", amount (request_total request.items))
              ∷ ("customer_id", text request.customer_id)
              ∷ [])
            db.events)
unfolding first
create_order-creates_example = create_order-creates to_cents by_time 9 "ORD-2" request db refl
