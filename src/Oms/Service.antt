-- ===== src/Oms/Service.antt =====
-- src/oms/service.py: the operations on orders. Each is one database call that commits at its end, or raises
-- and leaves the tables as they were. `Transitions` and `Progress` are about the state machine, `Creation` and
-- `Deletion` about the other two calls that write.
pub mod Transitions
pub mod Progress
pub mod Creation
pub mod Deletion
mod Tests
use Prim.Native.String as Text
use oms_wms_tms.Prelude.{
  ℕ, ◌+◌, ◌≡◌, String, Bool, true, false, ◌&&◌, Option, none, some, List, [], ◌∷◌, ◌++◌, map, ◌==◌,
  if◌then◌else◌, get_or, Result, ok, err, Error, validation, not_found, value_error,
  integrity_error, or_raise, Txn, pure, lift, gets, modify, raise_if, ◌>>=◌, ◌>>◌, RawId, select,
  first, by_id, put, update_where, lookup, mem_text, str_eq,
}
use oms_wms_tms.Prelude.Int.{ℤ, pos, ◌+ℤ◌, ◌*ℤ◌}
use oms_wms_tms.Prelude.OrderBy.{OrderBy}
use oms_wms_tms.Outbox.{append_event, Value, uuid, text, amount, plain_uuid, plain_text}
use oms_wms_tms.Oms.Webhooks.{do_dispatch}
use oms_wms_tms.Oms.Model.{
  OrderStatus, pending, OrderPriority, medium, Customer, Sku, Order, OrderItem, OrderStatusLog,
  Signal, notify_order_status_change, webhook_status_changed, webhook_order_cancelled,
  webhook_order_created, Db, uuid4, item_earlier, log_earlier, order_key,
}
use oms_wms_tms.Oms.Orders.{
  OrderDict, order_to_dict, get_or_create_customer, get_or_create_sku, status_reverse, status_map,
  priority_map, validate_transition,
}

-- The dicts of a request, a key that is absent as none.
pub record ItemRequest : Type 0 where
  pub sku : Option String
  pub gtin : Option String
  pub product_name : Option String
  pub quantity : Option ℤ
  pub unit_price : Option ℤ

pub record OrderRequest : Type 0 where
  pub customer_id : String
  pub items : List ItemRequest
  pub priority : Option String
  pub notes : Option String

-- `Decimal(str(item.get("unit_price", 0))) * int(item.get("quantity", 0))`
unfoldable pub line_total : ItemRequest → ℤ
line_total item = get_or item.unit_price (pos 0) *ℤ get_or item.quantity (pos 0)

unfoldable pub request_total : List ItemRequest → ℤ
unfolding line_total
request_total [] = pos 0
request_total (item ∷ items) = line_total item +ℤ request_total items

-- `sku_obj.id if sku_obj else None`, where an empty `sku` looks nothing up.
unfoldable pub sku_for : String → Txn Db (Option ℕ)
unfolding get_or_create_sku
sku_for code =
    if str_eq code "" then pure none else (do sku ← get_or_create_sku code; pure (some sku.id))

unfoldable pub add_item : ℕ → ℕ → ItemRequest → Txn Db (Unit {0})
unfolding sku_for
add_item now order_id item = do
  sku_id ← sku_for (get_or item.sku "")
  id ← uuid4
  modify λ db. record db {
    items =
        db.items
        ++ record {
          id = id;
          order_id = order_id;
          sku_id = sku_id;
          gtin = get_or item.gtin "";
          name = get_or item.product_name "";
          quantity = get_or item.quantity (pos 0);
          unit_price = get_or item.unit_price (pos 0);
          is_deleted = false;
          deleted_at = none;
          created_at = now;
        }
          ∷ [];
  }

unfoldable pub add_items : ℕ → ℕ → List ItemRequest → Txn Db (Unit {0})
unfolding add_item
add_items now order_id [] = pure tt
add_items now order_id (item ∷ items) = add_item now order_id item >> add_items now order_id items

unfoldable pub add_log : ℕ → ℕ → String → String → String → Txn Db (Unit {0})
add_log now order_id from_status to_status remark = do
  id ← uuid4
  modify λ db. record db {
    logs =
        db.logs
        ++ record {
          id = id;
          order_id = order_id;
          from_status = from_status;
          to_status = to_status;
          operator_id = none;
          remark = remark;
          created_at = now;
        }
          ∷ [];
  }

-- `db.add(order)`; the column `order_no` is unique.
unfoldable pub add_order : Order → Txn Db (Unit {0})
unfolding first
add_order order db = elim (first (λ (o : Order). str_eq o.order_no order.order_no) db.orders) [
  | some o ↦ err integrity_error
  | none ↦ ok (tt, record db { orders = db.orders ++ order ∷ [] })
]

unfoldable pub append_created : ℕ → Order → ℤ → String → Txn Db (Unit {0})
unfolding append_event
append_created now order total customer = do
  id ← uuid4
  modify λ db. record db {
    events =
        append_event id now "Order" order.id "order.created"
          (("order_id", uuid order.id)
            ∷ ("order_no", text order.order_no)
            ∷ ("total_amount", amount total)
            ∷ ("customer_id", text customer)
            ∷ [])
          db.events;
  }

-- `create_order`, at the time `now` and with the order number that it generates. `to_cents` is what the column
-- `total_amount`, `Numeric(18, 2)`, keeps of an amount.
unfoldable pub create_order :
    (ℤ → ℤ) → OrderBy item_earlier → ℕ → String → OrderRequest → Txn Db OrderDict
unfolding get_or_create_customer add_items add_log add_order append_created request_total
    order_to_dict
create_order to_cents items_by now order_no request = do
  customer ← get_or_create_customer request.customer_id
  id ← uuid4
  let order : Order = record {
    id = id;
    order_no = order_no;
    status = pending;
    customer_id = customer.id;
    warehouse_id = none;
    total_amount = to_cents (request_total request.items);
    priority = get_or (lookup (get_or request.priority "medium") priority_map) medium;
    notes = get_or request.notes "";
    is_deleted = false;
    deleted_at = none;
    created_at = now;
    updated_at = now;
  }
  add_order order
  add_items now id request.items
  add_log now id "" "pending" "Order created"
  append_created now order (request_total request.items) request.customer_id
  gets (order_to_dict items_by order none)

-- `scalar_one_or_none` on the primary key, and the 404 of a missing row.
unfoldable pub load_order : RawId → Txn Db Order
unfolding by_id
load_order raw = do
  id ← lift (or_raise raw value_error)
  found ← gets (λ (db : Db). by_id order_key id db.orders)
  lift (or_raise found not_found)

-- `get_order`
unfoldable pub get_order : OrderBy item_earlier → RawId → Txn Db OrderDict
unfolding load_order order_to_dict
get_order items_by raw = do
  order ← load_order raw
  raise_if order.is_deleted not_found
  gets (order_to_dict items_by order none)

abbrev pub signals_of : ℕ → String → String → String → String → List Signal
signals_of id order_no current target operator =
    notify_order_status_change id operator target
    ∷ webhook_status_changed id current target
    ∷ (if str_eq target "cancelled"
        then webhook_order_cancelled id target
        else webhook_order_created id target)
    ∷ []

-- The second event of a status change.
abbrev pub second_event : String → String
second_event target = if str_eq target "cancelled" then "order.cancelled" else "order.created"

-- The two calls of `dispatch_event`, in the session of the request.
abbrev pub announced : ℕ → Order → String → String → Db → Db
announced now order current target db =
    do_dispatch now (second_event target)
      (("order_id", plain_uuid order.id)
        ∷ ("order_no", plain_text order.order_no)
        ∷ ("status", plain_text target)
        ∷ [])
      (do_dispatch now "order.status_changed"
        (("order_id", plain_uuid order.id)
          ∷ ("order_no", plain_text order.order_no)
          ∷ ("from", plain_text current)
          ∷ ("to", plain_text target)
          ∷ [])
        db)

-- `update_order_status`. What it adds after its commit is committed at the end of the request; a database that fails
-- in the dispatch, which the code catches, is left out.
unfoldable pub update_order_status :
    OrderBy item_earlier → ℕ → RawId → String → String → Txn Db OrderDict
unfolding load_order validate_transition status_reverse status_map lookup put add_log order_to_dict
    do_dispatch
update_order_status items_by now raw target operator = do
  order ← load_order raw
  let current = status_reverse order.status
  lift (validate_transition current target)
  let changed = record order {
    status = get_or (lookup target status_map) pending;
    updated_at = now;
  }
  modify (λ (db : Db). record db { orders = put order_key changed db.orders })
  add_log now order.id current target (Text.◌++◌ "Status changed to " target)
  modify (λ (db : Db). record db {
    signals = db.signals ++ signals_of order.id order.order_no current target operator;
  })
  modify (announced now order current target)
  gets (order_to_dict items_by changed none)

abbrev pub is_closed : String → Bool
is_closed state = mem_text state ("completed" ∷ "cancelled" ∷ "failed" ∷ [])

abbrev pub cascaded : ℕ → ℕ → OrderItem → OrderItem
cascaded order_id now item =
    if item.order_id == order_id
    then record item { is_deleted = true; deleted_at = some now }
    else item

-- `delete_order`. What it assigns to the status logs are attributes with no column.
unfoldable pub delete_order : ℕ → RawId → Txn Db (Unit {0})
unfolding load_order status_reverse mem_text put
delete_order now raw = do
  order ← load_order raw
  raise_if (is_closed (status_reverse order.status)) validation
  let removed = record order { is_deleted = true; deleted_at = some now; updated_at = now }
  modify (λ (db : Db). record db {
    orders = put order_key removed db.orders;
    items = map (cascaded order.id now) db.items;
  })

-- `get_order_history`
pub get_order_history : OrderBy log_earlier → RawId → Txn Db (List OrderStatusLog)
unfolding load_order select
get_order_history logs_by raw = do
  order ← load_order raw
  gets (λ (db : Db). logs_by.sort (select (λ l. l.order_id == order.id) db.logs))
