-- ===== src/Oms/Orders.antt =====
-- src/oms/service.py: the tables of names (ORDER_STATES, STATUS_MAP, PRIORITY_MAP and their inverses), the test
-- of a transition, the two look-ups that create what is missing, and the dicts that the service returns.
use oms_wms_tms.Prelude.{
  ℕ, ◌+◌, String, Option, none, some, List, [], ◌∷◌, ◌++◌, map, ◌==◌, if◌then◌else◌, get_or, Result,
  ok, err, validation, Txn, select, first, by_id, lookup, mem_text, str_eq,
}
use oms_wms_tms.Prelude.Int.{ℤ, ◌*ℤ◌}
use oms_wms_tms.Prelude.OrderBy.{OrderBy}
use oms_wms_tms.Oms.Model.{
  OrderStatus, pending, confirmed, processing, picking, completed, cancelled, failed, OrderPriority,
  low, medium, high, urgent, Customer, Sku, Order, OrderItem, Db, item_earlier,
}

-- ORDER_STATES
unfoldable pub order_states : List (String × List String)
order_states =
    ("draft", "confirmed" ∷ "cancelled" ∷ [])
    ∷ ("confirmed", "processing" ∷ "cancelled" ∷ [])
    ∷ ("processing", "picking" ∷ "cancelled" ∷ [])
    ∷ ("picking", "completed" ∷ "cancelled" ∷ [])
    ∷ ("completed", [])
    ∷ ("cancelled", [])
    ∷ ("failed", [])
    ∷ []

-- STATUS_MAP
unfoldable pub status_map : List (String × OrderStatus)
status_map =
    ("draft", pending)
    ∷ ("confirmed", confirmed)
    ∷ ("processing", processing)
    ∷ ("picking", picking)
    ∷ ("completed", completed)
    ∷ ("cancelled", cancelled)
    ∷ ("failed", failed)
    ∷ []

-- STATUS_REVERSE, in which every status has its one name of STATUS_MAP.
unfoldable pub status_reverse : OrderStatus → String
status_reverse pending = "draft"
status_reverse confirmed = "confirmed"
status_reverse processing = "processing"
status_reverse picking = "picking"
status_reverse completed = "completed"
status_reverse cancelled = "cancelled"
status_reverse failed = "failed"

-- PRIORITY_MAP and PRIORITY_REVERSE
unfoldable pub priority_map : List (String × OrderPriority)
priority_map = ("low", low) ∷ ("medium", medium) ∷ ("high", high) ∷ ("urgent", urgent) ∷ []

unfoldable pub priority_reverse : OrderPriority → String
priority_reverse low = "low"
priority_reverse medium = "medium"
priority_reverse high = "high"
priority_reverse urgent = "urgent"

unfoldable pub validate_transition : String → String → Result (Unit {0})
unfolding order_states lookup mem_text
validate_transition current target =
    if mem_text target (get_or (lookup current order_states) []) then ok tt else err validation

-- `_get_or_create_customer`
unfoldable pub get_or_create_customer : String → Txn Db Customer
unfolding first
get_or_create_customer code db = elim (first (λ (c : Customer). str_eq c.code code) db.customers) [
  | some c ↦ ok (c, db)
  | none ↦
      let c : Customer = record { id = db.next_uuid; code = code; name = code } in
      ok (c, record db { customers = db.customers ++ c ∷ []; next_uuid = db.next_uuid + 1 })
]

-- `_get_or_create_sku`
unfoldable pub get_or_create_sku : String → Txn Db Sku
unfolding first
get_or_create_sku code db = elim (first (λ (s : Sku). str_eq s.sku code) db.skus) [
  | some s ↦ ok (s, db)
  | none ↦
      let s : Sku = record { id = db.next_uuid; sku = code; name = code } in
      ok (s, record db { skus = db.skus ++ s ∷ []; next_uuid = db.next_uuid + 1 })
]

pub record ItemDict : Type 0 where
  pub gtin : String
  pub sku : String
  pub product_name : String
  pub quantity : ℤ
  pub unit_price : ℤ
  pub subtotal : ℤ

-- The customer's code, or the order's `customer_id` where there is no such row.
pub data CustomerRef : Type 0 where
  code : String → CustomerRef
  raw_id : ℕ → CustomerRef

pub record OrderDict : Type 0 where
  pub id : ℕ
  pub order_no : String
  pub status : String
  pub customer_id : CustomerRef
  pub items : List ItemDict
  pub total_amount : ℤ
  pub priority : String
  pub notes : String
  pub created_at : ℕ
  pub updated_at : ℕ

pub sku_text : List Sku → Option ℕ → String
unfolding by_id
sku_text skus none = ""
sku_text skus (some i) = elim (by_id (λ (s : Sku). s.id) i skus) [ none ↦ "" | some s ↦ s.sku ]

unfoldable pub item_to_dict : List Sku → OrderItem → ItemDict
unfolding sku_text
item_to_dict skus oi = record {
  gtin = oi.gtin;
  sku = sku_text skus oi.sku_id;
  product_name = oi.name;
  quantity = oi.quantity;
  unit_price = oi.unit_price;
  subtotal = oi.unit_price *ℤ oi.quantity;
}

pub customer_ref : Db → Order → Option Customer → CustomerRef
unfolding by_id
customer_ref db order (some c) = code c.code
customer_ref db order none = elim (by_id (λ (c : Customer). c.id) order.customer_id db.customers) [
  | none ↦ raw_id order.customer_id
  | some c ↦ code c.code
]

-- `_order_to_dict`; the customer is given where the caller has loaded it.
unfoldable pub order_to_dict : OrderBy item_earlier → Order → Option Customer → Db → OrderDict
unfolding customer_ref
order_to_dict items_by order customer db = record {
  id = order.id;
  order_no = order.order_no;
  status = status_reverse order.status;
  customer_id = customer_ref db order customer;
  items =
      map (item_to_dict db.skus)
        (items_by.sort (select (λ (oi : OrderItem). oi.order_id == order.id) db.items));
  total_amount = order.total_amount;
  priority = priority_reverse order.priority;
  notes = order.notes;
  created_at = order.created_at;
  updated_at = order.updated_at;
}
