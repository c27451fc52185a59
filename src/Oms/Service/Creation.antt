-- ===== src/Oms/Service/Creation.antt =====
-- `create_order` of src/oms/service.py.
use mathlib.Core.List.{append-nil, append_assoc}
use oms_wms_tms.Prelude.{
  ℕ, suc, ◌+◌, ◌≡◌, refl, sym, ap, ◌∙◌, inl, inr, String, false, Option, none, some, List, [], ◌∷◌,
  ◌++◌, map, get_or, ok, Bool-cases, Option-cases, pure, first, lookup, bind_ok, str_eq,
}
use oms_wms_tms.Prelude.Int.{ℤ, pos, ◌*ℤ◌, ◌+ℤ◌}
use oms_wms_tms.Prelude.OrderBy.{OrderBy}
use oms_wms_tms.Outbox.{append_event, text, uuid, amount}
use oms_wms_tms.Oms.Model.{
  Customer, Sku, Order, OrderItem, OrderStatusLog, Db, item_earlier, pending, medium,
}
use oms_wms_tms.Oms.Orders.{OrderDict, get_or_create_customer, get_or_create_sku, priority_map}
use oms_wms_tms.Oms.Service.{
  ItemRequest, OrderRequest, request_total, line_total, sku_for, add_item, add_items, add_order,
  add_log, append_created, create_order,
}

-- What an item row holds of the line that it was made from.
abbrev pub row_facts : OrderItem → ℕ × ℤ × ℤ
row_facts row = (row.order_id, row.quantity, row.unit_price)

abbrev pub line_facts : ℕ → ItemRequest → ℕ × ℤ × ℤ
line_facts id item = (id, get_or item.quantity (pos 0), get_or item.unit_price (pos 0))

sku_total :
    (code : String) (db : Db)
    → (s : Sku) × (skus : List Sku) × (n : ℕ) × (get_or_create_sku code db
        ≡ ok (s, record db { skus = skus; next_uuid = n }))
unfolding get_or_create_sku
sku_total code db = elim (Option-cases (first (λ (s : Sku). str_eq s.sku code) db.skus)) [
  | inl missing ↦
      let s : Sku = record { id = db.next_uuid; sku = code; name = code } in
      (s, db.skus ++ s ∷ [], db.next_uuid + 1, rw (missing, get_or_create_sku) refl)
  | inr (s, known) ↦ (s, db.skus, db.next_uuid, rw (known, get_or_create_sku) refl)
]

customer_total :
    (code : String) (db : Db)
    → (c : Customer) × (customers : List Customer) × (n : ℕ) × (get_or_create_customer code db
        ≡ ok (c, record db { customers = customers; next_uuid = n }))
unfolding get_or_create_customer
customer_total code db =
    elim (Option-cases (first (λ (c : Customer). str_eq c.code code) db.customers)) [
      | inl missing ↦
          let c : Customer = record { id = db.next_uuid; code = code; name = code } in
          (c, db.customers ++ c ∷ [], db.next_uuid + 1, rw (missing, get_or_create_customer) refl)
      | inr (c, known) ↦ (c, db.customers, db.next_uuid, rw (known, get_or_create_customer) refl)
    ]

sku_for_total :
    (code : String) (db : Db)
    → (s : Option ℕ) × (skus : List Sku) × (n : ℕ) × (sku_for code db
        ≡ ok (s, record db { skus = skus; next_uuid = n }))
unfolding sku_for
sku_for_total code db = elim (Bool-cases (str_eq code "")) [
  | inl empty ↦ (none, db.skus, db.next_uuid, rw (empty, sku_for) refl)
  | inr named ↦
      let (s, skus, n, made) = sku_total code db in
      (
        some s.id,
        skus,
        n,
        rw (named, sku_for) (bind_ok (get_or_create_sku code) (λ s. pure (some s.id)) db made),
      )
]

module _ (now id : ℕ) where
  item_total :
      (item : ItemRequest) (db : Db)
      → (row : OrderItem) × (skus : List Sku) × (n : ℕ) × (add_item now id item db
          ≡ ok (tt, record db { items = db.items ++ row ∷ []; skus = skus; next_uuid = n }))
        × (row_facts row ≡ line_facts id item)
  unfolding add_item
  item_total item db =
      let (s, skus, n, found) = sku_for_total (get_or item.sku "") db in
      (_, skus, suc n, bind_ok (sku_for (get_or item.sku "")) _ db found, refl)

  items_total :
      (items : List ItemRequest) (db : Db)
      → (rows : List OrderItem) × (skus : List Sku) × (n : ℕ) × (add_items now id items db
          ≡ ok (tt, record db { items = db.items ++ rows; skus = skus; next_uuid = n }))
        × (map row_facts rows ≡ map (line_facts id) items)
  unfolding add_items
  items_total [] db = (
    [],
    db.skus,
    db.next_uuid,
    ap (λ l. ok (tt, record db { items = l })) (sym (append-nil db.items)),
    refl,
  )
  items_total (item ∷ items) db =
      let (row, skus, n, made, held) = item_total item db in
      let (rows, skus', n', more, all_held) =
        items_total items
          (record db { items = db.items ++ row ∷ []; skus = skus; next_uuid = n }) in
      (
        row ∷ rows,
        skus',
        n',
        bind_ok (add_item now id item) (λ _. add_items now id items) db made
            ∙ more
            ∙ ap (λ l. ok (tt, record db { items = l; skus = skus'; next_uuid = n' }))
                (append_assoc db.items (row ∷ []) rows),
        cc (held, all_held),
      )

-- `unit_price * quantity`, summed over the rows.
abbrev pub rows_total : List OrderItem → ℤ
rows_total [] = pos 0
rows_total (row ∷ rows) = row.unit_price *ℤ row.quantity +ℤ rows_total rows

abbrev facts_total : List (ℕ × ℤ × ℤ) → ℤ
facts_total [] = pos 0
facts_total ((id, quantity, price) ∷ facts) = price *ℤ quantity +ℤ facts_total facts

rows_facts : (rows : List OrderItem) → rows_total rows ≡ facts_total (map row_facts rows)
rows_facts [] = refl
rows_facts (row ∷ rows) = ap (λ z. row.unit_price *ℤ row.quantity +ℤ z) (rows_facts rows)

lines_facts :
    (id : ℕ) (items : List ItemRequest)
    → request_total items ≡ facts_total (map (line_facts id) items)
unfolding request_total line_total
lines_facts id [] = refl
lines_facts id (item ∷ items) =
    ap (λ z. get_or item.unit_price (pos 0) *ℤ get_or item.quantity (pos 0) +ℤ z)
      (lines_facts id items)

add_order_fresh :
    (order : Order) (db : Db)
    → first (λ (o : Order). str_eq o.order_no order.order_no) db.orders ≡ none
    → add_order order db ≡ ok (tt, record db { orders = db.orders ++ order ∷ [] })
unfolding add_order
add_order_fresh order db fresh = rw (fresh, add_order) refl

module _ (to_cents : ℤ → ℤ) (items_by : OrderBy item_earlier) (now : ℕ) (order_no : String) where
  -- With an order number that no row has, an order is created whatever its lines are: one new order in the
  -- pending state, whose total is what the column keeps of the sum over its lines; one new item row per line with the
  -- line's quantity and price, so that the rows' sum is that of the lines; one log entry from no state to pending; and
  -- one pending event that tells the order's number, the sum and the customer. Earlier orders, items, log entries
  -- and events stay.
  pub create_order-creates :
      (request : OrderRequest) (db : Db)
      → first (λ (o : Order). str_eq o.order_no order_no) db.orders ≡ none
      → (d : OrderDict) × (db' : Db) × (order : Order) × (rows : List OrderItem)
        × (log : OrderStatusLog) × (event_id : ℕ) × (create_order to_cents items_by now order_no
              request db
            ≡ ok (d, db'))
        × (db'.orders ≡ db.orders ++ order ∷ [])
        × (order.order_no ≡ order_no)
        × (order.status ≡ pending)
        × (order.total_amount ≡ to_cents (request_total request.items))
        × (db'.items ≡ db.items ++ rows)
        × (map row_facts rows ≡ map (line_facts order.id) request.items)
        × (rows_total rows ≡ request_total request.items)
        × (db'.logs ≡ db.logs ++ log ∷ [])
        × (log.order_id ≡ order.id)
        × (log.from_status ≡ "")
        × (log.to_status ≡ "pending")
        × (db'.events
            ≡ append_event event_id now "Order" order.id "order.created"
                (("order_id", uuid order.id)
                  ∷ ("order_no", text order_no)
                  ∷ ("total_amount", amount (request_total request.items))
                  ∷ ("customer_id", text request.customer_id)
                  ∷ [])
                db.events)
  unfolding create_order add_order append_created add_log
  create_order-creates request db fresh =
      let (c, customers, n, found) = customer_total request.customer_id db in
      let order : Order = record {
        id = n;
        order_no = order_no;
        status = pending;
        customer_id = c.id;
        warehouse_id = none;
        total_amount = to_cents (request_total request.items);
        priority = get_or (lookup (get_or request.priority "medium") priority_map) medium;
        notes = get_or request.notes "";
        is_deleted = false;
        deleted_at = none;
        created_at = now;
        updated_at = now;
      } in
      let db₀ : Db = record db { customers = customers; next_uuid = suc n } in
      let db₁ : Db = record db₀ { orders = db.orders ++ order ∷ [] } in
      let (rows, skus, m, added, held) = items_total now n request.items db₁ in
      (
        _,
        _,
        order,
        rows,
        _,
        suc m,
        bind_ok (get_or_create_customer request.customer_id) _ db found
            ∙ bind_ok (add_order order) _ db₀ (add_order_fresh order db₀ fresh)
            ∙ bind_ok (add_items now n request.items) _ db₁ added,
        refl,
        refl,
        refl,
        refl,
        refl,
        held,
        rows_facts rows ∙ ap facts_total held ∙ sym (lines_facts n request.items),
        refl,
        refl,
        refl,
        refl,
        refl,
      )
