-- ===== src/Oms/Merge/Children.antt =====
-- What `split_order` of src/oms/merge.py leaves of one split.
use mathlib.Core.List.{append-nil, append_assoc}
use oms_wms_tms.Prelude.{
  ℕ, suc, ◌+◌, ◌≤◌, ◌≡◌, refl, sym, ap, ◌∙◌, String, Bool, true, false, not, ◌&&◌, none, some, List,
  [], ◌∷◌, ◌++◌, map, arith, ltb, str_eq, mem_text, get_or, first, put, ok, bind_ok,
}
use oms_wms_tms.Prelude.Int.{ℤ, pos, ◌+ℤ◌, ◌*ℤ◌}
use oms_wms_tms.Prelude.OrderBy.{OrderBy}
use oms_wms_tms.Prelude.Quantified.{all}
use oms_wms_tms.Oms.Model.{pending, Order, OrderItem, SplitChildOrder, Db, item_earlier, order_key}
use oms_wms_tms.Oms.Orders.{OrderDict, order_to_dict}
use oms_wms_tms.Oms.Service.{add_order}
use oms_wms_tms.Oms.Merge.{
  SplitItem, Split, orig_of, price_of, split_row, add_split_item, add_split_items, child_no,
  child_order, link_of, split_one,
}

abbrev pub row_facts : OrderItem → ℕ × ℤ × ℤ
row_facts row = (row.order_id, row.quantity, row.unit_price)

-- `unit_price * quantity`, added up over rows.
abbrev pub total_from : ℤ → List OrderItem → ℤ
total_from total [] = total
total_from total (row ∷ rows) = total_from (total +ℤ row.unit_price *ℤ row.quantity) rows

module _ (uuid_text : ℕ → String) (now : ℕ) (parent_rows : List OrderItem) where
  -- A line of a split: the child's id, the quantity as asked, and the price of the parent's row.
  abbrev pub line_facts : ℕ → SplitItem → ℕ × ℤ × ℤ
  line_facts child_id req =
      (child_id, get_or req.quantity (pos 0), price_of (orig_of uuid_text req.sku parent_rows))

  items_total :
      (child_id : ℕ) (total : ℤ) (reqs : List SplitItem) (db : Db)
      → (rows : List OrderItem) × (n : ℕ) × (add_split_items uuid_text now parent_rows child_id
            total reqs db
          ≡ ok (total_from total rows, record db { items = db.items ++ rows; next_uuid = n }))
        × (map row_facts rows ≡ map (line_facts child_id) reqs)
        × (db.next_uuid ≤ n)
  unfolding add_split_items add_split_item
  items_total child_id total [] db = (
    [],
    db.next_uuid,
    ap (λ l. ok (total, record db { items = l })) (sym (append-nil db.items)),
    refl,
    omega arith,
  )
  items_total child_id total (req ∷ reqs) db =
      let row : OrderItem = split_row uuid_text now parent_rows db.next_uuid child_id req in
      let (rows, n, more, held, later) =
        items_total child_id (total +ℤ row.unit_price *ℤ row.quantity) reqs
          (record db { items = db.items ++ row ∷ []; next_uuid = suc db.next_uuid }) in
      (
        row ∷ rows,
        n,
        more
            ∙ ap (λ l. ok (total_from total (row ∷ rows), record db { items = l; next_uuid = n }))
                (append_assoc db.items (row ∷ []) rows),
        ap (λ l. line_facts child_id req ∷ l) held,
        omega arith,
      )

put-append :
    (c c' : Order) (rs : List Order)
    → c.id ≡ c'.id
    → all (λ r. ltb r.id c'.id) rs ≡ true
    → put order_key c' (rs ++ c ∷ []) ≡ rs ++ c' ∷ []
unfolding put
put-append c c' [] same h = ground arith
put-append c c' (r ∷ rs) same h = ground (arith, put-append c c' rs same)

first-free :
    (code : String) (rs : List Order)
    → mem_text code (map Order.order_no rs) ≡ false
    → first (λ (o : Order). str_eq o.order_no code) rs ≡ none
unfolding first mem_text
first-free code [] h = refl
first-free code (r ∷ rs) h = ground (arith, first-free code rs)

pub map_no-append :
    (rs : List Order) (c : Order)
    → map Order.order_no (rs ++ c ∷ []) ≡ map Order.order_no rs ++ c.order_no ∷ []
map_no-append [] c = refl
map_no-append (r ∷ rs) c = ap (λ l. r.order_no ∷ l) (map_no-append rs c)

below_all :
    (m n : ℕ) (rs : List Order) (c : Order)
    → all (λ r. ltb r.id m) rs ≡ true
    → m ≤ n
    → suc c.id ≤ n
    → all (λ r. ltb r.id n) (rs ++ c ∷ []) ≡ true
below_all m n [] c h k l = ground arith
below_all m n (r ∷ rs) c h k l = ground (arith, below_all m n rs c)

-- No child number is taken, neither by a row nor by an earlier child.
abbrev pub numbers_free : Order → ℕ → List Split → List String → Bool
numbers_free order idx [] taken = true
numbers_free order idx (split ∷ splits) taken =
    not (mem_text (child_no order idx) taken)
    && numbers_free order (idx + 1) splits (taken ++ child_no order idx ∷ [])

add_order_free :
    (order : Order) (db : Db)
    → mem_text order.order_no (map Order.order_no db.orders) ≡ false
    → add_order order db ≡ ok (tt, record db { orders = db.orders ++ order ∷ [] })
unfolding add_order
add_order_free order db free = rw (first-free order.order_no db.orders free, add_order) refl

module _ (uuid_text : ℕ → String) (to_cents : ℤ → ℤ) (items_by : OrderBy item_earlier) (now : ℕ)
    (parent_rows : List OrderItem) (order : Order) (reason : String) where
  -- What a child has of its split: a pending order of the parent's customer whose total is what the column keeps of that of its rows,
  -- one row per line, and a link from the parent.
  abbrev pub ChildOf : Split → Order → List OrderItem → SplitChildOrder → Type 0
  ChildOf split child rows link =
      (child.status ≡ pending)
      × (child.customer_id ≡ order.customer_id)
      × (child.total_amount ≡ to_cents (total_from (pos 0) rows))
      × (map row_facts rows ≡ map (line_facts uuid_text now parent_rows child.id) split.items)
      × (link.parent_order_id ≡ some order.id)
      × (link.child_order_id ≡ child.id)

  pub split_one_total :
      (idx : ℕ) (split : Split) (db : Db)
      → all (λ (r : Order). ltb r.id db.next_uuid) db.orders ≡ true
      → mem_text (child_no order idx) (map Order.order_no db.orders) ≡ false
      → (d : OrderDict) × (child : Order) × (rows : List OrderItem) × (link : SplitChildOrder)
        × (n : ℕ) × (split_one uuid_text to_cents items_by now parent_rows order reason idx split db
            ≡ ok (
              d,
              record db {
                orders = db.orders ++ child ∷ [];
                items = db.items ++ rows;
                split_child_orders = db.split_child_orders ++ link ∷ [];
                next_uuid = n;
              },
            ))
        × ChildOf split child rows link
        × (child.order_no ≡ child_no order idx)
        × (all (λ (r : Order). ltb r.id n) (db.orders ++ child ∷ []) ≡ true)
  unfolding split_one link_of
  split_one_total idx split db below free =
      let c₀ : Order = child_order db.next_uuid now order idx split in
      let db₀ : Db = record db { next_uuid = suc db.next_uuid } in
      let db₁ : Db = record db₀ { orders = db.orders ++ c₀ ∷ [] } in
      let (rows, n, added, held, later) =
        items_total uuid_text now parent_rows db.next_uuid (pos 0) split.items db₁ in
      let answered : Order = record c₀ { total_amount = total_from (pos 0) rows } in
      let child : Order = record c₀ { total_amount = to_cents (total_from (pos 0) rows) } in
      let link : SplitChildOrder = link_of n order db.next_uuid idx reason in
      let made : Db = record db {
        orders = put order_key child (db.orders ++ c₀ ∷ []);
        items = db.items ++ rows;
        split_child_orders = db.split_child_orders ++ link ∷ [];
        next_uuid = suc n;
      } in
      (
        order_to_dict items_by answered none made,
        child,
        rows,
        link,
        suc n,
        bind_ok (add_order c₀) _ db₀ (add_order_free c₀ db₀ free)
            ∙ bind_ok (add_split_items uuid_text now parent_rows db.next_uuid (pos 0) split.items) _
                db₁ added
            ∙ ap (λ l. ok (order_to_dict items_by answered none made, record made { orders = l }))
                (put-append c₀ child db.orders refl below),
        (refl, refl, refl, held, refl, refl),
        refl,
        below_all db.next_uuid (suc n) db.orders child below (omega arith) (omega arith),
      )
