-- ===== src/Oms/Merge.antt =====
-- `split_order` and `get_merge_group` of src/oms/merge.py. `Children` is about one split of a request,
-- `Splitting` about all. `uuid_text` is the text that `str` makes of a UUID.
pub mod Children
pub mod Splitting
mod Tests
use Prim.Native.String as Text
use oms_wms_tms.Prelude.{
  ℕ, zero, suc, ◌+◌, ◌-◌, ◌*◌, ◌/◌, String, Bool, true, false, not, ◌&&◌, Option, none, some, List,
  [], ◌∷◌, ◌++◌, map, str_eq, ltb, ◌==◌, option_eq, get_or, if◌then◌else◌, first, select, by_id,
  put, or_raise, not_found, value_error, RawId, Txn, pure, lift, gets, modify, ◌>>=◌, ◌>>◌,
}
use oms_wms_tms.Prelude.Int.{ℤ, pos, ◌+ℤ◌, ◌*ℤ◌}
use oms_wms_tms.Prelude.OrderBy.{OrderBy}
use oms_wms_tms.Oms.Model.{
  pending, Order, OrderItem, MergeGroup, SplitChildOrder, Db, uuid4, item_earlier, order_key,
}
use oms_wms_tms.Oms.Orders.{OrderDict, order_to_dict}
use oms_wms_tms.Oms.Service.{load_order, add_order}

-- The dicts of a request, a key that is absent as none; an absent `sku` is the empty text.
pub record SplitItem : Type 0 where
  pub sku : String
  pub quantity : Option ℤ
  pub product_name : Option String

pub record Split : Type 0 where
  pub items : List SplitItem
  pub note : Option String

-- `f"{n}"` of a number, on as many steps as there can be digits.
abbrev pub digit : ℕ → String
digit n =
    if n == 0
    then "0"
    else if n == 1
    then "1"
    else if n == 2
    then "2"
    else if n == 3
    then "3"
    else if n == 4
    then "4"
    else if n == 5
    then "5"
    else if n == 6
    then "6"
    else if n == 7
    then "7"
    else if n == 8
    then "8"
    else "9"

unfoldable pub number_in : ℕ → ℕ → String
number_in zero n = ""
number_in (suc steps) n =
    let before = number_in steps (n / 10) in
    if ltb n 10 then digit n else Text.◌++◌ before (digit (n - (n / 10) * 10))

unfoldable pub number : ℕ → String
unfolding number_in
number n = number_in (suc n) n

-- `str(oi.sku_id)`
abbrev pub id_text : (ℕ → String) → Option ℕ → String
id_text uuid_text none = "None"
id_text uuid_text (some i) = uuid_text i

abbrev pub orig_of : (ℕ → String) → String → List OrderItem → Option OrderItem
unfolding first
orig_of uuid_text sku rows =
    first (λ (oi : OrderItem). str_eq (id_text uuid_text oi.sku_id) sku) rows

abbrev pub price_of : Option OrderItem → ℤ
price_of none = pos 0
price_of (some oi) = oi.unit_price

abbrev pub sku_id_of : Option OrderItem → Option ℕ
sku_id_of none = none
sku_id_of (some oi) = oi.sku_id

abbrev pub gtin_of : Option OrderItem → String
gtin_of none = ""
gtin_of (some oi) = oi.gtin

abbrev pub name_of : Option OrderItem → String
name_of none = ""
name_of (some oi) = oi.name

module _ (uuid_text : ℕ → String) (now : ℕ) (rows : List OrderItem) where
  abbrev pub split_row : ℕ → ℕ → SplitItem → OrderItem
  split_row id child_id req = record {
    id = id;
    order_id = child_id;
    sku_id = sku_id_of (orig_of uuid_text req.sku rows);
    gtin = gtin_of (orig_of uuid_text req.sku rows);
    name = get_or req.product_name (name_of (orig_of uuid_text req.sku rows));
    quantity = get_or req.quantity (pos 0);
    unit_price = price_of (orig_of uuid_text req.sku rows);
    is_deleted = false;
    deleted_at = none;
    created_at = now;
  }

  unfoldable pub add_split_item : ℕ → SplitItem → Txn Db (Unit {0})
  add_split_item child_id req = do
    id ← uuid4
    modify (λ (db : Db). record db { items = db.items ++ split_row id child_id req ∷ [] })

  -- The loop over the items of a split, with the total so far.
  unfoldable pub add_split_items : ℕ → ℤ → List SplitItem → Txn Db ℤ
  unfolding add_split_item
  add_split_items child_id total [] = pure total
  add_split_items child_id total (req ∷ reqs) =
      add_split_item child_id req
      >> add_split_items child_id
          (total +ℤ price_of (orig_of uuid_text req.sku rows) *ℤ get_or req.quantity (pos 0)) reqs

abbrev pub child_no : Order → ℕ → String
unfolding number
child_no order idx = Text.◌++◌ order.order_no (Text.◌++◌ "-SP" (number (idx + 1)))

abbrev pub child_order : ℕ → ℕ → Order → ℕ → Split → Order
child_order id now order idx split = record {
  id = id;
  order_no = child_no order idx;
  status = pending;
  customer_id = order.customer_id;
  warehouse_id = order.warehouse_id;
  total_amount = pos 0;
  priority = order.priority;
  notes = get_or split.note (Text.◌++◌ "Split from " order.order_no);
  is_deleted = false;
  deleted_at = none;
  created_at = now;
  updated_at = now;
}

abbrev pub link_of : ℕ → Order → ℕ → ℕ → String → SplitChildOrder
unfolding number
link_of id order child_id idx reason = record {
  id = id;
  parent_order_id = some order.id;
  child_order_id = child_id;
  merge_group_id = none;
  split_reason =
      if str_eq reason ""
      then Text.◌++◌ "Manual split (" (Text.◌++◌ (number (idx + 1)) ")")
      else reason;
  is_deleted = false;
}

module _ (uuid_text : ℕ → String) (to_cents : ℤ → ℤ) (items_by : OrderBy item_earlier) (now : ℕ)
    (rows : List OrderItem) (order : Order) (reason : String) where
  -- The body of the loop over the splits. `to_cents` is what the column `total_amount`, `Numeric(18, 2)`, keeps of
  -- an amount.
  unfoldable pub split_one : ℕ → Split → Txn Db OrderDict
  unfolding add_order add_split_items put order_to_dict
  split_one idx split = do
    id ← uuid4
    add_order (child_order id now order idx split)
    total ← add_split_items uuid_text now rows id (pos 0) split.items
    link_id ← uuid4
    modify (λ (db : Db). record db {
      split_child_orders = db.split_child_orders ++ link_of link_id order id idx reason ∷ [];
    })
    let child = record (child_order id now order idx split) { total_amount = total }
    modify (λ (db : Db). record db {
      orders = put order_key (record child { total_amount = to_cents total }) db.orders;
    })
    gets (order_to_dict items_by child none)

  unfoldable pub split_all : ℕ → List Split → Txn Db (List OrderDict)
  unfolding split_one
  split_all idx [] = pure []
  split_all idx (split ∷ splits) = do
    child ← split_one idx split
    children ← split_all (idx + 1) splits
    pure (child ∷ children)

-- The rows that `order.items_list` holds.
abbrev pub items_list : Order → Db → List OrderItem
unfolding select
items_list order db = select (λ (oi : OrderItem). oi.order_id == order.id) db.items

-- `split_order`
unfoldable pub split_order :
    (ℕ → String)
    → (ℤ → ℤ)
    → OrderBy item_earlier
    → ℕ
    → RawId
    → List Split
    → String
    → Txn Db (List OrderDict)
unfolding load_order split_all
split_order uuid_text to_cents items_by now raw splits reason = do
  order ← load_order raw
  rows ← gets (items_list order)
  split_all uuid_text to_cents items_by now rows order reason 0 splits

pub record MergeGroupDict : Type 0 where
  pub id : ℕ
  pub code : String
  pub status : String
  pub total_items : ℕ
  pub total_amount : ℤ
  pub notes : String
  pub child_order_ids : List ℕ

-- `get_merge_group`
unfoldable pub get_merge_group : RawId → Txn Db (Option MergeGroupDict)
unfolding by_id select
get_merge_group raw = do
  id ← lift (or_raise raw value_error)
  gets (λ (db : Db). elim (by_id (λ (g : MergeGroup). g.id) id db.merge_groups) [
    | none ↦ none
    | some g ↦ some (record {
      id = g.id;
      code = g.code;
      status = g.status;
      total_items = g.total_items;
      total_amount = g.total_amount;
      notes = g.notes;
      child_order_ids =
          map (λ (l : SplitChildOrder). l.child_order_id)
            (select
              (λ (l : SplitChildOrder). option_eq l.merge_group_id (some g.id) && not l.is_deleted)
              db.split_child_orders);
    })
  ])
