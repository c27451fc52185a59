-- ===== src/Oms/Merge/Tests.antt =====
-- A concrete split for the theorem about src/oms/merge.py.
use oms_wms_tms.Prelude.{
  ◌*◌, ◌/◌, ℕ, ◌≡◌, ◌⊎◌, String, true, false, none, some, List, [], ◌∷◌, arith,
}
use oms_wms_tms.Prelude.Int.{ℤ, negsuc, pos}
use oms_wms_tms.Prelude.OrderBy.{OrderBy, by_insertion}
use oms_wms_tms.Oms.Model.{confirmed, medium, Order, OrderItem, Db, item_earlier}
use oms_wms_tms.Oms.Merge.{SplitItem, Split, number}

earlier_total : (a b : OrderItem) → (item_earlier a b ≡ true) ⊎ (item_earlier b a ≡ true)
earlier_total a b = ground arith

earlier_trans :
    (a b c : OrderItem)
    → item_earlier a b ≡ true
    → item_earlier b c ≡ true
    → item_earlier a c ≡ true
earlier_trans a b c h k = ground arith

abbrev by_time : OrderBy item_earlier
by_time = by_insertion item_earlier earlier_total earlier_trans

-- Texts of UUIDs, different ones for different UUIDs.
abbrev uuid_text : ℕ → String
unfolding number
uuid_text = number

-- A column that drops what is less than a cent.
abbrev to_cents : ℤ → ℤ
to_cents (pos n) = pos (n / 100 * 100)
to_cents (negsuc n) = negsuc n

abbrev parent : Order
parent = record {
  id = 2;
  order_no = "ORD-1";
  status = confirmed;
  customer_id = 1;
  warehouse_id = none;
  total_amount = pos 60000;
  priority = medium;
  notes = "";
  is_deleted = false;
  deleted_at = none;
  created_at = 5;
  updated_at = 5;
}

abbrev db : Db
db = record {
  webhook_targets = [];
  webhook_logs = [];
  customers = [];
  skus = [];
  orders = parent ∷ [];
  items =
      record {
        id = 3;
        order_id = 2;
        sku_id = some 7;
        gtin = "";
        name = "bolt";
        quantity = pos 3;
        unit_price = pos 20000;
        is_deleted = false;
        deleted_at = none;
        created_at = 5;
      }
      ∷ [];
  logs = [];
  merge_groups = [];
  split_child_orders = [];
  events = [];
  signals = [];
  next_uuid = 8;
}

-- Two units of the article, of which the order has three, for each of two children.
abbrev line : SplitItem
line = record { sku = "7"; quantity = some (pos 2); product_name = none }

abbrev splits : List Split
splits =
    record { items = line ∷ []; note = none }
    ∷ record { items = line ∷ []; note = some "rest" }
    ∷ []
