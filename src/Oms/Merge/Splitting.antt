-- ===== src/Oms/Merge/Splitting.antt =====
-- `split_order` of src/oms/merge.py, over all splits of a request.
use oms_wms_tms.Prelude.{ℕ, String, List, [], ◌∷◌, ◌++◌}
use oms_wms_tms.Prelude.Int.{ℤ}
use oms_wms_tms.Prelude.OrderBy.{OrderBy}
use oms_wms_tms.Oms.Model.{Order, OrderItem, SplitChildOrder, Db, item_earlier}
use oms_wms_tms.Oms.Merge.{Split}
use oms_wms_tms.Oms.Merge.Children.{ChildOf}

-- A child with its rows and its link.
abbrev pub Child : Type 0
Child = Order × List OrderItem × SplitChildOrder

abbrev pub orders_of : List Child → List Order
orders_of [] = []
orders_of ((child, rows, link) ∷ children) = child ∷ orders_of children

abbrev pub rows_of : List Child → List OrderItem
rows_of [] = []
rows_of ((child, rows, link) ∷ children) = rows ++ rows_of children

abbrev pub links_of : List Child → List SplitChildOrder
links_of [] = []
links_of ((child, rows, link) ∷ children) = link ∷ links_of children

abbrev pub with_children : Db → List Child → ℕ → Db
with_children db children n = record db {
  orders = db.orders ++ orders_of children;
  items = db.items ++ rows_of children;
  split_child_orders = db.split_child_orders ++ links_of children;
  next_uuid = n;
}

module _ (uuid_text : ℕ → String) (to_cents : ℤ → ℤ) (items_by : OrderBy item_earlier) (now : ℕ)
    (parent_rows : List OrderItem) (order : Order) (reason : String) where
  abbrev pub AllChildren : List Split → List Child → Type 0
  AllChildren [] [] = Unit
  AllChildren (split ∷ splits) ((child, rows, link) ∷ children) =
      ChildOf uuid_text to_cents items_by now parent_rows order reason split child rows link
      × AllChildren splits children
  AllChildren splits children = ⊥
