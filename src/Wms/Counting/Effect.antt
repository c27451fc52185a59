-- ===== src/Wms/Counting/Effect.antt =====
-- What a stock count leaves of the row that it counts.
use oms_wms_tms.Prelude.{ℕ, suc, ◌≡◌, String, false, [], ◌∷◌, ◌++◌, arith, if◌then◌else◌}
use oms_wms_tms.Prelude.Int.{ℤ, pos, negsuc, ◌-ℤ◌, magnitude, ltb_ℤ}
use oms_wms_tms.Wms.Model.{Inventory, Db}
use oms_wms_tms.Wms.Counting.{is_small, recounted, store, log_of}

-- A count that is no less than zero is never more than the row can give.
in_stock :
    (a : ℕ) (q : ℤ)
    → ltb_ℤ (pos 0) (pos a -ℤ q) ≡ false
    → ltb_ℤ q (pos (magnitude (pos a -ℤ q))) ≡ false
unfolding ◌-ℤ◌
in_stock a (pos q) h = ground arith
in_stock a (negsuc q) h = ground arith

module _ (now wh loc sku_id a : ℕ) (sku : String) (r : Inventory) (db : Db) where
  abbrev diff : ℤ
  diff = pos a -ℤ r.quantity

  -- The tables after the count of the row.
  abbrev pub counted : Db
  counted = if is_small diff then db else record (store (recounted (pos a) r) db) {
    stock_inventory_logs = db.stock_inventory_logs ++ log_of db.next_uuid wh sku diff ∷ [];
    next_uuid = suc db.next_uuid;
  }
