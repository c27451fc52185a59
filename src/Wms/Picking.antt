-- ===== src/Wms/Picking.antt =====
-- `pick_from_stock` of src/wms/services/picking_service.py. `Refinement` is about what it
-- picks, `Rows` about the rows that it leaves.
pub mod Refinement
pub mod Rows
use oms_wms_tms.Prelude.{
  ℕ, ◌+◌, ◌*◌, ◌/◌, min, String, Bool, true, false, not, ◌&&◌, ◌||◌, Option, none, some, List, [],
  ◌∷◌, ◌++◌, str_eq, leb, ltb, ◌==◌, if◌then◌else◌, get_or, select, by_id, put, option_eq, RawId,
  not_found, value_error, missing_greenlet, or_raise, Txn, pure, lift, gets, modify, raise_if,
  ◌>>=◌, ◌>>◌,
}
use oms_wms_tms.Prelude.Int.{ℤ, pos, negsuc, pos_part, ◌-ℤ◌, ◌+ℤ◌, leb_ℤ}
use oms_wms_tms.Prelude.OrderBy.{OrderBy}
use oms_wms_tms.Wms.Model.{Sku, Inventory, InventoryLog, outbound, Db, uuid4, inventory_key}

-- `ORDER BY expiry_date ASC NULLS LAST, batch_no` in the database's order `batch_le` of texts.
abbrev pub expires_before : Option ℕ → Option ℕ → Bool
expires_before none e = false
expires_before (some d) none = true
expires_before (some d) (some e) = ltb d e

abbrev pub same_expiry : Option ℕ → Option ℕ → Bool
same_expiry none none = true
same_expiry (some d) (some e) = d == e
same_expiry d e = false

abbrev pub fefo : (String → String → Bool) → Inventory → Inventory → Bool
fefo batch_le a b =
    expires_before a.expiry_date b.expiry_date
    || (same_expiry a.expiry_date b.expiry_date && batch_le a.batch_no b.batch_no)

-- `Inventory.sku.has(SKU.sku == sku)`
unfoldable pub has_sku : List Sku → String → ℕ → Bool
unfolding by_id
has_sku skus sku i = elim (by_id (λ (s : Sku). s.id) i skus) [
  | none ↦ false
  | some s ↦ str_eq s.sku sku
]

unfoldable pub stocked : Db → ℕ → String → Inventory → Bool
unfolding has_sku
stocked db warehouse_id sku inv =
    inv.warehouse_id == warehouse_id && has_sku db.skus sku inv.sku_id && not inv.is_deleted

-- `max(Decimal("0"), inv.quantity - (inv.locked_qty or Decimal("0")))`, in ten-thousandths.
unfoldable pub available : Inventory → ℕ
available inv = pos_part (inv.quantity -ℤ get_or inv.locked_qty (pos 0))

-- `int(min(remaining, available))`
unfoldable pub pick_int : ℤ → Inventory → ℕ
unfolding available
pick_int remaining inv = min (pos_part remaining * 10000) (available inv) / 10000

pub record PickedBatch : Type 0 where
  pub batch_no : String
  pub sku_name : String
  pub expiry_date : Option ℕ
  pub qty : ℕ

pub record PickResult : Type 0 where
  pub picked_batches : List PickedBatch
  pub remaining_quantity : ℤ

abbrev pub lowered : Inventory → ℕ → Inventory
lowered inv units = record inv {
  quantity = inv.quantity -ℤ pos (units * 10000);
  version = inv.version + 1;
}

abbrev pub sku_name_of : List Sku → ℕ → String
sku_name_of skus i = elim (by_id (λ (s : Sku). s.id) i skus) [
  | none ↦ ""
  | some s ↦ get_or s.name ""
]

abbrev pub is_none : List Inventory → Bool
is_none [] = true
is_none (inv ∷ batches) = false

-- `inv.sku` is loaded only when it is read, which an `AsyncSession` refuses with MissingGreenlet unless the article is
-- already in the session: `loaded` tells which are.
module _ (loaded : ℕ → Bool) where
  -- What the loop's body does to a batch from which it picks.
  unfoldable pub pick : Inventory → ℕ → Txn Db PickedBatch
  unfolding put
  pick inv units = do
    modify
        (λ (db : Db). record db { inventory = put inventory_key (lowered inv units) db.inventory })
    id ← uuid4
    modify λ db. record db {
      inventory_logs =
          db.inventory_logs
          ++ record {
            id = id;
            inventory_id = inv.id;
            change_type = outbound;
            quantity_change = pos 0 -ℤ pos (units * 10000);
            quantity_before = (inv.quantity -ℤ pos (units * 10000)) +ℤ pos (units * 10000);
            quantity_after = inv.quantity -ℤ pos (units * 10000);
            reference_type = "picking";
          }
            ∷ [];
    }
    raise_if (not (loaded inv.sku_id)) missing_greenlet
    gets (λ db. record {
      batch_no = inv.batch_no;
      sku_name = sku_name_of db.skus inv.sku_id;
      expiry_date = inv.expiry_date;
      qty = units;
    })

  -- The loop over the batches.
  unfoldable pub pick_each : ℤ → List Inventory → Txn Db (List PickedBatch × ℤ)
  unfolding pick pick_int
  pick_each remaining [] = pure ([], remaining)
  pick_each remaining (inv ∷ batches) = elim (leb_ℤ remaining (pos 0)) [
    | true ↦ pure ([], remaining)
    | false ↦ elim (pick_int remaining inv == 0) [
      | true ↦ pick_each remaining batches
      | false ↦ do
        picked ← pick inv (pick_int remaining inv)
        rest ← pick_each (remaining -ℤ pos (pick_int remaining inv)) batches
        pure (picked ∷ rest.0, rest.1)
    ]
  ]

  -- `pick_from_stock`; the commit at the end makes the whole call one step.
  unfoldable pub pick_from_stock :
      (batch_le : String → String → Bool)
      → OrderBy (fefo batch_le)
      → RawId
      → String
      → ℤ
      → Txn Db PickResult
  unfolding stocked pick_each select
  pick_from_stock batch_le order raw sku quantity = do
    warehouse_id ← lift (or_raise raw value_error)
    batches ← gets (λ db. order.sort (select (stocked db warehouse_id sku) db.inventory))
    raise_if (is_none batches) not_found
    picks ← pick_each quantity batches
    pure (record { picked_batches = picks.0; remaining_quantity = picks.1 })
