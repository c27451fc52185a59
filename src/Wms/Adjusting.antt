-- ===== src/Wms/Adjusting.antt =====
-- `adjust_inventory` and `_pick_batches` of src/wms/service.py, with the transactions of others that commit between
-- its reads and its writes. `Reading` is about the rows that are chosen, `Locking` about what the version protects.
pub mod Reading
pub mod Locking
mod Tests
use oms_wms_tms.Prelude.{
  ℕ, suc, ◌+◌, String, Bool, true, false, not, ◌&&◌, ◌||◌, Option, none, some, List, [], ◌∷◌, ◌++◌,
  str_eq, leb, ◌==◌, option_eq, if◌then◌else◌, get_or, first, select, scalar_one_or_none, by_id,
  put, is_some, Result, ok, err, Error, not_found, validation, invalid_operation, integrity_error,
  missing_greenlet, or_raise, RawId, value_error,
}
use oms_wms_tms.Prelude.Int.{ℤ, pos, ◌+ℤ◌, ◌-ℤ◌, magnitude, ltb_ℤ}
use oms_wms_tms.Prelude.OrderBy.{OrderBy}
use oms_wms_tms.Wms.Model.{
  Warehouse, Location, Sku, Inventory, StockMovement, transfer, Db, inventory_key,
}
use oms_wms_tms.Wms.Picking.{expires_before, same_expiry}

-- The three orders of `_pick_batches`, in the database's order `batch_le` of texts; NULL comes last.
abbrev pub received_le : Option ℕ → Option ℕ → Bool
received_le d none = true
received_le none (some e) = false
received_le (some d) (some e) = leb d e

abbrev pub by_strategy : (String → String → Bool) → String → Inventory → Inventory → Bool
by_strategy batch_le strategy a b =
    if str_eq strategy "fefo"
    then expires_before a.expiry_date b.expiry_date
      || (same_expiry a.expiry_date b.expiry_date && received_le a.received_at b.received_at)
    else if str_eq strategy "fifo"
    then expires_before a.received_at b.received_at
      || (same_expiry a.received_at b.received_at && batch_le a.batch_no b.batch_no)
    else batch_le a.batch_no b.batch_no

pub record Batch : Type 0 where
  pub inv : Inventory
  pub available : ℤ

unfoldable pub in_stock : ℕ → Option ℕ → ℕ → Inventory → Bool
in_stock wh loc sku_id inv =
    inv.warehouse_id == wh
    && inv.sku_id == sku_id
    && ltb_ℤ (pos 0) inv.quantity
    && elim loc [ none ↦ true | some l ↦ option_eq inv.location_id (some l) ]

-- The loop over the rows; a `locked_qty` that is null is no decimal number.
unfoldable pub add_batch : Inventory → Option ℤ → Result (List Batch) → Result (List Batch)
add_batch inv none rest = err invalid_operation
add_batch inv (some locked) (err e) = err e
add_batch inv (some locked) (ok rest) =
    if ltb_ℤ (pos 0) (inv.quantity -ℤ locked)
    then ok (record { inv = inv; available = inv.quantity -ℤ locked } ∷ rest)
    else ok rest

unfoldable pub batches_of : List Inventory → Result (List Batch)
unfolding add_batch
batches_of [] = ok []
batches_of (inv ∷ rows) = add_batch inv inv.locked_qty (batches_of rows)

abbrev pub Orders : Type 0
Orders = (strategy : String) → List Inventory → List Inventory

unfoldable pub pick_batches : Orders → Db → ℕ → Option ℕ → ℕ → String → Result (List Batch)
unfolding in_stock batches_of select
pick_batches orders db wh loc sku_id strategy =
    batches_of (orders strategy (select (in_stock wh loc sku_id) db.inventory))

unfoldable pub total_available : List Batch → ℤ
total_available [] = pos 0
total_available (b ∷ bs) = b.available +ℤ total_available bs

-- `batch_no` and `picking_strategy` with their defaults filled in.
pub record AdjustRequest : Type 0 where
  pub warehouse_id : ℕ
  pub location_id : ℕ
  pub sku : String
  pub quantity : ℤ
  pub batch_no : String
  pub expiry_date : Option ℕ
  pub picking_strategy : String

-- What one attempt decides on the rows that it reads: to update a row, to insert one, or to try again.
pub data Choice : Type 0 where
  update : Inventory → Option ℕ → Choice
  insert : Choice
  again : Inventory → Choice

unfoldable pub at_batch : AdjustRequest → ℕ → Inventory → Bool
at_batch q sku_id inv =
    inv.warehouse_id == q.warehouse_id
    && option_eq inv.location_id (some q.location_id)
    && inv.sku_id == sku_id
    && str_eq inv.batch_no q.batch_no

-- `expiry_date and not inv.expiry_date`
abbrev pub filled : Option ℕ → Option ℕ → Option ℕ
filled asked none = asked
filled asked (some e) = some e

-- `qty > 0`, on the row that was found.
unfoldable pub choose_in : AdjustRequest → Result (Option Inventory) → Result Choice
choose_in q (err e) = err e
choose_in q (ok none) = ok insert
choose_in q (ok (some inv)) = ok (update inv (filled q.expiry_date inv.expiry_date))

-- Otherwise the first batch gives everything.
unfoldable pub take_from : AdjustRequest → Result (List Batch) → Result Choice
unfolding total_available
take_from q (err e) = err e
take_from q (ok []) = err validation
take_from q (ok (b ∷ bs)) =
    if ltb_ℤ (total_available (b ∷ bs)) (pos (magnitude q.quantity))
    then err validation
    else if ltb_ℤ (b.inv.quantity +ℤ q.quantity) (pos 0)
    then ok (again b.inv)
    else ok (update b.inv b.inv.expiry_date)

unfoldable pub choose : Orders → AdjustRequest → ℕ → Db → Result Choice
unfolding choose_in pick_batches take_from at_batch select scalar_one_or_none
choose orders q sku_id db =
    if ltb_ℤ (pos 0) q.quantity
    then choose_in q (scalar_one_or_none (select (at_batch q sku_id) db.inventory))
    else take_from q
        (pick_batches orders db q.warehouse_id (some q.location_id) sku_id q.picking_strategy)

-- What is outside of the call in one attempt: what others commit after its reads, whether its own commit is
-- accepted, the time, and whether the article, which a rollback before it has expired, can be read again.
pub record Attempt : Type 0 where
  pub others : Db → Db
  pub commits : Bool
  pub now : ℕ
  pub reloads : Bool

-- The end of the call: it has committed, on tables that were `before` without it; it has given up after its attempts
-- and answers the row as if it had been changed; or it has raised.
pub data Outcome : Type 0 where
  done : (before after : Db) → ℕ → Outcome
  given_up : Db → ℕ → Outcome
  raised : Error → Db → Outcome

-- The row that the UPDATE writes over `r`, with the quantity that was computed from the row that was read.
abbrev pub rewritten : AdjustRequest → Inventory → Option ℕ → Inventory → Inventory
rewritten q inv expiry r = record r {
  quantity = inv.quantity +ℤ q.quantity;
  version = inv.version + 1;
  expiry_date = expiry;
}

abbrev pub new_row : AdjustRequest → ℕ → ℕ → ℕ → Inventory
new_row q sku_id now id = record {
  id = id;
  warehouse_id = q.warehouse_id;
  location_id = some q.location_id;
  sku_id = sku_id;
  batch_no = q.batch_no;
  quantity = q.quantity;
  locked_qty = some (pos 0);
  version = 0;
  expiry_date = q.expiry_date;
  received_at = some now;
  is_deleted = false;
}

-- The movement row, which every attempt that gets so far adds.
abbrev pub moved : AdjustRequest → ℕ → Db → Db
moved q sku_id db = record db {
  stock_movements =
      db.stock_movements
      ++ record {
        id = db.next_uuid;
        source_warehouse_id = some q.warehouse_id;
        target_warehouse_id = none;
        source_location_id = if ltb_ℤ q.quantity (pos 0) then some q.location_id else none;
        target_location_id = if ltb_ℤ (pos 0) q.quantity then some q.location_id else none;
        sku_id = sku_id;
        quantity = pos (magnitude q.quantity);
        movement_type = transfer;
      }
        ∷ [];
  next_uuid = suc db.next_uuid;
}

-- The commit is refused too where the article is not in its table (a foreign key): a rollback takes a new article back.
unfoldable pub accepts : Attempt → ℕ → Db → Bool
unfolding by_id
accepts a sku_id db = a.commits && is_some (by_id (λ (s : Sku). s.id) sku_id db.skus)

-- `adjust_inventory` after its checks. `own` is what the session has written before and not committed, `again_with`
-- the rest of the loop on the tables after a rollback, none in the last attempt.
module _ (orders : Orders) (q : AdjustRequest) (sku_id : ℕ) where
  -- The commit, and what follows where it is refused.
  unfoldable pub commit : Attempt → Option (Db → Outcome) → Db → Db → ℕ → Outcome
  unfolding accepts
  commit a again_with before after id =
      if accepts a sku_id after
      then done before after id
      else elim again_with [ none ↦ raised integrity_error before | some go ↦ go before ]

  abbrev pub rolled_back : Option (Db → Outcome) → Db → ℕ → Outcome
  rolled_back none db id = given_up db id
  rolled_back (some go) db id = go db

  -- The UPDATE with its WHERE on the version: the row may have gone or changed.
  unfoldable pub write :
      Attempt
      → Option (Db → Outcome)
      → (Db → Db)
      → Db
      → Inventory
      → Option ℕ
      → Option Inventory
      → Outcome
  unfolding commit put
  write a again_with own before inv expiry none = rolled_back again_with before inv.id
  write a again_with own before inv expiry (some r) =
      if r.version == inv.version
      then commit a again_with before
          (moved q sku_id (record (own before) {
            inventory = put inventory_key (rewritten q inv expiry r) (own before).inventory;
          }))
          inv.id
      else rolled_back again_with before inv.id

  unfoldable pub act : Attempt → Option (Db → Outcome) → (Db → Db) → Db → Choice → Outcome
  unfolding write by_id commit
  act a again_with own before (again inv) = rolled_back again_with before inv.id
  act a again_with own before (update inv expiry) =
      write a again_with own before inv expiry (by_id inventory_key inv.id (own before).inventory)
  act a again_with own before insert =
      let work = own before in
      commit a again_with before
        (moved q sku_id (record work {
          inventory = work.inventory ++ new_row q sku_id a.now work.next_uuid ∷ [];
          next_uuid = suc work.next_uuid;
        }))
        work.next_uuid

  -- The writes, on the tables that the others have left; an error ends the call on the tables `db`.
  unfoldable pub proceed :
      Attempt → Option (Db → Outcome) → (Db → Db) → Db → Result Choice → Outcome
  unfolding act
  proceed a again_with own db (err e) = raised e db
  proceed a again_with own db (ok choice) = act a again_with own (a.others db) choice

  -- One attempt: the reads see the tables `db`.
  unfoldable pub attempt : Attempt → Option (Db → Outcome) → (Db → Db) → Db → Outcome
  unfolding choose proceed
  attempt a again_with own db = proceed a again_with own db (choose orders q sku_id (own db))

  abbrev pub nothing : Db → Db
  nothing db = db

  -- What follows a rollback: the next attempt reads `sku_obj.id`.
  abbrev pub retry : Attempt → (Db → Outcome) → Db → Outcome
  retry a go db = if a.reloads then go db else raised missing_greenlet db

  -- `for attempt in range(3)`: the first attempt has what the session wrote before.
  unfoldable pub adjust : Attempt → Attempt → Attempt → (Db → Db) → Db → Outcome
  unfolding attempt
  adjust a1 a2 a3 own db =
      attempt a1 (some (retry a2 (attempt a2 (some (retry a3 (attempt a3 none nothing))) nothing)))
        own db

-- The new article that `_get_or_create_sku` flushes.
abbrev pub with_sku : Sku → Db → Db
with_sku s db = record db { skus = db.skus ++ s ∷ []; next_uuid = suc db.next_uuid }

-- `adjust_inventory`
unfoldable pub adjust_inventory :
    Orders → AdjustRequest → Attempt → Attempt → Attempt → Db → Outcome
unfolding adjust first by_id
adjust_inventory orders q a1 a2 a3 db =
    if not (is_some (by_id (λ (w : Warehouse). w.id) q.warehouse_id db.warehouses))
    then raised not_found db
    else if not (is_some (by_id (λ (l : Location). l.id) q.location_id db.locations))
    then raised not_found db
    else elim (first (λ (s : Sku). str_eq s.sku q.sku) db.skus) [
      | some s ↦ adjust orders q s.id a1 a2 a3 (λ d. d) db
      | none ↦
          adjust orders q db.next_uuid a1 a2 a3
            (with_sku (record { id = db.next_uuid; sku = q.sku; name = some q.sku })) db
    ]
