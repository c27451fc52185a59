-- ===== src/Wms/Waves.antt =====
-- Picking waves and their packing: `start_picking`, `complete_picking` and `create_packing` of src/wms/service.py, and
-- `complete_pick` of src/wms/services/picking_service.py. `History` is about sequences of them.
pub mod History
use oms_wms_tms.Prelude.{
  ℕ, ◌==◌, ◌&&◌, String, Bool, true, false, not, Option, none, some, List, [], ◌∷◌, ◌++◌, str_eq,
  by_id, put, get_or, if◌then◌else◌, RawId, not_found, validation, value_error, or_raise, Txn, pure,
  lift, gets, modify, raise_if, ◌>>=◌, ◌>>◌,
}
use oms_wms_tms.Wms.Model.{PickingWave, PackingRecord, Db, uuid4}

abbrev pub wave_key : PickingWave → ℕ
wave_key w = w.id

abbrev pub store : PickingWave → Db → Db
store w db = record db { picking_waves = put wave_key w db.picking_waves }

-- `_to_uuid`, which raises on a malformed id, and `scalar_one_or_none`.
unfoldable pub load_wave : RawId → Txn Db PickingWave
unfolding by_id
load_wave raw = do
  id ← lift (or_raise raw value_error)
  found ← gets (λ (db : Db). by_id wave_key id db.picking_waves)
  lift (or_raise found not_found)

-- An assignee that is no UUID is dropped: `assignee` is none for an empty text and for a malformed one.
abbrev pub started : ℕ → RawId → PickingWave → PickingWave
started now assignee w = record w {
  status = "in_progress";
  assignee_id = assignee;
  updated_at = now;
}

unfoldable pub start_picking : ℕ → RawId → RawId → Txn Db PickingWave
unfolding load_wave put
start_picking now raw assignee = do
  wave ← load_wave raw
  raise_if (not (str_eq wave.status "pending")) validation
  modify (store (started now assignee wave))
  pure (started now assignee wave)

abbrev pub finished : ℕ → PickingWave → PickingWave
finished now w = record w {
  status = "completed";
  completed_items = w.total_items;
  updated_at = now;
}

unfoldable pub complete_picking : ℕ → RawId → Txn Db PickingWave
unfolding load_wave put
complete_picking now raw = do
  wave ← load_wave raw
  raise_if (not (str_eq wave.status "in_progress")) validation
  modify (store (finished now wave))
  pure (finished now wave)

-- `actual_quantity or (wave.total_items or 0)`
abbrev pub items_of : Option ℕ → ℕ → ℕ
items_of none total = total
items_of (some n) total = if n == 0 then total else n

-- The assignments of `complete_pick`; the time of change is that of the UPDATE, which a row with the same values does
-- not need.
unfoldable pub picked : ℕ → Option ℕ → PickingWave → PickingWave
picked now quantity w = record w {
  status = "completed";
  completed_items = items_of quantity w.total_items;
  updated_at =
      if str_eq w.status "completed" && w.completed_items == items_of quantity w.total_items
      then w.updated_at
      else now;
}

-- `complete_pick` of src/wms/services/picking_service.py, which has no guard.
unfoldable pub complete_pick : ℕ → RawId → Option ℕ → Txn Db PickingWave
unfolding load_wave put picked
complete_pick now raw quantity = do
  wave ← load_wave raw
  modify (store (picked now quantity wave))
  pure (picked now quantity wave)

pub record PackingRequest : Type 0 where
  pub picking_wave_id : RawId
  pub packed_by : Option String
  pub box_count : Option ℕ
  pub notes : Option String

unfoldable pub create_packing : PackingRequest → Txn Db PackingRecord
unfolding load_wave
create_packing data_ = do
  wave ← load_wave data_.picking_wave_id
  raise_if (not (str_eq wave.status "completed")) validation
  id ← uuid4
  let packing : PackingRecord = record {
    id = id;
    picking_wave_id = wave.id;
    packed_by = get_or data_.packed_by "";
    box_count = get_or data_.box_count 1;
    notes = get_or data_.notes "";
  }
  modify (λ db. record db { packing_records = db.packing_records ++ packing ∷ [] })
  pure packing
