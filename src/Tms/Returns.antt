-- ===== src/Tms/Returns.antt =====
-- Return orders: `update_return_status`, `mark_shipment_received`, `mark_return_inspected` and
-- `cancel_return_order` of src/tms/service.py. `History` is about sequences of them.
pub mod History
use oms_wms_tms.Prelude.{
  ℕ, String, Bool, true, false, not, ◌||◌, List, [], ◌∷◌, map, str_eq, mem_text, lookup, get_or,
  put, RawId, if◌then◌else◌, Result, ok, err, validation, Txn, lift, modify, raise_if, pure, ◌>>=◌,
  ◌>>◌,
}
use oms_wms_tms.Tms.Model.{
  ReturnStatus, requested, pickup_scheduled, in_transit_return, returned_to_warehouse, refunded,
  closed, ShipmentStatus, pending, received_by_carrier, ReturnOrder, Db, load,
}

unfoldable pub value : ReturnStatus → String
value requested = "requested"
value pickup_scheduled = "pickup_scheduled"
value in_transit_return = "in_transit_return"
value returned_to_warehouse = "returned_to_warehouse"
value refunded = "refunded"
value closed = "closed"

unfoldable pub shipment_value : ShipmentStatus → String
shipment_value pending = "pending"
shipment_value pickup_scheduled = "pickup_scheduled"
shipment_value in_transit_return = "in_transit_return"
shipment_value received_by_carrier = "received_by_carrier"
shipment_value returned_to_warehouse = "returned_to_warehouse"

abbrev pub return_key : ReturnOrder → ℕ
return_key r = r.id

abbrev pub store : ReturnOrder → Db → Db
store r db = record db { returns = put return_key r db.returns }

-- The row that `create_return_order` adds: its own status, and the column's default for the shipment.
abbrev pub fresh : ℕ → String → ReturnOrder
fresh id return_no = record {
  id = id;
  return_no = return_no;
  status = requested;
  shipment_status = pending;
}

-- `allowed_transitions` of `update_return_status`; a set is its list of elements.
unfoldable pub allowed_transitions : List (String × List String)
allowed_transitions =
    ("requested", "pickup_scheduled" ∷ "cancelled" ∷ [])
    ∷ ("pickup_scheduled", "in_transit_return" ∷ "cancelled" ∷ [])
    ∷ ("in_transit_return", "returned_to_warehouse" ∷ "cancelled" ∷ [])
    ∷ ("returned_to_warehouse", "refunded" ∷ "closed" ∷ [])
    ∷ []

unfoldable pub can_update : ReturnStatus → String → Bool
unfolding mem_text lookup allowed_transitions value
can_update current target = mem_text target (get_or (lookup (value current) allowed_transitions) [])

-- `ret.status = target` with the text as it came, and what the enumeration column `column` of the database
-- makes of it at the commit.
unfoldable pub update_return_status :
    (String → Result ReturnStatus) → RawId → String → Txn Db ReturnOrder
unfolding load can_update put
update_return_status column raw target = do
  ret ← load return_key Db.returns raw
  raise_if (not (can_update ret.status target)) validation
  status ← lift (column target)
  modify (store (record ret { status = status }))
  pure (record ret { status = status })

-- `allowed_transitions` of `mark_shipment_received`, and its two tests.
unfoldable pub shipment_transitions : List (String × List String)
shipment_transitions =
    ("pending", "in_transit_return" ∷ []) ∷ ("in_transit_return", "received_by_carrier" ∷ []) ∷ []

unfoldable pub can_receive : ShipmentStatus → Bool
unfolding mem_text lookup shipment_transitions shipment_value
can_receive current =
    mem_text (shipment_value received_by_carrier)
      (get_or (lookup (shipment_value current) shipment_transitions) [])

unfoldable pub mark_shipment_received : RawId → Txn Db ReturnOrder
unfolding load can_receive put
mark_shipment_received raw = do
  ret ← load return_key Db.returns raw
  raise_if (not (can_receive ret.shipment_status)) validation
  modify (store (record ret { shipment_status = received_by_carrier; status = in_transit_return }))
  pure (record ret { shipment_status = received_by_carrier; status = in_transit_return })

abbrev pub inspected : Bool → ReturnOrder → ReturnOrder
inspected approved ret = record ret {
  status = if approved then refunded else closed;
  shipment_status = returned_to_warehouse;
}

unfoldable pub can_inspect : ReturnStatus → Bool
unfolding mem_text value
can_inspect status =
    mem_text (value status) (map value (returned_to_warehouse ∷ in_transit_return ∷ []))

unfoldable pub mark_return_inspected : RawId → Bool → Txn Db ReturnOrder
unfolding load can_inspect put
mark_return_inspected raw approved = do
  ret ← load return_key Db.returns raw
  raise_if (not (can_inspect ret.status)) validation
  modify (store (inspected approved ret))
  pure (inspected approved ret)

unfoldable pub can_cancel : ReturnStatus → Bool
unfolding mem_text value
can_cancel status = mem_text (value status) (map value (requested ∷ pickup_scheduled ∷ []))

abbrev pub called_off : ReturnOrder → ReturnOrder
called_off ret = record ret { status = closed; shipment_status = returned_to_warehouse }

unfoldable pub cancel_return_order : RawId → Txn Db ReturnOrder
unfolding load can_cancel put
cancel_return_order raw = do
  ret ← load return_key Db.returns raw
  raise_if (not (can_cancel ret.status)) validation
  modify (store (called_off ret))
  pure (called_off ret)
