-- ===== src/Tms/Transports.antt =====
-- The state machine of transport orders: `_transport_status_transitions` and `change_transport_status` of
-- src/tms/service.py. `History` is about sequences of requests.
pub mod History
use oms_wms_tms.Prelude.{
  ℕ, ◌≡◌, refl, sym, ap, ◌∙◌, ◌⊎◌, inl, inr, String, Bool, true, false, not, ◌&&◌, Option, none,
  some, List, [], ◌∷◌, map, arith, str_eq, mem_text, lookup, by_id, by_id-key, by_id-put_self,
  by_id-put_ne, put, Bool-cases, Option-cases, RawId, if◌then◌else◌, ◌==◌, Result, ok, err, Error,
  not_found, validation, value_error, or_raise, is_some, Txn, lift, gets, modify, raise_if, pure,
  ◌>>=◌, ◌>>◌, bind_ok, bind_err, subst, ◌≢◌,
}
use oms_wms_tms.Tms.Model.{
  TransportStatus, draft, dispatched, pickup_completed, in_transit, out_for_delivery, delivered,
  exception, cancelled, Members, TransportOrder, Db, load, all-mem_value,
}

unfoldable pub value : TransportStatus → String
value draft = "draft"
value dispatched = "dispatched"
value pickup_completed = "pickup_completed"
value in_transit = "in_transit"
value out_for_delivery = "out_for_delivery"
value delivered = "delivered"
value exception = "exception"
value cancelled = "cancelled"

-- `TransportStatus(text)`
unfoldable pub members : Members TransportStatus
members =
    ("draft", draft)
    ∷ ("dispatched", dispatched)
    ∷ ("pickup_completed", pickup_completed)
    ∷ ("in_transit", in_transit)
    ∷ ("out_for_delivery", out_for_delivery)
    ∷ ("delivered", delivered)
    ∷ ("exception", exception)
    ∷ ("cancelled", cancelled)
    ∷ []

unfoldable pub transitions : TransportStatus → List TransportStatus
transitions draft = dispatched ∷ in_transit ∷ cancelled ∷ []
transitions dispatched = pickup_completed ∷ in_transit ∷ cancelled ∷ []
transitions pickup_completed = in_transit ∷ exception ∷ []
transitions in_transit = out_for_delivery ∷ exception ∷ []
transitions out_for_delivery = delivered ∷ exception ∷ []
transitions delivered = []
transitions exception = dispatched ∷ delivered ∷ cancelled ∷ []
transitions cancelled = []

abbrev pub transport_key : TransportOrder → ℕ
transport_key o = o.id

-- `target in allowed`
unfoldable pub can_change : TransportStatus → TransportStatus → Bool
unfolding mem_text value transitions
can_change current target = mem_text (value target) (map value (transitions current))

unfoldable pub picked_up : ℕ → TransportStatus → Option ℕ → Option ℕ
unfolding value
picked_up now target time =
    if str_eq (value target) "in_transit" && not (is_some time) then some now else time

unfoldable pub delivered_at : ℕ → TransportStatus → Option ℕ → Option ℕ
unfolding value
delivered_at now target time = if str_eq (value target) "delivered" then some now else time

-- The assignments of `change_transport_status`.
abbrev pub moved : ℕ → TransportStatus → TransportOrder → TransportOrder
moved now target o = record o {
  status = target;
  updated_at = now;
  actual_pickup_time = picked_up now target o.actual_pickup_time;
  actual_delivery_time = delivered_at now target o.actual_delivery_time;
}

abbrev pub store : TransportOrder → Db → Db
store o db = record db { transports = put transport_key o db.transports }

-- From the check of the target on.
abbrev pub try_move : ℕ → TransportOrder → TransportStatus → Txn Db TransportOrder
try_move now order target = do
  raise_if (not (can_change order.status target)) validation
  modify (store (moved now target order))
  pure (moved now target order)

unfoldable pub change_transport_status : ℕ → RawId → String → Txn Db TransportOrder
unfolding load lookup members can_change put
change_transport_status now raw new_status = do
  order ← load transport_key Db.transports raw
  target ← lift (or_raise (lookup new_status members) value_error)
  try_move now order target
