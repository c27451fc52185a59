-- ===== src/Tms/Tracking.antt =====
-- `create_tracking_event` of src/tms/service.py. The place, the coordinates and the remark of an event are left out.
use oms_wms_tms.Prelude.{
  ℕ, suc, String, Bool, not, ◌&&◌, Option, none, some, [], ◌∷◌, ◌++◌, str_eq, lookup, put,
  if◌then◌else◌, RawId, Result, ok, err, value_error, or_raise, is_some, Txn, lift, ◌>>=◌,
}
use oms_wms_tms.Tms.Model.{
  TrackingEventType, created, dispatched, pickup_completed, in_transit, arrived_hub, sorting_center,
  out_for_delivery, delivered, exception_delay, exception_damaged, cancelled, Members,
  TransportOrder, TrackingEvent, Db, load,
}
use oms_wms_tms.Tms.Transports.{transport_key, store}

-- `TrackingEventType(text)`
unfoldable pub event_types : Members TrackingEventType
event_types =
    ("created", created)
    ∷ ("dispatched", dispatched)
    ∷ ("pickup_completed", pickup_completed)
    ∷ ("in_transit", in_transit)
    ∷ ("arrived_hub", arrived_hub)
    ∷ ("sorting_center", sorting_center)
    ∷ ("out_for_delivery", out_for_delivery)
    ∷ ("delivered", delivered)
    ∷ ("exception_delay", exception_delay)
    ∷ ("exception_damaged", exception_damaged)
    ∷ ("cancelled", cancelled)
    ∷ []

-- `operator_id`: an absent or empty one is dropped, a malformed one raises.
abbrev pub operator_of : Option RawId → Result (Option ℕ)
operator_of none = ok none
operator_of (some none) = err value_error
operator_of (some (some i)) = ok (some i)

unfoldable pub arrives : String → TransportOrder → Bool
arrives text o = str_eq text "delivered" && not (is_some o.actual_delivery_time)

abbrev pub arrived : ℕ → TransportOrder → TransportOrder
arrived now o = record o { actual_delivery_time = some now; updated_at = now }

-- The rows that are written.
abbrev pub recorded :
    ℕ → TransportOrder → String → TrackingEventType → Option ℕ → Db → TrackingEvent × Db
recorded now order text kind operator db =
    let event : TrackingEvent = record {
      id = db.next_uuid;
      transport_order_id = order.id;
      event_type = kind;
      operator_id = operator;
    } in
    (
      event,
      record (if arrives text order then store (arrived now order) db else db) {
        tracking_events = db.tracking_events ++ event ∷ [];
        next_uuid = suc db.next_uuid;
      },
    )

unfoldable pub create_tracking_event : ℕ → RawId → String → Option RawId → Txn Db TrackingEvent
unfolding load lookup event_types arrives put
create_tracking_event now raw text operator = do
  order ← load transport_key Db.transports raw
  kind ← lift (or_raise (lookup text event_types) value_error)
  who ← lift (operator_of operator)
  λ db. ok (recorded now order text kind who db)
