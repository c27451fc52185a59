-- ===== src/Tms/Tests.antt =====
-- Concrete tables for the theorems about src/tms/service.py.
use oms_wms_tms.Prelude.{
  true, ℕ, ◌≡◌, refl, String, Option, none, some, List, [], ◌∷◌, by_id, lookup, RawId, Result, err,
  value_error, or_raise, validation,
}
use oms_wms_tms.Tms.Model.{
  TransportStatus, SegmentStatus, ReturnStatus, in_transit, draft, delivered, completed, closed,
  requested, pickup_scheduled, in_transit_return, returned_to_warehouse, refunded, TransportOrder,
  TransportSegment, ReturnOrder, Db, Members,
}
use oms_wms_tms.Tms.Requests.{serve}
use oms_wms_tms.Tms.Transports.{transport_key}
use oms_wms_tms.Tms.Transports.History.{
  IsStamped, IsSettled, Request, change, track, call, serve-IsStamped, serve-closed,
  serve-pickup_time,
}
use oms_wms_tms.Tms.Segments.{segment_key}
use oms_wms_tms.Tms.Segments.History as SegmentsHistory
use oms_wms_tms.Tms.Segments.History.{IsTimed, serve-IsTimed, serve-completed}
use oms_wms_tms.Tms.Returns.{return_key, fresh, mark_shipment_received}
use oms_wms_tms.Tms.Returns.History as ReturnsHistory
use oms_wms_tms.Tms.Returns.History.{
  Act, update, receive, inspect, cancel, IsSound, serve-unreceived, serve-settled,
}

abbrev an_order : ℕ → TransportStatus → Option ℕ → Option ℕ → TransportOrder
an_order i status pickup delivery = record {
  id = i;
  transport_no = "TPL-1";
  status = status;
  actual_pickup_time = pickup;
  actual_delivery_time = delivery;
  updated_at = 1;
}

abbrev a_segment : ℕ → SegmentStatus → Option ℕ → Option ℕ → TransportSegment
a_segment i status departure arrival = record {
  id = i;
  transport_order_id = 1;
  segment_no = 1;
  status = status;
  actual_departure_time = departure;
  actual_arrival_time = arrival;
  updated_at = 1;
}

abbrev done_return : ReturnOrder
done_return = record (fresh 2 "RTN-2") { status = closed; shipment_status = returned_to_warehouse }

abbrev db : Db
db = record {
  transports =
      an_order 1 draft none none
      ∷ an_order 2 delivered (some 3) (some 4)
      ∷ an_order 3 in_transit (some 3) none
      ∷ [];
  segments = a_segment 1 draft none none ∷ a_segment 2 completed (some 3) (some 4) ∷ [];
  returns = fresh 1 "RTN-1" ∷ done_return ∷ [];
  tracking_events = [];
  next_uuid = 9;
}

abbrev changes : List Request
changes =
    change 5 (some 1) "in_transit"
    ∷ track 6 (some 2) "delivered" none
    ∷ change 6 (some 2) "draft"
    ∷ change 7 (some 3) "exception"
    ∷ change 8 none "draft"
    ∷ []

abbrev segment_changes : List (ℕ × RawId × String)
segment_changes = (5, some 1, "dispatched") ∷ (6, some 2, "draft") ∷ (8, none, "draft") ∷ []

serve-IsStamped_example :
    (o' : TransportOrder) × (by_id transport_key 1 (serve call changes db).transports ≡ some o')
    × IsStamped o'
unfolding by_id
serve-IsStamped_example = serve-IsStamped changes 1 (an_order 1 draft none none) db refl refl

serve-closed_example :
    (o' : TransportOrder) × (by_id transport_key 2 (serve call changes db).transports ≡ some o')
    × IsSettled (an_order 2 delivered (some 3) (some 4)) o'
unfolding by_id
serve-closed_example = serve-closed changes 2 (an_order 2 delivered (some 3) (some 4)) db refl refl

serve-pickup_time_example :
    (o' : TransportOrder) × (by_id transport_key 3 (serve call changes db).transports ≡ some o')
    × (o'.actual_pickup_time ≡ some 3)
unfolding by_id
serve-pickup_time_example =
    serve-pickup_time changes 3 3 (an_order 3 in_transit (some 3) none) db refl refl

serve-IsTimed_example :
    (s' : TransportSegment) × (by_id segment_key 1
        (serve SegmentsHistory.call segment_changes db).segments
      ≡ some s')
    × IsTimed s'
unfolding by_id
serve-IsTimed_example = serve-IsTimed segment_changes 1 (a_segment 1 draft none none) db refl refl

serve-completed_example :
    by_id segment_key 2 (serve SegmentsHistory.call segment_changes db).segments
    ≡ some (a_segment 2 completed (some 3) (some 4))
unfolding by_id
serve-completed_example =
    serve-completed segment_changes 2 (a_segment 2 completed (some 3) (some 4)) db refl refl

-- A column that takes the members' values and refuses every other text.
abbrev column : String → Result ReturnStatus
unfolding lookup
column text = or_raise (lookup text values) value_error
  where
    values : Members ReturnStatus
    values =
        ("requested", requested)
        ∷ ("pickup_scheduled", pickup_scheduled)
        ∷ ("in_transit_return", in_transit_return)
        ∷ ("returned_to_warehouse", returned_to_warehouse)
        ∷ ("refunded", refunded)
        ∷ ("closed", closed)
        ∷ []

abbrev acts : List (RawId × Act)
acts =
    (some 1, update "pickup_scheduled")
    ∷ (some 1, cancel)
    ∷ (some 2, inspect true)
    ∷ (some 1, receive)
    ∷ []

serve-unreceived_example :
    (r : ReturnOrder) × (by_id return_key 1 (serve (ReturnsHistory.call column) acts db).returns
      ≡ some r)
    × IsSound r
    × (mark_shipment_received (some 1) (serve (ReturnsHistory.call column) acts db)
        ≡ err validation)
unfolding by_id
serve-unreceived_example = serve-unreceived column acts 1 "RTN-1" db refl

serve-settled_example :
    by_id return_key 2 (serve (ReturnsHistory.call column) acts db).returns ≡ some done_return
unfolding by_id
serve-settled_example = serve-settled column acts 2 done_return db refl refl refl
