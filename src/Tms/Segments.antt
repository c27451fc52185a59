-- ===== src/Tms/Segments.antt =====
-- The state machine of transport segments: `update_segment_status` of src/tms/service.py. `History` is
-- about sequences of requests.
pub mod History
use oms_wms_tms.Prelude.{
  ℕ, ◌≡◌, refl, sym, ap, ◌∙◌, ◌⊎◌, inl, inr, String, Bool, true, false, not, ◌&&◌, Option, none,
  some, List, [], ◌∷◌, map, arith, str_eq, mem_text, lookup, by_id, by_id-key, by_id-put_self,
  by_id-put_ne, put, Bool-cases, Option-cases, RawId, if◌then◌else◌, ◌==◌, Result, ok, err, Error,
  not_found, validation, value_error, or_raise, is_some, Txn, lift, gets, modify, raise_if, pure,
  ◌>>=◌, ◌>>◌, bind_ok, bind_err, subst, ◌≢◌,
}
use oms_wms_tms.Tms.Model.{
  SegmentStatus, draft, dispatched, pickup, in_transit, transit_hub_arrived, sorting_center,
  out_for_delivery, completed, exception, cancelled, Members, TransportSegment, Db, load,
  all-mem_value,
}

unfoldable pub value : SegmentStatus → String
value draft = "draft"
value dispatched = "dispatched"
value pickup = "pickup"
value in_transit = "in_transit"
value transit_hub_arrived = "transit_hub_arrived"
value sorting_center = "sorting_center"
value out_for_delivery = "out_for_delivery"
value completed = "completed"
value exception = "exception"
value cancelled = "cancelled"

-- `TransportSegmentStatus(text)`
unfoldable pub members : Members SegmentStatus
members =
    ("draft", draft)
    ∷ ("dispatched", dispatched)
    ∷ ("pickup", pickup)
    ∷ ("in_transit", in_transit)
    ∷ ("transit_hub_arrived", transit_hub_arrived)
    ∷ ("sorting_center", sorting_center)
    ∷ ("out_for_delivery", out_for_delivery)
    ∷ ("completed", completed)
    ∷ ("exception", exception)
    ∷ ("cancelled", cancelled)
    ∷ []

-- `valid_transitions`
unfoldable pub transitions : SegmentStatus → List SegmentStatus
transitions draft = dispatched ∷ cancelled ∷ []
transitions dispatched = pickup ∷ cancelled ∷ []
transitions pickup = in_transit ∷ exception ∷ []
transitions in_transit = transit_hub_arrived ∷ out_for_delivery ∷ exception ∷ []
transitions transit_hub_arrived = sorting_center ∷ in_transit ∷ exception ∷ []
transitions sorting_center = in_transit ∷ exception ∷ []
transitions out_for_delivery = completed ∷ exception ∷ []
transitions completed = []
transitions exception = cancelled ∷ []
transitions cancelled = []

abbrev pub segment_key : TransportSegment → ℕ
segment_key o = o.id

-- `target in allowed`
unfoldable pub can_change : SegmentStatus → SegmentStatus → Bool
unfolding mem_text value transitions
can_change current target = mem_text (value target) (map value (transitions current))

unfoldable pub departure_at : ℕ → SegmentStatus → Option ℕ → Option ℕ
unfolding value
departure_at now target time = if str_eq (value target) "dispatched" then some now else time

unfoldable pub arrival_at : ℕ → SegmentStatus → Option ℕ → Option ℕ
unfolding value
arrival_at now target time = if str_eq (value target) "completed" then some now else time

-- The assignments of `update_segment_status`.
abbrev pub moved : ℕ → SegmentStatus → TransportSegment → TransportSegment
moved now target o = record o {
  status = target;
  updated_at = now;
  actual_departure_time = departure_at now target o.actual_departure_time;
  actual_arrival_time = arrival_at now target o.actual_arrival_time;
}

abbrev pub store : TransportSegment → Db → Db
store o db = record db { segments = put segment_key o db.segments }

-- From the check of the target on.
abbrev pub try_move : ℕ → TransportSegment → SegmentStatus → Txn Db TransportSegment
try_move now seg target = do
  raise_if (not (can_change seg.status target)) validation
  modify (store (moved now target seg))
  pure (moved now target seg)

unfoldable pub update_segment_status : ℕ → RawId → String → Txn Db TransportSegment
unfolding load lookup members can_change put
update_segment_status now raw status = do
  seg ← load segment_key Db.segments raw
  target ← lift (or_raise (lookup status members) value_error)
  try_move now seg target
