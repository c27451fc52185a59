-- ===== src/Tms/Model.antt =====
-- src/tms/models.py: the statuses and the rows of the transport tables, with the columns that the status
-- functions read or write. Times are numbers, ids stand for UUIDs.
use oms_wms_tms.Prelude.{
  ℕ, ◌≡◌, ap, String, Bool, true, Option, none, some, List, [], ◌∷◌, map, str_eq, eq_iff, arith,
  mem_text, by_id, Bool-cases, inl, inr, RawId, not_found, or_raise, Txn, lift, gets, ◌>>=◌,
}
use oms_wms_tms.Prelude.Quantified.{all}

pub data TransportStatus : Type 0 where
  draft dispatched pickup_completed in_transit out_for_delivery delivered : TransportStatus
  exception cancelled : TransportStatus

pub data SegmentStatus : Type 0 where
  draft dispatched pickup in_transit transit_hub_arrived sorting_center : SegmentStatus
  out_for_delivery completed exception cancelled : SegmentStatus

pub data ReturnStatus : Type 0 where
  requested pickup_scheduled in_transit_return returned_to_warehouse refunded closed : ReturnStatus

pub data ShipmentStatus : Type 0 where
  pending pickup_scheduled in_transit_return received_by_carrier : ShipmentStatus
  returned_to_warehouse : ShipmentStatus

-- A `StrEnum` member is its value: members are equal as texts.
abbrev pub Members : Type 0 → Type 0
Members A = List (String × A)

pub record TransportOrder : Type 0 where
  pub id : ℕ
  pub transport_no : String
  pub status : TransportStatus
  pub actual_pickup_time : Option ℕ
  pub actual_delivery_time : Option ℕ
  pub updated_at : ℕ

pub record TransportSegment : Type 0 where
  pub id : ℕ
  pub transport_order_id : ℕ
  pub segment_no : ℕ
  pub status : SegmentStatus
  pub actual_departure_time : Option ℕ
  pub actual_arrival_time : Option ℕ
  pub updated_at : ℕ

pub record ReturnOrder : Type 0 where
  pub id : ℕ
  pub return_no : String
  pub status : ReturnStatus
  pub shipment_status : ShipmentStatus

pub data TrackingEventType : Type 0 where
  created dispatched pickup_completed in_transit arrived_hub sorting_center out_for_delivery :
      TrackingEventType
  delivered exception_delay exception_damaged cancelled : TrackingEventType

pub record TrackingEvent : Type 0 where
  pub id : ℕ
  pub transport_order_id : ℕ
  pub event_type : TrackingEventType
  pub operator_id : Option ℕ

pub record Db : Type 0 where
  pub transports : List TransportOrder
  pub segments : List TransportSegment
  pub returns : List ReturnOrder
  pub tracking_events : List TrackingEvent
  pub next_uuid : ℕ

module _ {R : Type 0} (key : R → ℕ) (table : Db → List R) where
  -- `_safe_uuid`, then `scalar_one_or_none` on the primary key: a malformed id is not found.
  unfoldable pub load : RawId → Txn Db R
  unfolding by_id
  load none = λ db. lift (or_raise none not_found) db
  load (some i) = do found ← gets (λ db. by_id key i (table db)); lift (or_raise found not_found)

-- Lists of members, tested by value.
pub all-mem_value :
    {A : Type 0} (value : A → String)
    → ((a b : A) → value a ≡ value b → a ≡ b)
    → (p : A → Bool) (t : A) (l : List A) → all p l ≡ true
    → mem_text (value t) (map value l) ≡ true
    → p t ≡ true
unfolding mem_text
all-mem_value value injective p t [] h k = cc
all-mem_value value injective p t (a ∷ l) h k = elim (Bool-cases (str_eq (value a) (value t))) [
  | inl same ↦ ground (arith, ap p (injective a t ((eq_iff (value a) (value t)).0 same)))
  | inr other ↦ ground (arith, all-mem_value value injective p t l)
]
