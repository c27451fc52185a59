-- ===== src/Tms/Transports/History.antt =====
-- What sequences of `change_transport_status` and `create_tracking_event` requests do to a transport order.
use mathlib.Core.Bool.{true≢false}
use mathlib.Core.Option.{some-injective, none-ne-some}
use oms_wms_tms.Prelude.{
  ℕ, ◌≡◌, refl, sym, ap, ◌∙◌, inl, inr, String, Bool, true, false, not, ◌&&◌, Option, none, some,
  List, arith, mem_text, lookup, by_id, Bool-cases, Option-cases, RawId, if◌then◌else◌, Result,
  accepted, ok, err, not_found, validation, value_error, or_raise, is_some, Txn, left_by, lift,
  ◌>>=◌, pure, ◌⊎◌, str_eq, ok-injective, bind_ok, bind_err, subst,
}
use oms_wms_tms.Prelude.Quantified.{all}
use oms_wms_tms.Tms.Requests.{serve, MovesRows, serve-keeps, stored, Follows, stored_row}
use oms_wms_tms.Tms.Model.{
  TransportStatus, draft, dispatched, pickup_completed, in_transit, out_for_delivery, delivered,
  exception, cancelled, TransportOrder, TrackingEventType, Db, load, all-mem_value,
}
use oms_wms_tms.Tms.Tracking.{
  event_types, operator_of, arrives, arrived, recorded, create_tracking_event,
}
use oms_wms_tms.Tms.Transports.{
  value, members, transitions, transport_key, can_change, picked_up, delivered_at, moved, store,
  try_move, change_transport_status,
}

-- What becomes of an order with the target.
abbrev pub decide : ℕ → TransportOrder → Option TransportStatus → Result TransportOrder
decide now order none = err value_error
decide now order (some target) =
    if can_change order.status target then ok (moved now target order) else err validation

tried :
    (now : ℕ) (order : TransportOrder) (target : Option TransportStatus) (db : Db)
    → (lift (or_raise target value_error) >>= try_move now order) db
      ≡ stored store (decide now order target) db
tried now order none db = refl
tried now order (some target) db = elim (Bool-cases (can_change order.status target)) [
  | inl legal ↦ rw (legal, decide) refl
  | inr illegal ↦ rw (illegal, decide) refl
]

change_known :
    (now i : ℕ) (text : String) (order : TransportOrder) (db : Db)
    → by_id transport_key i db.transports ≡ some order
    → change_transport_status now (some i) text db
      ≡ stored store (decide now order (lookup text members)) db
unfolding change_transport_status load
change_known now i text order db found =
    bind_ok (load transport_key Db.transports (some i)) _ db
      (ap (λ r. lift (or_raise r not_found) db) found)
    ∙ tried now order (lookup text members) db

change_missing :
    (now i : ℕ) (text : String) (db : Db)
    → by_id transport_key i db.transports ≡ none
    → change_transport_status now (some i) text db ≡ err not_found
unfolding change_transport_status load
change_missing now i text db missing =
    bind_err (load transport_key Db.transports (some i)) _ db
      (ap (λ r. lift (or_raise r not_found) db) missing)

-- A legal change of one order, with the stamps that come with it, or a first delivery time by a tracking event.
pub data Move : TransportOrder → TransportOrder → Type 0 where
  move :
      (now : ℕ) (target : TransportStatus) (o : TransportOrder)
      → can_change o.status target ≡ true
      → Move o (moved now target o)
  arrive : (now : ℕ) (o : TransportOrder) → o.actual_delivery_time ≡ none → Move o (arrived now o)

decide-Move :
    (now : ℕ) (order o' : TransportOrder) (target : Option TransportStatus)
    → decide now order target ≡ ok o'
    → (o'.id ≡ order.id) × Move order o'
decide-Move now order o' none h = cc
decide-Move now order o' (some target) h =
    let (legal, same) =
      accepted validation (can_change order.status target) (moved now target order) o' h in
    subst (λ q. (q.id ≡ order.id) × Move order q) same (refl, move now target order legal)

pub data Request : Type 0 where
  change : ℕ → RawId → String → Request
  track : ℕ → RawId → String → Option RawId → Request

-- The tables after a request, which one that raises leaves as they were.
abbrev pub call : Request → Txn Db (Unit {0})
call (change now raw text) = change_transport_status now raw text >>= λ o. pure tt
call (track now raw text operator) = create_tracking_event now raw text operator >>= λ e. pure tt

answerless :
    {A : Type 0} (m : Txn Db A) (db : Db) (r : Result (A × Db))
    → m db ≡ r
    → left_by ((m >>= λ a. pure tt) db) db ≡ left_by r db
answerless m db (ok (a, s)) e = ap (λ r. left_by r db) (bind_ok m (λ a. pure tt) db e)
answerless m db (err x) e = ap (λ r. left_by r db) (bind_err m (λ a. pure tt) db e)

no_time :
    (text : String) (o : TransportOrder) → arrives text o ≡ true → o.actual_delivery_time ≡ none
unfolding arrives
no_time text o h = time_of o.actual_delivery_time h
  where
    time_of : (t : Option ℕ) → (str_eq text "delivered" && not (is_some t)) ≡ true → t ≡ none
    time_of none h = refl
    time_of (some t) h = absurd (ground arith)

module _ (i j : ℕ) (o order : TransportOrder) (db : Db)
    (here : by_id transport_key i db.transports ≡ some o)
    (there : by_id transport_key j db.transports ≡ some order) where
  abbrev After : Db → Type 0
  After = Follows transport_key Db.transports store Move (λ r db. refl) i j o order db here there

  changed_row :
      (now : ℕ) (text : String) → After (left_by (change_transport_status now (some j) text db) db)
  changed_row now text =
      subst (λ r. After (left_by r db)) (sym (change_known now j text order db there))
        (stored_row transport_key Db.transports store Move (λ r db. refl) i j o order db here there
          (decide now order (lookup text members))
          (λ o'. decide-Move now order o' (lookup text members)))

  recorded_row :
      (now : ℕ) (text : String) (kind : TrackingEventType) (who : Option ℕ)
      → After (recorded now order text kind who db).1
  recorded_row now text kind who = elim (Bool-cases (arrives text order)) [
    | inl first ↦ rw first (
        stored_row transport_key Db.transports store Move (λ r db. refl) i j o order db here there
          (ok (arrived now order))
          (λ o' e.
            subst (λ q. (q.id ≡ order.id) × Move order q) (ok-injective e)
              (refl, arrive now order (no_time text order first))))
    | inr other ↦ rw other (inl here)
  ]

  tracked_row :
      (now : ℕ) (text : String) (operator : Option RawId)
      → After (left_by (create_tracking_event now (some j) text operator db) db)
  unfolding create_tracking_event load
  tracked_row now text operator =
      subst (λ r. After (left_by r db))
        (sym (
          bind_ok (load transport_key Db.transports (some j)) _ db
            (ap (λ r. lift (or_raise r not_found) db) there)))
        (read_kind (lookup text event_types))
    where
      by_operator :
          (kind : TrackingEventType) (who : Result (Option ℕ))
          → After (left_by ((lift who >>= λ w db. ok (recorded now order text kind w db)) db) db)
      by_operator kind (err e) = inl here
      by_operator kind (ok who) = recorded_row now text kind who

      read_kind :
          (kind : Option TrackingEventType)
          → After (
              left_by
                ((lift (or_raise kind value_error) >>= λ k.
                    lift (operator_of operator) >>= λ w db. ok (recorded now order text k w db))
                  db)
                db)
      read_kind none = inl here
      read_kind (some kind) = by_operator kind (operator_of operator)

call_row : MovesRows call transport_key Db.transports Move
unfolding change_transport_status create_tracking_event load
call_row (change now none text) i o db here = inl here
call_row (track now none text operator) i o db here = inl here
call_row (change now (some j) text) i o db here =
    elim (Option-cases (by_id transport_key j db.transports)) [
      | inl missing ↦ inl (
          subst (λ d. by_id transport_key i d.transports ≡ some o)
            (sym (
              answerless (change_transport_status now (some j) text) db _
                (change_missing now j text db missing)))
            here)
      | inr (order, there) ↦
          subst (After i j o order db here there)
            (sym (answerless (change_transport_status now (some j) text) db _ refl))
            (changed_row i j o order db here there now text)
    ]
call_row (track now (some j) text operator) i o db here =
    elim (Option-cases (by_id transport_key j db.transports)) [
      | inl missing ↦ inl (
          subst (λ d. by_id transport_key i d.transports ≡ some o)
            (sym (
              answerless (create_tracking_event now (some j) text operator) db _ (
                bind_err (load transport_key Db.transports (some j)) _ db
                  (ap (λ r. lift (or_raise r not_found) db) missing))))
            here)
      | inr (order, there) ↦
          subst (After i j o order db here there)
            (sym (answerless (create_tracking_event now (some j) text operator) db _ refl))
            (tracked_row i j o order db here there now text operator)
    ]

abbrev pub is_closed : TransportStatus → Bool
is_closed delivered = true
is_closed cancelled = true
is_closed s = false

-- A delivered order has a delivery time, an order on the road a pickup time.
abbrev pub stamped : TransportStatus → Option ℕ → Option ℕ → Bool
stamped in_transit pickup delivery = is_some pickup
stamped out_for_delivery pickup delivery = is_some pickup
stamped delivered pickup delivery = is_some delivery
stamped s pickup delivery = true

abbrev pub IsStamped : TransportOrder → Type 0
IsStamped o = stamped o.status o.actual_pickup_time o.actual_delivery_time ≡ true

read : (s : TransportStatus) → lookup (value s) members ≡ some s
unfolding lookup members value
read draft = refl
read dispatched = refl
read pickup_completed = refl
read in_transit = refl
read out_for_delivery = refl
read delivered = refl
read exception = refl
read cancelled = refl

value-injective : (a b : TransportStatus) → value a ≡ value b → a ≡ b
value-injective a b e =
    some-injective a b (sym (read a) ∙ ap (λ text. lookup text members) e ∙ read b)

stamps :
    (now : ℕ) (s : TransportStatus) (pickup delivery : Option ℕ)
    → stamped s pickup delivery ≡ true
    → all (λ t. stamped t (picked_up now t pickup) (delivered_at now t delivery)) (transitions s)
      ≡ true
unfolding transitions picked_up delivered_at value
stamps now draft none delivery h = refl
stamps now draft (some a) delivery h = refl
stamps now dispatched none delivery h = refl
stamps now dispatched (some a) delivery h = refl
stamps now pickup_completed none delivery h = refl
stamps now pickup_completed (some a) delivery h = refl
stamps now in_transit (some a) delivery h = refl
stamps now out_for_delivery (some a) delivery h = refl
stamps now delivered pickup delivery h = refl
stamps now exception pickup delivery h = refl
stamps now cancelled pickup delivery h = refl
stamps now s pickup delivery h = ground arith

still_stamped :
    (s : TransportStatus) (now : ℕ) (pickup delivery : Option ℕ)
    → stamped s pickup delivery ≡ true
    → stamped s pickup (some now) ≡ true
still_stamped in_transit now pickup delivery h = h
still_stamped out_for_delivery now pickup delivery h = h
still_stamped delivered now pickup delivery h = refl
still_stamped draft now pickup delivery h = refl
still_stamped dispatched now pickup delivery h = refl
still_stamped pickup_completed now pickup delivery h = refl
still_stamped exception now pickup delivery h = refl
still_stamped cancelled now pickup delivery h = refl

stamps_kept : (o o' : TransportOrder) → IsStamped o → Move o o' → IsStamped o'
unfolding can_change
stamps_kept _ _ h (move now target o legal) =
    all-mem_value value value-injective
      (λ t.
        stamped t (picked_up now t o.actual_pickup_time)
          (delivered_at now t o.actual_delivery_time))
      target (transitions o.status)
      (stamps now o.status o.actual_pickup_time o.actual_delivery_time h) legal
stamps_kept _ _ h (arrive now o first) =
    still_stamped o.status now o.actual_pickup_time o.actual_delivery_time h

-- Whatever status changes and tracking events are requested, an order whose stamps agree with its status still exists
-- and its stamps still agree: it has a delivery time when it is delivered, and a pickup time when it is in transit or
-- out for delivery.
pub serve-IsStamped :
    (requests : List Request) (i : ℕ) (o : TransportOrder) (db : Db)
    → by_id transport_key i db.transports ≡ some o
    → IsStamped o
    → (o' : TransportOrder) × (by_id transport_key i (serve call requests db).transports ≡ some o')
      × IsStamped o'
serve-IsStamped = serve-keeps call transport_key Db.transports Move call_row IsStamped stamps_kept

no_exit : (s t : TransportStatus) → is_closed s ≡ true → can_change s t ≡ false
unfolding can_change transitions mem_text
no_exit delivered t h = refl
no_exit cancelled t h = refl
no_exit s t h = cc

-- As it was, or with a first delivery time, which is also its time of change.
abbrev pub IsSettled : TransportOrder → TransportOrder → Type 0
IsSettled p o =
    (o ≡ p)
    ⊎ ((now : ℕ) × (p.actual_delivery_time ≡ none)
        × (o ≡ record p { actual_delivery_time = some now; updated_at = now }))

no_move :
    (p o : TransportOrder) (target : TransportStatus)
    → o.status ≡ p.status
    → is_closed p.status ≡ true
    → can_change o.status target ≡ true
    → ⊥
no_move p o target same closed legal =
    true≢false (sym legal ∙ no_exit o.status target (ap is_closed same ∙ closed))

closed_kept :
    (p o o' : TransportOrder)
    → IsSettled p o × (is_closed p.status ≡ true)
    → Move o o'
    → IsSettled p o' × (is_closed p.status ≡ true)
closed_kept p _ _ (inl same, closed) (move now target o legal) =
    absurd (no_move p o target (ap TransportOrder.status same) closed legal)
closed_kept p _ _ (inr (t, first, same), closed) (move now target o legal) =
    absurd (no_move p o target (ap TransportOrder.status same) closed legal)
closed_kept p _ _ (inl same, closed) (arrive now o first) = (
  inr (now, ap TransportOrder.actual_delivery_time (sym same) ∙ first, ap (arrived now) same),
  closed,
)
closed_kept p _ _ (inr (t, never, same), closed) (arrive now o first) =
    absurd (none-ne-some t (sym first ∙ ap TransportOrder.actual_delivery_time same))

-- Whatever status changes and tracking events are requested, a delivered or cancelled order stays as it is, but for
-- one thing: where it has no delivery time, a tracking event can give it one, with that time of change.
pub serve-closed :
    (requests : List Request) (i : ℕ) (o : TransportOrder) (db : Db)
    → by_id transport_key i db.transports ≡ some o
    → is_closed o.status ≡ true
    → (o' : TransportOrder) × (by_id transport_key i (serve call requests db).transports ≡ some o')
      × IsSettled o o'
serve-closed requests i o db here closed =
    let (o', found, (settled, c)) =
      serve-keeps call transport_key Db.transports Move call_row
        (λ r. IsSettled o r × (is_closed o.status ≡ true)) (closed_kept o) requests i o db here
        (inl refl, closed) in
    (o', found, settled)

kept_pickup :
    (now : ℕ) (target : TransportStatus) (time : ℕ) → picked_up now target (some time) ≡ some time
unfolding picked_up
kept_pickup now target time = ground arith

pickup_kept :
    (time : ℕ) (o o' : TransportOrder)
    → o.actual_pickup_time ≡ some time
    → Move o o'
    → o'.actual_pickup_time ≡ some time
unfolding picked_up
pickup_kept time _ _ h (move now target o legal) = rw (h, picked_up) (kept_pickup now target time)
pickup_kept time _ _ h (arrive now o first) = h

-- An order that has a pickup time is still there with that time, whatever status changes and
-- tracking events are requested.
pub serve-pickup_time :
    (requests : List Request) (i time : ℕ) (o : TransportOrder) (db : Db)
    → by_id transport_key i db.transports ≡ some o
    → o.actual_pickup_time ≡ some time
    → (o' : TransportOrder) × (by_id transport_key i (serve call requests db).transports ≡ some o')
      × (o'.actual_pickup_time ≡ some time)
serve-pickup_time requests i time o db here =
    serve-keeps call transport_key Db.transports Move call_row
      (λ r. r.actual_pickup_time ≡ some time) (pickup_kept time) requests i o db here
