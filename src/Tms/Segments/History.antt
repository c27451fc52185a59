-- ===== src/Tms/Segments/History.antt =====
-- What sequences of `update_segment_status` requests do to a transport segment.
use mathlib.Core.Bool.{true≢false}
use mathlib.Core.Option.{some-injective}
use oms_wms_tms.Prelude.{
  ℕ, ◌≡◌, refl, sym, ap, ◌∙◌, inl, inr, String, Bool, true, false, not, ◌&&◌, Option, none, some,
  List, arith, mem_text, lookup, by_id, Bool-cases, Option-cases, RawId, if◌then◌else◌, Result,
  accepted, ok, err, not_found, validation, value_error, or_raise, is_some, Txn, left_by, lift,
  ◌>>=◌, bind_ok, bind_err, subst,
}
use oms_wms_tms.Prelude.Quantified.{all}
use oms_wms_tms.Tms.Requests.{serve, MovesRows, serve-keeps, stored, Follows, stored_row}
use oms_wms_tms.Tms.Model.{
  SegmentStatus, draft, dispatched, pickup, in_transit, transit_hub_arrived, sorting_center,
  out_for_delivery, completed, exception, cancelled, TransportSegment, Db, load, all-mem_value,
}
use oms_wms_tms.Tms.Segments.{
  value, members, transitions, segment_key, can_change, departure_at, arrival_at, moved, store,
  try_move, update_segment_status,
}

-- What becomes of an seg with the target.
abbrev pub decide : ℕ → TransportSegment → Option SegmentStatus → Result TransportSegment
decide now seg none = err value_error
decide now seg (some target) =
    if can_change seg.status target then ok (moved now target seg) else err validation

tried :
    (now : ℕ) (seg : TransportSegment) (target : Option SegmentStatus) (db : Db)
    → (lift (or_raise target value_error) >>= try_move now seg) db
      ≡ stored store (decide now seg target) db
tried now seg none db = refl
tried now seg (some target) db = elim (Bool-cases (can_change seg.status target)) [
  | inl legal ↦ rw (legal, decide) refl
  | inr illegal ↦ rw (illegal, decide) refl
]

change_known :
    (now i : ℕ) (text : String) (seg : TransportSegment) (db : Db)
    → by_id segment_key i db.segments ≡ some seg
    → update_segment_status now (some i) text db
      ≡ stored store (decide now seg (lookup text members)) db
unfolding update_segment_status load
change_known now i text seg db found =
    bind_ok (load segment_key Db.segments (some i)) _ db
      (ap (λ r. lift (or_raise r not_found) db) found)
    ∙ tried now seg (lookup text members) db

change_missing :
    (now i : ℕ) (text : String) (db : Db)
    → by_id segment_key i db.segments ≡ none
    → update_segment_status now (some i) text db ≡ err not_found
unfolding update_segment_status load
change_missing now i text db missing =
    bind_err (load segment_key Db.segments (some i)) _ db
      (ap (λ r. lift (or_raise r not_found) db) missing)

-- A legal change of one seg, with the stamps that come with it.
pub data Move : TransportSegment → TransportSegment → Type 0 where
  move :
      (now : ℕ) (target : SegmentStatus) (o : TransportSegment)
      → can_change o.status target ≡ true
      → Move o (moved now target o)

decide-Move :
    (now : ℕ) (seg o' : TransportSegment) (target : Option SegmentStatus)
    → decide now seg target ≡ ok o'
    → (o'.id ≡ seg.id) × Move seg o'
decide-Move now seg o' none h = cc
decide-Move now seg o' (some target) h =
    let (legal, same) =
      accepted validation (can_change seg.status target) (moved now target seg) o' h in
    subst (λ q. (q.id ≡ seg.id) × Move seg q) same (refl, move now target seg legal)

abbrev pub Request : Type 0
Request = ℕ × RawId × String

abbrev pub call : Request → Txn Db TransportSegment
call (now, raw, text) = update_segment_status now raw text

call_row : MovesRows call segment_key Db.segments Move
unfolding update_segment_status load
call_row (now, none, text) i o db here = inl here
call_row (now, some j, text) i o db here = elim (Option-cases (by_id segment_key j db.segments)) [
  | inl missing ↦ inl (
      subst (λ r. by_id segment_key i (left_by r db).segments ≡ some o)
        (sym (change_missing now j text db missing)) here)
  | inr (seg, there) ↦
      subst
        (λ r.
          Follows segment_key Db.segments store Move (λ r db. refl) i j o seg db here there
            (left_by r db))
        (sym (change_known now j text seg db there))
        (stored_row segment_key Db.segments store Move (λ r db. refl) i j o seg db here there
          (decide now seg (lookup text members))
          (λ o'. decide-Move now seg o' (lookup text members)))
]

abbrev pub is_closed : SegmentStatus → Bool
is_closed completed = true
is_closed cancelled = true
is_closed s = false

-- A segment has a departure time from its dispatch on, and an arrival time when it is completed.
abbrev pub stamped : SegmentStatus → Option ℕ → Option ℕ → Bool
stamped draft departure arrival = not (is_some departure) && not (is_some arrival)
stamped completed departure arrival = is_some departure && is_some arrival
stamped cancelled departure arrival = not (is_some arrival)
stamped s departure arrival = is_some departure && not (is_some arrival)

abbrev pub IsTimed : TransportSegment → Type 0
IsTimed o = stamped o.status o.actual_departure_time o.actual_arrival_time ≡ true

read : (s : SegmentStatus) → lookup (value s) members ≡ some s
unfolding lookup members value
read draft = refl
read dispatched = refl
read pickup = refl
read in_transit = refl
read transit_hub_arrived = refl
read sorting_center = refl
read out_for_delivery = refl
read completed = refl
read exception = refl
read cancelled = refl

value-injective : (a b : SegmentStatus) → value a ≡ value b → a ≡ b
value-injective a b e =
    some-injective a b (sym (read a) ∙ ap (λ text. lookup text members) e ∙ read b)

stamps :
    (now : ℕ) (s : SegmentStatus) (departure arrival : Option ℕ)
    → stamped s departure arrival ≡ true
    → all (λ t. stamped t (departure_at now t departure) (arrival_at now t arrival)) (transitions s)
      ≡ true
unfolding transitions departure_at arrival_at value
stamps now draft none none h = refl
stamps now completed departure arrival h = refl
stamps now cancelled departure arrival h = refl
stamps now dispatched (some a) none h = refl
stamps now pickup (some a) none h = refl
stamps now in_transit (some a) none h = refl
stamps now transit_hub_arrived (some a) none h = refl
stamps now sorting_center (some a) none h = refl
stamps now out_for_delivery (some a) none h = refl
stamps now exception (some a) none h = refl
stamps now s departure arrival h = ground arith

times_kept : (o o' : TransportSegment) → IsTimed o → Move o o' → IsTimed o'
unfolding can_change
times_kept _ _ h (move now target o legal) =
    all-mem_value value value-injective
      (λ t.
        stamped t (departure_at now t o.actual_departure_time)
          (arrival_at now t o.actual_arrival_time))
      target (transitions o.status)
      (stamps now o.status o.actual_departure_time o.actual_arrival_time h) legal

-- Whatever requests are served, a segment whose stamps agree with its status still exists and its stamps
-- still agree: it has no departure time while it is a draft and one from its dispatch on, if it is not
-- cancelled, and an arrival time exactly when it is completed.
pub serve-IsTimed :
    (requests : List Request) (i : ℕ) (o : TransportSegment) (db : Db)
    → by_id segment_key i db.segments ≡ some o
    → IsTimed o
    → (o' : TransportSegment) × (by_id segment_key i (serve call requests db).segments ≡ some o')
      × IsTimed o'
serve-IsTimed = serve-keeps call segment_key Db.segments Move call_row IsTimed times_kept

no_exit : (s t : SegmentStatus) → is_closed s ≡ true → can_change s t ≡ false
unfolding can_change transitions mem_text
no_exit completed t h = refl
no_exit cancelled t h = refl
no_exit s t h = cc

closed_kept :
    (p o o' : TransportSegment)
    → (o ≡ p) × (is_closed p.status ≡ true)
    → Move o o'
    → (o' ≡ p) × (is_closed p.status ≡ true)
closed_kept p _ _ (same, closed) (move now target o legal) = absurd (
    true≢false (
      sym legal
      ∙ no_exit o.status target (subst (λ r. is_closed r.status ≡ true) (sym same) closed)))

-- A completed or cancelled segment stays exactly as it is, whatever requests are served.
pub serve-completed :
    (requests : List Request) (i : ℕ) (o : TransportSegment) (db : Db)
    → by_id segment_key i db.segments ≡ some o
    → is_closed o.status ≡ true
    → by_id segment_key i (serve call requests db).segments ≡ some o
serve-completed requests i o db here closed =
    let (o', found, (same, c)) =
      serve-keeps call segment_key Db.segments Move call_row
        (λ r. (r ≡ o) × (is_closed o.status ≡ true)) (closed_kept o) requests i o db here
        (refl, closed) in
    found ∙ ap (λ r. some r) same
