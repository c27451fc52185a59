-- ===== src/Outbox.antt =====
-- src/core/outbox.py: events that are written in the transaction of the change that
-- they report, and what is done to their rows later. The table is the list of its rows.
-- `Dispatch` is about the poll, `Retries` about a failed post, `Lifecycle` about the life of an event.
pub mod Dispatch
pub mod Retries
pub mod Lifecycle
mod Tests
use oms_wms_tms.Prelude.{
  ℕ, ◌+◌, String, Bool, true, false, ◌&&◌, ◌||◌, Option, none, some, List, [], ◌∷◌, ◌++◌, map, ltb,
  leb, ◌==◌, if◌then◌else◌, length, any, Result, ok, err, Error, type_error, select,
  scalar_one_or_none, update_where, zero, suc,
}
use oms_wms_tms.Prelude.Int.{ℤ}
use oms_wms_tms.Prelude.OrderBy.{OrderBy}

pub data OutboxEventStatus : Type 0 where
  pending dispatched failed : OutboxEventStatus

-- What a payload holds under its keys, or under those of a payload inside of it.
pub data Plain : Type 0 where
  plain_uuid : ℕ → Plain
  plain_text : String → Plain

pub data Value : Type 0 where
  uuid : ℕ → Value
  text : String → Value
  amount : ℤ → Value
  uuids : List ℕ → Value
  nested : List (String × Plain) → Value

-- `error_message` as the code builds it: the first 500 characters of the exception's text, or the text
-- for an event that is given up, with the count and the first 400 characters.
pub data ErrorText : Type 0 where
  first_500 : String → ErrorText
  max_retries_exceeded : ℕ → String → ErrorText

pub record OutboxEvent : Type 0 where
  pub id : ℕ
  pub aggregate_type : String
  pub aggregate_id : ℕ
  pub event_type : String
  pub payload : List (String × Value)
  pub status : OutboxEventStatus
  pub retry_count : ℕ
  pub error_message : Option ErrorText
  pub scheduled_at : Option ℕ
  pub dispatched_at : Option ℕ
  pub created_at : ℕ

-- `append_event`, with the id and the time that the column defaults give.
unfoldable pub append_event :
    ℕ → ℕ → String → ℕ → String → List (String × Value) → List OutboxEvent → List OutboxEvent
append_event id now aggregate_type aggregate_id event_type payload events =
    events
    ++ record {
      id = id;
      aggregate_type = aggregate_type;
      aggregate_id = aggregate_id;
      event_type = event_type;
      payload = payload;
      status = pending;
      retry_count = 0;
      error_message = none;
      scheduled_at = none;
      dispatched_at = none;
      created_at = now;
    }
      ∷ []

abbrev pub is_pending : OutboxEventStatus → Bool
is_pending pending = true
is_pending dispatched = false
is_pending failed = false

abbrev pub is_dispatched : OutboxEventStatus → Bool
is_dispatched pending = false
is_dispatched dispatched = true
is_dispatched failed = false

-- `scheduled_at IS NULL OR scheduled_at <= now`
abbrev pub is_due : ℕ → Option ℕ → Bool
is_due now none = true
is_due now (some t) = leb t now

abbrev pub older : OutboxEvent → OutboxEvent → Bool
older a b = leb a.created_at b.created_at

-- `LIMIT`
unfoldable pub limit {ℓ} : {A : Type ℓ} → ℕ → List A → List A
limit zero xs = []
limit (suc n) [] = []
limit (suc n) (x ∷ xs) = x ∷ limit n xs

-- `async with` on the object that `_get_session()` returns: the error that entering it raises, none where it opens a
-- session. Which of the two it is, is Python's matter and a parameter of the functions.
abbrev pub Entering : Type 0
Entering = Option Error

abbrev pub entered {ℓ} : {A : Type ℓ} → Entering → Result A → Result A
entered (some e) body = err e
entered none body = body

-- `dispatch_pending_events`; `locked` marks the rows that another transaction has locked.
unfoldable pub due_events : ℕ → (ℕ → Bool) → List OutboxEvent → List OutboxEvent
due_events now locked =
    select
      λ e. is_pending e.status && is_due now e.scheduled_at && (if locked e.id then false else true)

pub dispatch_pending_events :
    Entering → OrderBy older → ℕ → (ℕ → Bool) → ℕ → List OutboxEvent → Result (List OutboxEvent)
dispatch_pending_events source order now locked batch_size events =
    entered source (ok (limit batch_size (order.sort (due_events now locked events))))

-- `mark_dispatched`: the number of rows, and the table.
pub mark_dispatched : Entering → ℕ → List ℕ → List OutboxEvent → Result (ℕ × List OutboxEvent)
mark_dispatched source now event_ids events =
    let listed = λ (e : OutboxEvent). any (λ i. e.id == i) event_ids in
    entered source (
      ok (
        length (select listed events),
        update_where listed (λ e. record e { status = dispatched; dispatched_at = some now })
            events,
      ))

-- The test of the first UPDATE of `mark_failed`, and that of the SELECT after it.
abbrev pub may_retry : ℕ → OutboxEvent → Bool
may_retry i e = e.id == i && is_dispatched e.status && ltb e.retry_count 5

abbrev pub is_sent : ℕ → OutboxEvent → Bool
is_sent i e = e.id == i && is_dispatched e.status

abbrev pub retry_later : ℕ → String → OutboxEvent → OutboxEvent
retry_later now message e = record e {
  status = failed;
  error_message = some (first_500 message);
  retry_count = e.retry_count + 1;
  scheduled_at = some (now + 60);
}

abbrev pub dead_letter : ℕ → String → OutboxEvent → OutboxEvent
dead_letter count message e = record e {
  status = failed;
  error_message = some (max_retries_exceeded count message);
}

give_up : ℕ → String → Option OutboxEvent → List OutboxEvent → List OutboxEvent
give_up i message none events = events
give_up i message (some e) events =
    if leb 5 e.retry_count
    then update_where (λ r. r.id == i) (dead_letter e.retry_count message) events
    else events

checked : ℕ → String → Result (Option OutboxEvent) → List OutboxEvent → Result (List OutboxEvent)
unfolding give_up
checked i message (ok found) events = ok (give_up i message found events)
checked i message (err e) events = err e

-- `mark_failed`
pub mark_failed : Entering → ℕ → ℕ → String → List OutboxEvent → Result (List OutboxEvent)
unfolding checked
mark_failed source now i message events =
    let updated = update_where (may_retry i) (retry_later now message) events in
    let check = checked i message (scalar_one_or_none (select (is_sent i) updated)) updated in
    entered source (if length (select (may_retry i) events) == 0 then check else ok updated)
