-- ===== src/Outbox/Tests.antt =====
-- Concrete tables for the theorems about src/core/outbox.py.
use oms_wms_tms.Prelude.{
  ℕ, ◌-◌, ◌≡◌, refl, ◌⊎◌, Bool, true, false, none, some, List, [], ◌∷◌, arith, All, update_where,
  select, by_id, scalar_one_or_none,
}
use oms_wms_tms.Prelude.OrderBy.{OrderBy, by_insertion}
use oms_wms_tms.Outbox.{
  append_event, OutboxEvent, OutboxEventStatus, pending, dispatched, older, mark_failed,
  mark_dispatched,
}
use oms_wms_tms.Outbox.Lifecycle.{
  Reach, here, next, appended, sent, refused, IsWell, Reach-nil-IsWell, IsSettled, Reach-IsSettled,
}

older_total : (a b : OutboxEvent) → (older a b ≡ true) ⊎ (older b a ≡ true)
older_total a b = ground arith

older_trans : (a b c : OutboxEvent) → older a b ≡ true → older b c ≡ true → older a c ≡ true
older_trans a b c h k = ground arith

abbrev by_age : OrderBy older
by_age = by_insertion older older_total older_trans

abbrev event : ℕ → OutboxEventStatus → ℕ → OutboxEvent
event i status retries = record {
  id = i;
  aggregate_type = "Order";
  aggregate_id = 7;
  event_type = "order.created";
  payload = [];
  status = status;
  retry_count = retries;
  error_message = none;
  scheduled_at = none;
  dispatched_at = none;
  created_at = 100 - i;
}

abbrev table : List OutboxEvent
table = event 1 pending 0 ∷ event 2 dispatched 1 ∷ event 3 pending 0 ∷ []

abbrev unlocked : ℕ → Bool
unlocked i = false

-- One event, appended, sent, and refused afterwards.
abbrev appended_table : List OutboxEvent
appended_table = record (event 1 pending 0) { created_at = 10 } ∷ []

abbrev sent_table : List OutboxEvent
sent_table = record (event 1 dispatched 0) { created_at = 10; dispatched_at = some 20 } ∷ []

abbrev history : Reach appended_table sent_table
unfolding mark_dispatched select update_where
history = next here (sent 20 (1 ∷ []) 1 appended_table sent_table refl)

abbrev whole_history : Reach [] appended_table
unfolding append_event
whole_history = next here (appended 1 10 "Order" 7 "order.created" [] [] tt)

Reach-nil-IsWell_example : All IsWell appended_table
unfolding append_event
Reach-nil-IsWell_example = Reach-nil-IsWell whole_history

abbrev sent_again : Reach sent_table sent_table
unfolding mark_failed select update_where scalar_one_or_none
sent_again = next here (refused 30 5 "500" sent_table sent_table refl)

Reach-IsSettled_example : IsSettled 1 sent_table
unfolding by_id mark_failed select update_where scalar_one_or_none
Reach-IsSettled_example =
    Reach-IsSettled 1 sent_again
      (record (event 1 dispatched 0) { created_at = 10; dispatched_at = some 20 }, refl, refl)
