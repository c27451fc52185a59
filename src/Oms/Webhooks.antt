-- ===== src/Oms/Webhooks.antt =====
-- `_do_dispatch` of src/webhooks/service.py, which `dispatch_event` calls in the session that it is given: the delivery
-- logs, and the event for the outbox.
use oms_wms_tms.Prelude.{
  ℕ, suc, ◌+◌, ◌≡◌, refl, String, Bool, true, false, ◌&&◌, none, some, List, [], ◌∷◌, ◌++◌, map,
  if◌then◌else◌, mem_text, select, length, length-append, All, All-append, ap, ◌∙◌,
}
use mathlib.Core.List.{append_assoc}
use oms_wms_tms.Outbox.{OutboxEvent, pending, append_event, Plain, text, nested, uuids}
use oms_wms_tms.Oms.Model.{WebhookTarget, Db}

-- An active target whose events name the event.
unfoldable pub listens : String → WebhookTarget → Bool
unfolding mem_text
listens event t = t.is_active && elim t.events [ none ↦ false | some names ↦ mem_text event names ]

unfoldable pub matching : String → Db → List WebhookTarget
unfolding listens select
matching event db = select (listens event) db.webhook_targets

-- The event for the outbox, under the first of two new ids; none without a target.
unfoldable pub webhook_event :
    ℕ → String → List (String × Plain) → ℕ → List WebhookTarget → List OutboxEvent
unfolding append_event
webhook_event now event payload n [] = []
webhook_event now event payload n (t ∷ ts) =
    append_event (suc n) now "Webhook" n "webhook.dispatch"
      (("event_type", text event)
        ∷ ("payload", nested payload)
        ∷ ("target_ids", uuids (map (λ (t : WebhookTarget). t.id) (t ∷ ts)))
        ∷ [])
      []

abbrev pub ids_used : ℕ → List WebhookTarget → ℕ
ids_used n [] = n
ids_used n (t ∷ ts) = suc (suc n)

unfoldable pub do_dispatch : ℕ → String → List (String × Plain) → Db → Db
unfolding matching webhook_event
do_dispatch now event payload db = record db {
  webhook_logs =
      db.webhook_logs
      ++ map (λ (t : WebhookTarget). record { target_id = t.id; event = event; payload = payload })
          (matching event db);
  events = db.events ++ webhook_event now event payload db.next_uuid (matching event db);
  next_uuid = ids_used db.next_uuid (matching event db);
}

abbrev pub has_any : List WebhookTarget → Bool
has_any [] = false
has_any (t ∷ ts) = true

-- A pending event that announces a webhook.
abbrev pub IsWebhookEvent : OutboxEvent → Type 0
IsWebhookEvent e =
    (e.event_type ≡ "webhook.dispatch") × (e.aggregate_type ≡ "Webhook") × (e.status ≡ pending)

webhook_event-IsWebhookEvent :
    (now : ℕ) (event : String) (payload : List (String × Plain)) (n : ℕ) (ts : List WebhookTarget)
    → All IsWebhookEvent (webhook_event now event payload n ts)
unfolding webhook_event append_event
webhook_event-IsWebhookEvent now event payload n [] = tt
webhook_event-IsWebhookEvent now event payload n (t ∷ ts) = ((refl, refl, refl), tt)

length-webhook_event :
    (now : ℕ) (event : String) (payload : List (String × Plain)) (n : ℕ) (ts : List WebhookTarget)
    → length (webhook_event now event payload n ts) ≡ (if has_any ts then 1 else 0)
unfolding webhook_event append_event
length-webhook_event now event payload n [] = refl
length-webhook_event now event payload n (t ∷ ts) = refl

-- What two dispatches, one after the other, add to the outbox.
pub twice :
    (now : ℕ) (a b : String) (p q : List (String × Plain)) (db : Db)
    → (new : List OutboxEvent) × ((do_dispatch now b q (do_dispatch now a p db)).events
        ≡ db.events ++ new)
      × All IsWebhookEvent new
      × (length new
          ≡ (if has_any (matching a db) then 1 else 0) + (if has_any (matching b db) then 1 else 0))
unfolding do_dispatch matching
twice now a b p q db =
    let first = webhook_event now a p db.next_uuid (matching a db) in
    let n = ids_used db.next_uuid (matching a db) in
    let second = webhook_event now b q n (matching b db) in
    (
      first ++ second,
      append_assoc db.events first second,
      All-append IsWebhookEvent first second
          (webhook_event-IsWebhookEvent now a p db.next_uuid (matching a db))
          (webhook_event-IsWebhookEvent now b q n (matching b db)),
      length-append first second
          ∙ ap (λ k. k + length second) (length-webhook_event now a p db.next_uuid (matching a db))
          ∙ ap (λ k. (if has_any (matching a db) then 1 else 0) + k)
              (length-webhook_event now b q n (matching b db)),
    )
