-- ===== src/Outbox/Retries.antt =====
-- The life of an event: what `mark_failed` and `mark_dispatched` (src/core/outbox.py) make of the rows.
use oms_wms_tms.Prelude.{ℕ, ◌≢◌, String, List, [], ◌∷◌, ltb, if◌then◌else◌, All}
use oms_wms_tms.Outbox.{OutboxEvent, is_sent, retry_later, dead_letter}

-- No two rows have one primary key.
abbrev pub Distinct : List OutboxEvent → Type 0
Distinct [] = Unit
Distinct (e ∷ es) = All (λ r. r.id ≢ e.id) es × Distinct es

-- What a failed post means for one row.
pub failed_row : ℕ → ℕ → String → OutboxEvent → OutboxEvent
failed_row now i message e =
    if is_sent i e
    then (if ltb e.retry_count 5
        then retry_later now message e
        else dead_letter e.retry_count message e)
    else e
