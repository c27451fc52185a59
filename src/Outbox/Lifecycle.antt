-- ===== src/Outbox/Lifecycle.antt =====
-- The life of an event over any sequence of outbox transactions (src/core/outbox.py): `append_event`,
-- `mark_dispatched` and `mark_failed`, in open sessions.
use mathlib.Core.Option
use oms_wms_tms.Prelude.{
  ℕ, ◌≤◌, ◌≡◌, refl, ap, subst, ◌≢◌, inl, inr, String, Bool, true, false, Option, none, some, List,
  [], ◌∷◌, arith, leb, ◌==◌, if◌then◌else◌, Bool-cases, length, All, All-append, is_some, Result,
  ok, err, select, ok-injective, update_where, by_id, by_id-update_where, by_id-append, ◌∙◌,
}
use oms_wms_tms.Outbox.{
  OutboxEvent, pending, dispatched, failed, Value, is_pending, append_event, mark_dispatched,
  mark_failed, may_retry, retry_later, dead_letter, checked, give_up,
}

-- One transaction of the outbox: a change is reported, or a batch is marked.
pub data Step : List OutboxEvent → List OutboxEvent → Type 0 where
  appended :
      (id now : ℕ) (kind : String) (aggregate : ℕ) (event : String)
      (payload : List (String × Value)) (t : List OutboxEvent)
      → All (λ r. r.id ≢ id) t
      → Step t (append_event id now kind aggregate event payload t)
  sent :
      (now : ℕ) (ids : List ℕ) (count : ℕ) (t u : List OutboxEvent)
      → mark_dispatched none now ids t ≡ ok (count, u)
      → Step t u
  refused :
      (now i : ℕ) (message : String) (t u : List OutboxEvent)
      → mark_failed none now i message t ≡ ok u
      → Step t u

pub data Reach (s : List OutboxEvent) : List OutboxEvent → Type 0 where
  here : Reach s s
  next : {t u : List OutboxEvent} → Reach s t → Step t u → Reach s u

-- A pending event was never retried and has no schedule; a failed one carries its error; and no event
-- counts more than five retries.
pub record IsWell (e : OutboxEvent) : Type 0 where
  pub bounded : e.retry_count ≤ 5
  pub untouched : e.status ≡ pending → (e.retry_count ≡ 0) × (e.scheduled_at ≡ none)
  pub explained : e.status ≡ failed → is_some e.error_message ≡ true

AllWell : List OutboxEvent → Type 0
AllWell = All IsWell

update-IsWell :
    (p : OutboxEvent → Bool) (f : OutboxEvent → OutboxEvent) (t : List OutboxEvent)
    → ((e : OutboxEvent) → IsWell e → p e ≡ true → IsWell (f e))
    → All IsWell t
    → All IsWell (update_where p f t)
unfolding update_where
update-IsWell p f [] keep h = tt
update-IsWell p f (e ∷ t) keep h = elim (Bool-cases (p e)) [
  | inl hit ↦ rw hit (keep e h.0 hit, update-IsWell p f t keep h.1)
  | inr miss ↦ rw miss (h.0, update-IsWell p f t keep h.1)
]

retry_later-IsWell :
    (now i : ℕ) (message : String) (e : OutboxEvent)
    → IsWell e
    → may_retry i e ≡ true
    → IsWell (retry_later now message e)
retry_later-IsWell now i message e w h = record {
  bounded = ground arith;
  untouched = λ x. cc;
  explained = λ x. refl;
}

dead_letter-IsWell :
    (count : ℕ) (message : String) (e : OutboxEvent)
    → IsWell e
    → IsWell (dead_letter count message e)
dead_letter-IsWell count message e w = record {
  bounded = w.bounded;
  untouched = λ x. cc;
  explained = λ x. refl;
}

-- `mark_failed` keeps what its first UPDATE establishes and its second one keeps.
module _ (P : List OutboxEvent → Type 0) (i : ℕ) (message : String) where
  give_up_rule :
      (found : Option OutboxEvent) (t : List OutboxEvent)
      → ((count : ℕ) → P (update_where (λ r. r.id == i) (dead_letter count message) t))
      → P t
      → P (give_up i message found t)
  unfolding give_up
  give_up_rule none t keep h = h
  give_up_rule (some e) t keep h = elim (Bool-cases (leb 5 e.retry_count)) [
    | inl full ↦ rw full (keep e.retry_count)
    | inr open_still ↦ rw open_still h
  ]

  checked_rule :
      (found : Result (Option OutboxEvent)) (t u : List OutboxEvent)
      → ((count : ℕ) → P (update_where (λ r. r.id == i) (dead_letter count message) t))
      → P t
      → checked i message found t ≡ ok u
      → P u
  unfolding checked
  checked_rule (ok found) t u keep h e = subst P (ok-injective e) (give_up_rule found t keep h)
  checked_rule (err x) t u keep h e = cc

  mark_failed_rule :
      (now : ℕ) (t u : List OutboxEvent)
      → ((count : ℕ)
          → P (
              update_where
                (λ r. r.id == i)
                (dead_letter count message)
                (update_where (may_retry i) (retry_later now message) t)))
      → P (update_where (may_retry i) (retry_later now message) t)
      → mark_failed none now i message t ≡ ok u
      → P u
  unfolding mark_failed
  mark_failed_rule now t u keep h e = elim (Bool-cases (length (select (may_retry i) t) == 0)) [
    | inl idle ↦ checked_rule _ _ u keep h (rw idle at e)
    | inr hit ↦ subst P (ok-injective (rw hit at e)) h
  ]

marked-IsWell :
    (now : ℕ) (e : OutboxEvent)
    → IsWell e
    → IsWell (record e { status = dispatched; dispatched_at = some now })
marked-IsWell now e w = record { bounded = w.bounded; untouched = λ x. cc; explained = λ x. cc }

mark_dispatched-IsWell :
    (now : ℕ) (ids : List ℕ) (count : ℕ) (t u : List OutboxEvent)
    → AllWell t
    → mark_dispatched none now ids t ≡ ok (count, u)
    → AllWell u
unfolding mark_dispatched AllWell
mark_dispatched-IsWell now ids count t u h e =
    subst (All IsWell) (ap (λ (r : ℕ × List OutboxEvent). r.1) (ok-injective e))
      (update-IsWell _ _ t (λ r w _. marked-IsWell now r w) h)

Step-IsWell : {t u : List OutboxEvent} → Step t u → AllWell t → AllWell u
unfolding AllWell append_event
Step-IsWell (appended id now kind aggregate event payload t fresh) h =
    All-append IsWell t _ h
      (record { bounded = omega arith; untouched = λ x. (refl, refl); explained = λ x. cc }, tt)
Step-IsWell (sent now ids count t u e) h = mark_dispatched-IsWell now ids count t u h e
Step-IsWell (refused now i message t u e) h =
    mark_failed_rule AllWell i message now t u
      (λ count.
        update-IsWell _ (dead_letter count message) _
          (λ r w _. dead_letter-IsWell count message r w) retried)
      retried e
  where
    retried : AllWell (update_where (may_retry i) (retry_later now message) t)
    retried =
        update-IsWell (may_retry i) (retry_later now message) t (retry_later-IsWell now i message) h

pub Reach-IsWell : {t u : List OutboxEvent} → Reach t u → All IsWell t → All IsWell u
unfolding AllWell
Reach-IsWell here h = h
Reach-IsWell (next r s) h = Step-IsWell s (Reach-IsWell r h)

-- Whatever the outbox transactions did to an empty table, no event counts more than five retries, a pending one
-- was never retried nor scheduled, and a failed one carries an error.
pub Reach-nil-IsWell : {t : List OutboxEvent} → Reach [] t → All IsWell t
Reach-nil-IsWell r = Reach-IsWell r tt

-- The row with the id is there and has left the pending state.
abbrev pub IsSettled : ℕ → List OutboxEvent → Type 0
IsSettled i t = (e : OutboxEvent) × (by_id (λ r. r.id) i t ≡ some e) × (is_pending e.status ≡ false)

update-IsSettled :
    (p : OutboxEvent → Bool) (f : OutboxEvent → OutboxEvent) (i : ℕ) (t : List OutboxEvent)
    → ((r : OutboxEvent) → (f r).id ≡ r.id)
    → ((r : OutboxEvent) → is_pending (f r).status ≡ false)
    → IsSettled i t
    → IsSettled i (update_where p f t)
update-IsSettled p f i t same settled (e, found, s) = (
  if p e then f e else e,
  by_id-update_where (λ r. r.id) p f i t same
      ∙ ap (Option.map (λ (r : OutboxEvent). if p r then f r else r)) found,
  ground (arith, settled e),
)

Step-IsSettled : (k : ℕ) {t u : List OutboxEvent} → Step t u → IsSettled k t → IsSettled k u
unfolding mark_dispatched
Step-IsSettled k (appended id now kind aggregate event payload t fresh) (e, found, s) =
    (e, unfold append_event in by_id-append (λ r. r.id) k e t _ found, s)
Step-IsSettled k (sent now ids count t u e) h =
    subst (IsSettled k) (ap (λ (r : ℕ × List OutboxEvent). r.1) (ok-injective e))
      (update-IsSettled _ _ k t (λ r. refl) (λ r. refl) h)
Step-IsSettled k (refused now i message t u e) h =
    mark_failed_rule (IsSettled k) i message now t u
      (λ count. update-IsSettled _ (dead_letter count message) k _ (λ r. refl) (λ r. refl) retried)
      retried e
  where
    retried : IsSettled k (update_where (may_retry i) (retry_later now message) t)
    retried = update-IsSettled (may_retry i) (retry_later now message) k t (λ r. refl) (λ r. refl) h

-- An event that has left the pending state never comes back to it, whatever outbox transactions follow: so
-- the poll, which reads pending rows, takes up no failed event again.
pub Reach-IsSettled : (k : ℕ) {t u : List OutboxEvent} → Reach t u → IsSettled k t → IsSettled k u
Reach-IsSettled k here h = h
Reach-IsSettled k (next r s) h = Step-IsSettled k s (Reach-IsSettled k r h)
