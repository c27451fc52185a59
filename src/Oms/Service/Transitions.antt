-- ===== src/Oms/Service/Transitions.antt =====
-- The state machine of orders: ORDER_STATES, `validate_transition` and `update_order_status` of
-- src/oms/service.py.
use Prim.Native.String as Text
use oms_wms_tms.Prelude.{
  ℕ, suc, ◌≡◌, refl, subst, ap, ◌∙◌, ◌⊎◌, inl, inr, String, Bool, true, false, none, some, [], ◌∷◌,
  ◌++◌, arith, get_or, ok, err, validation, lift, bind_ok, bind_err, by_id, put, lookup, mem_text,
  eq_iff, Bool-cases,
}
use oms_wms_tms.Prelude.OrderBy.{OrderBy}
use oms_wms_tms.Oms.Model.{
  OrderStatus, pending, confirmed, processing, picking, completed, cancelled, failed, Order,
  OrderStatusLog, Db, item_earlier, order_key,
}
use oms_wms_tms.Oms.Orders.{
  order_to_dict, order_states, status_map, status_reverse, validate_transition,
}
use oms_wms_tms.Oms.Service.{update_order_status, load_order, add_log, signals_of, announced}
use oms_wms_tms.Oms.Webhooks.{do_dispatch}

-- The life cycle of an order, written out.
pub data Allowed : OrderStatus → OrderStatus → Type 0 where
  confirm : Allowed pending confirmed
  process : Allowed confirmed processing
  pick : Allowed processing picking
  complete : Allowed picking completed
  cancel_pending : Allowed pending cancelled
  cancel_confirmed : Allowed confirmed cancelled
  cancel_processing : Allowed processing cancelled
  cancel_picking : Allowed picking cancelled

-- `STATUS_MAP.get(target, OrderStatus.PENDING)`
abbrev pub status_of : String → OrderStatus
unfolding lookup status_map
status_of target = get_or (lookup target status_map) pending

pub status_of-status_reverse : (s : OrderStatus) → status_of (status_reverse s) ≡ s
unfolding status_of status_reverse lookup status_map
status_of-status_reverse pending = refl
status_of-status_reverse confirmed = refl
status_of-status_reverse processing = refl
status_of-status_reverse picking = refl
status_of-status_reverse completed = refl
status_of-status_reverse cancelled = refl
status_of-status_reverse failed = refl

-- The name is that of a status which may follow.
abbrev pub Follows : OrderStatus → String → Type 0
Follows s target = Allowed s (status_of target) × (status_reverse (status_of target) ≡ target)

mem_two : (t a b : String) → mem_text t (a ∷ b ∷ []) ≡ true → (a ≡ t) ⊎ (b ≡ t)
unfolding mem_text
mem_two t a b h = ground (arith, eq_iff a t, eq_iff b t)

-- A state with two names to go to.
two_follow :
    (s : OrderStatus) (target a b : String)
    → Follows s a
    → Follows s b
    → mem_text target (a ∷ b ∷ []) ≡ true
    → Follows s target
two_follow s target a b f g h = elim (mem_two target a b h) [
  | inl e ↦ subst (Follows s) e f
  | inr e ↦ subst (Follows s) e g
]

pub validated : (s : OrderStatus) (target : String) → Bool
unfolding lookup order_states mem_text status_reverse
validated s target = mem_text target (get_or (lookup (status_reverse s) order_states) [])

pub validated-Follows :
    (s : OrderStatus) (target : String) → validated s target ≡ true → Follows s target
unfolding validated status_of lookup status_map status_reverse
validated-Follows pending target h =
    two_follow pending target "confirmed" "cancelled" (confirm, refl) (cancel_pending, refl) h
validated-Follows confirmed target h =
    two_follow confirmed target "processing" "cancelled" (process, refl) (cancel_confirmed, refl) h
validated-Follows processing target h =
    two_follow processing target "picking" "cancelled" (pick, refl) (cancel_processing, refl) h
validated-Follows picking target h =
    two_follow picking target "completed" "cancelled" (complete, refl) (cancel_picking, refl) h
validated-Follows completed target h = cc
validated-Follows cancelled target h = cc
validated-Follows failed target h = cc

pub load_order_found :
    (db : Db) (i : ℕ) (order : Order)
    → by_id order_key i db.orders ≡ some order
    → load_order (some i) db ≡ ok (order, db)
unfolding load_order
load_order_found db i order found = rw (found, load_order) refl

validate_lem :
    (s : OrderStatus) (target : String)
    → validated s target ≡ true
    → validate_transition (status_reverse s) target ≡ ok tt
unfolding validate_transition validated
validate_lem s target h = rw (h, validate_transition) refl

validate_refused :
    (s : OrderStatus) (target : String)
    → validated s target ≡ false
    → validate_transition (status_reverse s) target ≡ err validation
unfolding validate_transition validated
validate_refused s target h = rw (h, validate_transition) refl

module _ (items_by : OrderBy item_earlier) (now : ℕ) (operator : String) where
  abbrev pub changed : Order → String → Order
  changed order target = record order { status = status_of target; updated_at = now }

  abbrev pub log_of : Db → Order → String → OrderStatusLog
  log_of db order target = record {
    id = db.next_uuid;
    order_id = order.id;
    from_status = status_reverse order.status;
    to_status = target;
    operator_id = none;
    remark = Text.◌++◌ "Status changed to " target;
    created_at = now;
  }

  abbrev written : Db → Order → String → Db
  written db order target = record db {
    orders = put order_key (changed order target) db.orders;
    logs = db.logs ++ log_of db order target ∷ [];
    signals =
        db.signals
        ++ signals_of order.id order.order_no (status_reverse order.status) target operator;
    next_uuid = suc db.next_uuid;
  }

  abbrev pub after : Db → Order → String → Db
  after db order target =
      announced now order (status_reverse order.status) target (written db order target)

  pub updated :
      (db : Db) (i : ℕ) (order : Order) (target : String)
      → by_id order_key i db.orders ≡ some order
      → validated order.status target ≡ true
      → update_order_status items_by now (some i) target operator db
        ≡ ok (
          order_to_dict items_by (changed order target) none (after db order target),
          after db order target,
        )
  unfolding update_order_status status_of add_log do_dispatch
  updated db i order target found h =
      bind_ok (load_order (some i)) _ db (load_order_found db i order found)
      ∙ bind_ok (lift (validate_transition (status_reverse order.status) target)) _ db
          (ap (λ r. lift r db) (validate_lem order.status target h))

  pub refused_test :
      (db : Db) (i : ℕ) (order : Order) (target : String)
      → by_id order_key i db.orders ≡ some order
      → validated order.status target ≡ false
      → update_order_status items_by now (some i) target operator db ≡ err validation
  unfolding update_order_status
  refused_test db i order target found refused =
      bind_ok (load_order (some i)) _ db (load_order_found db i order found)
      ∙ bind_err (lift (validate_transition (status_reverse order.status) target)) _ db
          (ap (λ r. lift r db) (validate_refused order.status target refused))

  -- For an order that is there, a target that is not the name of a status that the life cycle allows next is
  -- refused as a validation error, so nothing changes.
  pub update_order_status-refused :
      (db : Db) (i : ℕ) (order : Order) (target : String)
      → by_id order_key i db.orders ≡ some order
      → ¬ Follows order.status target
      → update_order_status items_by now (some i) target operator db ≡ err validation
  update_order_status-refused db i order target found never =
      elim (Bool-cases (validated order.status target)) [
        | inl allowed ↦ absurd (never (validated-Follows order.status target allowed))
        | inr refused ↦ refused_test db i order target found refused
      ]
