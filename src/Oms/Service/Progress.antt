-- ===== src/Oms/Service/Progress.antt =====
-- How far the updates of src/oms/service.py take an order.
use oms_wms_tms.Prelude.{
  length, Txn, pure, ◌>>◌, ℕ, ◌+◌, ◌≤◌, ◌<◌, ◌≡◌, sym, subst, ◌∙◌, inl, inr, String, true, some,
  List, [], ◌∷◌, arith, ok, bind_ok, bind_err, by_id, by_id-key, by_id-put_self, Bool-cases,
}
use oms_wms_tms.Prelude.OrderBy.{OrderBy}
use oms_wms_tms.Oms.Model.{
  OrderStatus, pending, confirmed, processing, picking, completed, cancelled, failed, Order, Db,
  item_earlier, order_key,
}
use oms_wms_tms.Oms.Webhooks.{do_dispatch}
use oms_wms_tms.Oms.Service.{update_order_status}
use oms_wms_tms.Oms.Service.Transitions.{
  Allowed, confirm, process, pick, complete, cancel_pending, cancel_confirmed, cancel_processing,
  cancel_picking, status_of, validated, validated-Follows, changed, after, updated, refused_test,
}

-- How far an order has come.
abbrev pub rank : OrderStatus → ℕ
rank pending = 0
rank confirmed = 1
rank processing = 2
rank picking = 3
rank completed = 4
rank cancelled = 4
rank failed = 4

Allowed-rank : {s t : OrderStatus} → Allowed s t → (rank s < rank t) × (rank t ≤ 4)
Allowed-rank confirm = omega arith
Allowed-rank process = omega arith
Allowed-rank pick = omega arith
Allowed-rank complete = omega arith
Allowed-rank cancel_pending = omega arith
Allowed-rank cancel_confirmed = omega arith
Allowed-rank cancel_processing = omega arith
Allowed-rank cancel_picking = omega arith

module _ (items_by : OrderBy item_earlier) (i : ℕ) where
  -- Updates of one order, each at its own time.
  abbrev pub update_all : List (ℕ × String × String) → Txn Db (Unit {0})
  update_all [] = pure tt
  update_all ((now, target, operator) ∷ calls) =
      update_order_status items_by now (some i) target operator >> update_all calls

  -- Where updates of one order are served one after another and all are accepted, there are no more of them
  -- than the steps that the order's status is away from the last rank, so at most four.
  pub update_all-length :
      (calls : List (ℕ × String × String)) (db : Db) (order : Order)
      → by_id order_key i db.orders ≡ some order
      → rank order.status ≤ 4
      → (db' : Db) → update_all calls db ≡ ok (tt, db')
      → length calls + rank order.status ≤ 4
  unfolding do_dispatch
  update_all-length [] db order found low db' e = omega arith
  update_all-length ((now, target, operator) ∷ calls) db order found low db' e =
      elim (Bool-cases (validated order.status target)) [
        | inl allowed ↦
            one_more (status_of target) (validated-Follows order.status target allowed).0 (
              update_all-length calls (after items_by now operator db order target)
                (changed items_by now operator order target) found'
                (Allowed-rank (validated-Follows order.status target allowed).0).1 db'
                (continued allowed))
        | inr refused ↦ cc (
          e,
          bind_err (update_order_status items_by now (some i) target operator)
              (λ _. update_all calls) db
              (refused_test items_by now operator db i order target found refused),
        )
      ]
    where
      same : order.id ≡ i
      same = by_id-key order_key i order db.orders found

      found' :
          by_id order_key i (after items_by now operator db order target).orders
          ≡ some (changed items_by now operator order target)
      found' =
          subst
            (λ k.
              by_id order_key k (after items_by now operator db order target).orders
              ≡ some (changed items_by now operator order target))
            same
            (by_id-put_self order_key (changed items_by now operator order target) order db.orders
              (subst (λ k. by_id order_key k db.orders ≡ some order) (sym same) found))

      continued :
          validated order.status target ≡ true
          → update_all calls (after items_by now operator db order target) ≡ ok (tt, db')
      continued allowed =
          sym (
            bind_ok (update_order_status items_by now (some i) target operator)
              (λ _. update_all calls) db
              (updated items_by now operator db i order target found allowed))
          ∙ e

      -- What follows an accepted update is one call shorter, and the order is one step further.
      one_more :
          (s : OrderStatus)
          → Allowed order.status s
          → length calls + rank s ≤ 4
          → length ((now, target, operator) ∷ calls) + rank order.status ≤ 4
      one_more s allowed less = ground (arith, Allowed-rank allowed)
