-- ===== src/Wms/Picking/Refinement.antt =====
-- What `pick_from_stock` picks, against an independent plan: each batch gives its whole units, as far as those
-- of the batches before it do not already cover the request.
use oms_wms_tms.Prelude.{
  suc, ℕ, ◌+◌, ◌-◌, ◌*◌, ◌/◌, ◌≤◌, min, ◌≡◌, refl, sym, ap, ◌∙◌, subst, inl, inr, String, Bool,
  true, false, some, List, [], ◌∷◌, ◌++◌, map, arith, ◌==◌, if◌then◌else◌, Bool-cases, select, put,
  ok, err, not_found, missing_greenlet, Result, bind_err, Txn, pure, raise_if, ◌>>=◌, bind_ok, All,
}
use oms_wms_tms.Prelude.Int.{ℤ, pos, ◌-ℤ◌, ◌+ℤ◌, leb_ℤ}
use oms_wms_tms.Prelude.OrderBy.{OrderBy}
use oms_wms_tms.Prelude.Quantified.{all}
use oms_wms_tms.Wms.Model.{Sku, Inventory, InventoryLog, outbound, Db, inventory_key}
use oms_wms_tms.Wms.Picking.{
  fefo, stocked, available, pick_int, PickedBatch, PickResult, lowered, sku_name_of, pick,
  pick_each, is_none, pick_from_stock,
}

-- The whole units that a batch can give.
abbrev pub units : Inventory → ℕ
units inv = available inv / 10000

abbrev pub total_units : List Inventory → ℕ
total_units [] = 0
total_units (inv ∷ batches) = units inv + total_units batches

-- The picks from batches that come after `before` units, for a request of `q` units.
abbrev pub plan : ℕ → ℕ → List Inventory → List (Inventory × ℕ)
plan before q [] = []
plan before q (inv ∷ batches) =
    let rest = plan (before + units inv) q batches in
    if min (units inv) (q - before) == 0 then rest else (inv, min (units inv) (q - before)) ∷ rest

abbrev pub batch_of : List Sku → Inventory × ℕ → PickedBatch
batch_of skus (inv, qty) = record {
  batch_no = inv.batch_no;
  sku_name = sku_name_of skus inv.sku_id;
  expiry_date = inv.expiry_date;
  qty = qty;
}

-- The tables after a pick.
abbrev pub log_of : ℕ → Inventory → ℕ → InventoryLog
log_of id inv qty = record {
  id = id;
  inventory_id = inv.id;
  change_type = outbound;
  quantity_change = pos 0 -ℤ pos (qty * 10000);
  quantity_before = (inv.quantity -ℤ pos (qty * 10000)) +ℤ pos (qty * 10000);
  quantity_after = inv.quantity -ℤ pos (qty * 10000);
  reference_type = "picking";
}

abbrev pub apply_picks : List (Inventory × ℕ) → Db → Db
apply_picks [] db = db
apply_picks ((inv, qty) ∷ picks) db = apply_picks picks (record db {
  inventory = put inventory_key (lowered inv qty) db.inventory;
  inventory_logs = db.inventory_logs ++ log_of db.next_uuid inv qty ∷ [];
  next_uuid = suc db.next_uuid;
})

pick_int_lem : (r : ℕ) (inv : Inventory) → pick_int (pos r) inv ≡ min (units inv) r
unfolding pick_int
pick_int_lem r inv = omega arith

plan_done : (before q : ℕ) (batches : List Inventory) → q ≤ before → plan before q batches ≡ []
plan_done before q [] h = refl
plan_done before q (inv ∷ batches) h = ground (arith, plan_done (before + units inv) q batches)

minus_pos : (r k : ℕ) → k ≤ r → pos r -ℤ pos k ≡ pos (r - k)
unfolding ◌-ℤ◌
minus_pos r k h = ground arith

-- The session has the article of the pick.
abbrev pub is_loaded : (ℕ → Bool) → Inventory × ℕ → Bool
is_loaded loaded (inv, qty) = loaded inv.sku_id

plan_skip :
    (before q : ℕ) (inv : Inventory) (batches : List Inventory)
    → (min (units inv) (q - before) == 0) ≡ true
    → (q - before == 0) ≡ false
    → plan before q (inv ∷ batches) ≡ plan before q batches
plan_skip before q inv batches h k =
    ap
      (λ b.
        if b
        then plan (before + units inv) q batches
        else (inv, min (units inv) (q - before)) ∷ plan (before + units inv) q batches)
      h
    ∙ ap (λ n. plan n q batches) (ground arith)

plan_take :
    (before q : ℕ) (inv : Inventory) (batches : List Inventory)
    → (min (units inv) (q - before) == 0) ≡ false
    → plan before q (inv ∷ batches)
      ≡ (inv, min (units inv) (q - before)) ∷ plan (before + units inv) q batches
plan_take before q inv batches h =
    ap
      (λ b.
        if b
        then plan (before + units inv) q batches
        else (inv, min (units inv) (q - before)) ∷ plan (before + units inv) q batches)
      h

module _ (loaded : ℕ → Bool) where
  picked :
      (inv : Inventory) (qty : ℕ) (db : Db)
      → loaded inv.sku_id ≡ true
      → pick loaded inv qty db ≡ ok (batch_of db.skus (inv, qty), apply_picks ((inv, qty) ∷ []) db)
  unfolding pick
  picked inv qty db there = rw (there, pick) refl

  not_loaded :
      (inv : Inventory) (qty : ℕ) (db : Db)
      → loaded inv.sku_id ≡ false
      → pick loaded inv qty db ≡ err missing_greenlet
  unfolding pick
  not_loaded inv qty db gone = rw (gone, pick) refl

  -- The rest of the loop after a batch has been looked at.
  abbrev taken : ℤ → Inventory → List Inventory → Txn Db (List PickedBatch × ℤ)
  taken remaining inv batches = do
    batch ← pick loaded inv (pick_int remaining inv)
    rest ← pick_each loaded (remaining -ℤ pos (pick_int remaining inv)) batches
    pure (batch ∷ rest.0, rest.1)

  abbrev look : Bool → ℤ → Inventory → List Inventory → Txn Db (List PickedBatch × ℤ)
  look b remaining inv batches = elim b [
    | true ↦ pick_each loaded remaining batches
    | false ↦ taken remaining inv batches
  ]

  module _ (remaining : ℤ) (inv : Inventory) (batches : List Inventory) (db : Db) where
    abbrev visit : Bool → Txn Db (List PickedBatch × ℤ)
    visit b = elim b [
      | true ↦ pure ([], remaining)
      | false ↦ look (pick_int remaining inv == 0) remaining inv batches
    ]

    loop_done :
        leb_ℤ remaining (pos 0) ≡ true
        → pick_each loaded remaining (inv ∷ batches) db ≡ ok (([], remaining), db)
    unfolding pick_each
    loop_done h = ap (λ b. visit b db) h

    loop_look :
        (b : Bool)
        → leb_ℤ remaining (pos 0) ≡ false
        → (pick_int remaining inv == 0) ≡ b
        → pick_each loaded remaining (inv ∷ batches) db ≡ look b remaining inv batches db
    unfolding pick_each
    loop_look b h k = ap (λ b. visit b db) h ∙ ap (λ b. look b remaining inv batches db) k

  -- What the loop returns and leaves for the picks.
  abbrev result : ℕ → List (Inventory × ℕ) → Db → Result ((List PickedBatch × ℤ) × Db)
  result left picks db =
      if all (is_loaded loaded) picks
      then ok ((map (batch_of db.skus) picks, pos left), apply_picks picks db)
      else err missing_greenlet

  abbrev before_rest : PickedBatch → List PickedBatch × ℤ → Txn Db (List PickedBatch × ℤ)
  before_rest batch rest = pure (batch ∷ rest.0, rest.1)

  abbrev shown : List PickedBatch × ℤ → Txn Db PickResult
  shown picks = pure (record { picked_batches = picks.0; remaining_quantity = picks.1 })

  -- The result with a first batch put before it.
  with_first :
      (batch : PickedBatch) (m : Txn Db (List PickedBatch × ℤ)) (left : ℕ)
      (picks : List (Inventory × ℕ)) (db : Db)
      → m db ≡ result left picks db
      → (m >>= before_rest batch) db ≡ (
          if all (is_loaded loaded) picks
          then ok ((batch ∷ map (batch_of db.skus) picks, pos left), apply_picks picks db)
          else err missing_greenlet)
  with_first batch m left picks db h = elim (Bool-cases (all (is_loaded loaded) picks)) [
    | inl e ↦ rw e (bind_ok m (before_rest batch) db (rw e at h))
    | inr e ↦ rw e (bind_err m (before_rest batch) db (rw e at h))
  ]

  taken_one :
      (r : ℕ) (inv : Inventory) (batches : List Inventory) (db : Db) (left : ℕ)
      (picks : List (Inventory × ℕ))
      → pick_each loaded
          (pos (r - min (units inv) r))
          batches
          (apply_picks ((inv, min (units inv) r) ∷ []) db)
        ≡ result left picks (apply_picks ((inv, min (units inv) r) ∷ []) db)
      → taken (pos r) inv batches db ≡ result left ((inv, min (units inv) r) ∷ picks) db
  taken_one r inv batches db left picks more =
      subst
        (λ k.
          (pick loaded inv k >>= λ batch.
          pick_each loaded (pos r -ℤ pos k) batches >>= λ rest. pure (batch ∷ rest.0, rest.1))
            db
          ≡ result left ((inv, min (units inv) r) ∷ picks) db)
        (sym (pick_int_lem r inv))
        (elim (Bool-cases (loaded inv.sku_id)) [
          | inl there ↦ rw there (
              bind_ok (pick loaded inv qty) _ db (picked inv qty db there)
              ∙ with_first (batch_of db.skus (inv, qty))
                  (pick_each loaded (pos r -ℤ pos qty) batches) left picks
                  (apply_picks ((inv, qty) ∷ []) db)
                  (ap (λ z. pick_each loaded z batches (apply_picks ((inv, qty) ∷ []) db))
                      (minus_pos r qty (omega arith))
                    ∙ more))
          | inr gone ↦ rw gone (bind_err (pick loaded inv qty) _ db (not_loaded inv qty db gone))
        ])
    where
      qty : ℕ
      qty = min (units inv) r

  same_result :
      {left left' : ℕ} {picks picks' : List (Inventory × ℕ)} (db : Db)
      → left ≡ left'
      → picks ≡ picks'
      → result left picks db ≡ result left' picks' db
  same_result {left = left} {picks' = picks'} db e f =
      ap (λ p. result left p db) f ∙ ap (λ n. result n picks' db) e

  -- The refinement: the loop over the batches computes the plan.
  pick_each-plan :
      (before q : ℕ) (batches : List Inventory) (db : Db)
      → pick_each loaded (pos (q - before)) batches db
        ≡ result (q - (before + total_units batches)) (plan before q batches) db
  unfolding pick_each
  pick_each-plan before q [] db = ap (λ n. ok (([], pos n), db)) (omega arith)
  pick_each-plan before q (inv ∷ batches) db = elim (Bool-cases (q - before == 0)) [
    | inl covered ↦
        loop_done (pos (q - before)) inv batches db (ground arith)
        ∙ ap (λ p. ok (p, db)) (ap (λ n. ([], pos n)) (ground arith))
        ∙ same_result db refl (sym (plan_done before q (inv ∷ batches) (ground arith)))
    | inr open_units ↦ elim (Bool-cases (min (units inv) (q - before) == 0)) [
      | inl empty ↦
          loop_look (pos (q - before)) inv batches db true (ground arith)
            (ap (λ n. n == 0) (pick_int_lem (q - before) inv) ∙ empty)
          ∙ pick_each-plan before q batches db
          ∙ same_result db (ground arith) (sym (plan_skip before q inv batches empty open_units))
      | inr some_units ↦
          loop_look (pos (q - before)) inv batches db false (ground arith)
            (ap (λ n. n == 0) (pick_int_lem (q - before) inv) ∙ some_units)
          ∙ taken_one (q - before) inv batches db (q - (before + units inv + total_units batches))
              (plan (before + units inv) q batches)
              (ap
                  (λ n.
                    pick_each loaded (pos n) batches
                      (apply_picks ((inv, min (units inv) (q - before)) ∷ []) db))
                  rest_left
                ∙ pick_each-plan (before + units inv) q batches _)
          ∙ same_result db (omega arith) (sym (plan_take before q inv batches some_units))
    ]
  ]
    where
      rest_left : q - before - min (units inv) (q - before) ≡ q - (before + units inv)
      rest_left = omega arith

  from_start :
      (q : ℕ) (batches : List Inventory) (db : Db)
      → pick_each loaded (pos q) batches db ≡ result (q - total_units batches) (plan 0 q batches) db
  from_start q batches db =
      ap (λ n. pick_each loaded (pos n) batches db) (omega arith)
      ∙ pick_each-plan 0 q batches db
      ∙ same_result db (omega arith) refl

  answered :
      (m : Txn Db (List PickedBatch × ℤ)) (left : ℕ) (picks : List (Inventory × ℕ)) (db : Db)
      → m db ≡ result left picks db
      → (m >>= shown) db ≡ (
          if all (is_loaded loaded) picks
          then ok (
            record { picked_batches = map (batch_of db.skus) picks; remaining_quantity = pos left },
            apply_picks picks db,
          )
          else err missing_greenlet)
  answered m left picks db h = elim (Bool-cases (all (is_loaded loaded) picks)) [
    | inl e ↦ rw e (bind_ok m shown db (rw e at h))
    | inr e ↦ rw e (bind_err m shown db (rw e at h))
  ]

abbrev pub total_qty : List (Inventory × ℕ) → ℕ
total_qty [] = 0
total_qty ((inv, qty) ∷ picks) = qty + total_qty picks

plan_total :
    (before q : ℕ) (batches : List Inventory)
    → total_qty (plan before q batches) ≡ min (q - before) (total_units batches)
plan_total before q [] = omega arith
plan_total before q (inv ∷ batches) = ground (arith, plan_total (before + units inv) q batches)

-- A pick takes at least one unit and no more than the batch has above what is locked.
abbrev pub IsCovered : Inventory × ℕ → Type 0
IsCovered (inv, qty) = (1 ≤ qty) × (qty * 10000 ≤ available inv)

plan-IsCovered : (before q : ℕ) (batches : List Inventory) → All IsCovered (plan before q batches)
plan-IsCovered before q [] = tt
plan-IsCovered before q (inv ∷ batches) = elim (Bool-cases (min (units inv) (q - before) == 0)) [
  | inl empty ↦
      subst (All IsCovered)
        (sym (
          ap
            (λ b.
              if b
              then plan (before + units inv) q batches
              else (inv, min (units inv) (q - before)) ∷ plan (before + units inv) q batches)
            empty))
        (plan-IsCovered (before + units inv) q batches)
  | inr some_units ↦
      subst (All IsCovered) (sym (plan_take before q inv batches some_units))
        ((ground arith, ground arith), plan-IsCovered (before + units inv) q batches)
]

total_from_start :
    (q : ℕ) (batches : List Inventory) → total_qty (plan 0 q batches) ≡ min q (total_units batches)
total_from_start q batches = ground (arith, plan_total 0 q batches)

module _ (batch_le : String → String → Bool) (order : OrderBy (fefo batch_le)) where
  -- The batches of the article in the warehouse, first expiry first.
  abbrev pub batches_of : ℕ → String → Db → List Inventory
  batches_of warehouse_id sku db = order.sort (select (stocked db warehouse_id sku) db.inventory)

  -- Where the warehouse has a batch of the article, a request of `q` units gives picks that are those of the plan over
  -- the batches in their order, so that a batch is only drawn on when the whole units of all batches that expire
  -- before it do not cover the request. In sum they are the request or all whole units there are, whichever is less.
  -- No pick takes more than its batch has above its locked quantity. Where the session has the article of every pick,
  -- the picks are answered, with the rest of the request as remaining, and the tables are those of the picks, one log
  -- entry to each; else the call raises MissingGreenlet.
  pub pick_from_stock-plan :
      (loaded : ℕ → Bool) (warehouse_id q : ℕ) (sku : String) (db : Db)
      → is_none (batches_of warehouse_id sku db) ≡ false
      → (picks : List (Inventory × ℕ)) × (pick_from_stock loaded batch_le order
            (some warehouse_id)
            sku
            (pos q)
            db
          ≡ (if all (is_loaded loaded) picks
              then ok (
                record {
                  picked_batches = map (batch_of db.skus) picks;
                  remaining_quantity = pos (q - total_units (batches_of warehouse_id sku db));
                },
                apply_picks picks db,
              )
              else err missing_greenlet))
        × (picks ≡ plan 0 q (batches_of warehouse_id sku db))
        × (total_qty picks ≡ min q (total_units (batches_of warehouse_id sku db)))
        × All IsCovered picks
  unfolding pick_from_stock
  pick_from_stock-plan loaded warehouse_id q sku db some_batch =
      let batches = batches_of warehouse_id sku db in
      (
        plan 0 q batches,
        bind_ok (raise_if (is_none batches) not_found) _ db
              (ap (λ b. raise_if b not_found db) some_batch)
            ∙ answered loaded (pick_each loaded (pos q) batches) (q - total_units batches)
                (plan 0 q batches) db (from_start loaded q batches db),
        refl,
        total_from_start q batches,
        plan-IsCovered 0 q batches,
      )
