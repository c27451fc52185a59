-- ===== src/Wms/Adjusting/Reading.antt =====
-- The rows that an attempt of `adjust_inventory` decides on are those of the table.
use mathlib.Core.List.{Perm}
use oms_wms_tms.Prelude.{
  ℕ, ◌≡◌, refl, ap, String, Bool, true, false, ◌&&◌, inl, inr, Option, none, some, List, [], ◌∷◌,
  arith, ◌==◌, Bool-cases, select, scalar_one_or_none, by_id, Result, ok, err,
}
use oms_wms_tms.Prelude.Int.{ℤ, pos, negsuc, pos_part, neg_part, ◌+ℤ◌, ◌-ℤ◌, magnitude, ltb_ℤ}
use oms_wms_tms.Prelude.Quantified.{all, all-perm, all-select, all-weaken}
use oms_wms_tms.Wms.Model.{Inventory, Db, inventory_key}
use oms_wms_tms.Wms.Adjusting.{
  Batch, in_stock, add_batch, batches_of, total_available, Orders, pick_batches, AdjustRequest,
  Choice, update, insert, again, at_batch, choose_in, take_from, choose,
}

abbrev pub eq_ℤ : ℤ → ℤ → Bool
eq_ℤ a b = pos_part a == pos_part b && neg_part a == neg_part b

pub eq_ℤ_eq : (a b : ℤ) → eq_ℤ a b ≡ true → a ≡ b
eq_ℤ_eq (pos a) (pos b) h = ap pos (ground arith)
eq_ℤ_eq (pos a) (negsuc b) h = absurd (ground arith)
eq_ℤ_eq (negsuc a) (pos b) h = absurd (ground arith)
eq_ℤ_eq (negsuc a) (negsuc b) h = ap negsuc (ground arith)

-- A row as the table has it under its id.
abbrev pub matches : Inventory → Option Inventory → Bool
matches r none = false
matches r (some x) = x.version == r.version && eq_ℤ x.quantity r.quantity

abbrev pub is_current : List Inventory → Inventory → Bool
is_current rows r = matches r (by_id inventory_key r.id rows)

-- Ids are a primary key.
abbrev pub IsKeyed : Db → Type 0
IsKeyed db = all (is_current db.inventory) db.inventory ≡ true

-- What holds of a result that is there.
abbrev pub Holds : {A : Type 0} → (A → Type 0) → Result A → Type 0
Holds P (ok x) = P x
Holds P (err e) = Unit

abbrev pub Current : List Inventory → Choice → Type 0
Current rows (update inv expiry) = is_current rows inv ≡ true
Current rows insert = Unit
Current rows (again inv) = Unit

module _ (p : Inventory → Bool) where
  add_batch-all :
      (inv : Inventory) (locked : Option ℤ) (rest : Result (List Batch))
      → p inv ≡ true
      → Holds (λ bs. all (λ (b : Batch). p b.inv) bs ≡ true) rest
      → Holds (λ bs. all (λ (b : Batch). p b.inv) bs ≡ true) (add_batch inv locked rest)
  unfolding add_batch
  add_batch-all inv none rest h hs = tt
  add_batch-all inv (some locked) (err e) h hs = tt
  add_batch-all inv (some locked) (ok rest) h hs =
      elim (Bool-cases (ltb_ℤ (pos 0) (inv.quantity -ℤ locked))) [
        | inl e ↦ rw e (ground arith)
        | inr e ↦ rw e hs
      ]

  batches_of-all :
      (rows : List Inventory)
      → all p rows ≡ true
      → Holds (λ bs. all (λ (b : Batch). p b.inv) bs ≡ true) (batches_of rows)
  unfolding batches_of
  batches_of-all [] h = refl
  batches_of-all (inv ∷ rows) h =
      add_batch-all inv inv.locked_qty (batches_of rows) (ground arith)
        (batches_of-all rows (ground arith))

choose_in-Current :
    (q : AdjustRequest) (table rows : List Inventory)
    → all (is_current table) rows ≡ true
    → Holds (Current table) (choose_in q (scalar_one_or_none rows))
unfolding choose_in scalar_one_or_none
choose_in-Current q table [] h = tt
choose_in-Current q table (r ∷ []) h = ground arith
choose_in-Current q table (r ∷ x ∷ rows) h = tt

take_from-Current :
    (q : AdjustRequest) (table : List Inventory) (found : Result (List Batch))
    → Holds (λ bs. all (λ (b : Batch). is_current table b.inv) bs ≡ true) found
    → Holds (Current table) (take_from q found)
unfolding take_from
take_from-Current q table (err e) h = tt
take_from-Current q table (ok []) h = tt
take_from-Current q table (ok (b ∷ bs)) h =
    elim (Bool-cases (ltb_ℤ (total_available (b ∷ bs)) (pos (magnitude q.quantity)))) [
      | inl e ↦ rw e tt
      | inr e ↦ elim (Bool-cases (ltb_ℤ (b.inv.quantity +ℤ q.quantity) (pos 0))) [
        | inl f ↦ rw e (rw f tt)
        | inr f ↦ rw e (rw f (ground arith))
      ]
    ]

selected :
    (p c : Inventory → Bool) (rows : List Inventory)
    → all c rows ≡ true
    → all c (select p rows) ≡ true
selected p c rows h =
    all-weaken (λ x. p x && c x) c (select p rows) (λ x e. ground arith) (all-select p c rows h)

module _ (orders : Orders) (sorted : (st : String) (xs : List Inventory) → Perm (orders st xs) xs)
    (q : AdjustRequest) (sku_id : ℕ) where
  pub choose-Current :
      (db : Db) → IsKeyed db → Holds (Current db.inventory) (choose orders q sku_id db)
  unfolding choose pick_batches
  choose-Current db keyed = elim (Bool-cases (ltb_ℤ (pos 0) q.quantity)) [
    | inl e ↦
        rw (e, choose)
          (choose_in-Current q db.inventory (select (at_batch q sku_id) db.inventory)
            (selected (at_batch q sku_id) (is_current db.inventory) db.inventory keyed))
    | inr e ↦
        rw (e, choose)
          (take_from-Current q db.inventory _ (
            batches_of-all (is_current db.inventory) _ (
              all-perm (is_current db.inventory) _ _ (sorted q.picking_strategy _) (
                selected (in_stock q.warehouse_id (some q.location_id) sku_id)
                  (is_current db.inventory) db.inventory keyed))))
  ]
