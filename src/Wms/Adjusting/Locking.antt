-- ===== src/Wms/Adjusting/Locking.antt =====
-- What the version column protects: no adjustment overwrites one that another transaction has committed.
use mathlib.Core.List.{Perm}
use oms_wms_tms.Prelude.{
  ℕ, suc, ◌≡◌, ◌≢◌, refl, sym, ap, ◌∙◌, subst, String, true, ◌⊎◌, inl, inr, Option, none, some,
  List, [], ◌∷◌, ◌++◌, arith, str_eq, ◌==◌, Bool-cases, Option-cases, first, by_id, by_id-key,
  by_id-put_self, by_id-put_ne, put, is_some, Result, ok, err, integrity_error,
}
use oms_wms_tms.Prelude.Int.{◌+ℤ◌}
use oms_wms_tms.Prelude.Quantified.{all}
use oms_wms_tms.Wms.Model.{Warehouse, Location, Sku, Inventory, Db, inventory_key}
use oms_wms_tms.Wms.Adjusting.{
  Orders, AdjustRequest, Choice, update, insert, again, choose, Attempt, Outcome, done, given_up,
  raised, rewritten, new_row, moved, accepts, commit, rolled_back, write, act, proceed, attempt,
  retry, adjust, with_sku, adjust_inventory,
}
use oms_wms_tms.Wms.Adjusting.Reading.{
  eq_ℤ_eq, matches, is_current, IsKeyed, Holds, Current, choose-Current,
}

-- What other transactions commit keeps the key, and a new quantity comes with a new version.
pub record IsHonest (others : Db → Db) : Type 0 where
  pub keyed : (db : Db) → IsKeyed db → IsKeyed (others db)
  pub versioned :
      (db : Db) (i : ℕ) (r r' : Inventory)
      → by_id inventory_key i db.inventory ≡ some r
      → by_id inventory_key i (others db).inventory ≡ some r'
      → r'.version ≡ r.version
      → r'.quantity ≡ r.quantity

-- Where the call has committed, a row has been changed by the asked quantity, as against the tables without the call,
-- and every other row is as there; or one row with the asked quantity has been added.
abbrev pub IsAdjusted : AdjustRequest → Outcome → Type 0
IsAdjusted q (given_up db id) = Unit
IsAdjusted q (raised e db) = Unit
IsAdjusted q (done before after id) =
    ((r : Inventory) × (r' : Inventory) × (by_id inventory_key id before.inventory ≡ some r)
      × (by_id inventory_key id after.inventory ≡ some r')
      × (r'.quantity ≡ r.quantity +ℤ q.quantity)
      × ((k : ℕ)
          → k ≢ id
          → by_id inventory_key k after.inventory ≡ by_id inventory_key k before.inventory))
    ⊎ ((n : Inventory) × (after.inventory ≡ before.inventory ++ n ∷ [])
        × (n.id ≡ id)
        × (n.quantity ≡ q.quantity))

put_at :
    (i : ℕ) (r r' : Inventory) (rows : List Inventory)
    → r'.id ≡ r.id
    → by_id inventory_key i rows ≡ some r
    → by_id inventory_key i (put inventory_key r' rows) ≡ some r'
put_at i r r' rows same found =
    let key = same ∙ by_id-key inventory_key i r rows found in
    subst (λ k. by_id inventory_key k (put inventory_key r' rows) ≡ some r') key
      (by_id-put_self inventory_key r' r rows
        (subst (λ k. by_id inventory_key k rows ≡ some r) (sym key) found))

module _ (orders : Orders) (sorted : (st : String) (xs : List Inventory) → Perm (orders st xs) xs)
    (q : AdjustRequest) (sku_id : ℕ) where
  -- The rest of the loop does what it should.
  abbrev Goes : Option (Db → Outcome) → Type 0
  Goes none = Unit
  Goes (some f) = (d : Db) → IsKeyed d → IsAdjusted q (f d)

  rolled :
      (go : Option (Db → Outcome))
      → Goes go
      → (d : Db) (id : ℕ) → IsKeyed d
      → IsAdjusted q (rolled_back orders q sku_id go d id)
  rolled none next d id keyed = tt
  rolled (some f) next d id keyed = next d keyed

  retried :
      (a : Attempt) (f : Db → Outcome) → Goes (some f) → Goes (some (retry orders q sku_id a f))
  retried a f next d keyed = elim (Bool-cases a.reloads) [
    | inl e ↦ rw e (next d keyed)
    | inr e ↦ rw e tt
  ]

  refused :
      (go : Option (Db → Outcome))
      → Goes go
      → (d : Db) → IsKeyed d
      → IsAdjusted q (elim go [ none ↦ raised integrity_error d | some f ↦ f d ])
  refused none next d keyed = tt
  refused (some f) next d keyed = next d keyed

  module _ (a : Attempt) (honest : IsHonest a.others) (own : Db → Db)
      (own_rows : (d : Db) → (own d).inventory ≡ d.inventory) (go : Option (Db → Outcome))
      (next : Goes go) where
    committed :
        (before after : Db) (id : ℕ)
        → IsKeyed before
        → IsAdjusted q (done before after id)
        → IsAdjusted q (commit orders q sku_id a go before after id)
    unfolding commit
    committed before after id keyed h = elim (Bool-cases (accepts a sku_id after)) [
      | inl e ↦ rw (e, commit) h
      | inr e ↦ rw (e, commit) (refused go next before keyed)
    ]

    -- The row that was read still has the quantity that was read, where its version is the same.
    unchanged :
        (db : Db) (inv r : Inventory)
        → is_current db.inventory inv ≡ true
        → by_id inventory_key inv.id (a.others db).inventory ≡ some r
        → r.version ≡ inv.version
        → inv.quantity +ℤ q.quantity ≡ r.quantity +ℤ q.quantity
    unchanged db inv r current found e =
        elim (Option-cases (by_id inventory_key inv.id db.inventory)) [
          | inl missing ↦
              (let no = sym (ap (matches inv) missing) ∙ current in absurd (ground arith))
          | inr (x, there) ↦
              let same = sym (ap (matches inv) there) ∙ current in
              ap (λ v. v +ℤ q.quantity)
                (sym (
                  honest.versioned db inv.id x r there found (ground arith)
                  ∙ eq_ℤ_eq x.quantity inv.quantity (ground arith)))
        ]

    written :
        (db : Db) (inv : Inventory) (expiry : Option ℕ)
        → IsKeyed db
        → is_current db.inventory inv ≡ true
        → (o : Option Inventory) → by_id inventory_key inv.id (own (a.others db)).inventory ≡ o
        → IsAdjusted q (write orders q sku_id a go own (a.others db) inv expiry o)
    unfolding write
    written db inv expiry keyed current none found =
        rolled go next (a.others db) inv.id (honest.keyed db keyed)
    written db inv expiry keyed current (some r) found =
        let there = ap (by_id inventory_key inv.id) (sym (own_rows (a.others db))) ∙ found in
        elim (Bool-cases (r.version == inv.version)) [
          | inr e ↦ rw (e, write) (rolled go next (a.others db) inv.id (honest.keyed db keyed))
          | inl e ↦
              rw (e, write)
                (committed (a.others db) _ inv.id (honest.keyed db keyed) (
                  inl (
                    r,
                    rewritten q inv expiry r,
                    there,
                    put_at inv.id r (rewritten q inv expiry r) _ refl found,
                    unchanged db inv r current there (ground arith),
                    λ k ne.
                        by_id-put_ne inventory_key k (rewritten q inv expiry r) _
                          (λ k_r. ne (k_r ∙ by_id-key inventory_key inv.id r _ found))
                        ∙ ap (by_id inventory_key k) (own_rows (a.others db)),
                  )))
        ]

    acted :
        (db : Db) (c : Choice)
        → IsKeyed db
        → Current db.inventory c
        → IsAdjusted q (act orders q sku_id a go own (a.others db) c)
    unfolding act
    acted db (again inv) keyed current = rolled go next (a.others db) inv.id (honest.keyed db keyed)
    acted db (update inv expiry) keyed current = written db inv expiry keyed current _ refl
    acted db insert keyed current =
        let work = own (a.others db) in
        let row = new_row q sku_id a.now work.next_uuid in
        let added = record work {
          inventory = work.inventory ++ row ∷ [];
          next_uuid = suc work.next_uuid;
        } in
        committed (a.others db) (moved q sku_id added) work.next_uuid (honest.keyed db keyed)
          (inr (row, ap (λ rows. rows ++ row ∷ []) (own_rows (a.others db)), refl, refl))

    proceeded :
        (db : Db) (c : Result Choice)
        → IsKeyed db
        → Holds (Current db.inventory) c
        → IsAdjusted q (proceed orders q sku_id a go own db c)
    unfolding proceed
    proceeded db (err e) keyed current = tt
    proceeded db (ok c) keyed current = acted db c keyed current

    attempt-IsAdjusted : (db : Db) → IsKeyed db → IsAdjusted q (attempt orders q sku_id a go own db)
    unfolding attempt
    attempt-IsAdjusted db keyed = proceeded db (choose orders q sku_id (own db)) keyed (
        subst (λ rows. Holds (Current rows) (choose orders q sku_id (own db))) (own_rows db)
          (choose-Current orders sorted q sku_id (own db)
            (subst (λ rows. all (is_current rows) rows ≡ true) (sym (own_rows db)) keyed)))

  adjust-IsAdjusted :
      (a1 a2 a3 : Attempt)
      → IsHonest a1.others
      → IsHonest a2.others
      → IsHonest a3.others
      → (own : Db → Db) → ((d : Db) → (own d).inventory ≡ d.inventory)
      → (db : Db) → IsKeyed db
      → IsAdjusted q (adjust orders q sku_id a1 a2 a3 own db)
  unfolding adjust
  adjust-IsAdjusted a1 a2 a3 h1 h2 h3 own own_rows =
      let third = attempt orders q sku_id a3 none (λ d. d) in
      let second = attempt orders q sku_id a2 (some (retry orders q sku_id a3 third)) (λ d. d) in
      attempt-IsAdjusted a1 h1 own own_rows (some (retry orders q sku_id a2 second)) (
        retried a2 second (
          attempt-IsAdjusted a2 h2 (λ d. d) (λ d. refl) (some (retry orders q sku_id a3 third))
            (retried a3 third (attempt-IsAdjusted a3 h3 (λ d. d) (λ d. refl) none tt))))

-- The order of the batches is some order of the rows, and what the others commit keeps the ids different and never
-- changes a quantity without its version. Then an adjustment that commits has changed the quantity of one row by
-- exactly the asked amount, as against the tables that the others left, and no other row; or it has added one row
-- with the asked quantity.
pub adjust_inventory-IsAdjusted :
    (orders : Orders)
    → ((st : String) (xs : List Inventory) → Perm (orders st xs) xs)
    → (q : AdjustRequest) (a1 a2 a3 : Attempt) → IsHonest a1.others
    → IsHonest a2.others
    → IsHonest a3.others
    → (db : Db) → IsKeyed db
    → IsAdjusted q (adjust_inventory orders q a1 a2 a3 db)
unfolding adjust_inventory
adjust_inventory-IsAdjusted orders sorted q a1 a2 a3 h1 h2 h3 db keyed =
    elim (Bool-cases (is_some (by_id (λ (w : Warehouse). w.id) q.warehouse_id db.warehouses))) [
      | inr e ↦ rw e tt
      | inl e ↦
          elim (Bool-cases (is_some (by_id (λ (l : Location). l.id) q.location_id db.locations))) [
            | inr f ↦ rw (e, f) tt
            | inl f ↦ elim (Option-cases (first (λ (s : Sku). str_eq s.sku q.sku) db.skus)) [
              | inl g ↦
                  rw (e, f, g)
                    (adjust-IsAdjusted orders sorted q db.next_uuid a1 a2 a3 h1 h2 h3
                      (with_sku (record { id = db.next_uuid; sku = q.sku; name = some q.sku }))
                      (λ d. refl) db keyed)
              | inr (s, g) ↦
                  rw (e, f, g)
                    (adjust-IsAdjusted orders sorted q s.id a1 a2 a3 h1 h2 h3 (λ d. d) (λ d. refl)
                      db keyed)
            ]
          ]
    ]
