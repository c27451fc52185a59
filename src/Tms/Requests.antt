-- ===== src/Tms/Requests.antt =====
-- Requests on one table of src/tms, served one after another: each commits, or raises and is rolled back.
use mathlib.Core.Option.{some-injective}
use oms_wms_tms.Prelude.{
  ℕ, ◌≡◌, refl, sym, ap, ◌∙◌, subst, ◌⊎◌, inl, inr, true, false, some, List, [], ◌∷◌, arith, ◌==◌,
  Bool-cases, by_id, by_id-key, by_id-put_self, by_id-put_ne, put, Result, ok, err, Txn, left_by,
  committed,
}
use oms_wms_tms.Tms.Model.{Db}

module _ {Q A : Type 0} (call : Q → Txn Db A) where
  abbrev pub serve : List Q → Db → Db
  serve [] db = db
  serve (q ∷ qs) db = serve qs (committed (call q) db)

  module _ {R : Type 0} (key : R → ℕ) (table : Db → List R) (Move : R → R → Type 0) where
    -- A call leaves a row as it was, or takes it one move further.
    abbrev pub MovesRows : Type 0
    MovesRows =
        (q : Q) (i : ℕ) (r : R) (db : Db)
        → by_id key i (table db) ≡ some r
        → (by_id key i (table (committed (call q) db)) ≡ some r)
          ⊎ ((r' : R) × Move r r' × (by_id key i (table (committed (call q) db)) ≡ some r'))

    -- What every move keeps of a row, the requests keep.
    pub serve-keeps :
        MovesRows
        → (P : R → Type 0) → ((r r' : R) → P r → Move r r' → P r')
        → (qs : List Q) (i : ℕ) (r : R) (db : Db) → by_id key i (table db) ≡ some r
        → P r
        → (r' : R) × (by_id key i (table (serve qs db)) ≡ some r') × P r'
    serve-keeps moves P kept [] i r db found p = (r, found, p)
    serve-keeps moves P kept (q ∷ qs) i r db found p = elim (moves q i r db found) [
      | inl same ↦ serve-keeps moves P kept qs i r (committed (call q) db) same p
      | inr (r', move, found') ↦
          serve-keeps moves P kept qs i r' (committed (call q) db) found' (kept r r' p move)
    ]

-- The end of a call on one row, which has become `r` or is refused.
abbrev pub stored : {R : Type 0} → (R → Db → Db) → Result R → Db → Result (R × Db)
stored store (ok r) db = ok (r, store r db)
stored store (err e) db = err e

module _ {R : Type 0} (key : R → ℕ) (table : Db → List R) (store : R → Db → Db) where
  module _ (Move : R → R → Type 0)
      (store_put : (r : R) (db : Db) → table (store r db) ≡ put key r (table db)) (i j : ℕ)
      (o r : R) (db : Db) (here : by_id key i (table db) ≡ some o)
      (there : by_id key j (table db) ≡ some r) where
    -- What becomes of the row with the id `i`.
    abbrev pub Follows : Db → Type 0
    Follows db' =
        (by_id key i (table db') ≡ some o)
        ⊎ ((o' : R) × Move o o' × (by_id key i (table db') ≡ some o'))

    rewritten : (r' : R) → key r' ≡ key r → Move r r' → Follows (store r' db)
    rewritten r' same_key move = elim (Bool-cases (i == j)) [
      | inl same ↦ inr (
        r',
        subst (λ q. Move q r')
            (some-injective r o
              (sym there ∙ subst (λ k. by_id key k (table db) ≡ some o) (equal same) here))
            move,
        ap (by_id key i) (store_put r' db)
            ∙ subst (λ k. by_id key k (put key r' (table db)) ≡ some r') (at_j ∙ sym (equal same))
                (by_id-put_self key r' r (table db)
                  (subst (λ k. by_id key k (table db) ≡ some r) (sym at_j) there)),
      )
      | inr other ↦ inl (
          ap (by_id key i) (store_put r' db)
          ∙ by_id-put_ne key i r' (table db) (λ e. clash (e ∙ at_j) other)
          ∙ here)
    ]
      where
        equal : (i == j) ≡ true → i ≡ j
        equal h = ground arith

        clash : i ≡ j → (i == j) ≡ false → ⊥
        clash e h = ground arith

        at_j : key r' ≡ j
        at_j = same_key ∙ by_id-key key j r (table db) there

    pub stored_row :
        (decided : Result R)
        → ((r' : R) → decided ≡ ok r' → (key r' ≡ key r) × Move r r')
        → Follows (left_by (stored store decided db) db)
    stored_row (ok r') moves = rewritten r' (moves r' refl).0 (moves r' refl).1
    stored_row (err e) moves = inl here
