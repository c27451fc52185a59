-- ===== src/Prelude/Distinct.antt =====
-- Rows that a Boolean test tells apart, as a unique column makes them; the test sees the older row first.
use mathlib.Core.Path.{◌≡◌, refl, sym, subst}
use mathlib.Core.Logic.{inl, inr}
use mathlib.Core.Bool.{Bool, false, not}
use mathlib.Core.Option.{some}
use mathlib.Core.List.{List, [], ◌∷◌, ◌++◌, map}
use Prim.Native.Nat.{ℕ}
use native.Mathlib.Omega.{arith}
use oms_wms_tms.Prelude.Tests.{Bool-cases}
use oms_wms_tms.Prelude.Lists.{All}
use oms_wms_tms.Prelude.Table.{select, by_id, put}

module _ {A : Type 0} (same : A → A → Bool) where
  abbrev pub Distinct : List A → Type 0
  Distinct [] = Unit
  Distinct (x ∷ xs) = All (λ y. same x y ≡ false) xs × Distinct xs

  All-snoc : (P : A → Type 0) (xs : List A) (a : A) → All P xs → P a → All P (xs ++ a ∷ [])
  All-snoc P [] a h p = (p, tt)
  All-snoc P (x ∷ xs) a h p = (h.0, All-snoc P xs a h.1 p)

  -- A row that none of the others resembles may be added.
  pub Distinct-snoc :
      (xs : List A) (a : A) → select (λ x. same x a) xs ≡ [] → Distinct xs → Distinct (xs ++ a ∷ [])
  unfolding select
  Distinct-snoc [] a none_like d = (tt, tt)
  Distinct-snoc (x ∷ xs) a none_like d = elim (Bool-cases (same x a)) [
    | inl e ↦ absurd (ground arith)
    | inr e ↦ (All-snoc _ xs a d.0 e, Distinct-snoc xs a (ground arith) d.1)
  ]

  All-select : (P : A → Type 0) (p : A → Bool) (xs : List A) → All P xs → All P (select p xs)
  unfolding select
  All-select P p [] h = tt
  All-select P p (x ∷ xs) h = elim (Bool-cases (p x)) [
    | inl e ↦ rw e (h.0, All-select P p xs h.1)
    | inr e ↦ rw e (All-select P p xs h.1)
  ]

  pub Distinct-select : (p : A → Bool) (xs : List A) → Distinct xs → Distinct (select p xs)
  unfolding select
  Distinct-select p [] d = tt
  Distinct-select p (x ∷ xs) d = elim (Bool-cases (p x)) [
    | inl e ↦ rw e (All-select _ p xs d.0, Distinct-select p xs d.1)
    | inr e ↦ rw e (Distinct-select p xs d.1)
  ]

-- What a row that is written back keeps, its column keeps.
pub map-put_same :
    {R A : Type 0} (key : R → ℕ) (f : R → A) (r q : R) (rs : List R)
    → by_id key (key r) rs ≡ some q
    → f r ≡ f q
    → map f (put key r rs) ≡ map f rs
unfolding by_id put
map-put_same key f r q [] here e = refl
map-put_same key f r q (x ∷ rs) here e = ground (arith, map-put_same key f r q rs)

-- A query without rows leaves all rows on its other side.
pub select-not :
    {R : Type 0} (p : R → Bool) (rs : List R) → select p rs ≡ [] → select (λ r. not (p r)) rs ≡ rs
unfolding select
select-not p [] h = refl
select-not p (x ∷ rs) h = ground (arith, select-not p rs)

module _ {R A : Type 0} (same : A → A → Bool) (f : R → A) where
  All-of-map : (P : A → Type 0) (rs : List R) → All P (map f rs) → All (λ r. P (f r)) rs
  All-of-map P [] h = tt
  All-of-map P (x ∷ rs) h = (h.0, All-of-map P rs h.1)

  All-map : (P : A → Type 0) (rs : List R) → All (λ r. P (f r)) rs → All P (map f rs)
  All-map P [] h = tt
  All-map P (x ∷ rs) h = (h.0, All-map P rs h.1)

  Distinct-map : (rs : List R) → Distinct (λ x y. same (f x) (f y)) rs → Distinct same (map f rs)
  Distinct-map [] d = tt
  Distinct-map (x ∷ rs) d = (All-map (λ y. same (f x) y ≡ false) rs d.0, Distinct-map rs d.1)

  Distinct-of-map : (rs : List R) → Distinct same (map f rs) → Distinct (λ x y. same (f x) (f y)) rs
  Distinct-of-map [] d = tt
  Distinct-of-map (x ∷ rs) d =
      (All-of-map (λ y. same (f x) y ≡ false) rs d.0, Distinct-of-map rs d.1)

  -- A row may be written back with its column as it was.
  pub Distinct-put :
      (key : R → ℕ) (r q : R) (rs : List R)
      → by_id key (key r) rs ≡ some q
      → f r ≡ f q
      → Distinct (λ x y. same (f x) (f y)) rs
      → Distinct (λ x y. same (f x) (f y)) (put key r rs)
  Distinct-put key r q rs here e d =
      Distinct-of-map (put key r rs)
        (subst (Distinct same) (sym (map-put_same key f r q rs here e)) (Distinct-map rs d))
