-- ===== src/Prelude/OrderBy.antt =====
-- `ORDER BY` of the database, which is not part of the repository: some order of the rows that is sorted by
-- the given test. How it orders rows that the test does not tell apart is left open.
use mathlib.Core.Path.{◌≡◌}
use mathlib.Core.Logic.{◌⊎◌, inl, inr}
use mathlib.Core.Bool.{Bool, true, false}
use mathlib.Core.List.{List, [], ◌∷◌, Perm}
use mathlib.Core.List.Perm
use oms_wms_tms.Prelude.Tests.{if◌then◌else◌, Bool-cases}
use oms_wms_tms.Prelude.Lists.{All}

module _ {R : Type 0} (le : R → R → Bool) where
  abbrev pub IsSorted : List R → Type 0
  IsSorted [] = Unit
  IsSorted (x ∷ xs) = All (λ y. le x y ≡ true) xs × IsSorted xs

pub record OrderBy {R : Type 0} (le : R → R → Bool) : Type 0 where
  pub sort : List R → List R
  pub sort-perm : (xs : List R) → Perm (sort xs) xs
  pub sort-IsSorted : (xs : List R) → IsSorted le (sort xs)

-- A database that sorts by insertion meets the interface, for a total and transitive test.
module _ {R : Type 0} (le : R → R → Bool) where
  abbrev pub insert : R → List R → List R
  insert a [] = a ∷ []
  insert a (x ∷ xs) = if le a x then a ∷ x ∷ xs else x ∷ insert a xs

  abbrev pub insertion_sort : List R → List R
  insertion_sort [] = []
  insertion_sort (x ∷ xs) = insert x (insertion_sort xs)

  insert-perm : (a : R) (xs : List R) → Perm (insert a xs) (a ∷ xs)
  insert-perm a [] = Perm.refl (a ∷ [])
  insert-perm a (x ∷ xs) = elim (Bool-cases (le a x)) [
    | inl e ↦ rw e (Perm.refl (a ∷ x ∷ xs))
    | inr e ↦ rw e (Perm.trans (Perm.cons x (insert-perm a xs)) (Perm.swap a x xs))
  ]

  pub insertion_sort-perm : (xs : List R) → Perm (insertion_sort xs) xs
  insertion_sort-perm [] = Perm.refl []
  insertion_sort-perm (x ∷ xs) =
      Perm.trans (insert-perm x (insertion_sort xs)) (Perm.cons x (insertion_sort-perm xs))

  module _ (total : (a b : R) → (le a b ≡ true) ⊎ (le b a ≡ true))
      (trans : (a b c : R) → le a b ≡ true → le b c ≡ true → le a c ≡ true) where
    All-trans :
        (a x : R) (xs : List R)
        → le a x ≡ true
        → All (λ y. le x y ≡ true) xs
        → All (λ y. le a y ≡ true) xs
    All-trans a x [] h k = tt
    All-trans a x (y ∷ ys) h k = (trans a x y h k.0, All-trans a x ys h k.1)

    All-insert :
        (a x : R) (xs : List R)
        → le x a ≡ true
        → All (λ y. le x y ≡ true) xs
        → All (λ y. le x y ≡ true) (insert a xs)
    All-insert a x [] h k = (h, tt)
    All-insert a x (y ∷ ys) h k = elim (Bool-cases (le a y)) [
      | inl e ↦ rw e (h, k)
      | inr e ↦ rw e (k.0, All-insert a x ys h k.1)
    ]

    later : (a x : R) → le a x ≡ false → le x a ≡ true
    later a x e = elim (total a x) [ inl h ↦ cc | inr h ↦ h ]

    insert-IsSorted : (a : R) (xs : List R) → IsSorted le xs → IsSorted le (insert a xs)
    insert-IsSorted a [] s = (tt, tt)
    insert-IsSorted a (x ∷ xs) s = elim (Bool-cases (le a x)) [
      | inl e ↦ rw e ((e, All-trans a x xs e s.0), s)
      | inr e ↦ rw e (All-insert a x xs (later a x e) s.0, insert-IsSorted a xs s.1)
    ]

    pub insertion_sort-IsSorted : (xs : List R) → IsSorted le (insertion_sort xs)
    insertion_sort-IsSorted [] = tt
    insertion_sort-IsSorted (x ∷ xs) =
        insert-IsSorted x (insertion_sort xs) (insertion_sort-IsSorted xs)

    unfoldable pub by_insertion : OrderBy le
    by_insertion = record {
      sort = insertion_sort;
      sort-perm = insertion_sort-perm;
      sort-IsSorted = insertion_sort-IsSorted;
    }
