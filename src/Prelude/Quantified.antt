-- ===== src/Prelude/Quantified.antt =====
-- Boolean conditions on all rows, which move along a permutation.
use mathlib.Core.Path.{◌≡◌, refl}
use mathlib.Core.Bool.{Bool, true, ◌&&◌, Bool-set}
use mathlib.Core.List.{
  List, [], ◌∷◌, ◌++◌, Mem, Perm, mem-cons, mem-cons_self, mem-cons_of_mem, not-mem-nil,
}
use mathlib.Core.List.Perm
use mathlib.Core.Logic.Or
use native.Mathlib.Omega.{arith}
use oms_wms_tms.Prelude.Table.{select}

module _ {A : Type 0} (q : A → Bool) where
  abbrev pub all : List A → Bool
  all [] = true
  all (x ∷ xs) = q x && all xs

  all-head : (x : A) (xs : List A) → all (x ∷ xs) ≡ true → q x ≡ true
  all-head x xs h = ground arith

  all-tail : (x : A) (xs : List A) → all (x ∷ xs) ≡ true → all xs ≡ true
  all-tail x xs h = ground arith

  pub mem-all : (a : A) (xs : List A) → all xs ≡ true → Mem a xs → q a ≡ true
  mem-all a [] h m = absurd (not-mem-nil m)
  mem-all a (x ∷ xs) h m =
      Or.elim (Bool-set (q a) true) (mem-cons.0 m) (λ e. rw e (all-head x xs h))
        (mem-all a xs (all-tail x xs h))

  pub all_of_mem : (xs : List A) → ((a : A) → Mem a xs → q a ≡ true) → all xs ≡ true
  all_of_mem [] h = refl
  all_of_mem (x ∷ xs) h =
      ground (arith, h x mem-cons_self, all_of_mem xs (λ a m. h a (mem-cons_of_mem x m)))

  pub all-perm : (xs ys : List A) → Perm xs ys → all ys ≡ true → all xs ≡ true
  all-perm xs ys p h = all_of_mem xs (λ a m. mem-all a ys h ((Perm.mem_iff p).0 m))

  pub all-append_left : (xs ys : List A) → all (xs ++ ys) ≡ true → all xs ≡ true
  all-append_left [] ys h = refl
  all-append_left (x ∷ xs) ys h = ground (arith, all-append_left xs ys)

-- What a query selects passes its test, and whatever else all rows pass.
pub all-select :
    {A : Type 0} (p q : A → Bool) (xs : List A)
    → all q xs ≡ true
    → all (λ x. p x && q x) (select p xs) ≡ true
unfolding select
all-select p q [] h = refl
all-select p q (x ∷ xs) h = ground (arith, all-select p q xs)

pub all-weaken :
    {A : Type 0} (p q : A → Bool) (xs : List A)
    → ((a : A) → p a ≡ true → q a ≡ true)
    → all p xs ≡ true
    → all q xs ≡ true
all-weaken p q [] h k = refl
all-weaken p q (x ∷ xs) h k = ground (arith, h x, all-weaken p q xs h)
