-- ===== src/Prelude/Table.antt =====
-- Tables as lists of rows with a key, in insertion order.
use Prim.Native.Nat.{ℕ}
use Prim.Native.String.{String}
use mathlib.Core.Path.{◌≡◌, refl}
use mathlib.Core.Logic.{◌≢◌}
use mathlib.Core.Bool.{Bool, true, false}
use mathlib.Core.Option
use mathlib.Core.Option.{Option, none, some}
use mathlib.Core.List.{List, [], ◌∷◌, ◌++◌, map}
use native.Mathlib.Omega.{arith}
use text.Mathlib.Text.{◌==◌ as str_eq}
use oms_wms_tms.Prelude.Tests.{◌==◌, if◌then◌else◌}
use oms_wms_tms.Prelude.Calls.{Result, ok, err, multiple_results}

module _ {R : Type 0} where
  -- `WHERE`
  unfoldable pub select : (R → Bool) → List R → List R
  select p [] = []
  select p (r ∷ rs) = let rest = select p rs in if p r then r ∷ rest else rest

  -- The first row that passes; for a test on a unique column, the only one.
  unfoldable pub first : (R → Bool) → List R → Option R
  first p [] = none
  first p (r ∷ rs) = if p r then some r else first p rs

  -- `scalar_one_or_none` of a query
  unfoldable pub scalar_one_or_none : List R → Result (Option R)
  scalar_one_or_none [] = ok none
  scalar_one_or_none (r ∷ []) = ok (some r)
  scalar_one_or_none (r ∷ q ∷ rs) = err multiple_results

  -- `UPDATE … WHERE p`
  unfoldable pub update_where : (R → Bool) → (R → R) → List R → List R
  update_where p f [] = []
  update_where p f (r ∷ rs) = (if p r then f r else r) ∷ update_where p f rs

module _ {R : Type 0} (key : R → ℕ) where
  -- The row with a primary key.
  unfoldable pub by_id : ℕ → List R → Option R
  by_id i [] = none
  by_id i (r ∷ rs) = if key r == i then some r else by_id i rs

  -- Writes back a loaded row.
  unfoldable pub put : R → List R → List R
  put r [] = []
  put r (q ∷ rs) = if key q == key r then r ∷ rs else q ∷ put r rs

  pub by_id-key : (i : ℕ) (r : R) (rs : List R) → by_id i rs ≡ some r → key r ≡ i
  unfolding by_id
  by_id-key i r [] e = ground arith
  by_id-key i r (q ∷ rs) e = ground (arith, by_id-key i r rs)

  pub by_id-put_self :
      (r q : R) (rs : List R) → by_id (key r) rs ≡ some q → by_id (key r) (put r rs) ≡ some r
  unfolding by_id put
  by_id-put_self r q [] e = ground arith
  by_id-put_self r q (x ∷ rs) e = ground (arith, by_id-put_self r q rs)

  pub by_id-put_ne : (i : ℕ) (r : R) (rs : List R) → i ≢ key r → by_id i (put r rs) ≡ by_id i rs
  unfolding by_id put
  by_id-put_ne i r [] h = refl
  by_id-put_ne i r (x ∷ rs) h = ground (arith, by_id-put_ne i r rs h)

  pub map-put : (r : R) (rs : List R) → map key (put r rs) ≡ map key rs
  unfolding put
  map-put r [] = refl
  map-put r (x ∷ rs) = ground (arith, map-put r rs)

  pub by_id-update_where :
      (p : R → Bool) (f : R → R) (i : ℕ) (rs : List R)
      → ((r : R) → key (f r) ≡ key r)
      → by_id i (update_where p f rs) ≡ Option.map (λ r. if p r then f r else r) (by_id i rs)
  unfolding by_id update_where
  by_id-update_where p f i [] same = ground arith
  by_id-update_where p f i (r ∷ rs) same = ground (arith, same r, by_id-update_where p f i rs same)

  pub by_id-append :
      (i : ℕ) (r : R) (rs qs : List R) → by_id i rs ≡ some r → by_id i (rs ++ qs) ≡ some r
  unfolding by_id
  by_id-append i r [] qs e = ground arith
  by_id-append i r (x ∷ rs) qs e = ground (arith, by_id-append i r rs qs)

-- `d.get(name)` of a dict whose keys are texts.
unfoldable pub lookup {ℓ} : {V : Type ℓ} → String → List (String × V) → Option V
lookup k [] = none
lookup k ((j, v) ∷ d) = if str_eq j k then some v else lookup k d

-- `name in {…}`
unfoldable pub mem_text : String → List String → Bool
mem_text k [] = false
mem_text k (j ∷ l) = if str_eq j k then true else mem_text k l
