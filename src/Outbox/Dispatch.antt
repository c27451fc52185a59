-- ===== src/Outbox/Dispatch.antt =====
-- The query of `dispatch_pending_events` (src/core/outbox.py).
use oms_wms_tms.Prelude.{ℕ, suc, zero, ◌≤◌, ◌≡◌, refl, List, [], ◌∷◌, ◌++◌, arith, length}
use oms_wms_tms.Prelude.OrderBy.{OrderBy}
use oms_wms_tms.Outbox.{limit}

-- What `LIMIT` leaves out.
abbrev pub beyond {ℓ} : {A : Type ℓ} → ℕ → List A → List A
beyond zero xs = xs
beyond (suc n) [] = []
beyond (suc n) (x ∷ xs) = beyond n xs

module _ {A : Type 0} where
  pub limit-append-beyond : (n : ℕ) (xs : List A) → limit n xs ++ beyond n xs ≡ xs
  unfolding limit
  limit-append-beyond zero xs = refl
  limit-append-beyond (suc n) [] = refl
  limit-append-beyond (suc n) (x ∷ xs) = ground (arith, limit-append-beyond n xs)

  pub length-limit : (n : ℕ) (xs : List A) → length (limit n xs) ≤ n
  unfolding limit
  length-limit zero xs = omega arith
  length-limit (suc n) [] = omega arith
  length-limit (suc n) (x ∷ xs) = omega (arith, length-limit n xs)
