-- ===== src/Core/Pagination/Pages.antt =====
-- The pages of a query, one after another.
use native.Mathlib.Decide.{dec_lt}
use native.Mathlib.Omega.{div_any}
use native.Mathlib.Nat.{mod-lt, mul_comm, mul-le-mul_right}
use Prim.Native.Nat.{◌%◌}
use oms_wms_tms.Prelude.{
  ℕ, zero, suc, ◌+◌, ◌-◌, ◌*◌, ◌/◌, ◌≤◌, ◌<◌, ◌≡◌, refl, sym, ap, ◌∙◌, subst, List, [], ◌∷◌, ◌++◌,
  arith, ltb, length, Result, Bool-cases, inl, inr, ok, err, min,
}
use oms_wms_tms.Prelude.Int.{pos, ◌-ℤ◌, ◌*ℤ◌}
use oms_wms_tms.Core.Pagination.{
  take, drop, Window, PaginatedResponse, ceil_div, total_pages_of, paginate,
}

suc_lem : (o l : ℕ) → suc o + l ≡ suc (o + l)
suc_lem o l = omega arith

module _ {R : Type 0} where
  take-drop : (l o : ℕ) (rs : List R) → take l (drop o rs) ++ drop (o + l) rs ≡ drop o rs
  unfolding take drop
  take-drop l zero rs = ap (λ n. take l rs ++ drop n rs) zero_l ∙ split l rs
    where
      zero_l : 0 + l ≡ l
      zero_l = omega arith

      split : (l : ℕ) (rs : List R) → take l rs ++ drop l rs ≡ rs
      split zero rs = refl
      split (suc l) [] = refl
      split (suc l) (r ∷ rs) = ap (λ t. r ∷ t) (split l rs)
  take-drop zero (suc o) [] = ap (λ n. drop n []) (suc_lem o 0)
  take-drop (suc l) (suc o) [] = ap (λ n. drop n []) (suc_lem o (suc l))
  take-drop l (suc o) (r ∷ rs) =
      ap (λ n. take l (drop o rs) ++ drop n (r ∷ rs)) (suc_lem o l) ∙ take-drop l o rs

  drop_all : (n : ℕ) (rs : List R) → length rs ≤ n → drop n rs ≡ []
  unfolding drop
  drop_all zero [] h = refl
  drop_all (suc n) [] h = refl
  drop_all zero (r ∷ rs) h = absurd (omega arith)
  drop_all (suc n) (r ∷ rs) h = drop_all n rs (omega arith)

  length-drop : (n : ℕ) (rs : List R) → length (drop n rs) ≡ length rs - n
  unfolding drop
  length-drop zero rs = omega arith
  length-drop (suc n) [] = omega arith
  length-drop (suc n) (r ∷ rs) = omega (arith, length-drop n rs)

  length-take : (n : ℕ) (rs : List R) → length (take n rs) ≡ min n (length rs)
  unfolding take
  length-take zero rs = ground arith
  length-take (suc n) [] = ground arith
  length-take (suc n) (r ∷ rs) = ground (arith, length-take n rs)

offset_lem : (p s : ℕ) → (pos (suc p) -ℤ pos 1) *ℤ pos s ≡ pos (p * s)
unfolding ◌-ℤ◌ ◌*ℤ◌
offset_lem p s = grind arith

abbrev joined : {R : Type 0} → List R → Result (List R) → Result (List R)
joined items (ok rest) = ok (items ++ rest)
joined items (err e) = err e

module _ (t s : ℕ) (h : 1 ≤ s) where
  div_parts : s * ((t + s - 1) / s) + (t + s - 1) % s ≡ t + s - 1
  div_parts = div_any (t + s - 1) s

  mod_small : (t + s - 1) % s < s
  mod_small = mod-lt (t + s - 1) h

  ceil_div-le : t ≤ ceil_div t s * s
  ceil_div-le = omega (arith, div_parts, mod_small, mul_comm ((t + s - 1) / s) s)

  ceil_div-lt : (p : ℕ) → p < ceil_div t s → p * s < t
  ceil_div-lt p k = omega (
    arith,
    div_parts,
    mod_small,
    mul_comm ((t + s - 1) / s) s,
    mul-le-mul_right {m = suc p} {n = (t + s - 1) / s} s k,
  )

module _ {R : Type 0} (window : Window R) (rows : List R) (size : ℕ) (h : 1 ≤ size) where
  -- The answer for the page after `p` others.
  abbrev pub page_after : ℕ → PaginatedResponse R
  page_after p = record {
    items = take size (drop (p * size) rows);
    total = length rows;
    page = pos (suc p);
    page_size = pos size;
    total_pages = ceil_div (length rows) size;
  }

  none_lem : length rows ≡ 0 → ceil_div (length rows) size ≡ 0
  none_lem empty = elim (dec_lt 0 (ceil_div (length rows) size)) [
    | yes k ↦ absurd (omega (arith, ceil_div-lt (length rows) size h 0 k))
    | no n ↦ omega arith
  ]

  total_pages_lem : total_pages_of (length rows) (pos size) ≡ ceil_div (length rows) size
  unfolding total_pages_of
  total_pages_lem = elim (Bool-cases (ltb 0 (length rows))) [
    | inl some_rows ↦ rw some_rows (ground arith)
    | inr no_rows ↦ rw no_rows (ground (arith, none_lem (ground arith)))
  ]

  paginate_lem : (p : ℕ) → paginate window rows (pos (suc p)) (pos size) ≡ ok (page_after p)
  unfolding paginate
  paginate_lem p =
      let sliced : window.slice ((pos (suc p) -ℤ pos 1) *ℤ pos size) (pos size) rows
          ≡ ok (take size (drop (p * size) rows)) =
        ap (λ o. window.slice o (pos size) rows) (offset_lem p size)
        ∙ window.slice-pos (p * size) size rows in
      rw (sliced, paginate) (rw total_pages_lem refl)

  -- What a client has that reads so many pages in turn.
  pub read_pages : ℕ → ℕ → Result (List R)
  read_pages zero p = ok []
  read_pages (suc n) p = elim (paginate window rows (pos (suc p)) (pos size)) [
    | err e ↦ err e
    | ok r ↦ joined r.items (read_pages n (suc p))
  ]

  read_pages_lem :
      (n p : ℕ) → length rows ≤ (p + n) * size → read_pages n p ≡ ok (drop (p * size) rows)
  unfolding read_pages
  read_pages_lem zero p enough = ap ok (sym (drop_all (p * size) rows (omega arith)))
  read_pages_lem (suc n) p enough =
      rw (paginate_lem p, read_pages)
        (ap (joined (take size (drop (p * size) rows))) (read_pages_lem n (suc p) (omega arith))
          ∙ ap ok (
              ap (λ n. take size (drop (p * size) rows) ++ drop n rows) (omega (arith, suc_lem p 0))
              ∙ take-drop size (p * size) rows))

  none_before : 0 * size ≡ 0
  none_before = omega arith

  enough : (n : ℕ) → length rows ≤ n * size → length rows ≤ (0 + n) * size
  enough n k = subst (λ m. length rows ≤ m * size) (omega arith) k

  page_length : (p : ℕ) → length (page_after p).items ≡ min size (length rows - p * size)
  page_length p =
      length-take size (drop (p * size) rows) ∙ ap (min size) (length-drop (p * size) rows)

  page_some : (p : ℕ) → p < ceil_div (length rows) size → 1 ≤ length (page_after p).items
  page_some p small = ground (arith, page_length p, ceil_div-lt (length rows) size h p small)

  page_small : (p : ℕ) → length (page_after p).items ≤ size
  page_small p = ground (arith, page_length p)

  -- Where pages have at least one row: reading the pages from 1 up to the answered number of pages gives exactly
  -- the rows, in their order. Each of these pages is answered with at least one row and at most the page size, the
  -- number of all rows, and the number of pages, which is the same on each.
  pub paginate-pages :
      (read_pages (ceil_div (length rows) size) 0 ≡ ok rows)
      × ((p : ℕ)
          → p < ceil_div (length rows) size
          → (r : PaginatedResponse R) × (paginate window rows (pos (suc p)) (pos size) ≡ ok r)
            × (1 ≤ length r.items)
            × (length r.items ≤ size)
            × (r.total ≡ length rows)
            × (r.total_pages ≡ ceil_div (length rows) size))
  unfolding drop
  paginate-pages = (
    read_pages_lem (ceil_div (length rows) size) 0
          (enough (ceil_div (length rows) size) (ceil_div-le (length rows) size h))
        ∙ ap (λ n. ok (drop n rows)) none_before,
    λ p small. (page_after p, paginate_lem p, page_some p small, page_small p, refl, refl),
  )
