-- ===== src/Core/Pagination.antt =====
-- `paginate` of src/core/pagination.py. `Pages` is about all pages of a query.
pub mod Pages
use oms_wms_tms.Prelude.{
  ℕ, zero, suc, ◌+◌, ◌-◌, ◌/◌, ◌≡◌, Bool, List, [], ◌∷◌, ◌&&◌, ltb, if◌then◌else◌, length, Result,
  ok, err,
}
use oms_wms_tms.Prelude.Int.{ℤ, pos, ◌-ℤ◌, ◌*ℤ◌, pos_part, ltb_ℤ}

module _ {R : Type 0} where
  pub take : ℕ → List R → List R
  take zero rs = []
  take (suc n) [] = []
  take (suc n) (r ∷ rs) = r ∷ take n rs

  pub drop : ℕ → List R → List R
  drop zero rs = rs
  drop (suc n) [] = []
  drop (suc n) (r ∷ rs) = drop n rs

-- `OFFSET` and `LIMIT` of the database: for numbers that are not negative a part of the rows.
pub record Window (R : Type 0) : Type 0 where
  pub slice : ℤ → ℤ → List R → Result (List R)
  pub slice-pos : (o l : ℕ) (rows : List R) → slice (pos o) (pos l) rows ≡ ok (take l (drop o rows))

pub record PaginatedResponse (R : Type 0) : Type 0 where
  pub items : List R
  pub total : ℕ
  pub page : ℤ
  pub page_size : ℤ
  pub total_pages : ℕ

-- `math.ceil(total / page_size)` for positive numbers; below 2 ^ 53 the float quotient rounds to the same.
abbrev pub ceil_div : ℕ → ℕ → ℕ
ceil_div total size = (total + size - 1) / size

unfoldable pub total_pages_of : ℕ → ℤ → ℕ
total_pages_of total page_size =
    if ltb_ℤ (pos 0) page_size && ltb 0 total then ceil_div total (pos_part page_size) else 0

-- `paginate` of a query with the given rows, in the order in which the database returns them.
unfoldable pub paginate : {R : Type 0} → Window R → List R → ℤ → ℤ → Result (PaginatedResponse R)
unfolding total_pages_of
paginate window rows page page_size =
    elim (window.slice ((page -ℤ pos 1) *ℤ page_size) page_size rows) [
      | err e ↦ err e
      | ok items ↦ ok (record {
        items = items;
        total = length rows;
        page = page;
        page_size = page_size;
        total_pages = total_pages_of (length rows) page_size;
      })
    ]
