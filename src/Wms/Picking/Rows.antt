-- ===== src/Wms/Picking/Rows.antt =====
-- What `pick_from_stock` of src/wms/services/picking_service.py leaves of the inventory rows.
use oms_wms_tms.Prelude.{ℕ, ◌≡◌, Bool, true, not, ◌&&◌, some, List, [], ◌∷◌, ◌==◌, by_id}
use oms_wms_tms.Prelude.OrderBy.{OrderBy}
use oms_wms_tms.Prelude.Quantified.{all}
use oms_wms_tms.Wms.Model.{Inventory, Db, inventory_key}
use oms_wms_tms.Wms.Picking.{lowered}
use oms_wms_tms.Wms.Picking.Refinement.{apply_picks}

abbrev pub Pick : Type 0
Pick = Inventory × ℕ

abbrev pub apart : ℕ → Pick → Bool
apart k (inv, qty) = not (inv.id == k)

abbrev pub row_apart : ℕ → Inventory → Bool
row_apart k inv = not (inv.id == k)

-- The ids of the rows differ.
abbrev pub distinct : List Inventory → Bool
distinct [] = true
distinct (inv ∷ rows) = all (row_apart inv.id) rows && distinct rows

abbrev pub distinct_picks : List Pick → Bool
distinct_picks [] = true
distinct_picks ((inv, qty) ∷ picks) = all (apart inv.id) picks && distinct_picks picks

-- The row is that of the table.
abbrev pub InTable : Db → Inventory → Type 0
InTable db inv = by_id inventory_key inv.id db.inventory ≡ some inv

abbrev pub Lowered : Db → Pick → Type 0
Lowered db (inv, qty) = by_id inventory_key inv.id db.inventory ≡ some (lowered inv qty)

-- The table after one pick.
abbrev one_pick : Inventory → ℕ → Db → Db
one_pick inv qty db = apply_picks ((inv, qty) ∷ []) db
