-- ===== src/Wms/Waves/History.antt =====
-- What sequences of `start_picking`, `complete_picking`, `create_packing` and `complete_pick` leave.
use native.Mathlib.Decide.{ℕ_discrete}
use mathlib.Core.Bool.{true≢false}
use mathlib.Core.Option.{some-injective}
use oms_wms_tms.Prelude.{
  ℕ, ◌≡◌, refl, sym, ap, ◌∙◌, subst, String, Bool, true, false, not, none, some, List, [], ◌∷◌,
  ◌++◌, str_eq, eq_iff, by_id, by_id-key, by_id-put_ne, by_id-put_self, Option, get_or,
  Option-cases, inl, inr, All, All-append, RawId, err, not_found, validation, or_raise, Txn,
  left_by, committed, lift, modify, raise_if, pure, ◌>>=◌, ◌>>◌, bind_ok, bind_err,
}
use oms_wms_tms.Wms.Model.{PickingWave, PackingRecord, Db, uuid4}
use oms_wms_tms.Wms.Waves.{
  wave_key, store, load_wave, started, start_picking, finished, complete_picking, PackingRequest,
  create_packing, picked, complete_pick,
}

-- A call changes nothing, rewrites a wave that is not completed, packs a completed wave, or completes any wave.
pub data Step (db : Db) : Db → Type 0 where
  refused : Step db db
  rewritten :
      (w w' : PickingWave)
      → by_id wave_key w.id db.picking_waves ≡ some w
      → str_eq w.status "completed" ≡ false
      → w'.id ≡ w.id
      → Step db (store w' db)
  packed :
      (w : PickingWave) (p : PackingRecord) (n : ℕ)
      → by_id wave_key w.id db.picking_waves ≡ some w
      → str_eq w.status "completed" ≡ true
      → p.picking_wave_id ≡ w.id
      → Step db (record db { packing_records = db.packing_records ++ p ∷ []; next_uuid = n })
  repicked :
      (now : ℕ) (quantity : Option ℕ) (w : PickingWave)
      → by_id wave_key w.id db.picking_waves ≡ some w
      → Step db (store (picked now quantity w) db)

pub data Call : Type 0 where
  repick : ℕ → RawId → Option ℕ → Call
  start : ℕ → RawId → RawId → Call
  finish : ℕ → RawId → Call
  pack : PackingRequest → Call

-- The tables after the call, which a call that raises leaves as they were.
abbrev pub after : Call → Db → Db
after (start now raw assignee) = committed (start_picking now raw assignee)
after (finish now raw) = committed (complete_picking now raw)
after (repick now raw quantity) = committed (complete_pick now raw quantity)
after (pack request) = committed (create_packing request)

loaded :
    {A : Type 0} (f : PickingWave → Txn Db A) (j : ℕ) (w : PickingWave) (db : Db)
    → by_id wave_key j db.picking_waves ≡ some w
    → (load_wave (some j) >>= f) db ≡ f w db
unfolding load_wave
loaded f j w db there =
    bind_ok (load_wave (some j)) f db (ap (λ r. lift (or_raise r not_found) db) there)

missing_row :
    {A : Type 0} (f : PickingWave → Txn Db A) (j : ℕ) (db : Db)
    → by_id wave_key j db.picking_waves ≡ none
    → (load_wave (some j) >>= f) db ≡ err not_found
unfolding load_wave
missing_row f j db gone =
    bind_err (load_wave (some j)) f db (ap (λ r. lift (or_raise r not_found) db) gone)

guarded-Step :
    (b : Bool) (w w' : PickingWave) (db : Db)
    → by_id wave_key w.id db.picking_waves ≡ some w
    → (b ≡ true → str_eq w.status "completed" ≡ false)
    → w'.id ≡ w.id
    → Step db (committed (raise_if (not b) validation >> (modify (store w') >> pure w')) db)
guarded-Step true w w' db there open_wave same = rewritten w w' there (open_wave refl) same
guarded-Step false w w' db there open_wave same = refused

pending_open : (s : String) → str_eq s "pending" ≡ true → str_eq s "completed" ≡ false
pending_open s h = subst (λ t. str_eq t "completed" ≡ false) (sym ((eq_iff s "pending").0 h)) refl

running_open : (s : String) → str_eq s "in_progress" ≡ true → str_eq s "completed" ≡ false
running_open s h =
    subst (λ t. str_eq t "completed" ≡ false) (sym ((eq_iff s "in_progress").0 h)) refl

module _ (db : Db) (j : ℕ) where
  at_own_id :
      (w : PickingWave)
      → by_id wave_key j db.picking_waves ≡ some w
      → by_id wave_key w.id db.picking_waves ≡ some w
  at_own_id w there =
      subst (λ k. by_id wave_key k db.picking_waves ≡ some w)
        (sym (by_id-key wave_key j w db.picking_waves there)) there

  -- A step by a call that first loads the wave.
  Step-of :
      {A : Type 0} (f : PickingWave → Txn Db A)
      → ((w : PickingWave)
          → by_id wave_key w.id db.picking_waves ≡ some w
          → Step db (committed (f w) db))
      → Step db (committed (load_wave (some j) >>= f) db)
  Step-of f step = elim (Option-cases (by_id wave_key j db.picking_waves)) [
    | inl gone ↦ subst (λ r. Step db (left_by r db)) (sym (missing_row f j db gone)) refused
    | inr (w, there) ↦
        subst (λ r. Step db (left_by r db)) (sym (loaded f j w db there))
          (step w (at_own_id w there))
  ]

packed-Step :
    (b : Bool) (w : PickingWave) (p : ℕ → PackingRecord) (db : Db)
    → by_id wave_key w.id db.picking_waves ≡ some w
    → str_eq w.status "completed" ≡ b
    → ((n : ℕ) → (p n).picking_wave_id ≡ w.id)
    → Step db (
        committed
          (raise_if (not b) validation
            >> (uuid4 >>= λ id.
                modify (λ db. record db { packing_records = db.packing_records ++ p id ∷ [] })
                >> pure (p id)))
          db)
packed-Step true w p db there done own = packed w (p db.next_uuid) _ there done (own db.next_uuid)
packed-Step false w p db there done own = refused

after-Step : (call : Call) (db : Db) → Step db (after call db)
unfolding start_picking complete_picking create_packing complete_pick load_wave
after-Step (repick now none quantity) db = refused
after-Step (repick now (some j) quantity) db =
    Step-of db j _ (λ w there. repicked now quantity w there)
after-Step (start now none assignee) db = refused
after-Step (start now (some j) assignee) db = Step-of db j _ (λ w there.
    guarded-Step (str_eq w.status "pending") w (started now assignee w) db there
      (pending_open w.status) refl)
after-Step (finish now none) db = refused
after-Step (finish now (some j)) db = Step-of db j _ (λ w there.
    guarded-Step (str_eq w.status "in_progress") w (finished now w) db there (running_open w.status)
      refl)
after-Step (pack request) db = pack_step request.picking_wave_id
  where
    packing : ℕ → PickingWave → PackingRecord
    packing n w = record {
      id = n;
      picking_wave_id = w.id;
      packed_by = get_or request.packed_by "";
      box_count = get_or request.box_count 1;
      notes = get_or request.notes "";
    }

    pack_step :
        (raw : RawId)
        → Step db (
            committed
              (load_wave raw >>= λ w.
                raise_if (not (str_eq w.status "completed")) validation
                >> (uuid4 >>= λ id.
                    modify (λ db. record db {
                      packing_records = db.packing_records ++ packing id w ∷ [];
                    })
                    >> pure (packing id w)))
              db)
    pack_step none = refused
    pack_step (some j) = Step-of db j _ (λ w there.
        packed-Step (str_eq w.status "completed") w (λ n. packing n w) db there refl (λ n. refl))

-- Every packing record is of a wave that is there and completed.
abbrev pub OfCompleted : Db → PackingRecord → Type 0
OfCompleted db p =
    (w : PickingWave) × (by_id wave_key p.picking_wave_id db.picking_waves ≡ some w)
    × (str_eq w.status "completed" ≡ true)

stays :
    (w w' v : PickingWave) (i : ℕ) (db : Db)
    → by_id wave_key w.id db.picking_waves ≡ some w
    → str_eq w.status "completed" ≡ false
    → w'.id ≡ w.id
    → by_id wave_key i db.picking_waves ≡ some v
    → str_eq v.status "completed" ≡ true
    → by_id wave_key i (store w' db).picking_waves ≡ some v
stays w w' v i db there open_wave same here done =
    by_id-put_ne wave_key i w' db.picking_waves (λ e. clash (
      some-injective v w
        (sym here ∙ ap (λ k. by_id wave_key k db.picking_waves) (e ∙ same) ∙ there)))
    ∙ here
  where
    clash : v ≡ w → ⊥
    clash e =
        true≢false (sym done ∙ ap (λ u. str_eq (PickingWave.status u) "completed") e ∙ open_wave)

-- A completed wave that is picked again, or not.
abbrev pub Repicked : PickingWave → PickingWave → Type 0
Repicked v v' = v' ≡ record v { completed_items = v'.completed_items; updated_at = v'.updated_at }

Repicked-trans : (u v w : PickingWave) → Repicked u v → Repicked v w → Repicked u w
Repicked-trans u v w h k = k ∙ ap recounted h
  where
    recounted : PickingWave → PickingWave
    recounted x = record x { completed_items = w.completed_items; updated_at = w.updated_at }

completed_status : (v : PickingWave) → str_eq v.status "completed" ≡ true → "completed" ≡ v.status
completed_status v done = sym ((eq_iff v.status "completed").0 done)

picked-Repicked :
    (now : ℕ) (quantity : Option ℕ) (v : PickingWave)
    → str_eq v.status "completed" ≡ true
    → Repicked v (picked now quantity v)
unfolding picked
picked-Repicked now quantity v done = ap with_status (completed_status v done)
  where
    with_status : String → PickingWave
    with_status t = record v {
      status = t;
      completed_items = (picked now quantity v).completed_items;
      updated_at = (picked now quantity v).updated_at;
    }

-- What a pick leaves of a completed wave.
stays_completed :
    (now : ℕ) (quantity : Option ℕ) (w v : PickingWave) (i : ℕ) (db : Db)
    → by_id wave_key w.id db.picking_waves ≡ some w
    → by_id wave_key i db.picking_waves ≡ some v
    → str_eq v.status "completed" ≡ true
    → (v' : PickingWave) × (by_id wave_key i (store (picked now quantity w) db).picking_waves
        ≡ some v')
      × Repicked v v'
      × (str_eq v'.status "completed" ≡ true)
unfolding picked
stays_completed now quantity w v i db there here done = elim (ℕ_discrete i w.id) [
  | no other ↦
      (v, by_id-put_ne wave_key i (picked now quantity w) db.picking_waves other ∙ here, refl, done)
  | yes same ↦
      let equal : v ≡ w =
        some-injective v w (sym here ∙ ap (λ k. by_id wave_key k db.picking_waves) same ∙ there) in
      (
        picked now quantity w,
        ap (λ k. by_id wave_key k (store (picked now quantity w) db).picking_waves) same
            ∙ by_id-put_self wave_key (picked now quantity w) w db.picking_waves there,
        subst (λ u. Repicked u (picked now quantity w)) (sym equal)
            (picked-Repicked now quantity w
              (subst (λ u. str_eq (PickingWave.status u) "completed" ≡ true) equal done)),
        refl,
      )
]

records_after_pick :
    (now : ℕ) (quantity : Option ℕ) (w : PickingWave) (db : Db) (records : List PackingRecord)
    → by_id wave_key w.id db.picking_waves ≡ some w
    → All (OfCompleted db) records
    → All (OfCompleted (store (picked now quantity w) db)) records
records_after_pick now quantity w db [] there h = tt
records_after_pick now quantity w db (p ∷ records) there ((v, here, done), h) =
    let (v', here', again, done') =
      stays_completed now quantity w v p.picking_wave_id db there here done in
    ((v', here', done'), records_after_pick now quantity w db records there h)

records_stay :
    (w w' : PickingWave) (db : Db) (records : List PackingRecord)
    → by_id wave_key w.id db.picking_waves ≡ some w
    → str_eq w.status "completed" ≡ false
    → w'.id ≡ w.id
    → All (OfCompleted db) records
    → All (OfCompleted (store w' db)) records
records_stay w w' db [] there open_wave same h = tt
records_stay w w' db (p ∷ records) there open_wave same ((v, here, done), h) = (
  (v, stays w w' v p.picking_wave_id db there open_wave same here done, done),
  records_stay w w' db records there open_wave same h,
)

Step-OfCompleted :
    {db db' : Db}
    → Step db db'
    → All (OfCompleted db) db.packing_records
    → All (OfCompleted db') db'.packing_records
Step-OfCompleted refused h = h
Step-OfCompleted {db = db} (rewritten w w' there open_wave same) h =
    records_stay w w' db db.packing_records there open_wave same h
Step-OfCompleted {db = db} (packed w p n there done own) h =
    All-append (OfCompleted db) db.packing_records (p ∷ []) h
      ((w, ap (λ k. by_id wave_key k db.picking_waves) own ∙ there, done), tt)
Step-OfCompleted {db = db} (repicked now quantity w there) h =
    records_after_pick now quantity w db db.packing_records there h

abbrev pub serve : List Call → Db → Db
serve [] db = db
serve (call ∷ calls) db = serve calls (after call db)

-- Where every packing record is of a completed wave, that stays so, whatever calls start, complete, pack and
-- pick waves: the wave of a packing record is never taken back from its completed state.
pub serve-OfCompleted :
    (calls : List Call) (db : Db)
    → All (OfCompleted db) db.packing_records
    → All (OfCompleted (serve calls db)) (serve calls db).packing_records
serve-OfCompleted [] db h = h
serve-OfCompleted (call ∷ calls) db h =
    serve-OfCompleted calls (after call db) (Step-OfCompleted (after-Step call db) h)

Step-completed :
    {db db' : Db} (i : ℕ) (v : PickingWave)
    → Step db db'
    → by_id wave_key i db.picking_waves ≡ some v
    → str_eq v.status "completed" ≡ true
    → (v' : PickingWave) × (by_id wave_key i db'.picking_waves ≡ some v')
      × Repicked v v'
      × (str_eq v'.status "completed" ≡ true)
Step-completed i v refused here done = (v, here, refl, done)
Step-completed {db = db} i v (rewritten w w' there open_wave same) here done =
    (v, stays w w' v i db there open_wave same here done, refl, done)
Step-completed i v (packed w p n there own_done own) here done = (v, here, refl, done)
Step-completed {db = db} i v (repicked now quantity w there) here done =
    stays_completed now quantity w v i db there here done

-- A completed wave stays completed and exactly as it is, but for its number of completed items and its time of change,
-- whatever calls start, complete, pack and pick waves.
pub serve-completed_wave :
    (calls : List Call) (i : ℕ) (v : PickingWave) (db : Db)
    → by_id wave_key i db.picking_waves ≡ some v
    → str_eq v.status "completed" ≡ true
    → (v' : PickingWave) × (by_id wave_key i (serve calls db).picking_waves ≡ some v')
      × Repicked v v'
serve-completed_wave [] i v db here done = (v, here, refl)
serve-completed_wave (call ∷ calls) i v db here done =
    let (u, here', first, done') = Step-completed i v (after-Step call db) here done in
    let (w, there, rest) = serve-completed_wave calls i u (after call db) here' done' in
    (w, there, Repicked-trans v u w first rest)
