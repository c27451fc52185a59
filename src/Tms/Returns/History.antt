-- ===== src/Tms/Returns/History.antt =====
-- What sequences of calls do to a return order.
use mathlib.Core.Bool.{true≢false}
use oms_wms_tms.Prelude.{
  ℕ, ◌≡◌, refl, sym, ap, ◌∙◌, subst, String, Bool, true, false, not, none, some, List, mem_text,
  lookup, by_id, RawId, Option-cases, inl, inr, ◌⊎◌, if◌then◌else◌, Result, ok, err, accepted,
  passed, ok-injective, not_found, validation, or_raise, Txn, left_by, lift, modify, raise_if, pure,
  ◌>>=◌, ◌>>◌, bind_ok, bind_err,
}
use oms_wms_tms.Tms.Requests.{serve, MovesRows, serve-keeps, stored, stored_row}
use oms_wms_tms.Tms.Model.{
  ReturnStatus, in_transit_return, returned_to_warehouse, refunded, closed, ShipmentStatus, pending,
  received_by_carrier, ReturnOrder, Db, load,
}
use oms_wms_tms.Tms.Returns.{
  value, return_key, store, fresh, can_update, update_return_status, can_receive,
  mark_shipment_received, inspected, can_inspect, mark_return_inspected, can_cancel, called_off,
  cancel_return_order,
}

pub data Act : Type 0 where
  update : String → Act
  receive : Act
  inspect : Bool → Act
  cancel : Act

-- A shipment that is back in the warehouse belongs to a refunded or closed return, and before that it is
-- pending.
abbrev pub sound : ReturnStatus → ShipmentStatus → Bool
sound s pending = true
sound refunded returned_to_warehouse = true
sound closed returned_to_warehouse = true
sound s t = false

abbrev pub IsSound : ReturnOrder → Type 0
IsSound r = sound r.status r.shipment_status ≡ true

module _ (column : String → Result ReturnStatus) where
  abbrev pub act : RawId → Act → Txn Db ReturnOrder
  act raw (update target) = update_return_status column raw target
  act raw receive = mark_shipment_received raw
  act raw (inspect approved) = mark_return_inspected raw approved
  act raw cancel = cancel_return_order raw

  abbrev pub call : RawId × Act → Txn Db ReturnOrder
  call (raw, a) = act raw a

  abbrev with_status : ReturnOrder → Result ReturnStatus → Result ReturnOrder
  with_status ret (ok status) = ok (record ret { status = status })
  with_status ret (err e) = err e

  abbrev decide : Act → ReturnOrder → Result ReturnOrder
  decide (update target) ret =
      if can_update ret.status target then with_status ret (column target) else err validation
  decide receive ret =
      if can_receive ret.shipment_status
      then ok (record ret { shipment_status = received_by_carrier; status = in_transit_return })
      else err validation
  decide (inspect approved) ret =
      if can_inspect ret.status then ok (inspected approved ret) else err validation
  decide cancel ret = if can_cancel ret.status then ok (called_off ret) else err validation

  guarded :
      (b : Bool) (r' : ReturnOrder) (db : Db)
      → (raise_if (not b) validation >> (modify (store r') >> pure r')) db
        ≡ stored store (if b then ok r' else err validation) db
  guarded true r' db = refl
  guarded false r' db = refl

  guarded_column :
      (b : Bool) (ret : ReturnOrder) (status : Result ReturnStatus) (db : Db)
      → (raise_if (not b) validation
            >> (lift status >>= λ s.
                modify (store (record ret { status = s })) >> pure (record ret { status = s })))
          db
        ≡ stored store (if b then with_status ret status else err validation) db
  guarded_column true ret (ok s) db = refl
  guarded_column true ret (err e) db = refl
  guarded_column false ret status db = refl

  loaded :
      (f : ReturnOrder → Txn Db ReturnOrder) (j : ℕ) (ret : ReturnOrder) (db : Db)
      → by_id return_key j db.returns ≡ some ret
      → (load return_key Db.returns (some j) >>= f) db ≡ f ret db
  unfolding load
  loaded f j ret db there =
      bind_ok (load return_key Db.returns (some j)) f db
        (ap (λ r. lift (or_raise r not_found) db) there)

  act_known :
      (a : Act) (j : ℕ) (ret : ReturnOrder) (db : Db)
      → by_id return_key j db.returns ≡ some ret
      → act (some j) a db ≡ stored store (decide a ret) db
  unfolding update_return_status mark_shipment_received mark_return_inspected cancel_return_order
  act_known (update target) j ret db there =
      loaded _ j ret db there ∙ guarded_column (can_update ret.status target) ret (column target) db
  act_known receive j ret db there =
      loaded _ j ret db there ∙ guarded (can_receive ret.shipment_status) _ db
  act_known (inspect approved) j ret db there =
      loaded _ j ret db there ∙ guarded (can_inspect ret.status) (inspected approved ret) db
  act_known cancel j ret db there =
      loaded _ j ret db there ∙ guarded (can_cancel ret.status) (called_off ret) db

  unloaded :
      (f : ReturnOrder → Txn Db ReturnOrder) (j : ℕ) (db : Db)
      → by_id return_key j db.returns ≡ none
      → (load return_key Db.returns (some j) >>= f) db ≡ err not_found
  unfolding load
  unloaded f j db missing =
      bind_err (load return_key Db.returns (some j)) f db
        (ap (λ r. lift (or_raise r not_found) db) missing)

  act_missing :
      (a : Act) (j : ℕ) (db : Db)
      → by_id return_key j db.returns ≡ none
      → act (some j) a db ≡ err not_found
  unfolding update_return_status mark_shipment_received mark_return_inspected cancel_return_order
  act_missing (update target) j db missing = unloaded _ j db missing
  act_missing receive j db missing = unloaded _ j db missing
  act_missing (inspect approved) j db missing = unloaded _ j db missing
  act_missing cancel j db missing = unloaded _ j db missing

  act_malformed : (a : Act) (db : Db) → act none a db ≡ err not_found
  unfolding update_return_status mark_shipment_received mark_return_inspected cancel_return_order
      load
  act_malformed (update target) db = refl
  act_malformed receive db = refl
  act_malformed (inspect approved) db = refl
  act_malformed cancel db = refl

  restated :
      (r r' : ReturnOrder) (status : Result ReturnStatus)
      → with_status r status ≡ ok r'
      → (s : ReturnStatus) × (r' ≡ record r { status = s })
  restated r r' (ok s) h = (s, sym (ok-injective h))
  restated r r' (err e) h = cc

  -- What an act made of a return.
  abbrev Move : ReturnOrder → ReturnOrder → Type 0
  Move r r' = (a : Act) × (decide a r ≡ ok r')

  same_id : (a : Act) (r r' : ReturnOrder) → decide a r ≡ ok r' → r'.id ≡ r.id
  same_id (update target) r r' h =
      let (s, made) = restated r r' (column target) (passed validation _ _ _ h).1 in
      ap ReturnOrder.id made
  same_id receive r r' h = sym (ap ReturnOrder.id (accepted validation _ _ _ h).1)
  same_id (inspect approved) r r' h = sym (ap ReturnOrder.id (accepted validation _ _ _ h).1)
  same_id cancel r r' h = sym (ap ReturnOrder.id (accepted validation _ _ _ h).1)

  abbrev Left : ℕ → ReturnOrder → Db → Type 0
  Left i o db' =
      (by_id return_key i db'.returns ≡ some o)
      ⊎ ((o' : ReturnOrder) × Move o o' × (by_id return_key i db'.returns ≡ some o'))

  call_row : MovesRows call return_key Db.returns Move
  call_row (none, a) i o db here =
      subst (λ r. Left i o (left_by r db)) (sym (act_malformed a db)) (inl here)
  call_row (some j, a) i o db here = elim (Option-cases (by_id return_key j db.returns)) [
    | inl missing ↦
        subst (λ r. Left i o (left_by r db)) (sym (act_missing a j db missing)) (inl here)
    | inr (ret, there) ↦
        subst (λ r. Left i o (left_by r db)) (sym (act_known a j ret db there))
          (stored_row return_key Db.returns store Move (λ r db. refl) i j o ret db here there
            (decide a ret) (λ o' h. (same_id a ret o' h, (a, h))))
  ]

  update_sound :
      (target : String) (s s' : ReturnStatus) (t : ShipmentStatus)
      → sound s t ≡ true
      → can_update s target ≡ true
      → sound s' t ≡ true
  unfolding can_update mem_text lookup value
  update_sound target s s' pending h k = refl
  update_sound target refunded s' returned_to_warehouse h k = cc
  update_sound target closed s' returned_to_warehouse h k = cc
  update_sound target s s' t h k = cc

  receive_unsound :
      (s : ReturnStatus) (t : ShipmentStatus) → sound s t ≡ true → can_receive t ≡ false
  unfolding can_receive
  receive_unsound s pending h = refl
  receive_unsound s returned_to_warehouse h = refl
  receive_unsound s t h = cc

  inspected-IsSound : (approved : Bool) (r : ReturnOrder) → IsSound (inspected approved r)
  inspected-IsSound true r = refl
  inspected-IsSound false r = refl

  IsSound-kept : (r r' : ReturnOrder) → IsSound r → Move r r' → IsSound r'
  IsSound-kept r r' h (update target, e) =
      let (legal, rest) = passed validation (can_update r.status target) _ r' e in
      let (s, made) = restated r r' (column target) rest in
      subst IsSound (sym made) (update_sound target r.status s r.shipment_status h legal)
  IsSound-kept r r' h (receive, e) = absurd (
      true≢false
        (sym (accepted validation _ _ _ e).0 ∙ receive_unsound r.status r.shipment_status h))
  IsSound-kept r r' h (inspect approved, e) =
      subst IsSound (accepted validation _ _ _ e).1 (inspected-IsSound approved r)
  IsSound-kept r r' h (cancel, e) = subst IsSound (accepted validation _ _ _ e).1 refl

  -- From the row that a new return starts with, whatever calls are served and whatever the status column
  -- accepts, the return is still there, its shipment has never been received by a carrier, and
  -- `mark_shipment_received` raises a validation error.
  pub serve-unreceived :
      (calls : List (RawId × Act)) (i : ℕ) (return_no : String) (db : Db)
      → by_id return_key i db.returns ≡ some (fresh i return_no)
      → (r : ReturnOrder) × (by_id return_key i (serve call calls db).returns ≡ some r)
        × IsSound r
        × (mark_shipment_received (some i) (serve call calls db) ≡ err validation)
  serve-unreceived calls i return_no db here =
      let (r, found, ok_row) =
        serve-keeps call return_key Db.returns Move call_row IsSound IsSound-kept calls i
          (fresh i return_no) db here refl in
      (
        r,
        found,
        ok_row,
        act_known receive i r (serve call calls db) found
            ∙ ap
                (λ b.
                  stored store
                    (if b
                      then ok (record r {
                        shipment_status = received_by_carrier;
                        status = in_transit_return;
                      })
                      else err validation)
                    (serve call calls db))
                (receive_unsound r.status r.shipment_status ok_row),
      )

  abbrev pub is_settled : ReturnStatus → Bool
  is_settled refunded = true
  is_settled closed = true
  is_settled s = false

  frozen :
      (s : ReturnStatus)
      → is_settled s ≡ true
      → (can_inspect s ≡ false)
        × (can_cancel s ≡ false)
        × ((target : String) → can_update s target ≡ false)
  unfolding can_inspect can_cancel can_update lookup mem_text value
  frozen refunded h = (refl, refl, (λ target. refl))
  frozen closed h = (refl, refl, (λ target. refl))
  frozen s h = (cc, cc, (λ target. cc))

  settled_refused :
      (a : Act) (r : ReturnOrder)
      → IsSound r
      → is_settled r.status ≡ true
      → decide a r ≡ err validation
  settled_refused (update target) r fine settled =
      ap (λ b. if b then with_status r (column target) else err validation)
        ((frozen r.status settled).2 target)
  settled_refused receive r fine settled =
      ap
        (λ b.
          if b
          then ok (record r { shipment_status = received_by_carrier; status = in_transit_return })
          else err validation)
        (receive_unsound r.status r.shipment_status fine)
  settled_refused (inspect approved) r fine settled =
      ap (λ b. if b then ok (inspected approved r) else err validation) (frozen r.status settled).0
  settled_refused cancel r fine settled =
      ap (λ b. if b then ok (called_off r) else err validation) (frozen r.status settled).1

  settled_kept :
      (p r r' : ReturnOrder)
      → (r ≡ p) × IsSound p × (is_settled p.status ≡ true)
      → Move r r'
      → (r' ≡ p) × IsSound p × (is_settled p.status ≡ true)
  settled_kept p r r' (same, fine, settled) (a, e) =
      absurd (refused (subst (λ q. decide a q ≡ ok r') same e) (settled_refused a p fine settled))
    where
      refused : {x : Result ReturnOrder} → x ≡ ok r' → x ≡ err validation → ⊥
      refused h k = cc

  -- A refunded or closed return whose shipment is as the invariant says stays exactly as it is, whatever
  -- calls are served.
  pub serve-settled :
      (calls : List (RawId × Act)) (i : ℕ) (r : ReturnOrder) (db : Db)
      → by_id return_key i db.returns ≡ some r
      → IsSound r
      → is_settled r.status ≡ true
      → by_id return_key i (serve call calls db).returns ≡ some r
  serve-settled calls i r db here fine settled =
      let (r', found, unchanged) =
        serve-keeps call return_key Db.returns Move call_row
          (λ q. (q ≡ r) × IsSound r × (is_settled r.status ≡ true)) (settled_kept r) calls i r db
          here (refl, fine, settled) in
      found ∙ ap (λ q. some q) unchanged.0
