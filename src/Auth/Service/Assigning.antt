-- ===== src/Auth/Service/Assigning.antt =====
-- Assignments of roles and permissions that are taken back.
use oms_wms_tms.Prelude.{
  ℕ, ◌≡◌, ap, ◌∙◌, Bool, true, not, some, List, [], ◌∷◌, ◌++◌, arith, by_id, select,
  scalar_one_or_none, ok, err, validation, not_found, or_raise, lift, ◌>>◌, bind_ok,
}
use oms_wms_tms.Auth.Model.{User, Role, UserRole, Db, user_key, role_key, existing, load}
use oms_wms_tms.Auth.Service.{is_user_role, assign_role_to_user, remove_role_from_user}

-- With a row that alone passes the test added at the end, a query gives that row, and its other side the rest.
select-snoc :
    {R : Type 0} (p : R → Bool) (rs : List R) (a : R)
    → select p rs ≡ []
    → p a ≡ true
    → select p (rs ++ a ∷ []) ≡ a ∷ []
unfolding select
select-snoc p [] a h own = ground arith
select-snoc p (x ∷ rs) a h own = ground (arith, select-snoc p rs a)

select-not-snoc :
    {R : Type 0} (p : R → Bool) (rs : List R) (a : R)
    → select p rs ≡ []
    → p a ≡ true
    → select (λ r. not (p r)) (rs ++ a ∷ []) ≡ rs
unfolding select
select-not-snoc p [] a h own = ground arith
select-not-snoc p (x ∷ rs) a h own = ground (arith, select-not-snoc p rs a)

own_user_role : (u r : ℕ) → is_user_role u r (record { user_id = u; role_id = r }) ≡ true
own_user_role u r = ground arith

abbrev assigned : ℕ → ℕ → Db → Db
assigned u r db = record db {
  user_roles = db.user_roles ++ record { user_id = u; role_id = r } ∷ [];
}

assign_lem :
    (i j : ℕ) (u : User) (r : Role) (db : Db)
    → by_id user_key i db.users ≡ some u
    → by_id role_key j db.roles ≡ some r
    → select (is_user_role i j) db.user_roles ≡ []
    → assign_role_to_user (some i) (some j) db
      ≡ ok (record { user_id = i; role_id = j }, assigned i j db)
unfolding assign_role_to_user scalar_one_or_none
assign_lem i j u r db here there none_like =
    bind_ok (load user_key (λ (db : Db). db.users) i) _ db
      (ap (λ o. lift (or_raise o not_found) db) here)
    ∙ bind_ok (load role_key (λ (db : Db). db.roles) j) _ db
        (ap (λ o. lift (or_raise o not_found) db) there)
    ∙ bind_ok (existing (λ (db : Db). select (is_user_role i j) db.user_roles)) _ db
        (ap (λ rows. lift (scalar_one_or_none rows) db) none_like)

remove_lem :
    (i j : ℕ) (db : Db)
    → select (is_user_role i j) db.user_roles ≡ []
    → remove_role_from_user (some i) (some j) (assigned i j db) ≡ ok (tt, db)
unfolding remove_role_from_user scalar_one_or_none
remove_lem i j db none_like =
    let x : UserRole = record { user_id = i; role_id = j } in
    bind_ok (existing (λ (db : Db). select (is_user_role i j) db.user_roles)) _ (assigned i j db) (
      ap (λ rows. lift (scalar_one_or_none rows) (assigned i j db))
        (select-snoc (is_user_role i j) db.user_roles x none_like (own_user_role i j)))
    ∙ ap (λ rows. ok (tt, record db { user_roles = rows }))
        (select-not-snoc (is_user_role i j) db.user_roles x none_like (own_user_role i j))

again_lem :
    (i j : ℕ) (u : User) (r : Role) (db : Db)
    → by_id user_key i db.users ≡ some u
    → by_id role_key j db.roles ≡ some r
    → select (is_user_role i j) db.user_roles ≡ []
    → assign_role_to_user (some i) (some j) (assigned i j db) ≡ err validation
unfolding assign_role_to_user scalar_one_or_none
again_lem i j u r db here there none_like =
    let db' : Db = assigned i j db in
    bind_ok (load user_key (λ (db : Db). db.users) i) _ db'
      (ap (λ o. lift (or_raise o not_found) db') here)
    ∙ bind_ok (load role_key (λ (db : Db). db.roles) j) _ db'
        (ap (λ o. lift (or_raise o not_found) db') there)
    ∙ bind_ok (existing (λ (db : Db). select (is_user_role i j) db.user_roles)) _ db' (
        ap (λ rows. lift (scalar_one_or_none rows) db')
          (select-snoc (is_user_role i j) db.user_roles _ none_like (own_user_role i j)))

-- A role that exists is assigned to a user that exists and does not have it: the call succeeds, and taking the
-- role back then gives exactly the tables from before. A second assignment in its place is refused.
pub assign_role_to_user-remove :
    (i j : ℕ) (u : User) (r : Role) (db : Db)
    → by_id user_key i db.users ≡ some u
    → by_id role_key j db.roles ≡ some r
    → select (is_user_role i j) db.user_roles ≡ []
    → ((assign_role_to_user (some i) (some j) >> remove_role_from_user (some i) (some j)) db
        ≡ ok (tt, db))
      × ((assign_role_to_user (some i) (some j) >> assign_role_to_user (some i) (some j)) db
          ≡ err validation)
assign_role_to_user-remove i j u r db here there none_like =
    let done = assign_lem i j u r db here there none_like in
    (
      bind_ok (assign_role_to_user (some i) (some j)) _ db done ∙ remove_lem i j db none_like,
      bind_ok (assign_role_to_user (some i) (some j)) _ db done
          ∙ again_lem i j u r db here there none_like,
    )
