-- ===== src/Auth/Service/History.antt =====
-- What sequences of calls of src/auth/service.py keep.
use mathlib.Core.Bool.{true≢false}
use mathlib.Core.Option.{some-injective}
use oms_wms_tms.Prelude.{
  ℕ, ◌≡◌, sym, ap, ◌∙◌, subst, String, true, false, not, some, List, [], ◌∷◌, arith, str_eq, ◌==◌,
  Bool-cases, inl, inr, by_id, by_id-append, by_id-put_self, by_id-put_ne, select, put,
}
use oms_wms_tms.Prelude.Distinct.{Distinct, Distinct-snoc, Distinct-select, Distinct-put}
use oms_wms_tms.Auth.Model.{User, Role, Permission, UserRole, RolePermission, Db, role_key}
use oms_wms_tms.Auth.Service.{clashes, is_user_role, is_role_permission}
use oms_wms_tms.Auth.Service.Steps.{
  Step, refused, registered, role_created, role_updated, role_deleted, permission_created,
  role_assigned, role_removed, permission_assigned, permission_removed, Call, after, after-Step,
}

abbrev pub serve : List Call → Db → Db
serve [] db = db
serve (call ∷ calls) db = serve calls (after call db)

-- No two users share a username or an email, no two roles or permissions a code, and no assignment is there
-- twice.
pub record IsUnique (db : Db) : Type 0 where
  pub users : Distinct (λ (u v : User). clashes v.username v.email u) db.users
  pub roles : Distinct (λ (r q : Role). str_eq r.code q.code) db.roles
  pub permissions : Distinct (λ (p q : Permission). str_eq p.code q.code) db.permissions
  pub user_roles : Distinct (λ (x y : UserRole). is_user_role y.user_id y.role_id x) db.user_roles
  pub role_permissions :
      Distinct
        (λ (x y : RolePermission). is_role_permission y.role_id y.permission_id x)
        db.role_permissions

Step-IsUnique : {db db' : Db} → Step db db' → IsUnique db → IsUnique db'
Step-IsUnique refused h = h
Step-IsUnique (registered u n none_like) h = record {
  users = Distinct-snoc _ _ u none_like h.users;
  roles = h.roles;
  permissions = h.permissions;
  user_roles = h.user_roles;
  role_permissions = h.role_permissions;
}
Step-IsUnique (role_created r n none_like) h = record {
  users = h.users;
  roles = Distinct-snoc _ _ r none_like h.roles;
  permissions = h.permissions;
  user_roles = h.user_roles;
  role_permissions = h.role_permissions;
}
Step-IsUnique {db} (role_updated r r' there same_id same_code same_kind) h = record {
  users = h.users;
  roles =
      Distinct-put str_eq (λ (q : Role). q.code) role_key r' r db.roles
        (subst (λ i. by_id role_key i db.roles ≡ some r) (sym same_id) there) same_code h.roles;
  permissions = h.permissions;
  user_roles = h.user_roles;
  role_permissions = h.role_permissions;
}
Step-IsUnique (role_deleted r there kind) h = record {
  users = h.users;
  roles = Distinct-select _ _ _ h.roles;
  permissions = h.permissions;
  user_roles = Distinct-select _ _ _ h.user_roles;
  role_permissions = Distinct-select _ _ _ h.role_permissions;
}
Step-IsUnique (permission_created p n none_like) h = record {
  users = h.users;
  roles = h.roles;
  permissions = Distinct-snoc _ _ p none_like h.permissions;
  user_roles = h.user_roles;
  role_permissions = h.role_permissions;
}
Step-IsUnique (role_assigned x none_like) h = record {
  users = h.users;
  roles = h.roles;
  permissions = h.permissions;
  user_roles = Distinct-snoc _ _ x none_like h.user_roles;
  role_permissions = h.role_permissions;
}
Step-IsUnique (role_removed p) h = record {
  users = h.users;
  roles = h.roles;
  permissions = h.permissions;
  user_roles = Distinct-select _ p _ h.user_roles;
  role_permissions = h.role_permissions;
}
Step-IsUnique (permission_assigned x none_like) h = record {
  users = h.users;
  roles = h.roles;
  permissions = h.permissions;
  user_roles = h.user_roles;
  role_permissions = Distinct-snoc _ _ x none_like h.role_permissions;
}
Step-IsUnique (permission_removed p) h = record {
  users = h.users;
  roles = h.roles;
  permissions = h.permissions;
  user_roles = h.user_roles;
  role_permissions = Distinct-select _ p _ h.role_permissions;
}

-- Where no two users share a username or an email, no two roles or permissions a code, and no assignment is
-- there twice, that stays so, whatever calls are served.
pub serve-IsUnique : (calls : List Call) (db : Db) → IsUnique db → IsUnique (serve calls db)
serve-IsUnique [] db h = h
serve-IsUnique (call ∷ calls) db h =
    serve-IsUnique calls (after call db) (Step-IsUnique (after-Step call db) h)

-- A system role with an id and a code is in the table.
abbrev pub HasSystemRole : ℕ → String → Db → Type 0
HasSystemRole i code db =
    (r : Role) × (by_id role_key i db.roles ≡ some r) × (r.is_system ≡ true) × (r.code ≡ code)

by_id-select_other :
    (i j : ℕ) (r : Role) (rs : List Role)
    → by_id role_key i rs ≡ some r
    → (i == j) ≡ false
    → by_id role_key i (select (λ q. not (q.id == j)) rs) ≡ some r
unfolding by_id select
by_id-select_other i j r [] there other = cc
by_id-select_other i j r (x ∷ rs) there other = ground (arith, by_id-select_other i j r rs)

equal : (i j : ℕ) → (i == j) ≡ true → i ≡ j
equal i j h = ground arith

same_row :
    (i : ℕ) (q r : Role) (db : Db)
    → (i == q.id) ≡ true
    → by_id role_key i db.roles ≡ some r
    → by_id role_key q.id db.roles ≡ some q
    → q ≡ r
same_row i q r db same there found =
    some-injective q r
      (sym found ∙ subst (λ j. by_id role_key j db.roles ≡ some r) (equal i q.id same) there)

Step-HasSystemRole :
    {db db' : Db} (i : ℕ) (code : String)
    → Step db db'
    → HasSystemRole i code db
    → HasSystemRole i code db'
Step-HasSystemRole i code refused h = h
Step-HasSystemRole i code (registered u n none_like) h = h
Step-HasSystemRole {db} i code (role_created q n none_like) (r, there, kind, own) =
    (r, by_id-append role_key i r db.roles (q ∷ []) there, kind, own)
Step-HasSystemRole {db} i code (role_updated q q' found same_id same_code same_kind)
      (r, there, kind, own) =
    elim (Bool-cases (i == q.id)) [
      | inl same ↦
          let e : q ≡ r = same_row i q r db same there found in
          (
            q',
            subst (λ j. by_id role_key j (put role_key q' db.roles) ≡ some q')
                (same_id ∙ sym (equal i q.id same))
                (by_id-put_self role_key q' q db.roles
                  (subst (λ j. by_id role_key j db.roles ≡ some q) (sym same_id) found)),
            same_kind ∙ ap (λ (x : Role). x.is_system) e ∙ kind,
            same_code ∙ ap (λ (x : Role). x.code) e ∙ own,
          )
      | inr other ↦ (r, by_id-put_ne role_key i q' db.roles (ground arith) ∙ there, kind, own)
    ]
Step-HasSystemRole {db} i code (role_deleted q found kind') (r, there, kind, own) =
    elim (Bool-cases (i == q.id)) [
      | inl same ↦ absurd (
          true≢false (
            sym kind
            ∙ sym (ap (λ (x : Role). x.is_system) (same_row i q r db same there found))
            ∙ kind'))
      | inr other ↦ (r, by_id-select_other i q.id r db.roles there other, kind, own)
    ]
Step-HasSystemRole i code (permission_created p n none_like) h = h
Step-HasSystemRole i code (role_assigned x none_like) h = h
Step-HasSystemRole i code (role_removed p) h = h
Step-HasSystemRole i code (permission_assigned x none_like) h = h
Step-HasSystemRole i code (permission_removed p) h = h

-- A system role stays in the table under its id, as a system role and with its code, whatever calls are
-- served.
pub serve-HasSystemRole :
    (calls : List Call) (i : ℕ) (code : String) (db : Db)
    → HasSystemRole i code db
    → HasSystemRole i code (serve calls db)
serve-HasSystemRole [] i code db h = h
serve-HasSystemRole (call ∷ calls) i code db h =
    serve-HasSystemRole calls i code (after call db)
      (Step-HasSystemRole i code (after-Step call db) h)
