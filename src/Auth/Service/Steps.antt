-- ===== src/Auth/Service/Steps.antt =====
-- What a call of src/auth/service.py may do to the tables.
use oms_wms_tms.Prelude.{
  ℕ, ◌≡◌, refl, sym, ap, subst, String, Bool, true, false, Option, none, some, List, [], ◌∷◌, ◌++◌,
  str_eq, Bool-cases, Option-cases, inl, inr, by_id, by_id-key, select, put, is_some,
  scalar_one_or_none, RawId, not_found, validation, or_raise, Txn, left_by, committed, lift, modify,
  raise_if, pure, ◌>>=◌, ◌>>◌, bind_ok, bind_err,
}
use oms_wms_tms.Auth.Model.{
  User, Role, Permission, UserRole, RolePermission, Db, user_key, role_key, permission_key, load,
}
use oms_wms_tms.Auth.Service.{
  Registration, clashes, ensure_admin, register_user, RoleRequest, create_role, described,
  update_role, without_role, delete_role, PermissionRequest, create_permission, is_user_role,
  assign_role_to_user, remove_role_from_user, is_role_permission, assign_permission_to_role,
  remove_permission_from_role,
}

pub data Step (db : Db) : Db → Type 0 where
  refused : Step db db
  registered :
      (u : User) (n : ℕ)
      → select (clashes u.username u.email) db.users ≡ []
      → Step db (record db { users = db.users ++ u ∷ []; next_uuid = n; admin_seeded = true })
  role_created :
      (r : Role) (n : ℕ)
      → select (λ (q : Role). str_eq q.code r.code) db.roles ≡ []
      → Step db (record db { roles = db.roles ++ r ∷ []; next_uuid = n })
  role_updated :
      (r r' : Role)
      → by_id role_key r.id db.roles ≡ some r
      → r'.id ≡ r.id
      → r'.code ≡ r.code
      → r'.is_system ≡ r.is_system
      → Step db (record db { roles = put role_key r' db.roles })
  role_deleted :
      (r : Role)
      → by_id role_key r.id db.roles ≡ some r
      → r.is_system ≡ false
      → Step db (without_role r.id db)
  permission_created :
      (p : Permission) (n : ℕ)
      → select (λ (q : Permission). str_eq q.code p.code) db.permissions ≡ []
      → Step db (record db { permissions = db.permissions ++ p ∷ []; next_uuid = n })
  role_assigned :
      (x : UserRole)
      → select (is_user_role x.user_id x.role_id) db.user_roles ≡ []
      → Step db (record db { user_roles = db.user_roles ++ x ∷ [] })
  role_removed : (p : UserRole → Bool) → Step db (record db { user_roles = select p db.user_roles })
  permission_assigned :
      (x : RolePermission)
      → select (is_role_permission x.role_id x.permission_id) db.role_permissions ≡ []
      → Step db (record db { role_permissions = db.role_permissions ++ x ∷ [] })
  permission_removed :
      (p : RolePermission → Bool)
      → Step db (record db { role_permissions = select p db.role_permissions })

pub data Call : Type 0 where
  register : (String → String) → Registration → Call
  new_role : RoleRequest → Call
  change_role : RawId → Option String → Option String → Call
  drop_role : RawId → Call
  new_permission : PermissionRequest → Call
  assign_role remove_role assign_permission remove_permission : RawId → RawId → Call

-- The tables after the call, which a call that raises leaves as they were.
abbrev pub after : Call → Db → Db
after (register hash_password request) = committed (register_user hash_password request)
after (new_role request) = committed (create_role request)
after (change_role raw name description) = committed (update_role raw name description)
after (drop_role raw) = committed (delete_role raw)
after (new_permission request) = committed (create_permission request)
after (assign_role user role) = committed (assign_role_to_user user role)
after (remove_role user role) = committed (remove_role_from_user user role)
after (assign_permission role permission) = committed (assign_permission_to_role role permission)
after (remove_permission role permission) = committed (remove_permission_from_role role permission)

-- A call that goes on only where a query has no row.
fresh-Step :
    {R A : Type 0} (rows : List R) (k : Txn Db A) (db : Db)
    → (rows ≡ [] → Step db (committed k db))
    → Step db (
        committed
          ((λ (db : Db). lift (scalar_one_or_none rows) db) >>= λ found.
            raise_if (is_some found) validation >> k)
          db)
unfolding scalar_one_or_none
fresh-Step [] k db step = step refl
fresh-Step (x ∷ []) k db step = refused
fresh-Step (x ∷ y ∷ rows) k db step = refused

-- A call that goes on with the one row of a query.
one-Step :
    {R A : Type 0} (rows : List R) (k : R → Txn Db A) (db : Db)
    → ((r : R) → Step db (committed (k r) db))
    → Step db (
        committed
          ((λ (db : Db). lift (scalar_one_or_none rows) db) >>= λ found.
            lift (or_raise found not_found) >>= k)
          db)
unfolding scalar_one_or_none
one-Step [] k db step = refused
one-Step (x ∷ []) k db step = step x
one-Step (x ∷ y ∷ rows) k db step = refused

-- A call that goes on with the row of an id.
load-Step :
    {R A : Type 0} (key : R → ℕ) (table : Db → List R) (i : ℕ) (k : R → Txn Db A) (db : Db)
    → ((r : R) → by_id key (key r) (table db) ≡ some r → Step db (committed (k r) db))
    → Step db (committed (load key table i >>= k) db)
load-Step key table i k db step = elim (Option-cases (by_id key i (table db))) [
  | inl gone ↦
      subst (λ r. Step db (left_by r db))
        (sym (bind_err (load key table i) k db (ap (λ o. lift (or_raise o not_found) db) gone)))
        refused
  | inr (r, there) ↦
      subst (λ r. Step db (left_by r db))
        (sym (bind_ok (load key table i) k db (ap (λ o. lift (or_raise o not_found) db) there)))
        (step r (
          subst (λ j. by_id key j (table db) ≡ some r) (sym (by_id-key key i r (table db) there))
            there))
]

-- A call that adds a user and ends with the flag set.
seeded-Step :
    (u : User) (n : ℕ) (db : Db)
    → select (clashes u.username u.email) db.users ≡ []
    → Step db (
        left_by
          ((ensure_admin >> pure u) (record db { users = db.users ++ u ∷ []; next_uuid = n }))
          db)
unfolding ensure_admin
seeded-Step u n db none_like = elim (Bool-cases db.admin_seeded) [
  | inl seeded ↦ rw seeded (registered u n none_like)
  | inr unseeded ↦ rw unseeded (registered u n none_like)
]

register-Step :
    (hash_password : String → String) (request : Registration) (db : Db)
    → Step db (after (register hash_password request) db)
unfolding register_user
register-Step hash_password request db =
    fresh-Step (select (clashes request.username request.email) db.users) _ db
      (λ none_like. seeded-Step _ _ db none_like)

create_role-Step : (request : RoleRequest) (db : Db) → Step db (after (new_role request) db)
unfolding create_role
create_role-Step request db =
    fresh-Step (select (λ (r : Role). str_eq r.code request.code) db.roles) _ db
      (λ none_like. role_created _ _ none_like)

update_role-Step :
    (raw : RawId) (name description : Option String) (db : Db)
    → Step db (after (change_role raw name description) db)
unfolding update_role
update_role-Step none name description db = refused
update_role-Step (some i) name description db =
    load-Step role_key (λ (db : Db). db.roles) i _ db
      (λ r there. role_updated r (described name description r) there refl refl refl)

guarded-Step :
    (b : Bool) (f : Db → Db) (db : Db)
    → (b ≡ false → Step db (f db))
    → Step db (committed (raise_if b validation >> modify f) db)
guarded-Step true f db step = refused
guarded-Step false f db step = step refl

delete_role-Step : (raw : RawId) (db : Db) → Step db (after (drop_role raw) db)
unfolding delete_role
delete_role-Step none db = refused
delete_role-Step (some i) db =
    load-Step role_key (λ (db : Db). db.roles) i _ db
      (λ r there. guarded-Step r.is_system (without_role r.id) db (role_deleted r there))

create_permission-Step :
    (request : PermissionRequest) (db : Db) → Step db (after (new_permission request) db)
unfolding create_permission
create_permission-Step request db =
    fresh-Step (select (λ (p : Permission). str_eq p.code request.code) db.permissions) _ db
      (λ none_like. permission_created _ _ none_like)

assign_role-Step :
    (raw_user raw_role : RawId) (db : Db) → Step db (after (assign_role raw_user raw_role) db)
unfolding assign_role_to_user
assign_role-Step none raw_role db = refused
assign_role-Step (some user) none db =
    load-Step user_key (λ (db : Db). db.users) user _ db (λ u there. refused)
assign_role-Step (some user) (some role) db =
    load-Step user_key (λ (db : Db). db.users) user _ db
      (λ u there.
        load-Step role_key (λ (db : Db). db.roles) role _ db
          (λ r known.
            fresh-Step (select (is_user_role user role) db.user_roles) _ db
              (λ none_like. role_assigned _ none_like)))

remove_role-Step :
    (raw_user raw_role : RawId) (db : Db) → Step db (after (remove_role raw_user raw_role) db)
unfolding remove_role_from_user
remove_role-Step none raw_role db = refused
remove_role-Step (some user) none db = refused
remove_role-Step (some user) (some role) db =
    one-Step (select (is_user_role user role) db.user_roles) _ db (λ x. role_removed _)

assign_permission-Step :
    (raw_role raw_permission : RawId) (db : Db)
    → Step db (after (assign_permission raw_role raw_permission) db)
unfolding assign_permission_to_role
assign_permission-Step none raw_permission db = refused
assign_permission-Step (some role) none db =
    load-Step role_key (λ (db : Db). db.roles) role _ db (λ u there. refused)
assign_permission-Step (some role) (some permission) db =
    load-Step role_key (λ (db : Db). db.roles) role _ db
      (λ u there.
        load-Step permission_key (λ (db : Db). db.permissions) permission _ db
          (λ r known.
            fresh-Step (select (is_role_permission role permission) db.role_permissions) _ db
              (λ none_like. permission_assigned _ none_like)))

remove_permission-Step :
    (raw_role raw_permission : RawId) (db : Db)
    → Step db (after (remove_permission raw_role raw_permission) db)
unfolding remove_permission_from_role
remove_permission-Step none raw_permission db = refused
remove_permission-Step (some role) none db = refused
remove_permission-Step (some role) (some permission) db =
    one-Step (select (is_role_permission role permission) db.role_permissions) _ db
      (λ x. permission_removed _)

pub after-Step : (call : Call) (db : Db) → Step db (after call db)
after-Step (register hash_password request) db = register-Step hash_password request db
after-Step (new_role request) db = create_role-Step request db
after-Step (change_role raw name description) db = update_role-Step raw name description db
after-Step (drop_role raw) db = delete_role-Step raw db
after-Step (new_permission request) db = create_permission-Step request db
after-Step (assign_role user role) db = assign_role-Step user role db
after-Step (remove_role user role) db = remove_role-Step user role db
after-Step (assign_permission role permission) db = assign_permission-Step role permission db
after-Step (remove_permission role permission) db = remove_permission-Step role permission db
