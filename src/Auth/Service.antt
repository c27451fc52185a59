-- ===== src/Auth/Service.antt =====
-- src/auth/service.py: users, roles, permissions and their assignments. `Steps` gives what each call may do to
-- the tables, `History` what sequences of calls keep, `Assigning` is about assignments that are taken back.
pub mod Steps
pub mod History
pub mod Assigning
use oms_wms_tms.Prelude.{
  ℕ, String, Bool, true, false, not, ◌&&◌, ◌||◌, Option, none, some, List, [], ◌∷◌, ◌++◌, str_eq,
  ◌==◌, if◌then◌else◌, select, put, get_or, is_some, validation, not_found, value_error, or_raise,
  RawId, Txn, pure, lift, gets, modify, raise_if, ◌>>=◌, ◌>>◌,
}
use oms_wms_tms.Auth.Model.{
  User, Role, Permission, UserRole, RolePermission, Db, uuid4, user_key, role_key, permission_key,
  existing, load,
}

pub record Registration : Type 0 where
  pub username : String
  pub email : String
  pub password : String

unfoldable pub clashes : String → String → User → Bool
clashes username email u = str_eq u.username username || str_eq u.email email

-- `_ensure_admin`: both branches end with the flag set.
unfoldable pub ensure_admin : Txn Db (Unit {0})
ensure_admin = do
  seeded ← gets (λ (db : Db). db.admin_seeded)
  if seeded then pure tt else modify (λ (db : Db). record db { admin_seeded = true })

-- `register_user`; `hash_password` is bcrypt's hash with the salt of this call.
unfoldable pub register_user : (hash_password : String → String) → Registration → Txn Db User
unfolding clashes select ensure_admin
register_user hash_password request = do
  found ← existing (λ (db : Db). select (clashes request.username request.email) db.users)
  raise_if (is_some found) validation
  id ← uuid4
  let user : User = record {
    id = id;
    username = request.username;
    email = request.email;
    hashed_password = hash_password request.password;
    is_active = true;
  }
  modify (λ (db : Db). record db { users = db.users ++ user ∷ [] })
  ensure_admin
  pure user

-- `authenticate_user`; `verify_password` is bcrypt's check.
unfoldable pub authenticate_user :
    (verify_password : String → String → Bool) → String → String → Txn Db (Option User)
unfolding select
authenticate_user verify_password username password = do
  found ← existing (λ (db : Db). select (λ (u : User). str_eq u.username username) db.users)
  pure (elim found [
    | none ↦ none
    | some u ↦
        if not (verify_password password u.hashed_password)
        then none
        else if not u.is_active
        then none
        else some u
  ])

unfoldable pub get_user_by_id : RawId → Txn Db User
get_user_by_id raw = do i ← lift (or_raise raw value_error); load user_key (λ (db : Db). db.users) i

unfoldable pub get_user_by_username : String → Txn Db (Option User)
unfolding select
get_user_by_username username =
    existing (λ (db : Db). select (λ (u : User). str_eq u.username username) db.users)

pub record RoleRequest : Type 0 where
  pub name : String
  pub code : String
  pub description : Option String

unfoldable pub create_role : RoleRequest → Txn Db Role
unfolding select
create_role request = do
  found ← existing (λ (db : Db). select (λ (r : Role). str_eq r.code request.code) db.roles)
  raise_if (is_some found) validation
  id ← uuid4
  let role : Role = record {
    id = id;
    name = request.name;
    code = request.code;
    description = request.description;
    is_system = false;
  }
  modify (λ (db : Db). record db { roles = db.roles ++ role ∷ [] })
  pure role

-- The changes of `update_role`, where a request gives them.
abbrev pub described : Option String → Option String → Role → Role
described name description r = record r {
  name = get_or name r.name;
  description = elim description [ none ↦ r.description | some d ↦ some d ];
}

unfoldable pub update_role : RawId → Option String → Option String → Txn Db Role
unfolding put
update_role raw name description = do
  i ← lift (or_raise raw value_error)
  r ← load role_key (λ (db : Db). db.roles) i
  modify (λ (db : Db). record db { roles = put role_key (described name description r) db.roles })
  pure (described name description r)

-- The row goes, and by the foreign keys (`ondelete="CASCADE"`) its assignments.
abbrev pub without_role : ℕ → Db → Db
without_role i db = record db {
  roles = select (λ r. not (r.id == i)) db.roles;
  user_roles = select (λ x. not (x.role_id == i)) db.user_roles;
  role_permissions = select (λ x. not (x.role_id == i)) db.role_permissions;
}

unfoldable pub delete_role : RawId → Txn Db (Unit {0})
unfolding select
delete_role raw = do
  i ← lift (or_raise raw value_error)
  r ← load role_key (λ (db : Db). db.roles) i
  raise_if r.is_system validation
  modify (without_role r.id)

pub record PermissionRequest : Type 0 where
  pub name : String
  pub code : String
  pub resource : String
  pub action : String
  pub description : Option String

unfoldable pub create_permission : PermissionRequest → Txn Db Permission
unfolding select
create_permission request = do
  found ←
      existing (λ (db : Db). select (λ (p : Permission). str_eq p.code request.code) db.permissions)
  raise_if (is_some found) validation
  id ← uuid4
  let perm : Permission = record {
    id = id;
    name = request.name;
    code = request.code;
    resource = request.resource;
    action = request.action;
    description = request.description;
  }
  modify (λ (db : Db). record db { permissions = db.permissions ++ perm ∷ [] })
  pure perm

abbrev pub is_user_role : ℕ → ℕ → UserRole → Bool
is_user_role user role x = x.user_id == user && x.role_id == role

unfoldable pub assign_role_to_user : RawId → RawId → Txn Db UserRole
unfolding select
assign_role_to_user raw_user raw_role = do
  user ← lift (or_raise raw_user value_error)
  u ← load user_key (λ (db : Db). db.users) user
  role ← lift (or_raise raw_role value_error)
  r ← load role_key (λ (db : Db). db.roles) role
  found ← existing (λ (db : Db). select (is_user_role user role) db.user_roles)
  raise_if (is_some found) validation
  modify (λ (db : Db). record db {
    user_roles = db.user_roles ++ record { user_id = user; role_id = role } ∷ [];
  })
  pure (record { user_id = user; role_id = role })

unfoldable pub remove_role_from_user : RawId → RawId → Txn Db (Unit {0})
unfolding select
remove_role_from_user raw_user raw_role = do
  user ← lift (or_raise raw_user value_error)
  role ← lift (or_raise raw_role value_error)
  found ← existing (λ (db : Db). select (is_user_role user role) db.user_roles)
  x ← lift (or_raise found not_found)
  modify (λ (db : Db). record db {
    user_roles = select (λ y. not (is_user_role x.user_id x.role_id y)) db.user_roles;
  })

abbrev pub is_role_permission : ℕ → ℕ → RolePermission → Bool
is_role_permission role permission x = x.role_id == role && x.permission_id == permission

unfoldable pub assign_permission_to_role : RawId → RawId → Txn Db RolePermission
unfolding select
assign_permission_to_role raw_role raw_permission = do
  role ← lift (or_raise raw_role value_error)
  r ← load role_key (λ (db : Db). db.roles) role
  permission ← lift (or_raise raw_permission value_error)
  p ← load permission_key (λ (db : Db). db.permissions) permission
  found ← existing (λ (db : Db). select (is_role_permission role permission) db.role_permissions)
  raise_if (is_some found) validation
  modify (λ (db : Db). record db {
    role_permissions =
        db.role_permissions ++ record { role_id = role; permission_id = permission } ∷ [];
  })
  pure (record { role_id = role; permission_id = permission })

unfoldable pub remove_permission_from_role : RawId → RawId → Txn Db (Unit {0})
unfolding select
remove_permission_from_role raw_role raw_permission = do
  role ← lift (or_raise raw_role value_error)
  permission ← lift (or_raise raw_permission value_error)
  found ← existing (λ (db : Db). select (is_role_permission role permission) db.role_permissions)
  x ← lift (or_raise found not_found)
  modify (λ (db : Db). record db {
    role_permissions =
        select (λ y. not (is_role_permission x.role_id x.permission_id y)) db.role_permissions;
  })
