-- ===== src/Auth/Model.antt =====
-- src/auth/models.py: the tables of users, roles and permissions; ids stand for UUIDs, and the times of a row
-- are left out. `admin_seeded` is the flag `_admin_seeded` of src/auth/service.py.
use oms_wms_tms.Prelude.{
  ℕ, suc, String, Bool, Option, List, ok, not_found, scalar_one_or_none, Txn, lift, or_raise, by_id,
}

pub record User : Type 0 where
  pub id : ℕ
  pub username : String
  pub email : String
  pub hashed_password : String
  pub is_active : Bool

pub record Role : Type 0 where
  pub id : ℕ
  pub name : String
  pub code : String
  pub description : Option String
  pub is_system : Bool

pub record Permission : Type 0 where
  pub id : ℕ
  pub name : String
  pub code : String
  pub resource : String
  pub action : String
  pub description : Option String

pub record UserRole : Type 0 where
  pub user_id : ℕ
  pub role_id : ℕ

pub record RolePermission : Type 0 where
  pub role_id : ℕ
  pub permission_id : ℕ

pub record Db : Type 0 where
  pub users : List User
  pub roles : List Role
  pub permissions : List Permission
  pub user_roles : List UserRole
  pub role_permissions : List RolePermission
  pub next_uuid : ℕ
  pub admin_seeded : Bool

-- `uuid.uuid4()`: a value that no earlier call gave.
abbrev pub uuid4 : Txn Db ℕ
uuid4 db = ok (db.next_uuid, record db { next_uuid = suc db.next_uuid })

abbrev pub user_key : User → ℕ
user_key u = u.id

abbrev pub role_key : Role → ℕ
role_key r = r.id

abbrev pub permission_key : Permission → ℕ
permission_key p = p.id

-- The one row of a query, if there is one; more than one raise.
abbrev pub existing : {R : Type 0} → (Db → List R) → Txn Db (Option R)
existing query db = lift (scalar_one_or_none (query db)) db

-- The row with an id, or `NotFoundException`.
abbrev pub load : {R : Type 0} → (R → ℕ) → (Db → List R) → ℕ → Txn Db R
load key table i db = lift (or_raise (by_id key i (table db)) not_found) db
