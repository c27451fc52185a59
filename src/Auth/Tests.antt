-- ===== src/Auth/Tests.antt =====
-- Concrete accounts and tokens for the theorems about src/auth.
use oms_wms_tms.Prelude.{
  ◌≡◌, refl, String, true, false, none, some, List, [], ◌∷◌, arith, str_eq, eq_iff, by_id, ℕ,
  Option, ltb, ◌-◌, ◌<◌, ◌≤◌, Bool-cases, inl, inr, if◌then◌else◌, select, ok, err, validation,
  ◌>>◌,
}
use oms_wms_tms.Auth.Model.{User, Role, Db}
use oms_wms_tms.Auth.Service.{assign_role_to_user, remove_role_from_user}
use oms_wms_tms.Auth.Service.Steps.{Call, register, drop_role, assign_role, change_role}
use oms_wms_tms.Auth.Service.History.{
  serve, IsUnique, serve-IsUnique, HasSystemRole, serve-HasSystemRole,
}
use oms_wms_tms.Auth.Service.Assigning.{assign_role_to_user-remove}
use oms_wms_tms.Auth.Tokens.{Redis, answered, failed, Jwt, pop, revoke, lookup_token, store}
use oms_wms_tms.Auth.Tokens.History.{Op, popping, storing, fresh}
use oms_wms_tms.Auth.Tokens.History as History
use oms_wms_tms.Auth.Tokens.Rotation.{pop-spent}
use oms_wms_tms.Auth.Tokens.Found.{wait, lookup_token-store}
use oms_wms_tms.Auth.Tokens.Refresh.{pair, refreshed, logged_in, refresh_tokens-same_second}

abbrev ada : User
ada = record {
  id = 1;
  username = "ada";
  email = "ada@a.org";
  hashed_password = "x";
  is_active = true;
}

abbrev admin : Role
admin = record { id = 2; name = "Admin"; code = "admin"; description = none; is_system = true }

abbrev db : Db
db = record {
  users = ada ∷ [];
  roles = admin ∷ [];
  permissions = [];
  user_roles = [];
  role_permissions = [];
  next_uuid = 3;
  admin_seeded = false;
}

abbrev calls : List Call
calls =
    register (λ p. p) (record { username = "bob"; email = "b@a.org"; password = "p" })
    ∷ register (λ p. p) (record { username = "bob"; email = "c@a.org"; password = "p" })
    ∷ assign_role (some 1) (some 2)
    ∷ change_role (some 2) (some "Root") none
    ∷ drop_role (some 2)
    ∷ []

serve-IsUnique_example : IsUnique (serve calls db)
serve-IsUnique_example = serve-IsUnique calls db (record {
  users = (tt, tt);
  roles = (tt, tt);
  permissions = tt;
  user_roles = tt;
  role_permissions = tt;
})

serve-HasSystemRole_example : HasSystemRole 2 "admin" (serve calls db)
unfolding by_id
serve-HasSystemRole_example = serve-HasSystemRole calls 2 "admin" db (admin, refl, refl, refl)

assign_role_to_user-remove_example :
    ((assign_role_to_user (some 1) (some 2) >> remove_role_from_user (some 1) (some 2)) db
      ≡ ok (tt, db))
    × ((assign_role_to_user (some 1) (some 2) >> assign_role_to_user (some 1) (some 2)) db
        ≡ err validation)
unfolding by_id select
assign_role_to_user-remove_example = assign_role_to_user-remove 1 2 ada admin db refl refl refl

-- A server that keeps each entry with the seconds it has left.
abbrev Entries : Type 0
Entries = String → Option (String × ℕ)

abbrev read : String → Entries → Option String
read k r = elim (r k) [ none ↦ none | some e ↦ some e.0 ]

abbrev write : String → ℕ → String → Entries → Entries
write k ex v r j = if str_eq j k then some (v, ex) else r j

abbrev delete : String → Entries → Entries
delete k r j = if str_eq j k then none else r j

abbrev aged : ℕ → Option (String × ℕ) → Option (String × ℕ)
aged n none = none
aged n (some e) = if ltb n e.1 then some (e.0, e.1 - n) else none

abbrev later : ℕ → Entries → Entries
later n r j = aged n (r j)

read-write : (k v : String) (ex : ℕ) (r : Entries) → read k (write k ex v r) ≡ some v
read-write k v ex r = rw ((eq_iff k k).1 refl, read) refl

read-write_other :
    (j k v : String) (ex : ℕ) (r : Entries)
    → str_eq j k ≡ false
    → read j (write k ex v r) ≡ read j r
read-write_other j k v ex r h = rw (h, read) refl

read-delete : (k : String) (r : Entries) → read k (delete k r) ≡ none
read-delete k r = rw ((eq_iff k k).1 refl, read) refl

read-delete_other : (j k : String) (r : Entries) → read j r ≡ none → read j (delete k r) ≡ none
read-delete_other j k r h = elim (Bool-cases (str_eq j k)) [
  | inl e ↦ rw (e, read) refl
  | inr e ↦ rw (e, read) h
]

read-later :
    (n ex : ℕ) (k v : String) (r : Entries) → n < ex → read k (later n (write k ex v r)) ≡ some v
read-later n ex k v r h = rw ((eq_iff k k).1 refl, read) (rw (ltb_true n ex h) refl)
  where
    ltb_true : (a b : ℕ) → a < b → ltb a b ≡ true
    ltb_true a b h = ground arith

read-later_expired :
    (n ex : ℕ) (k v : String) (r : Entries) → ex ≤ n → read k (later n (write k ex v r)) ≡ none
read-later_expired n ex k v r h = rw ((eq_iff k k).1 refl, read) (rw (ltb_false n ex h) refl)
  where
    ltb_false : (a b : ℕ) → b ≤ a → ltb a b ≡ false
    ltb_false a b h = ground arith

abbrev a_server : Redis Entries
a_server = record {
  read = read;
  write = write;
  delete = delete;
  read-write = read-write;
  read-write_other = read-write_other;
  read-delete = read-delete;
  read-delete_other = read-delete_other;
}

abbrev blank : Entries
blank k = none

abbrev same : String → String
same t = t

pop-spent_example :
    ((pop a_server same same answered "t" (
        History.serve a_server same same
          (storing failed "u" "eve" ∷ [])
          (pop a_server same same answered "t" (
            History.serve a_server same same (storing answered "t" "ada" ∷ []) (fresh blank))).1)).0
      ≡ none)
    × ((pop a_server same same answered "t" (
          History.serve a_server same same (storing failed "u" "eve" ∷ []) (
            revoke a_server same same answered "t" (
              History.serve a_server same same (storing answered "t" "ada" ∷ []) (fresh blank))))).0
        ≡ none)
pop-spent_example =
    pop-spent a_server same same (storing answered "t" "ada" ∷ []) (storing failed "u" "eve" ∷ [])
      "t" answered answered blank ((refl, refl), tt)

lookup_token-store_example :
    (lookup_token a_server same same answered "t" (
      wait a_server same same later read-later read-later_expired 604800 (
        store a_server same same answered "t" "ada"
          (History.serve a_server same same (popping answered "s" ∷ []) (fresh blank))))).0
    ≡ none
unfolding pop
lookup_token-store_example =
    lookup_token-store a_server same same later read-later read-later_expired
      (popping answered "s" ∷ []) answered answered 604800 "t" "ada" blank

abbrev a_jwt : Jwt
a_jwt = record { encode = λ sub uid exp. sub; decode = λ now t. some "7" }

refresh_tokens-same_second_example :
    ((refreshed a_server same same a_jwt 5 "ada" "7"
        (logged_in a_server same same a_jwt 5 "ada" "7" [] blank)).0
      ≡ some (pair a_server same same a_jwt 5 "ada" "7"))
    × ((refreshed a_server same same a_jwt 5 "ada" "7"
          (refreshed a_server same same a_jwt 5 "ada" "7"
            (logged_in a_server same same a_jwt 5 "ada" "7" [] blank)).1).0
        ≡ some (pair a_server same same a_jwt 5 "ada" "7"))
refresh_tokens-same_second_example =
    refresh_tokens-same_second a_server same same a_jwt 5 "ada" "7" refl refl [] blank
