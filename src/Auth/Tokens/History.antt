-- ===== src/Auth/Tokens/History.antt =====
-- Operations on the token store one after another, each with what becomes of its command to Redis.
use oms_wms_tms.Prelude.{
  ◌≡◌, refl, ap, String, Bool, true, false, List, [], ◌∷◌, inl, inr, select, Option-cases,
}
use oms_wms_tms.Auth.Tokens.{
  Redis, Reply, answered, failed, lost, TokenStore, without, pop, revoke, lookup_token, store,
}

pub data Op : Type 0 where
  popping revoking reading : Reply → String → Op
  storing : Reply → String → String → Op

-- As long as Redis answers, the memory is empty.
abbrev pub IsPristine : {R : Type 0} → TokenStore R → Type 0
IsPristine s = s.redis_ok ≡ true → s.memory ≡ []

-- The store of a process that has just started.
abbrev pub fresh : {R : Type 0} → R → TokenStore R
fresh r = record { memory = []; redis_ok = true; redis = r }

module _ {R : Type 0} (server : Redis R) (key : String → String) (str : String → String) where
  abbrev pub after : Op → TokenStore R → TokenStore R
  after (popping reply token) s = (pop server key str reply token s).1
  after (revoking reply token) s = revoke server key str reply token s
  after (reading reply token) s = (lookup_token server key str reply token s).1
  after (storing reply token username) s = store server key str reply token username s

  abbrev pub serve : List Op → TokenStore R → TokenStore R
  serve [] s = s
  serve (op ∷ ops) s = serve ops (after op s)

  rows-IsPristine :
      (op : Op) (m : List (String × String)) (b : Bool) (r : R)
      → (b ≡ true → m ≡ [])
      → IsPristine (after op (record { memory = m; redis_ok = b; redis = r }))
  unfolding pop revoke lookup_token store without select
  rows-IsPristine (popping reply k) m false r h = λ e. cc
  rows-IsPristine (popping answered k) m true r h = elim (Option-cases (server.read (key k) r)) [
    | inl gone ↦ rw (gone, after, pop) h
    | inr (v, there) ↦ rw (there, after, pop) h
  ]
  rows-IsPristine (popping failed k) m true r h = λ e. cc
  rows-IsPristine (popping lost k) m true r h = λ e. cc
  rows-IsPristine (revoking reply k) m false r h = λ e. cc
  rows-IsPristine (revoking reply k) m true r h = λ e. ap (without k) (h refl)
  rows-IsPristine (reading reply k) m false r h = λ e. cc
  rows-IsPristine (reading answered k) m true r h = elim (Option-cases (server.read (key k) r)) [
    | inl gone ↦ rw (gone, after, lookup_token) h
    | inr (v, there) ↦ rw (there, after, lookup_token) h
  ]
  rows-IsPristine (reading failed k) m true r h = λ e. cc
  rows-IsPristine (reading lost k) m true r h = λ e. cc
  rows-IsPristine (storing reply k v) m false r h = λ e. cc
  rows-IsPristine (storing answered k v) m true r h = h
  rows-IsPristine (storing failed k v) m true r h = λ e. cc
  rows-IsPristine (storing lost k v) m true r h = λ e. cc

  pub serve-IsPristine :
      (ops : List Op) (s : TokenStore R) → IsPristine s → IsPristine (serve ops s)
  serve-IsPristine [] s h = h
  serve-IsPristine (op ∷ ops) s h =
      serve-IsPristine ops (after op s) (rows-IsPristine op s.memory s.redis_ok s.redis h)
