-- ===== src/Auth/Tokens.antt =====
-- src/auth/token_store.py, and the token functions of src/auth/service.py. Redis, the digest of a key, the JSON
-- web tokens and Python's text of a `bytes` value are parameters. `History`
-- runs operations one after another, `Rotation` is about tokens that are spent, `Found` about those found again.
pub mod History
pub mod Rotation
pub mod Found
pub mod Refresh
use oms_wms_tms.Prelude.{
  ℕ, ◌+◌, ◌*◌, ◌≡◌, String, Bool, true, false, not, Option, none, some, List, [], ◌∷◌, str_eq,
  if◌then◌else◌, lookup, select,
}
pub use oms_wms_tms.Prelude.Reply.{Reply, answered, failed, lost, carried_out}

-- The commands of Redis that the store uses. `write` sets a key with `ex`, its time to live in
-- seconds; how time passes is a parameter of the theorem that it matters to.
pub record Redis (R : Type 0) : Type 0 where
  pub read : String → R → Option String
  pub write : String → ℕ → String → R → R
  pub delete : String → R → R
  pub read-write : (k v : String) (ex : ℕ) (r : R) → read k (write k ex v r) ≡ some v
  pub read-write_other :
      (j k v : String) (ex : ℕ) (r : R) → str_eq j k ≡ false → read j (write k ex v r) ≡ read j r
  pub read-delete : (k : String) (r : R) → read k (delete k r) ≡ none
  -- A command on one key gives no other key a value.
  pub read-delete_other : (j k : String) (r : R) → read j r ≡ none → read j (delete k r) ≡ none

pub record TokenStore (R : Type 0) : Type 0 where
  pub memory : List (String × String)
  pub redis_ok : Bool
  pub redis : R

-- `REFRESH_TOKEN_TTL`, in seconds.
abbrev pub refresh_token_ttl : ℕ
refresh_token_ttl = 7 * 24 * 3600

-- `dict.pop` and item assignment.
unfoldable pub without : String → List (String × String) → List (String × String)
unfolding select
without token memory = select (λ e. not (str_eq e.0 token)) memory

-- The pair of tokens that a login or a refresh gives.
pub record Tokens : Type 0 where
  pub access_token : String
  pub refresh_token : String

-- `jwt.encode` of the claims `sub` and `uid` with an expiry, and `jwt.decode`, none where it raises; of the
-- claims the code reads `uid`.
pub record Jwt : Type 0 where
  pub encode : String → String → ℕ → String
  pub decode : ℕ → String → Option String

module _ {R : Type 0} (server : Redis R) (key : String → String) (str : String → String) where
  abbrev pub pop_memory : String → TokenStore R → Option String × TokenStore R
  pop_memory token s = (lookup token s.memory, record s { memory = without token s.memory })

  -- `pop`: GET and DEL in one script. The answer is `str(raw)`, written `str` here.
  unfoldable pub pop : Reply → String → TokenStore R → Option String × TokenStore R
  unfolding without
  pop reply token s = elim s.redis_ok [
    | false ↦ pop_memory token s
    | true ↦
        let r' : R = carried_out reply (server.delete (key token)) s.redis in
        elim reply [
          | answered ↦ elim (server.read (key token) s.redis) [
            | some v ↦ (some (str v), record s { redis = r' })
            | none ↦ (none, record s { redis = r' })
          ]
          | _ ↦ pop_memory token (record s { redis = r'; redis_ok = false })
        ]
  ]

  unfoldable pub revoke : Reply → String → TokenStore R → TokenStore R
  unfolding without
  revoke reply token s = elim s.redis_ok [
    | false ↦ record s { memory = without token s.memory }
    | true ↦ record s {
      memory = without token s.memory;
      redis = carried_out reply (server.delete (key token)) s.redis;
      redis_ok = elim reply [ answered ↦ true | _ ↦ false ];
    }
  ]

  -- `lookup` decodes `bytes`, so the answer is the stored text.
  unfoldable pub lookup_token : Reply → String → TokenStore R → Option String × TokenStore R
  lookup_token reply token s = elim s.redis_ok [
    | false ↦ (lookup token s.memory, s)
    | true ↦ elim reply [
      | answered ↦ elim (server.read (key token) s.redis) [
        | some v ↦ (some v, s)
        | none ↦ (lookup token s.memory, s)
      ]
      | _ ↦ (lookup token s.memory, record s { redis_ok = false })
    ]
  ]

  unfoldable pub store : Reply → String → String → TokenStore R → TokenStore R
  unfolding without
  store reply token username s =
      let memory' : List (String × String) = (token, username) ∷ without token s.memory in
      elim s.redis_ok [
        | false ↦ record s { memory = memory' }
        | true ↦
            let r' : R =
              carried_out reply (server.write (key token) refresh_token_ttl username) s.redis in
            elim reply [
              | answered ↦ record s { redis = r' }
              | _ ↦ record s { memory = memory'; redis = r'; redis_ok = false }
            ]
      ]

  module _ (jwt : Jwt) where
    -- `create_access_token` and `create_refresh_token` at the time `now`, in seconds.
    abbrev pub create_access_token : ℕ → String → String → String
    create_access_token now sub uid = jwt.encode sub uid (now + 60 * 60)

    abbrev pub create_refresh_token : ℕ → String → String → String
    create_refresh_token now sub uid = jwt.encode sub uid (now + 7 * 24 * 3600)

    unfoldable pub create_tokens :
        ℕ → Reply → String → String → TokenStore R → Tokens × TokenStore R
    unfolding store
    create_tokens now reply username uid s = (
      record {
        access_token = create_access_token now username uid;
        refresh_token = create_refresh_token now username uid;
      },
      store reply (create_refresh_token now username uid) username s,
    )

    -- What `refresh_tokens` does with the answer of `pop`; a name that is the empty text counts as none.
    unfoldable pub rotate :
        ℕ → Reply → String → Option String × TokenStore R → Option Tokens × TokenStore R
    unfolding create_tokens
    rotate now storing uid (none, s) = (none, s)
    rotate now storing uid (some username, s) =
        if str_eq username ""
        then (none, s)
        else (let created = create_tokens now storing username uid s in (some created.0, created.1))

    unfoldable pub refresh_tokens :
        ℕ → Reply → Reply → String → TokenStore R → Option Tokens × TokenStore R
    unfolding rotate pop
    refresh_tokens now popping storing refresh_token s = elim (jwt.decode now refresh_token) [
      | none ↦ (none, s)
      | some uid ↦ rotate now storing uid (pop popping refresh_token s)
    ]
