-- ===== src/Auth/Tokens/Found.antt =====
-- Tokens that are found again.
use oms_wms_tms.Prelude.{
  ◌≡◌, refl, ap, String, Bool, true, false, none, some, List, [], ◌∷◌, eq_iff, if◌then◌else◌,
  lookup, ℕ, ltb, ◌<◌, ◌≤◌, Bool-cases, inl, inr, arith,
}
use oms_wms_tms.Auth.Tokens.{
  Redis, Reply, answered, failed, lost, TokenStore, without, lookup_token, store, refresh_token_ttl,
}
use oms_wms_tms.Auth.Tokens.History.{Op, serve, fresh, serve-IsPristine}

-- `later n` is a server `n` seconds later, when no command comes in between.
module _ {R : Type 0} (server : Redis R) (key : String → String) (str : String → String)
    (later : ℕ → R → R)
    (alive : (n ex : ℕ) (k v : String) (r : R)
      → n < ex
      → server.read k (later n (server.write k ex v r)) ≡ some v)
    (expired : (n ex : ℕ) (k v : String) (r : R)
      → ex ≤ n
      → server.read k (later n (server.write k ex v r)) ≡ none) where
  -- Whether a token is found `n` seconds after it was stored: a token in Redis is there for `refresh_token_ttl`
  -- seconds and as long as Redis answers.
  abbrev pub is_reachable : Bool → Reply → Reply → ℕ → Bool
  is_reachable true answered answered n = ltb n refresh_token_ttl
  is_reachable true answered failed n = false
  is_reachable true answered lost n = false
  is_reachable true failed reply n = true
  is_reachable true lost reply n = true
  is_reachable false wrote reply n = true

  abbrev pub wait : ℕ → TokenStore R → TokenStore R
  wait n s = record s { redis = later n s.redis }

  lookup_first : (t u : String) (m : List (String × String)) → lookup t ((t, u) ∷ m) ≡ some u
  unfolding lookup
  lookup_first t u m = rw ((eq_iff t t).1 refl) refl

  lookup-store :
      (wrote reply : Reply) (n : ℕ) (t u : String) (m : List (String × String)) (b : Bool) (r : R)
      → (b ≡ true → m ≡ [])
      → (lookup_token server key str reply t (
          wait n
            (store server key str wrote t u (record { memory = m; redis_ok = b; redis = r })))).0
        ≡ (if is_reachable b wrote reply n then some u else none)
  unfolding lookup_token store lookup
  lookup-store wrote reply n t u m false r h = lookup_first t u (without t m)
  lookup-store answered answered n t u m true r h = elim (Bool-cases (ltb n refresh_token_ttl)) [
    | inl e ↦
        rw (alive n refresh_token_ttl (key t) u r (ltb_lt n refresh_token_ttl e), lookup_token)
          (rw e refl)
    | inr e ↦
        rw (expired n refresh_token_ttl (key t) u r (ltb_ge n refresh_token_ttl e), lookup_token)
          (rw e (ap (lookup t) (h refl)))
  ]
    where
      ltb_lt : (a b : ℕ) → ltb a b ≡ true → a < b
      ltb_lt a b h = ground arith

      ltb_ge : (a b : ℕ) → ltb a b ≡ false → b ≤ a
      ltb_ge a b h = ground arith
  lookup-store answered failed n t u m true r h = ap (lookup t) (h refl)
  lookup-store answered lost n t u m true r h = ap (lookup t) (h refl)
  lookup-store failed reply n t u m true r h = lookup_first t u (without t m)
  lookup-store lost reply n t u m true r h = lookup_first t u (without t m)

  -- After any operations on a new store, a token that is stored is looked up `n` seconds later, with no operation in
  -- between. Its user is found, except where the token went to Redis and the lookup's command fails or `n` is at
  -- least `refresh_token_ttl`: then the answer is none.
  pub lookup_token-store :
      (before : List Op) (wrote reply : Reply) (n : ℕ) (t u : String) (r : R)
      → (lookup_token server key str reply t
          (wait n (store server key str wrote t u (serve server key str before (fresh r))))).0
        ≡ (if is_reachable (serve server key str before (fresh r)).redis_ok wrote reply n
            then some u
            else none)
  lookup_token-store before wrote reply n t u r =
      let s : TokenStore R = serve server key str before (fresh r) in
      lookup-store wrote reply n t u s.memory s.redis_ok s.redis
        (serve-IsPristine server key str before (fresh r) (λ e. refl))
