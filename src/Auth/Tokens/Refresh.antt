-- ===== src/Auth/Tokens/Refresh.antt =====
-- Logins and refreshes within one second.
use oms_wms_tms.Prelude.{
  ℕ, ◌≡◌, refl, ap, ◌∙◌, String, false, Option, some, List, ◌∷◌, str_eq, eq_iff, lookup,
}
use oms_wms_tms.Auth.Tokens.{
  Redis, answered, TokenStore, Tokens, Jwt, create_refresh_token, create_access_token,
  create_tokens, refresh_tokens, rotate, pop, store, without,
}

module _ {R : Type 0} (server : Redis R) (key : String → String) (str : String → String) (jwt : Jwt)
    (now : ℕ) (u uid : String) where
  abbrev pub token : String
  token = create_refresh_token server key str jwt now u uid

  abbrev pub pair : Tokens
  pair = record {
    access_token = create_access_token server key str jwt now u uid;
    refresh_token = token;
  }

  -- The store after a login at `now`, without Redis.
  abbrev pub logged_in : List (String × String) → R → TokenStore R
  logged_in m r =
      (create_tokens server key str jwt now answered u uid
        (record { memory = m; redis_ok = false; redis = r })).1

  abbrev pub refreshed : TokenStore R → Option Tokens × TokenStore R
  refreshed s = refresh_tokens server key str jwt now answered answered token s

  module _ (decoded : jwt.decode now token ≡ some uid) (named : str_eq u "" ≡ false) where
    lookup_first : (t : String) (m : List (String × String)) → lookup t ((t, u) ∷ m) ≡ some u
    unfolding lookup
    lookup_first t m = rw ((eq_iff t t).1 refl) refl

    pop_lem :
        (m : List (String × String)) (r : R)
        → pop server key str answered token
            (record { memory = (token, u) ∷ m; redis_ok = false; redis = r })
          ≡ (
            some u,
            record { memory = without token ((token, u) ∷ m); redis_ok = false; redis = r },
          )
    unfolding pop
    pop_lem m r = rw (lookup_first token m) refl

    refresh_lem :
        (m : List (String × String)) (r : R)
        → refreshed (record { memory = (token, u) ∷ m; redis_ok = false; redis = r }) ≡ (
          some pair,
          record {
            memory = (token, u) ∷ without token (without token ((token, u) ∷ m));
            redis_ok = false;
            redis = r;
          },
        )
    unfolding refresh_tokens rotate create_tokens store
    refresh_lem m r =
        rw (decoded, refresh_tokens)
          (ap (rotate server key str jwt now answered uid) (pop_lem m r) ∙ rw named refl)

    -- In a store that works without Redis, the token of a login at `now` is refreshed in the same second, and
    -- again: both calls give a pair with that very token, so it has not been rotated. The conditions: the token
    -- decodes to the user's id, and the user's name is not empty.
    pub refresh_tokens-same_second :
        (m : List (String × String)) (r : R)
        → ((refreshed (logged_in m r)).0 ≡ some pair)
          × ((refreshed (refreshed (logged_in m r)).1).0 ≡ some pair)
    unfolding create_tokens store
    refresh_tokens-same_second m r = (
      ap (λ x. x.0) (refresh_lem (without token m) r),
      ap (λ x. (refreshed x.1).0) (refresh_lem (without token m) r)
          ∙ ap (λ x. x.0)
              (refresh_lem (without token (without token ((token, u) ∷ without token m))) r),
    )
