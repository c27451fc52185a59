-- ===== src/Auth/Tokens/Rotation.antt =====
-- Refresh tokens that are spent.
use oms_wms_tms.Prelude.{
  ◌≡◌, refl, ap, ◌∙◌, String, Bool, true, false, none, List, [], ◌∷◌, arith, str_eq, inl, inr,
  lookup, select, All, Option-cases,
}
use oms_wms_tms.Auth.Tokens.{
  Redis, Reply, answered, failed, lost, TokenStore, without, pop, revoke, lookup_token, store,
  refresh_token_ttl,
}
use oms_wms_tms.Auth.Tokens.History.{
  Op, popping, revoking, reading, storing, after, serve, fresh, serve-IsPristine,
}

pub lookup-without : (t : String) (m : List (String × String)) → lookup t (without t m) ≡ none
unfolding lookup without select
lookup-without t [] = refl
lookup-without t ((j, v) ∷ m) = ground (arith, lookup-without t m)

pub lookup-without_other :
    (t k : String) (m : List (String × String)) → lookup t m ≡ none → lookup t (without k m) ≡ none
unfolding lookup without select
lookup-without_other t k [] h = refl
lookup-without_other t k ((j, v) ∷ m) h = ground (arith, lookup-without_other t k m)

lookup-set_other :
    (t k v : String) (m : List (String × String))
    → str_eq k t ≡ false
    → lookup t m ≡ none
    → lookup t ((k, v) ∷ without k m) ≡ none
unfolding lookup
lookup-set_other t k v m other h = ground (arith, lookup-without_other t k m)

module _ {R : Type 0} (server : Redis R) (key : String → String) (str : String → String) where
  -- Neither of the places that may still be read knows the token.
  pub record IsSpent (t : String) (s : TokenStore R) : Type 0 where
    pub in_memory : lookup t s.memory ≡ none
    pub in_redis : s.redis_ok ≡ true → server.read (key t) s.redis ≡ none

  -- An operation that does not store under the key of `t`.
  abbrev pub Leaves : String → Op → Type 0
  Leaves t (storing reply token username) =
      (str_eq token t ≡ false) × (str_eq (key t) (key token) ≡ false)
  Leaves t (popping reply token) = Unit
  Leaves t (revoking reply token) = Unit
  Leaves t (reading reply token) = Unit

  module _ (t : String) where
    pop-IsSpent :
        (reply : Reply) (m : List (String × String)) (b : Bool) (r : R)
        → (b ≡ true → m ≡ [])
        → IsSpent t (pop server key str reply t (record { memory = m; redis_ok = b; redis = r })).1
    unfolding pop lookup
    pop-IsSpent reply m false r pristine = record {
      in_memory = lookup-without t m;
      in_redis = λ h. cc;
    }
    pop-IsSpent answered m true r pristine = elim (Option-cases (server.read (key t) r)) [
      | inl gone ↦
          rw (gone, pop)
            (record {
              in_memory = ap (lookup t) (pristine refl);
              in_redis = λ h. server.read-delete (key t) r;
            })
      | inr (v, there) ↦
          rw (there, pop)
            (record {
              in_memory = ap (lookup t) (pristine refl);
              in_redis = λ h. server.read-delete (key t) r;
            })
    ]
    pop-IsSpent failed m true r pristine = record {
      in_memory = lookup-without t m;
      in_redis = λ h. cc;
    }
    pop-IsSpent lost m true r pristine = record {
      in_memory = lookup-without t m;
      in_redis = λ h. cc;
    }

    revoke-IsSpent :
        (reply : Reply) (m : List (String × String)) (b : Bool) (r : R)
        → IsSpent t (revoke server key str reply t (record { memory = m; redis_ok = b; redis = r }))
    unfolding revoke
    revoke-IsSpent reply m false r = record { in_memory = lookup-without t m; in_redis = λ h. cc }
    revoke-IsSpent answered m true r = record {
      in_memory = lookup-without t m;
      in_redis = λ h. server.read-delete (key t) r;
    }
    revoke-IsSpent failed m true r = record { in_memory = lookup-without t m; in_redis = λ h. cc }
    revoke-IsSpent lost m true r = record { in_memory = lookup-without t m; in_redis = λ h. cc }

    -- What the other operations make of a token that is spent.
    pop-keeps :
        (reply : Reply) (k : String) (m : List (String × String)) (b : Bool) (r : R)
        → IsSpent t (record { memory = m; redis_ok = b; redis = r })
        → IsSpent t (pop server key str reply k (record { memory = m; redis_ok = b; redis = r })).1
    unfolding pop
    pop-keeps reply k m false r h = record {
      in_memory = lookup-without_other t k m h.in_memory;
      in_redis = λ h. cc;
    }
    pop-keeps answered k m true r h = elim (Option-cases (server.read (key k) r)) [
      | inl gone ↦
          rw (gone, pop)
            (record {
              in_memory = h.in_memory;
              in_redis = λ e. server.read-delete_other (key t) (key k) r (h.in_redis refl);
            })
      | inr (v, there) ↦
          rw (there, pop)
            (record {
              in_memory = h.in_memory;
              in_redis = λ e. server.read-delete_other (key t) (key k) r (h.in_redis refl);
            })
    ]
    pop-keeps failed k m true r h = record {
      in_memory = lookup-without_other t k m h.in_memory;
      in_redis = λ h. cc;
    }
    pop-keeps lost k m true r h = record {
      in_memory = lookup-without_other t k m h.in_memory;
      in_redis = λ h. cc;
    }

    revoke-keeps :
        (reply : Reply) (k : String) (m : List (String × String)) (b : Bool) (r : R)
        → IsSpent t (record { memory = m; redis_ok = b; redis = r })
        → IsSpent t (revoke server key str reply k (record { memory = m; redis_ok = b; redis = r }))
    unfolding revoke
    revoke-keeps reply k m false r h = record {
      in_memory = lookup-without_other t k m h.in_memory;
      in_redis = λ h. cc;
    }
    revoke-keeps answered k m true r h = record {
      in_memory = lookup-without_other t k m h.in_memory;
      in_redis = λ e. server.read-delete_other (key t) (key k) r (h.in_redis refl);
    }
    revoke-keeps failed k m true r h = record {
      in_memory = lookup-without_other t k m h.in_memory;
      in_redis = λ h. cc;
    }
    revoke-keeps lost k m true r h = record {
      in_memory = lookup-without_other t k m h.in_memory;
      in_redis = λ h. cc;
    }

    lookup-keeps :
        (reply : Reply) (k : String) (m : List (String × String)) (b : Bool) (r : R)
        → IsSpent t (record { memory = m; redis_ok = b; redis = r })
        → IsSpent t
            (lookup_token server key str reply k (record { memory = m; redis_ok = b; redis = r })).1
    unfolding lookup_token
    lookup-keeps reply k m false r h = h
    lookup-keeps answered k m true r h = elim (Option-cases (server.read (key k) r)) [
      | inl gone ↦ rw (gone, lookup_token) h
      | inr (v, there) ↦ rw (there, lookup_token) h
    ]
    lookup-keeps failed k m true r h = record { in_memory = h.in_memory; in_redis = λ h. cc }
    lookup-keeps lost k m true r h = record { in_memory = h.in_memory; in_redis = λ h. cc }

    store-keeps :
        (reply : Reply) (k v : String) (m : List (String × String)) (b : Bool) (r : R)
        → str_eq k t ≡ false
        → str_eq (key t) (key k) ≡ false
        → IsSpent t (record { memory = m; redis_ok = b; redis = r })
        → IsSpent t
            (store server key str reply k v (record { memory = m; redis_ok = b; redis = r }))
    unfolding store
    store-keeps reply k v m false r other apart h = record {
      in_memory = lookup-set_other t k v m other h.in_memory;
      in_redis = λ h. cc;
    }
    store-keeps answered k v m true r other apart h = record {
      in_memory = h.in_memory;
      in_redis = λ e.
          server.read-write_other (key t) (key k) v refresh_token_ttl r apart ∙ h.in_redis refl;
    }
    store-keeps failed k v m true r other apart h = record {
      in_memory = lookup-set_other t k v m other h.in_memory;
      in_redis = λ h. cc;
    }
    store-keeps lost k v m true r other apart h = record {
      in_memory = lookup-set_other t k v m other h.in_memory;
      in_redis = λ h. cc;
    }

    after-IsSpent :
        (op : Op) (s : TokenStore R)
        → Leaves t op
        → IsSpent t s
        → IsSpent t (after server key str op s)
    after-IsSpent (popping reply k) s l h = pop-keeps reply k s.memory s.redis_ok s.redis h
    after-IsSpent (revoking reply k) s l h = revoke-keeps reply k s.memory s.redis_ok s.redis h
    after-IsSpent (reading reply k) s l h = lookup-keeps reply k s.memory s.redis_ok s.redis h
    after-IsSpent (storing reply k v) s l h =
        store-keeps reply k v s.memory s.redis_ok s.redis l.0 l.1 h

    serve-IsSpent :
        (ops : List Op) (s : TokenStore R)
        → All (Leaves t) ops
        → IsSpent t s
        → IsSpent t (serve server key str ops s)
    serve-IsSpent [] s l h = h
    serve-IsSpent (op ∷ ops) s l h =
        serve-IsSpent ops (after server key str op s) l.1 (after-IsSpent op s l.0 h)

    IsSpent-pop :
        (reply : Reply) (m : List (String × String)) (b : Bool) (r : R)
        → IsSpent t (record { memory = m; redis_ok = b; redis = r })
        → (pop server key str reply t (record { memory = m; redis_ok = b; redis = r })).0 ≡ none
    unfolding pop
    IsSpent-pop reply m false r h = h.in_memory
    IsSpent-pop answered m true r h = rw (h.in_redis refl, pop) refl
    IsSpent-pop failed m true r h = h.in_memory
    IsSpent-pop lost m true r h = h.in_memory

  -- A token is spent once: after any operations on a new store, popping or revoking the token makes every later
  -- pop of it answer none, whichever commands to Redis fail, as long as nothing is stored again under the token
  -- or under its key.
  pub pop-spent :
      (before after_it : List Op) (t : String) (first second : Reply) (r : R)
      → All (Leaves t) after_it
      → ((pop server key str second t (
            serve server key str after_it
              (pop server key str first t (serve server key str before (fresh r))).1)).0
          ≡ none)
        × ((pop server key str second t (
              serve server key str after_it
                (revoke server key str first t (serve server key str before (fresh r))))).0
            ≡ none)
  pop-spent before after_it t first second r leaves =
      let s : TokenStore R = serve server key str before (fresh r) in
      let popped : TokenStore R = (pop server key str first t s).1 in
      let revoked : TokenStore R = revoke server key str first t s in
      let end : TokenStore R = serve server key str after_it popped in
      let end' : TokenStore R = serve server key str after_it revoked in
      (
        IsSpent-pop t second end.memory end.redis_ok end.redis (
            serve-IsSpent t after_it popped leaves (
              pop-IsSpent t first s.memory s.redis_ok s.redis
                (serve-IsPristine server key str before (fresh r) (λ e. refl)))),
        IsSpent-pop t second end'.memory end'.redis_ok end'.redis (
            serve-IsSpent t after_it revoked leaves
              (revoke-IsSpent t first s.memory s.redis_ok s.redis)),
      )
