-- ===== src/Core/RateLimiter/Decisions.antt =====
-- The decisions of the rate limiter over a run of requests, and how many it lets through.
use native.Mathlib.Nat.{le_trans}
use oms_wms_tms.Prelude.{
  ℕ, ◌+◌, ◌≤◌, ◌≡◌, refl, sym, ap, ◌∙◌, subst, String, Bool, true, false, ◌&&◌, List, [], ◌∷◌,
  arith, str_eq, eq_iff, ltb, leb, if◌then◌else◌, Bool-cases, inl, inr, length, All, select,
}
use oms_wms_tms.Core.RateLimiter.{
  Reply, answered, failed, lost, carried_out, SortedSet, Settings, or_default, RateLimiter, update,
  pipeline, zcard, check_rate_limit,
}
use oms_wms_tms.Core.RateLimiter.Window.{
  in_window, Request, is_done, is_answered, log, IsOrdered, length-select-le, log-bounded, Shows,
  zcard_lem, request-Shows,
}

both : (b c : Bool) → (b && c) ≡ true → (b ≡ true) × (c ≡ true)
both b c h = (ground arith, ground arith)

answered_done : (a : Reply) → is_answered a ≡ true → is_done a ≡ true
answered_done answered h = refl
answered_done failed h = h
answered_done lost h = refl

leb_le : (a b : ℕ) → leb a b ≡ true → a ≤ b
leb_le a b h = ground arith

one_more :
    (p : ℕ → Bool) (t : ℕ) (xs ys : List ℕ)
    → length (select p xs) ≤ length (select p ys)
    → length (select p (t ∷ xs)) ≤ length (select p (t ∷ ys))
unfolding select
one_more p t xs ys h = ground arith

maybe_more :
    (p : ℕ → Bool) (t : ℕ) (b : Bool) (xs ys : List ℕ)
    → length (select p xs) ≤ length (select p ys)
    → length (select p xs) ≤ length (select p (if b then t ∷ ys else ys))
unfolding select
maybe_more p t b xs ys h = ground arith

module _ {Z : Type 0} (sets : SortedSet Z) (settings : Settings) (z0 : Z) where
  -- The window and the limit that apply to a request.
  abbrev pub window_of : Request → ℕ
  window_of r = or_default r.window settings.rate_limit_window

  abbrev pub limit_of : Request → ℕ
  limit_of r = or_default r.requests settings.rate_limit_requests

  abbrev pub serve : Request → RateLimiter Z → Bool × RateLimiter Z
  serve r s = check_rate_limit sets settings r.reply r.key r.requests r.window r.time s

  -- The limiter after the requests, connected to a server without sets.
  abbrev pub after : List Request → RateLimiter Z
  after [] = record { connected = true; buckets = λ k. z0 }
  after (r ∷ rs) = (serve r (after rs)).1

  abbrev pub is_allowed : Request → List Request → Bool
  is_allowed r rs = (serve r (after rs)).0

  -- The times of the requests for a key that were let through.
  pub accepted : String → List Request → List ℕ
  accepted k [] = []
  accepted k (r ∷ rs) =
      let rest = accepted k rs in if str_eq k r.key && is_allowed r rs then r.time ∷ rest else rest

  abbrev pub between : ℕ → ℕ → ℕ → Bool
  between w a s = ltb a s && leb s (a + w)

  -- The requests for the key `k` are all made with the window `w` and the limit `limit`.
  abbrev pub Shares : String → ℕ → ℕ → List Request → Type 0
  Shares k w limit rs =
      All (λ q. str_eq k q.key ≡ true → (window_of q ≡ w) × (limit_of q ≡ limit)) rs

  module _ (live : settings.testing ≡ false) where
    serve_lem :
        (r : Request) (s : RateLimiter Z)
        → s.connected ≡ true
        → serve r s ≡ (
          is_answered r.reply
              && leb (zcard sets r.time (window_of r) (s.buckets r.key)) (limit_of r),
          record {
            connected = true;
            buckets =
                update r.key
                  (carried_out r.reply (pipeline sets r.time (window_of r)) (s.buckets r.key))
                  s.buckets;
          },
        )
    unfolding check_rate_limit
    serve_lem r s on = replied r.reply
      where
        replied :
            (a : Reply)
            → check_rate_limit sets settings a r.key r.requests r.window r.time s ≡ (
              is_answered a && leb (zcard sets r.time (window_of r) (s.buckets r.key)) (limit_of r),
              record {
                connected = true;
                buckets =
                    update r.key
                      (carried_out a (pipeline sets r.time (window_of r)) (s.buckets r.key))
                      s.buckets;
              },
            )
        replied answered = rw (live, check_rate_limit) (rw on refl)
        replied failed = rw (live, check_rate_limit) (rw on refl)
        replied lost = rw (live, check_rate_limit) (rw on refl)

    after-connected : (rs : List Request) → (after rs).connected ≡ true
    after-connected [] = refl
    after-connected (r ∷ rs) = ap (λ x. x.1.connected) (serve_lem r (after rs) (after-connected rs))

    module _ (w limit : ℕ) (long : 1 ≤ w)
        (blank : (t : ℕ) (p : ℕ → Bool) → sets.count t p z0 ≡ 0) where
      after-Shows :
          (rs : List Request) (now : ℕ) (k : String)
          → Shares k w limit rs
          → IsOrdered rs
          → All (λ (q : Request). q.time ≤ now) rs
          → Shows sets w long now ((after rs).buckets k) (log k rs)
      unfolding log select
      after-Shows [] now k alike o bound t t' late later = blank t (in_window w t')
      after-Shows (r ∷ rs) now k alike o bound t t' late later =
          ap (λ x. sets.count t (in_window w t') (x.1.buckets k))
            (serve_lem r (after rs) (after-connected rs))
          ∙ request-Shows sets w long k r.key r.time now (window_of r) (after rs).buckets (log k rs)
              bound.0 (log-bounded k r.time rs o.0) (after-Shows rs r.time k alike.1 o.1 o.0)
              (λ e. (alike.0 e).0) r.reply t t' late later

      -- With Redis connected and without sets at first, and outside of test mode, in a run of requests in the order of
      -- their times, for any keys, where those for one key are all made with the same window of at least 1 and
      -- the same limit: a request for the
      -- key is let through exactly when Redis answers it and, with it, at most `limit` requests for the key that
      -- Redis has carried out lie in the window before it, those that were refused included.
      pub check_rate_limit-window :
          (r : Request) (rs : List Request)
          → Shares r.key w limit (r ∷ rs)
          → IsOrdered (r ∷ rs)
          → is_allowed r rs ≡ (
              is_answered r.reply
              && leb (length (select (in_window w r.time) (r.time ∷ log r.key rs))) limit)
      check_rate_limit-window r rs alike o =
          let (same_window, same_limit) = alike.0 ((eq_iff r.key r.key).1 refl) in
          ap (λ x. x.0) (serve_lem r (after rs) (after-connected rs))
          ∙ ap
              (λ v.
                is_answered r.reply
                && leb (zcard sets r.time v ((after rs).buckets r.key)) (limit_of r))
              same_window
          ∙ ap (λ l. is_answered r.reply && leb (zcard sets r.time w ((after rs).buckets r.key)) l)
              same_limit
          ∙ ap (λ n. is_answered r.reply && leb n limit)
              (zcard_lem sets w long r.time ((after rs).buckets r.key) (log r.key rs)
                (after-Shows rs r.time r.key alike.1 o.1 o.0))

      module _ (r : Request) (rs : List Request) (alike : Shares r.key w limit (r ∷ rs))
          (o : IsOrdered (r ∷ rs)) (allowed : is_allowed r rs ≡ true) where
        allowed_done : is_done r.reply ≡ true
        allowed_done =
            answered_done r.reply
              (both (is_answered r.reply) _
                (sym (check_rate_limit-window r rs alike o) ∙ allowed)).0

        allowed_few : length (select (in_window w r.time) (r.time ∷ log r.key rs)) ≤ limit
        allowed_few =
            leb_le _ _
              (both (is_answered r.reply) _
                (sym (check_rate_limit-window r rs alike o) ∙ allowed)).1

      -- What holds of the requests for a key holds of those for the key of one of them.
      Shares-key :
          (k : String) (r : Request) (rs : List Request)
          → str_eq k r.key ≡ true
          → Shares k w limit (r ∷ rs)
          → Shares r.key w limit (r ∷ rs)
      Shares-key k r rs e h = subst (λ j. Shares j w limit (r ∷ rs)) ((eq_iff k r.key).0 e) h

      covers : (a t s : ℕ) → between w a t ≡ true → between w a s ≡ true → in_window w t s ≡ true
      covers a t s h k = ground arith

      accepted-le-log :
          (p : ℕ → Bool) (k : String) (rs : List Request)
          → Shares k w limit rs
          → IsOrdered rs
          → length (select p (accepted k rs)) ≤ length (select p (log k rs))
      unfolding accepted log select
      accepted-le-log p k [] alike o = omega arith
      accepted-le-log p k (r ∷ rs) alike o = elim (Bool-cases (str_eq k r.key && is_allowed r rs)) [
        | inl e ↦
            let (own, allowed) = both (str_eq k r.key) (is_allowed r rs) e in
            rw e (
              rw own (
                rw (allowed_done r rs (Shares-key k r rs own alike) o allowed)
                  (one_more p r.time _ _ (accepted-le-log p k rs alike.1 o.1))))
        | inr e ↦ rw e (
            maybe_more p r.time (str_eq k r.key && is_done r.reply) _ _
              (accepted-le-log p k rs alike.1 o.1))
      ]

      -- With Redis connected and without sets at first, and outside of test mode, in a run of requests in the order of
      -- their times, for any keys: where those for one key are all made with the same window of at least 1 and the
      -- same limit, at most that limit of
      -- them are let through in any span of the window's length, wherever it starts.
      pub check_rate_limit-quota :
          (k : String) (a : ℕ) (rs : List Request)
          → Shares k w limit rs
          → IsOrdered rs
          → length (select (between w a) (accepted k rs)) ≤ limit
      unfolding accepted select
      check_rate_limit-quota k a [] alike o = omega arith
      check_rate_limit-quota k a (r ∷ rs) alike o =
          elim (Bool-cases (str_eq k r.key && is_allowed r rs)) [
            | inl e ↦
                let (own, allowed) = both (str_eq k r.key) (is_allowed r rs) e in
                elim (Bool-cases (between w a r.time)) [
                  | inl inside ↦ rw e (
                      le_trans
                        (one_more (between w a) r.time _ _
                          (accepted-le-log (between w a) k rs alike.1 o.1))
                        (le_trans
                          (length-select-le (between w a) (in_window w r.time) (r.time ∷ log k rs)
                            (λ s h. covers a r.time s inside h))
                          (subst
                            (λ j. length (select (in_window w r.time) (r.time ∷ log j rs)) ≤ limit)
                            (sym ((eq_iff k r.key).0 own))
                            (allowed_few r rs (Shares-key k r rs own alike) o allowed))))
                  | inr outside ↦ rw e (rw outside (check_rate_limit-quota k a rs alike.1 o.1))
                ]
            | inr e ↦ rw e (check_rate_limit-quota k a rs alike.1 o.1)
          ]
