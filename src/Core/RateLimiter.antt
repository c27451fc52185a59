-- ===== src/Core/RateLimiter.antt =====
-- src/core/rate_limiter.py: the sliding window on a sorted set of Redis. Times are numbers, and `/` of the clock is
-- left out. `Window` is about the set of a key after a run of requests,
-- `Decisions` about what is let through.
pub mod Window
pub mod Decisions
use oms_wms_tms.Prelude.{
  ℕ, ◌+◌, ◌-◌, ◌≤◌, ◌<◌, ◌≡◌, String, Bool, true, false, not, ◌&&◌, Option, none, some, str_eq, leb,
  ◌==◌, if◌then◌else◌,
}
use oms_wms_tms.Prelude.Int.{ℤ, pos, ◌-ℤ◌, leb_ℤ}
pub use oms_wms_tms.Prelude.Reply.{Reply, answered, failed, lost, carried_out}

-- A sorted set of Redis with its time to live. `count t p z` is the number of members at the time `t` whose scores
-- pass `p`. A member of the code carries a fresh UUID, so `zadd` always adds one.
pub record SortedSet (Z : Type 0) : Type 0 where
  pub count : ℕ → (ℕ → Bool) → Z → ℕ
  pub zadd : ℕ → ℕ → Z → Z
  pub zremrangebyscore : ℕ → ℤ → Z → Z
  pub expire : ℕ → ℕ → Z → Z
  pub count-zadd :
      (t s : ℕ) (p : ℕ → Bool) (z : Z)
      → count t p (zadd t s z) ≡ (if p s then count t p z + 1 else count t p z)
  pub count-zremrangebyscore :
      (t : ℕ) (m : ℤ) (p : ℕ → Bool) (z : Z)
      → count t p (zremrangebyscore t m z) ≡ count t (λ s. p s && not (leb_ℤ (pos s) m)) z
  pub count-expire :
      (t t' w : ℕ) (p : ℕ → Bool) (z : Z) → t' < t + w → count t' p (expire t w z) ≡ count t p z
  pub count-expired :
      (t t' w : ℕ) (p : ℕ → Bool) (z : Z) → t + w ≤ t' → count t' p (expire t w z) ≡ 0

pub record Settings : Type 0 where
  pub rate_limit_requests : ℕ
  pub rate_limit_window : ℕ
  pub testing : Bool

-- `x or d` of a number.
abbrev pub or_default : Option ℕ → ℕ → ℕ
or_default none d = d
or_default (some n) d = if n == 0 then d else n

pub record RateLimiter (Z : Type 0) : Type 0 where
  pub connected : Bool
  pub buckets : String → Z

-- `connect`: whether the ping answers; and `disconnect`, whose `close` answers.
unfoldable pub connect : {Z : Type 0} → Bool → RateLimiter Z → Bool × RateLimiter Z
connect ping s = (ping, record s { connected = ping })

unfoldable pub disconnect : {Z : Type 0} → RateLimiter Z → RateLimiter Z
disconnect s = if s.connected then record s { connected = false } else s

abbrev pub update : {Z : Type 0} → String → Z → (String → Z) → String → Z
update k z f j = if str_eq j k then z else f j

pub record Headers : Type 0 where
  pub rate_limit : ℕ
  pub rate_remaining : ℕ
  pub rate_window : ℕ
  pub rate_reset : ℕ

-- What the wrapped handler answers: `HTTPException` 429 with its two headers, or the handler's own answer, which
-- gets the headers if it is a `JSONResponse`.
pub data Answer (A : Type 0) : Type 0 where
  too_many_requests : ℕ → ℕ → Answer A
  handled : A → Option Headers → Answer A

module _ {Z : Type 0} (sets : SortedSet Z) where
  -- The commands of the pipeline, at the time `now`; the third one is ZCARD.
  unfoldable pub pipeline : ℕ → ℕ → Z → Z
  pipeline now window z =
      sets.expire now window
        (sets.zremrangebyscore now (pos now -ℤ pos window) (sets.zadd now now z))

  unfoldable pub zcard : ℕ → ℕ → Z → ℕ
  zcard now window z =
      sets.count now (λ s. true)
        (sets.zremrangebyscore now (pos now -ℤ pos window) (sets.zadd now now z))

  -- `check_rate_limit`
  unfoldable pub check_rate_limit :
      Settings → Reply → String → Option ℕ → Option ℕ → ℕ → RateLimiter Z → Bool × RateLimiter Z
  unfolding pipeline zcard
  check_rate_limit settings reply key requests window now s =
      let limit : ℕ = or_default requests settings.rate_limit_requests in
      let w : ℕ = or_default window settings.rate_limit_window in
      if settings.testing then (true, s) else if not s.connected then (false, s) else (
        elim reply [ answered ↦ leb (zcard now w (s.buckets key)) limit | _ ↦ false ],
        record s {
          buckets = update key (carried_out reply (pipeline now w) (s.buckets key)) s.buckets;
        },
      )

  -- `get_rate_limit_headers`; `max(0, requests - count)` is subtraction on ℕ, and ZCOUNT has both ends.
  unfoldable pub get_rate_limit_headers :
      Settings → Reply → String → ℕ → RateLimiter Z → Option Headers
  get_rate_limit_headers settings reply key now s = if not s.connected then none else elim reply [
    | answered ↦ some (record {
      rate_limit = settings.rate_limit_requests;
      rate_remaining =
          settings.rate_limit_requests
          - sets.count now
              (λ t. leb_ℤ (pos now -ℤ pos settings.rate_limit_window) (pos t) && leb t now)
              (s.buckets key);
      rate_window = settings.rate_limit_window;
      rate_reset = now + settings.rate_limit_window;
    })
    | _ ↦ none
  ]

  -- The wrapper of `rate_limit`. `key` is what `key_func` or the client's address gives; `is_json` tells the answers
  -- that take headers, and `headers_at` is the time of the second look at the clock.
  unfoldable pub wrapper :
      {A : Type 0}
      → Settings
      → Option ℕ
      → Option ℕ
      → (is_json : A → Bool) → Reply
      → Reply
      → String
      → ℕ
      → ℕ
      → A
      → RateLimiter Z
      → Answer A × RateLimiter Z
  unfolding check_rate_limit get_rate_limit_headers
  wrapper settings requests window is_json first second key now headers_at result s =
      let limit : ℕ = or_default requests settings.rate_limit_requests in
      let w : ℕ = or_default window settings.rate_limit_window in
      let checked : Bool × RateLimiter Z =
        check_rate_limit settings first key (some limit) (some w) now s in
      if not checked.0 then (too_many_requests limit w, checked.1) else (
        handled result (
            if is_json result
            then get_rate_limit_headers settings second key headers_at checked.1
            else none),
        checked.1,
      )
