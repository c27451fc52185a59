-- ===== src/Core/RateLimiter/Window.antt =====
-- What the set of a key holds after a run of requests, the newest first.
use mathlib.Core.Path.{fun_ext}
use native.Mathlib.Decide.{dec_lt}
use oms_wms_tms.Prelude.{
  ℕ, ◌+◌, ◌≤◌, ◌≡◌, refl, sym, ap, ◌∙◌, String, Bool, true, false, not, ◌&&◌, List, [], ◌∷◌, arith,
  str_eq, eq_iff, ltb, Option, if◌then◌else◌, Bool-cases, inl, inr, length, All, select,
}
use oms_wms_tms.Prelude.Int.{pos, ◌-ℤ◌, leb_ℤ}
use oms_wms_tms.Core.RateLimiter.{
  Reply, answered, failed, lost, carried_out, SortedSet, update, pipeline, zcard,
}

-- The times that a window of the length `w` before `t` covers, without its start.
abbrev pub in_window : ℕ → ℕ → ℕ → Bool
in_window w t s = ltb t (s + w)

-- A check: the key, the `requests` and `window` that the route's limiter was made with, the time and what Redis does.
pub record Request : Type 0 where
  pub key : String
  pub requests : Option ℕ
  pub window : Option ℕ
  pub time : ℕ
  pub reply : Reply

abbrev pub is_done : Reply → Bool
is_done answered = true
is_done failed = false
is_done lost = true

abbrev pub is_answered : Reply → Bool
is_answered answered = true
is_answered failed = false
is_answered lost = false

-- The times of the requests for a key that Redis has carried out.
unfoldable pub log : String → List Request → List ℕ
log k [] = []
log k (r ∷ rs) =
    let rest = log k rs in if str_eq k r.key && is_done r.reply then r.time ∷ rest else rest

abbrev pub IsOrdered : List Request → Type 0
IsOrdered [] = Unit
IsOrdered (r ∷ rs) = All (λ q. q.time ≤ r.time) rs × IsOrdered rs

pub length-select-le :
    (p q : ℕ → Bool) (ts : List ℕ)
    → ((s : ℕ) → p s ≡ true → q s ≡ true)
    → length (select p ts) ≤ length (select q ts)
unfolding select
length-select-le p q [] h = omega arith
length-select-le p q (s ∷ ts) h = ground (arith, h s, length-select-le p q ts h)

select_none : (p : ℕ → Bool) (ts : List ℕ) → All (λ s. p s ≡ false) ts → select p ts ≡ []
unfolding select
select_none p [] h = refl
select_none p (s ∷ ts) h = ground (arith, h.0, select_none p ts h.1)

All-map : (P Q : ℕ → Type 0) (ts : List ℕ) → ((s : ℕ) → P s → Q s) → All P ts → All Q ts
All-map P Q [] f h = tt
All-map P Q (s ∷ ts) f h = (f s h.0, All-map P Q ts f h.1)

and_true : (b : Bool) → (b && true) ≡ b
and_true true = refl
and_true false = refl

and_false : (b : Bool) → (b && false) ≡ false
and_false true = refl
and_false false = refl

pub log-bounded :
    (k : String) (t : ℕ) (rs : List Request)
    → All (λ (q : Request). q.time ≤ t) rs
    → All (λ s. s ≤ t) (log k rs)
unfolding log
log-bounded k t [] h = tt
log-bounded k t (r ∷ rs) h = elim (Bool-cases (str_eq k r.key && is_done r.reply)) [
  | inl e ↦ rw e (h.0, log-bounded k t rs h.1)
  | inr e ↦ rw e (log-bounded k t rs h.1)
]

module _ {Z : Type 0} (sets : SortedSet Z) (w : ℕ) (long : 1 ≤ w) where
  -- What is not removed at the time `t`, is in the window.
  kept_lem : (t : ℕ) → (λ s. not (leb_ℤ (pos s) (pos t -ℤ pos w))) ≡ in_window w t
  unfolding ◌-ℤ◌
  kept_lem t = fun_ext (λ s. ground arith)

  and_lem : (t t' : ℕ) → t ≤ t' → (λ s. in_window w t' s && in_window w t s) ≡ in_window w t'
  and_lem t t' h = fun_ext (λ s. ground arith)

  -- The set of a key holds, as far as any window from `t` on can see, the times `ts`.
  abbrev pub Shows : ℕ → Z → List ℕ → Type 0
  Shows now z ts =
      (t t' : ℕ)
      → now ≤ t
      → t ≤ t'
      → sets.count t (in_window w t') z ≡ length (select (in_window w t') ts)

  trimmed :
      (s : ℕ) (p : ℕ → Bool) (z : Z)
      → sets.count s p (sets.zremrangebyscore s (pos s -ℤ pos w) (sets.zadd s s z)) ≡ (
          if p s && in_window w s s
          then sets.count s (λ x. p x && in_window w s x) z + 1
          else sets.count s (λ x. p x && in_window w s x) z)
  trimmed s p z =
      sets.count-zremrangebyscore s (pos s -ℤ pos w) p (sets.zadd s s z)
      ∙ ap (λ q. sets.count s (λ x. p x && q x) (sets.zadd s s z)) (kept_lem s)
      ∙ sets.count-zadd s s (λ x. p x && in_window w s x) z

  own : (s : ℕ) → in_window w s s ≡ true
  own s = ground arith

  pub zcard_lem :
      (s : ℕ) (z : Z) (ts : List ℕ)
      → Shows s z ts
      → zcard sets s w z ≡ length (select (in_window w s) (s ∷ ts))
  unfolding zcard select
  zcard_lem s z ts shows =
      trimmed s (λ x. true) z
      ∙ rw (own s) (ap (λ n. n + 1) (shows s s (omega arith) (omega arith)) ∙ omega arith)

  pipeline-Shows :
      (s : ℕ) (z : Z) (ts : List ℕ)
      → All (λ x. x ≤ s) ts
      → Shows s z ts
      → Shows s (pipeline sets s w z) (s ∷ ts)
  unfolding pipeline select
  pipeline-Shows s z ts bound shows t t' late later = elim (dec_lt t (s + w)) [
    | yes alive ↦
        sets.count-expire s t w (in_window w t') _ alive
        ∙ trimmed s (in_window w t') z
        ∙ own_first t' (
            ap (λ q. sets.count s q z) (and_lem s t' (omega arith))
            ∙ shows s t' (omega arith) (omega arith))
    | no expired ↦
        sets.count-expired s t w (in_window w t') _ (omega arith)
        ∙ sym (
            ap length (
              select_none (in_window w t') (s ∷ ts)
                (outside s (omega arith), All-map _ _ ts (λ x h. outside x (omega arith)) bound)))
  ]
    where
      outside : (x : ℕ) → x + w ≤ t' → in_window w t' x ≡ false
      outside x h = ground arith

      own_first :
          (t' : ℕ) {n : ℕ}
          → n ≡ length (select (in_window w t') ts)
          → (if in_window w t' s && in_window w s s then n + 1 else n)
            ≡ length (select (in_window w t') (s ∷ ts))
      own_first t' e = rw (own s) (ground arith)

  -- A request at the time `s` for the key `j` with a window `v`, and the set of a key `k` whose window is `w`.
  module _ (k j : String) (s now v : ℕ) (f : String → Z) (ts : List ℕ) (late : s ≤ now)
      (bound : All (λ x. x ≤ s) ts) (shows : Shows s (f k) ts)
      (same : str_eq k j ≡ true → v ≡ w) where
    written : Shows now (update j (pipeline sets s v (f j)) f k) (if str_eq k j then s ∷ ts else ts)
    written t t' h h' = elim (Bool-cases (str_eq k j)) [
      | inl e ↦ rw e (
          ap (λ i. sets.count t (in_window w t') (pipeline sets s v (f i))) (sym ((eq_iff k j).0 e))
          ∙ ap (λ x. sets.count t (in_window w t') (pipeline sets s x (f k))) (same e)
          ∙ pipeline-Shows s (f k) ts bound shows t t' (omega arith) h')
      | inr e ↦ rw e (shows t t' (omega arith) h')
    ]

    untouched : Shows now (update j (f j) f k) ts
    untouched t t' h h' = elim (Bool-cases (str_eq k j)) [
      | inl e ↦ rw e (
          ap (λ i. sets.count t (in_window w t') (f i)) (sym ((eq_iff k j).0 e))
          ∙ shows t t' (omega arith) h')
      | inr e ↦ rw e (shows t t' (omega arith) h')
    ]

    pub request-Shows :
        (a : Reply)
        → Shows now
            (update j (carried_out a (pipeline sets s v) (f j)) f k)
            (if str_eq k j && is_done a then s ∷ ts else ts)
    request-Shows answered t t' h h' = rw (and_true (str_eq k j)) (written t t' h h')
    request-Shows failed t t' h h' = rw (and_false (str_eq k j)) (untouched t t' h h')
    request-Shows lost t t' h h' = rw (and_true (str_eq k j)) (written t t' h h')
