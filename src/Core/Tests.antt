-- ===== src/Core/Tests.antt =====
-- Concrete caches, queries and requests for the theorems about src/core and src/cache.
use oms_wms_tms.Prelude.{
  ℕ, suc, ◌+◌, ◌≤◌, ◌<◌, ◌≡◌, ◌≢◌, refl, String, Bool, true, false, not, ◌&&◌, Option, none, some,
  List, [], ◌∷◌, arith, ltb, leb, if◌then◌else◌, Bool-cases, inl, inr, ◌⊎◌, length, select, ok,
  Result,
}
use oms_wms_tms.Prelude.Int.{ℤ, pos, leb_ℤ}
use oms_wms_tms.Prelude.{str_eq}
use oms_wms_tms.Core.MemoryCache.{
  MemoryCache, number, other, Entry, new, find, get, set_entry, cleared, assign, pop_oldest,
}
use oms_wms_tms.Core.MemoryCache.Bounds.{
  Op, setting, adding, taking, getting, after, IsOnOther, IsBounded, serve-IsBounded,
}
use oms_wms_tms.Core.MemoryCache.Bounds as Bounds
use oms_wms_tms.Core.MemoryCache.Eviction.{IsEvicted, get-set_entry}
use oms_wms_tms.Core.Pagination.{take, drop, Window, PaginatedResponse, ceil_div, paginate}
use oms_wms_tms.Core.Pagination.Pages.{read_pages, paginate-pages}
use oms_wms_tms.Core.RateLimiter.{answered, SortedSet, Settings}
use oms_wms_tms.Core.RateLimiter.Window.{Request, in_window, log}
use oms_wms_tms.Core.RateLimiter.Decisions.{
  Shares, is_allowed, accepted, between, check_rate_limit-window, check_rate_limit-quota,
}

abbrev ops : List Op
ops =
    setting "a" (other "text") none
    ∷ adding "b" (pos 2)
    ∷ adding "a" (pos 1)
    ∷ getting "a"
    ∷ taking "c" (pos 3)
    ∷ []

serve-IsBounded_example :
    IsBounded 2 (Bounds.serve ops (new 2))
    × ((op : Op)
        → after op (Bounds.serve ops (new 2)) ≡ none
        → IsOnOther op (Bounds.serve ops (new 2)))
serve-IsBounded_example = serve-IsBounded 2 (omega arith) ops

abbrev entry : String → ℕ → Entry
entry k n = record { key = k; value = number (pos n); expire = 0 }

abbrev full : MemoryCache
full = record { cache = entry "a" 1 ∷ entry "b" 2 ∷ []; maxsize = 2 }

abbrev full_after : MemoryCache
full_after = record { cache = entry "b" 2 ∷ entry "c" 3 ∷ []; maxsize = 2 }

get-set_entry_example :
    ((get "c" full_after).0 ≡ some (number (pos 3)))
    × ((j : String)
        → j ≢ "c"
        → (find j full_after.cache ≡ find j full.cache) ⊎ IsEvicted "c" j full)
unfolding set_entry cleared assign find pop_oldest
get-set_entry_example = get-set_entry "c" (number (pos 3)) none full full_after refl

-- A database that takes negative numbers for zero.
slice : ℤ → ℤ → List ℕ → Result (List ℕ)
slice (pos o) (pos l) rows = ok (take l (drop o rows))
slice o l rows = ok []

slice-pos : (o l : ℕ) (rows : List ℕ) → slice (pos o) (pos l) rows ≡ ok (take l (drop o rows))
unfolding slice
slice-pos o l rows = refl

abbrev a_window : Window ℕ
a_window = record { slice = slice; slice-pos = slice-pos }

paginate-pages_example :
    (read_pages a_window (7 ∷ 8 ∷ 9 ∷ []) 2 (omega arith) (ceil_div 3 2) 0 ≡ ok (7 ∷ 8 ∷ 9 ∷ []))
    × ((p : ℕ)
        → p < ceil_div 3 2
        → (r : PaginatedResponse ℕ) × (paginate a_window (7 ∷ 8 ∷ 9 ∷ []) (pos (suc p)) (pos 2)
            ≡ ok r)
          × (1 ≤ length r.items)
          × (length r.items ≤ 2)
          × (r.total ≡ 3)
          × (r.total_pages ≡ ceil_div 3 2))
paginate-pages_example = paginate-pages a_window (7 ∷ 8 ∷ 9 ∷ []) 2 (omega arith)

-- A server that keeps the scores of a set in a list, with the time at which the set expires.
record Bucket : Type 0 where
  scores : List ℕ
  until : Option ℕ

abbrev is_alive : ℕ → Option ℕ → Bool
is_alive t none = true
is_alive t (some u) = ltb t u

abbrev seen : ℕ → Bucket → List ℕ
seen t z = if is_alive t z.until then z.scores else []

abbrev later : ℕ → Option ℕ → Option ℕ
later t u = if is_alive t u then u else none

still_alive : (t : ℕ) (u : Option ℕ) → is_alive t (later t u) ≡ true
still_alive t none = refl
still_alive t (some u) = elim (Bool-cases (ltb t u)) [ inl e ↦ rw e e | inr e ↦ rw e refl ]

select_both :
    (p : ℕ → Bool) (m : ℤ) (xs : List ℕ)
    → length (select p (select (λ s. not (leb_ℤ (pos s) m)) xs))
      ≡ length (select (λ s. p s && not (leb_ℤ (pos s) m)) xs)
unfolding select
select_both p m [] = refl
select_both p m (x ∷ xs) = ground (arith, select_both p m xs)

abbrev count : ℕ → (ℕ → Bool) → Bucket → ℕ
count t p z = length (select p (seen t z))

abbrev zadd : ℕ → ℕ → Bucket → Bucket
zadd t s z = record { scores = s ∷ seen t z; until = later t z.until }

abbrev trim : ℕ → ℤ → Bucket → Bucket
trim t m z = record {
  scores = select (λ s. not (leb_ℤ (pos s) m)) (seen t z);
  until = later t z.until;
}

abbrev expire : ℕ → ℕ → Bucket → Bucket
expire t n z = record { scores = seen t z; until = some (t + n) }

count_zadd :
    (t s : ℕ) (p : ℕ → Bool) (z : Bucket)
    → count t p (zadd t s z) ≡ (if p s then count t p z + 1 else count t p z)
unfolding select
count_zadd t s p z = rw (still_alive t z.until) (ground arith)

count_trim :
    (t : ℕ) (m : ℤ) (p : ℕ → Bool) (z : Bucket)
    → count t p (trim t m z) ≡ count t (λ s. p s && not (leb_ℤ (pos s) m)) z
count_trim t m p z = rw (still_alive t z.until) (select_both p m (seen t z))

count_expire :
    (t t' n : ℕ) (p : ℕ → Bool) (z : Bucket) → t' < t + n → count t' p (expire t n z) ≡ count t p z
count_expire t t' n p z h = let e : ltb t' (t + n) ≡ true = ground arith in rw e refl

count_expired :
    (t t' n : ℕ) (p : ℕ → Bool) (z : Bucket) → t + n ≤ t' → count t' p (expire t n z) ≡ 0
unfolding select
count_expired t t' n p z h = let e : ltb t' (t + n) ≡ false = ground arith in rw e refl

abbrev buckets : SortedSet Bucket
buckets = record {
  count = count;
  zadd = zadd;
  zremrangebyscore = trim;
  expire = expire;
  count-zadd = count_zadd;
  count-zremrangebyscore = count_trim;
  count-expire = count_expire;
  count-expired = count_expired;
}

abbrev settings : Settings
settings = record { rate_limit_requests = 2; rate_limit_window = 10; testing = false }

abbrev no_scores : Bucket
no_scores = record { scores = []; until = none }

blank : (t : ℕ) (p : ℕ → Bool) → count t p no_scores ≡ 0
unfolding select
blank t p = refl

-- Requests for one key with a window of 10, and one for another key with a window of 60.
abbrev request : ℕ → Request
request t = record { key = "ip:1"; requests = some 2; window = none; time = t; reply = answered }

abbrev other_request : ℕ → Request
other_request t = record {
  key = "ip:2";
  requests = some 5;
  window = some 60;
  time = t;
  reply = answered;
}

abbrev requests : List Request
requests = request 12 ∷ other_request 11 ∷ request 3 ∷ []

differs : {A : Type 0} → str_eq "ip:1" "ip:2" ≡ true → A
differs h = absurd (ground (arith, h))

shares : Shares buckets settings no_scores "ip:1" 10 2 requests
shares = (λ e. (refl, refl), ((λ e. differs e), ((λ e. (refl, refl)), tt)))

check_rate_limit-window_example :
    is_allowed buckets settings no_scores (request 14) requests
    ≡ (true && leb (length (select (in_window 10 14) (14 ∷ log "ip:1" requests))) 2)
check_rate_limit-window_example =
    check_rate_limit-window buckets settings no_scores refl 10 2 (omega arith) blank (request 14)
      requests ((λ e. (refl, refl)), shares)
      (
        (omega arith, (omega arith, (omega arith, tt))),
        ((omega arith, (omega arith, tt)), ((omega arith, tt), (tt, tt))),
      )

check_rate_limit-quota_example :
    length (
      select
        (between buckets settings no_scores 10 2)
        (accepted buckets settings no_scores "ip:1" requests))
    ≤ 2
check_rate_limit-quota_example =
    check_rate_limit-quota buckets settings no_scores refl 10 2 (omega arith) blank "ip:1" 2
      requests shares ((omega arith, (omega arith, tt)), ((omega arith, tt), (tt, tt)))
