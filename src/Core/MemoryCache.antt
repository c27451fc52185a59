-- ===== src/Core/MemoryCache.antt =====
-- `MemoryCache` of src/cache/redis_client.py: an ordered dict with its oldest entry first. A value is
-- an integer or anything else, to which `incr` and `decr` cannot add; times are seconds. `Entries` has
-- the laws of the dict, `Bounds` is about its size, `Eviction` about what a full cache drops.
pub mod Entries
pub mod Bounds
pub mod Eviction
use oms_wms_tms.Prelude.{
  ℕ, ◌+◌, min, String, Bool, true, false, not, Option, none, some, List, [], ◌∷◌, ◌++◌, str_eq, leb,
  if◌then◌else◌, length, is_some,
}
use oms_wms_tms.Prelude.Int.{ℤ, pos, negsuc, ◌+ℤ◌, ◌-ℤ◌}

-- A value of another type is named by a text.
pub data Value : Type 0 where
  number : ℤ → Value
  other : String → Value

pub record Entry : Type 0 where
  pub key : String
  pub value : Value
  pub expire : ℕ

pub record MemoryCache : Type 0 where
  pub cache : List Entry
  pub maxsize : ℕ

abbrev pub new : ℕ → MemoryCache
new maxsize = record { cache = []; maxsize = maxsize }

-- The operations of the ordered dict: `in` and `[]`, `pop`, assignment to a key that is there or new,
-- `move_to_end` and `popitem(last=False)`.
unfoldable pub find : String → List Entry → Option Entry
find k [] = none
find k (e ∷ es) = if str_eq e.key k then some e else find k es

unfoldable pub drop : String → List Entry → List Entry
drop k [] = []
drop k (e ∷ es) = if str_eq e.key k then es else e ∷ drop k es

unfoldable pub assign : Entry → List Entry → List Entry
assign n [] = n ∷ []
assign n (e ∷ es) = if str_eq e.key n.key then n ∷ es else e ∷ assign n es

unfoldable pub move_to_end : Entry → List Entry → List Entry
unfolding drop
move_to_end e es = drop e.key es ++ e ∷ []

-- None where `popitem` raises, on an empty dict.
unfoldable pub pop_oldest : List Entry → Option (List Entry)
pop_oldest [] = none
pop_oldest (e ∷ es) = some es

unfoldable pub get : String → MemoryCache → Option Value × MemoryCache
unfolding find move_to_end
get k c = elim (find k c.cache) [
  | none ↦ (none, c)
  | some e ↦ (some e.value, record c { cache = move_to_end e c.cache })
]

-- Makes room for a key: its own entry goes, or in a full cache the oldest; none where `popitem` raises.
unfoldable pub cleared : String → MemoryCache → Option (List Entry)
unfolding find drop pop_oldest
cleared k c = elim (find k c.cache) [
  | some e ↦ some (drop k c.cache)
  | none ↦ if leb c.maxsize (length c.cache) then pop_oldest c.cache else some c.cache
]

-- `expire or 0.0`
abbrev pub entry_of : String → Value → Option ℕ → Entry
entry_of k v expire = record { key = k; value = v; expire = elim expire [ none ↦ 0 | some t ↦ t ] }

-- `set`
unfoldable pub set_entry : String → Value → Option ℕ → MemoryCache → Option MemoryCache
unfolding cleared assign
set_entry k v expire c = elim (cleared k c) [
  | none ↦ none
  | some es ↦ some (record c { cache = assign (entry_of k v expire) es })
]

unfoldable pub delete : String → MemoryCache → Bool × MemoryCache
unfolding find drop
delete k c = (is_some (find k c.cache), record c { cache = drop k c.cache })

unfoldable pub exists_key : String → MemoryCache → Bool
unfolding find
exists_key k c = is_some (find k c.cache)

-- `value + delta` or `value - delta`, none where it raises.
abbrev pub changed : (ℤ → ℤ) → Value → Option ℤ
changed change (number v) = some (change v)
changed change (other t) = none

-- The steps that `incr` and `decr` share: a key that is not there is set to 0 first.
unfoldable pub shift : (ℤ → ℤ) → (ℤ → ℤ) → String → MemoryCache → Option (ℤ × MemoryCache)
unfolding find set_entry assign
shift change shown k c =
    let start : Option MemoryCache = elim (find k c.cache) [
      | none ↦ set_entry k (number (pos 0)) none c
      | some e ↦ some c
    ] in
    elim start [
      | none ↦ none
      | some c1 ↦ elim (find k c1.cache) [
        | none ↦ none
        | some e ↦ elim (changed change e.value) [
          | none ↦ none
          | some v ↦
              some (shown v, record c1 { cache = assign (record e { value = number v }) c1.cache })
        ]
      ]
    ]

unfoldable pub incr : String → ℤ → MemoryCache → Option (ℤ × MemoryCache)
unfolding shift
incr k delta c = shift (λ v. v +ℤ delta) (λ v. v) k c

-- `max(0, value - delta)` is answered, `value - delta` is kept.
abbrev pub not_negative : ℤ → ℤ
not_negative (pos n) = pos n
not_negative (negsuc n) = pos 0

unfoldable pub decr : String → ℤ → MemoryCache → Option (ℤ × MemoryCache)
unfolding shift
decr k delta c = shift (λ v. v -ℤ delta) not_negative k c

-- `min(current_expire + seconds, 86400 * 30)`
unfoldable pub expire_key : String → ℕ → MemoryCache → Bool × MemoryCache
unfolding find assign
expire_key k seconds c = elim (find k c.cache) [
  | none ↦ (false, c)
  | some e ↦ (
    true,
    record c { cache = assign (record e { expire = min (e.expire + seconds) 2592000 }) c.cache },
  )
]

-- `ttl`: the stored number, or -1.
unfoldable pub ttl : String → MemoryCache → ℤ
unfolding find
ttl k c = elim (find k c.cache) [ none ↦ negsuc 0 | some e ↦ pos e.expire ]

unfoldable pub flushall : MemoryCache → MemoryCache
flushall c = record c { cache = [] }
