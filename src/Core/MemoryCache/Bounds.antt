-- ===== src/Core/MemoryCache/Bounds.antt =====
-- The size and the keys of the cache, over any sequence of operations.
use mathlib.Core.Option.{some-injective, none-ne-some}
use oms_wms_tms.Prelude.{
  ℕ, ◌+◌, ◌≤◌, ◌≡◌, refl, sym, ap, ◌∙◌, subst, String, Option, none, some, List, [], ◌∷◌, arith,
  leb, Bool-cases, Option-cases, ◌⊎◌, inl, inr, length,
}
use oms_wms_tms.Prelude.Int.{ℤ, pos, ◌+ℤ◌, ◌-ℤ◌}
use oms_wms_tms.Prelude.Distinct.{Distinct}
use oms_wms_tms.Core.MemoryCache.{
  Value, number, other, changed, Entry, MemoryCache, new, find, drop, assign, pop_oldest, get,
  cleared, entry_of, set_entry, delete, shift, incr, decr, not_negative, expire_key, flushall,
}
use oms_wms_tms.Core.MemoryCache.Entries.{
  same_key, find-key, find-assign_self, length-drop-le, length-drop, length-assign-le,
  length-assign, length-move_to_end, Distinct-drop, Distinct-assign, Distinct-move_to_end,
}

-- At most `size` entries, with different keys.
pub record IsBounded (size : ℕ) (c : MemoryCache) : Type 0 where
  pub size_is : c.maxsize ≡ size
  pub within : length c.cache ≤ size
  pub distinct : Distinct same_key c.cache

pub data Op : Type 0 where
  getting deleting : String → Op
  setting : String → Value → Option ℕ → Op
  adding taking : String → ℤ → Op
  expiring : String → ℕ → Op
  flushing : Op

-- The cache after an operation, none where it raises.
abbrev pub after : Op → MemoryCache → Option MemoryCache
after (getting k) c = some (get k c).1
after (deleting k) c = some (delete k c).1
after (setting k v expire) c = set_entry k v expire c
after (adding k delta) c = elim (incr k delta c) [ none ↦ none | some x ↦ some x.1 ]
after (taking k delta) c = elim (decr k delta c) [ none ↦ none | some x ↦ some x.1 ]
after (expiring k seconds) c = some (expire_key k seconds c).1
after flushing c = some (flushall c)

-- The cache after operations one after another; one that raises leaves it as it was.
abbrev pub serve : List Op → MemoryCache → MemoryCache
serve [] c = c
serve (op ∷ ops) c = elim (after op c) [ none ↦ serve ops c | some c' ↦ serve ops c' ]

abbrev pub IsOther : Value → Type 0
IsOther (number v) = ⊥
IsOther (other t) = Unit

-- A key that is there, with a value that is not a number.
abbrev pub HoldsOther : String → MemoryCache → Type 0
HoldsOther k c = (e : Entry) × (find k c.cache ≡ some e) × IsOther e.value

-- `incr` or `decr` of such a key.
abbrev pub IsOnOther : Op → MemoryCache → Type 0
IsOnOther (adding k delta) c = HoldsOther k c
IsOnOther (taking k delta) c = HoldsOther k c
IsOnOther (getting k) c = ⊥
IsOnOther (deleting k) c = ⊥
IsOnOther (setting k v expire) c = ⊥
IsOnOther (expiring k seconds) c = ⊥
IsOnOther flushing c = ⊥

changed-IsOther : (change : ℤ → ℤ) (v : Value) → changed change v ≡ none → IsOther v
changed-IsOther change (number v) h = none-ne-some (change v) (sym h)
changed-IsOther change (other t) h = tt

-- A key that has been set is found with its entry.
pub set_entry-find :
    (k : String) (v : Value) (expire : Option ℕ) (c c' : MemoryCache)
    → set_entry k v expire c ≡ some c'
    → find k c'.cache ≡ some (entry_of k v expire)
unfolding set_entry
set_entry-find k v expire c c' done = elim (Option-cases (cleared k c)) [
  | inl full ↦
      let e : set_entry k v expire c ≡ none = rw (full, set_entry) refl in
      absurd (none-ne-some c' (sym e ∙ done))
  | inr (es, room_made) ↦
      let e : set_entry k v expire c ≡ some (record c { cache = assign (entry_of k v expire) es }) =
        rw (room_made, set_entry) refl in
      subst (λ (x : MemoryCache). find k x.cache ≡ some (entry_of k v expire))
        (some-injective (record c { cache = assign (entry_of k v expire) es }) c' (sym e ∙ done))
        (find-assign_self (entry_of k v expire) es)
]

module _ (size : ℕ) (room : 1 ≤ size) where
  abbrev Keeps : Option MemoryCache → Type 0
  Keeps o = (c' : MemoryCache) × (o ≡ some c') × IsBounded size c'

  -- Assigning to a key that is there.
  assigned :
      (n e : Entry) (c : MemoryCache)
      → find n.key c.cache ≡ some e
      → IsBounded size c
      → IsBounded size (record c { cache = assign n c.cache })
  assigned n e c there h = record {
    size_is = h.size_is;
    within = omega (arith, length-assign n e c.cache there, h.within);
    distinct = Distinct-assign n c.cache h.distinct;
  }

  popped :
      (es : List Entry)
      → 1 ≤ length es
      → length es ≤ size
      → Distinct same_key es
      → (qs : List Entry) × (pop_oldest es ≡ some qs)
        × (length qs + 1 ≤ size)
        × Distinct same_key qs
  unfolding pop_oldest
  popped [] h k d = absurd (omega arith)
  popped (e ∷ es) h k d = (es, refl, omega arith, d.1)

  cleared_lem :
      (k : String) (c : MemoryCache)
      → IsBounded size c
      → (es : List Entry) × (cleared k c ≡ some es) × (length es + 1 ≤ size) × Distinct same_key es
  unfolding cleared
  cleared_lem k c h = elim (Option-cases (find k c.cache)) [
    | inr (e, there) ↦ (
      drop k c.cache,
      rw (there, cleared) refl,
      omega (arith, length-drop k e c.cache there, h.within),
      Distinct-drop k c.cache h.distinct,
    )
    | inl gone ↦ elim (Bool-cases (leb c.maxsize (length c.cache))) [
      | inl full ↦
          let (qs, rest, small, apart) =
            popped c.cache (ground (arith, h.size_is)) h.within h.distinct in
          (qs, rw (gone, cleared) (rw full rest), small, apart)
      | inr free ↦
          (c.cache, rw (gone, cleared) (rw free refl), ground (arith, h.size_is), h.distinct)
    ]
  ]

  set_entry-IsBounded :
      (k : String) (v : Value) (expire : Option ℕ) (c : MemoryCache)
      → IsBounded size c
      → Keeps (set_entry k v expire c)
  unfolding set_entry
  set_entry-IsBounded k v expire c h =
      let (es, room_made, small, apart) = cleared_lem k c h in
      (
        record c { cache = assign (entry_of k v expire) es },
        rw (room_made, set_entry) refl,
        record {
          size_is = h.size_is;
          within = omega (arith, length-assign-le (entry_of k v expire) es);
          distinct = Distinct-assign (entry_of k v expire) es apart;
        },
      )

  -- What a value is changed to, with the entry's key as it was.
  changed-IsBounded :
      (k : String) (e e' : Entry) (c : MemoryCache)
      → find k c.cache ≡ some e
      → e'.key ≡ e.key
      → IsBounded size c
      → IsBounded size (record c { cache = assign e' c.cache })
  changed-IsBounded k e e' c there same h =
      assigned e' e c
        (subst (λ j. find j c.cache ≡ some e) (sym (same ∙ find-key k e c.cache there)) there) h

  -- What `shift` answers: a new cache, or it raises at a value that is not a number.
  abbrev Shifted : String → MemoryCache → Option (ℤ × MemoryCache) → Type 0
  Shifted k c o =
      ((x : ℤ × MemoryCache) × (o ≡ some x) × IsBounded size x.1) ⊎ ((o ≡ none) × HoldsOther k c)

  shift-Shifted :
      (change shown : ℤ → ℤ) (k : String) (c : MemoryCache)
      → IsBounded size c
      → Shifted k c (shift change shown k c)
  unfolding shift
  shift-Shifted change shown k c h = elim (Option-cases (find k c.cache)) [
    | inr (e, there) ↦ elim (Option-cases (changed change e.value)) [
      | inl raised ↦ inr (
        rw (there, shift) (rw there (rw raised refl)),
        (e, there, changed-IsOther change e.value raised),
      )
      | inr (v, sum) ↦ inl (
        (shown v, record c { cache = assign (record e { value = number v }) c.cache }),
        rw (there, shift) (rw there (rw sum refl)),
        changed-IsBounded k e (record e { value = number v }) c there refl h,
      )
    ]
    | inl gone ↦
        let (c1, done, bounded) = set_entry-IsBounded k (number (pos 0)) none c h in
        let e = entry_of k (number (pos 0)) none in
        let there = set_entry-find k (number (pos 0)) none c c1 done in
        inl (
          (
            shown (change (pos 0)),
            record c1 { cache = assign (record e { value = number (change (pos 0)) }) c1.cache },
          ),
          rw (gone, shift) (rw done (rw there refl)),
          changed-IsBounded k e (record e { value = number (change (pos 0)) }) c1 there refl
              bounded,
        )
  ]

  expire_key-IsBounded :
      (k : String) (seconds : ℕ) (c : MemoryCache)
      → IsBounded size c
      → IsBounded size (expire_key k seconds c).1
  unfolding expire_key
  expire_key-IsBounded k seconds c h = elim (Option-cases (find k c.cache)) [
    | inl gone ↦ rw (gone, expire_key) h
    | inr (e, there) ↦ rw (there, expire_key) (changed-IsBounded k e _ c there refl h)
  ]

  get-IsBounded : (k : String) (c : MemoryCache) → IsBounded size c → IsBounded size (get k c).1
  unfolding get
  get-IsBounded k c h = elim (Option-cases (find k c.cache)) [
    | inl gone ↦ rw (gone, get) h
    | inr (e, there) ↦
        rw (there, get)
          (record {
            size_is = h.size_is;
            within = omega (arith, length-move_to_end k e c.cache there, h.within);
            distinct = Distinct-move_to_end e c.cache h.distinct;
          })
  ]

  abbrev Outcome : Op → MemoryCache → Option MemoryCache → Type 0
  Outcome op c o = Keeps o ⊎ ((o ≡ none) × IsOnOther op c)

  abbrev cache_of : Option (ℤ × MemoryCache) → Option MemoryCache
  cache_of o = elim o [ none ↦ none | some x ↦ some x.1 ]

  Shifted-Outcome :
      (k : String) (c : MemoryCache) (o : Option (ℤ × MemoryCache))
      → Shifted k c o
      → Keeps (cache_of o) ⊎ ((cache_of o ≡ none) × HoldsOther k c)
  Shifted-Outcome k c o (inl (x, done, bounded)) = inl (x.1, ap cache_of done, bounded)
  Shifted-Outcome k c o (inr (raised, holds)) = inr (ap cache_of raised, holds)

  after-Outcome : (op : Op) (c : MemoryCache) → IsBounded size c → Outcome op c (after op c)
  unfolding incr decr delete flushall
  after-Outcome (getting k) c h = inl ((get k c).1, refl, get-IsBounded k c h)
  after-Outcome (deleting k) c h = inl (
    (delete k c).1,
    refl,
    record {
      size_is = h.size_is;
      within = omega (arith, length-drop-le k c.cache, h.within);
      distinct = Distinct-drop k c.cache h.distinct;
    },
  )
  after-Outcome (setting k v expire) c h = inl (set_entry-IsBounded k v expire c h)
  after-Outcome (adding k delta) c h =
      Shifted-Outcome k c (incr k delta c) (shift-Shifted (λ v. v +ℤ delta) (λ v. v) k c h)
  after-Outcome (taking k delta) c h =
      Shifted-Outcome k c (decr k delta c) (shift-Shifted (λ v. v -ℤ delta) not_negative k c h)
  after-Outcome (expiring k seconds) c h =
      inl ((expire_key k seconds c).1, refl, expire_key-IsBounded k seconds c h)
  after-Outcome flushing c h =
      inl (flushall c, refl, record { size_is = h.size_is; within = omega arith; distinct = tt })

  serve-IsBounded_from :
      (ops : List Op) (c : MemoryCache) → IsBounded size c → IsBounded size (serve ops c)
  serve-IsBounded_from [] c h = h
  serve-IsBounded_from (op ∷ ops) c h = elim (after-Outcome op c h) [
    | inl (c', done, h') ↦ next (sym done) (serve-IsBounded_from ops c' h')
    | inr (raised, holds) ↦ next (sym raised) (serve-IsBounded_from ops c h)
  ]
    where
      kept : Option MemoryCache → MemoryCache
      kept o = elim o as (λ _. MemoryCache) [ none ↦ serve ops c | some c' ↦ serve ops c' ]

      next :
          {o : Option MemoryCache}
          → o ≡ after op c
          → IsBounded size (kept o)
          → IsBounded size (kept (after op c))
      next e h = subst (λ o. IsBounded size (kept o)) e h

  raises : (op : Op) (c : MemoryCache) → IsBounded size c → after op c ≡ none → IsOnOther op c
  raises op c h raised = elim (after-Outcome op c h) [
    | inl (c', done, h') ↦ absurd (none-ne-some c' (sym raised ∙ done))
    | inr (same, holds) ↦ holds
  ]

  -- After any sequence of operations, those that raise included, a new cache with room for an entry has the size that
  -- it was created with, and holds at most that many entries, all with different keys; and of the next operations
  -- only `incr` and `decr` can raise, and only for a key whose value is not a number.
  pub serve-IsBounded :
      (ops : List Op)
      → IsBounded size (serve ops (new size))
        × ((op : Op) → after op (serve ops (new size)) ≡ none → IsOnOther op (serve ops (new size)))
  serve-IsBounded ops =
      let h : IsBounded size (serve ops (new size)) =
        serve-IsBounded_from ops (new size)
          (record { size_is = refl; within = omega arith; distinct = tt }) in
      (h, λ op. raises op (serve ops (new size)) h)
