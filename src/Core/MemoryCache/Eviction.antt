-- ===== src/Core/MemoryCache/Eviction.antt =====
-- What is found after a key has been set.
use mathlib.Core.Option.{some-injective, none-ne-some}
use oms_wms_tms.Prelude.{
  ℕ, ◌≡◌, ◌≢◌, refl, sym, ap, ◌∙◌, String, true, Option, none, some, List, [], ◌∷◌, str_eq, eq_iff,
  leb, Bool-cases, Option-cases, inl, inr, ◌⊎◌, length,
}
use oms_wms_tms.Core.MemoryCache.{Value}
use oms_wms_tms.Core.MemoryCache.{
  Entry, MemoryCache, find, drop, assign, pop_oldest, get, cleared, entry_of, set_entry,
}
use oms_wms_tms.Core.MemoryCache.Entries.{find-assign_other, find-drop_other}
use oms_wms_tms.Core.MemoryCache.Bounds.{set_entry-find}

-- The key of the oldest entry of a full cache without the key `k`.
abbrev pub IsEvicted : String → String → MemoryCache → Type 0
IsEvicted k j c =
    (find k c.cache ≡ none)
    × (leb c.maxsize (length c.cache) ≡ true)
    × (e : Entry) × (es : List Entry) × (c.cache ≡ e ∷ es)
    × (e.key ≡ j)

get-find :
    (k : String) (e : Entry) (c : MemoryCache)
    → find k c.cache ≡ some e
    → (get k c).0 ≡ some e.value
unfolding get
get-find k e c there = rw (there, get) refl

-- Where the oldest entry goes, another key is found as before.
popped :
    (j : String) (es qs : List Entry)
    → pop_oldest es ≡ some qs
    → (find j qs ≡ find j es) ⊎ ((e : Entry) × (rest : List Entry) × (es ≡ e ∷ rest) × (e.key ≡ j))
unfolding pop_oldest find
popped j [] qs h = absurd (none-ne-some qs h)
popped j (e ∷ es) qs h = elim (Bool-cases (str_eq e.key j)) [
  | inl same ↦ inr (e, es, refl, (eq_iff e.key j).0 same)
  | inr other ↦ inl (rw other (ap (find j) (sym (some-injective es qs h))))
]

module _ (j k : String) (c : MemoryCache) (other : j ≢ k) where
  cleared-find :
      (es : List Entry) → cleared k c ≡ some es → (find j es ≡ find j c.cache) ⊎ IsEvicted k j c
  unfolding cleared
  cleared-find es h = elim (Option-cases (find k c.cache)) [
    | inr (e, there) ↦
        let own : cleared k c ≡ some (drop k c.cache) = rw (there, cleared) refl in
        inl (
          ap (find j) (sym (some-injective (drop k c.cache) es (sym own ∙ h)))
          ∙ find-drop_other j k c.cache other)
    | inl gone ↦ elim (Bool-cases (leb c.maxsize (length c.cache))) [
      | inl full ↦
          let own : cleared k c ≡ pop_oldest c.cache = rw (gone, cleared) (rw full refl) in
          elim (popped j c.cache es (sym own ∙ h)) [
            | inl same ↦ inl same
            | inr (e, rest, split, own_key) ↦ inr (gone, full, e, rest, split, own_key)
          ]
      | inr free ↦
          let own : cleared k c ≡ some c.cache = rw (gone, cleared) (rw free refl) in
          inl (ap (find j) (sym (some-injective c.cache es (sym own ∙ h))))
    ]
  ]

  set_entry-other :
      (v : Value) (expire : Option ℕ) (c' : MemoryCache)
      → set_entry k v expire c ≡ some c'
      → (find j c'.cache ≡ find j c.cache) ⊎ IsEvicted k j c
  unfolding set_entry
  set_entry-other v expire c' done = elim (Option-cases (cleared k c)) [
    | inl full ↦
        let e : set_entry k v expire c ≡ none = rw (full, set_entry) refl in
        absurd (none-ne-some c' (sym e ∙ done))
    | inr (es, room_made) ↦
        let n : Entry = entry_of k v expire in
        let e : set_entry k v expire c ≡ some (record c { cache = assign n es }) =
          rw (room_made, set_entry) refl in
        let same : find j c'.cache ≡ find j es =
          ap (λ (x : MemoryCache). find j x.cache)
            (sym (some-injective (record c { cache = assign n es }) c' (sym e ∙ done)))
          ∙ find-assign_other j n es other in
        elim (cleared-find es room_made) [ inl kept ↦ inl (same ∙ kept) | inr gone ↦ inr gone ]
  ]

-- After a key has been set, `get` gives its value. Every other key is found as before, or it was the key of the
-- oldest entry of a full cache that did not have the key.
pub get-set_entry :
    (k : String) (v : Value) (expire : Option ℕ) (c c' : MemoryCache)
    → set_entry k v expire c ≡ some c'
    → ((get k c').0 ≡ some v)
      × ((j : String) → j ≢ k → (find j c'.cache ≡ find j c.cache) ⊎ IsEvicted k j c)
get-set_entry k v expire c c' done = (
  get-find k (entry_of k v expire) c' (set_entry-find k v expire c c' done),
  λ j other. set_entry-other j k c other v expire c' done,
)
