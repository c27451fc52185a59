-- ===== src/Core/MemoryCache/Entries.antt =====
-- Laws of the ordered dict: looking up, dropping and assigning keys.
use oms_wms_tms.Prelude.{
  ◌+◌, ◌≤◌, ◌≡◌, ◌≢◌, refl, sym, ◌∙◌, subst, String, Bool, false, some, List, [], ◌∷◌, arith,
  str_eq, eq_iff, Bool-cases, inl, inr, length, length-append, All, select,
}
use oms_wms_tms.Prelude.Distinct.{Distinct, Distinct-snoc}
use oms_wms_tms.Core.MemoryCache.{Entry, find, drop, assign, move_to_end}

abbrev pub same_key : Entry → Entry → Bool
same_key x y = str_eq x.key y.key

pub find-key : (k : String) (e : Entry) (es : List Entry) → find k es ≡ some e → e.key ≡ k
unfolding find
find-key k e [] h = cc
find-key k e (x ∷ es) h = ground (arith, eq_iff x.key k, find-key k e es)

pub find-assign_self : (n : Entry) (es : List Entry) → find n.key (assign n es) ≡ some n
unfolding find assign
find-assign_self n [] = rw ((eq_iff n.key n.key).1 refl) refl
find-assign_self n (x ∷ es) =
    ground (arith, eq_iff n.key n.key, eq_iff x.key n.key, find-assign_self n es)

pub find-assign_other :
    (j : String) (n : Entry) (es : List Entry) → j ≢ n.key → find j (assign n es) ≡ find j es
unfolding find assign
find-assign_other j n [] other = ground (arith, eq_iff n.key j)
find-assign_other j n (x ∷ es) other =
    ground (arith, eq_iff n.key j, eq_iff x.key j, eq_iff x.key n.key, find-assign_other j n es)

pub find-drop_other : (j k : String) (es : List Entry) → j ≢ k → find j (drop k es) ≡ find j es
unfolding find drop
find-drop_other j k [] other = refl
find-drop_other j k (x ∷ es) other =
    ground (arith, eq_iff x.key j, eq_iff x.key k, find-drop_other j k es)

pub length-drop-le : (k : String) (es : List Entry) → length (drop k es) ≤ length es
unfolding drop
length-drop-le k [] = omega arith
length-drop-le k (x ∷ es) = ground (arith, length-drop-le k es)

pub length-drop :
    (k : String) (e : Entry) (es : List Entry)
    → find k es ≡ some e
    → length (drop k es) + 1 ≡ length es
unfolding find drop
length-drop k e [] h = cc
length-drop k e (x ∷ es) h = ground (arith, length-drop k e es)

pub length-assign-le : (n : Entry) (es : List Entry) → length (assign n es) ≤ length es + 1
unfolding assign
length-assign-le n [] = omega arith
length-assign-le n (x ∷ es) = ground (arith, length-assign-le n es)

-- Assigning to a key that is there keeps the number of entries.
pub length-assign :
    (n e : Entry) (es : List Entry) → find n.key es ≡ some e → length (assign n es) ≡ length es
unfolding find assign
length-assign n e [] h = cc
length-assign n e (x ∷ es) h = ground (arith, length-assign n e es)

pub length-move_to_end :
    (k : String) (e : Entry) (es : List Entry)
    → find k es ≡ some e
    → length (move_to_end e es) ≡ length es
unfolding move_to_end
length-move_to_end k e es h =
    length-append (drop e.key es) (e ∷ [])
    ∙ subst (λ j. length (drop j es) + 1 ≡ length es) (sym (find-key k e es h))
        (length-drop k e es h)

abbrev Apart : String → Entry → Type 0
Apart k y = str_eq k y.key ≡ false

All-drop : (P : Entry → Type 0) (k : String) (es : List Entry) → All P es → All P (drop k es)
unfolding drop
All-drop P k [] h = tt
All-drop P k (x ∷ es) h = elim (Bool-cases (str_eq x.key k)) [
  | inl e ↦ rw e h.1
  | inr e ↦ rw e (h.0, All-drop P k es h.1)
]

All-assign :
    (P : Entry → Type 0) (n : Entry) (es : List Entry) → P n → All P es → All P (assign n es)
unfolding assign
All-assign P n [] p h = (p, tt)
All-assign P n (x ∷ es) p h = elim (Bool-cases (str_eq x.key n.key)) [
  | inl e ↦ rw e (p, h.1)
  | inr e ↦ rw e (h.0, All-assign P n es p h.1)
]

pub Distinct-drop :
    (k : String) (es : List Entry) → Distinct same_key es → Distinct same_key (drop k es)
unfolding drop
Distinct-drop k [] d = tt
Distinct-drop k (x ∷ es) d = elim (Bool-cases (str_eq x.key k)) [
  | inl e ↦ rw e d.1
  | inr e ↦ rw e (All-drop _ k es d.0, Distinct-drop k es d.1)
]

pub Distinct-assign :
    (n : Entry) (es : List Entry) → Distinct same_key es → Distinct same_key (assign n es)
unfolding assign
Distinct-assign n [] d = (tt, tt)
Distinct-assign n (x ∷ es) d = elim (Bool-cases (str_eq x.key n.key)) [
  | inl e ↦ rw e (subst (λ k. All (Apart k) es) ((eq_iff x.key n.key).0 e) d.0, d.1)
  | inr e ↦ rw e (All-assign (Apart x.key) n es e d.0, Distinct-assign n es d.1)
]

-- A key that is dropped is gone.
select-drop :
    (e : Entry) (es : List Entry)
    → Distinct same_key es
    → select (λ x. same_key x e) (drop e.key es) ≡ []
unfolding drop select
select-drop e [] d = refl
select-drop e (x ∷ es) d = elim (Bool-cases (str_eq x.key e.key)) [
  | inl h ↦ rw h (gone es (subst (λ k. All (Apart k) es) ((eq_iff x.key e.key).0 h) d.0))
  | inr h ↦ ground (arith, select-drop e es d.1)
]
  where
    gone : (es : List Entry) → All (Apart e.key) es → select (λ x. same_key x e) es ≡ []
    gone [] h = refl
    gone (y ∷ es) h = ground (arith, h.0, eq_iff y.key e.key, eq_iff e.key y.key, gone es h.1)

pub Distinct-move_to_end :
    (e : Entry) (es : List Entry) → Distinct same_key es → Distinct same_key (move_to_end e es)
unfolding move_to_end
Distinct-move_to_end e es d =
    Distinct-snoc same_key (drop e.key es) e (select-drop e es d) (Distinct-drop e.key es d)
