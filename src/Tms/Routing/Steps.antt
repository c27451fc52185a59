-- ===== src/Tms/Routing/Steps.antt =====
-- What one connection in the route planner's loop does to the heap and to the best costs.
use mathlib.Core.Option.{some-injective}
use oms_wms_tms.Prelude.{
  ℕ, ◌+◌, ◌≤◌, ◌≡◌, ◌∙◌, subst, String, Bool, true, false, ◌&&◌, none, some, List, [], ◌∷◌, arith,
  str_eq, eq_iff, ltb, leb, ◌==◌, Bool-cases, inl, inr, ◌⊎◌, All, lookup, select,
}
use oms_wms_tms.Tms.Routing.{
  HubConnection, Search, seg_cost, Node, count, Heapq, State, improves, next_node, relax_one,
}
use oms_wms_tms.Tms.Routing.Walks.{Link, Walk, step, extend, IsTrail}

-- The best cost of a hub is known and at most `b`.
abbrev pub within : String → ℕ → List (String × ℕ) → Bool
within h b best = elim (lookup h best) [ none ↦ false | some c ↦ leb c b ]

abbrev pub is_item : String → ℕ → Node → Bool
is_item h c m = str_eq m.hub_code h && m.priority == c

pub count-le :
    (p r : Node → Bool) (ns : List Node)
    → ((n : Node) → p n ≡ true → r n ≡ true)
    → count p ns ≤ count r ns
unfolding select
count-le p r [] h = omega arith
count-le p r (n ∷ ns) h = ground (arith, h n, count-le p r ns h)

-- No item is cheaper than the best cost of its hub.
abbrev pub count_below : State → ℕ
count_below s = count (λ m. improves m.priority m.hub_code s.best) s.heap

-- A hub that is done keeps its cost: no item is less, and none of the hub is as little.
pub record IsDone (h : String) (k : ℕ) (s : State) : Type 0 where
  pub known : lookup h s.best ≡ some k
  pub least : count (λ m. ltb m.priority k) s.heap ≡ 0
  pub alone : count (λ m. str_eq m.hub_code h && leb m.priority k) s.heap ≡ 0

-- A known cost has at most one item.
abbrev pub Single : State → Type 0
Single s = (h : String) (k : ℕ) → lookup h s.best ≡ some k → count (is_item h k) s.heap ≤ 1

module _ (heapq : Heapq) (q : Search) (n : Node) where
  -- What one connection changes.
  module _ (c : HubConnection) (s : State) where
    abbrev pub new : ℕ
    new = n.priority + seg_cost q c

    abbrev pushed : State
    pushed = record {
      heap = heapq.push (next_node heapq q n c) s.heap;
      best = (c.to_hub_code, new) ∷ s.best;
    }

    relax_one-cases :
        (P : State → Type 0)
        → P s
        → (improves new c.to_hub_code s.best ≡ true → P pushed)
        → P (relax_one heapq q n c s)
    unfolding relax_one
    relax_one-cases P old fresh = elim (Bool-cases (improves new c.to_hub_code s.best)) [
      | inl e ↦ rw (e, relax_one) (fresh e)
      | inr e ↦ rw (e, relax_one) old
    ]

    pub within-relax_one :
        (h : String) (b : ℕ)
        → within h b s.best ≡ true
        → within h b (relax_one heapq q n c s).best ≡ true
    unfolding relax_one improves lookup
    within-relax_one h b w = ground (arith, eq_iff c.to_hub_code h)

    pub reached-relax_one : within c.to_hub_code new (relax_one heapq q n c s).best ≡ true
    unfolding relax_one improves lookup
    reached-relax_one = ground (arith, eq_iff c.to_hub_code c.to_hub_code)

    pub count-relax_one-le :
        (p : Node → Bool) → count p s.heap ≤ count p (relax_one heapq q n c s).heap
    unfolding relax_one
    count-relax_one-le p = ground (arith, heapq.push-count p (next_node heapq q n c) s.heap)

    pub size-relax_one :
        count (λ m. true) (relax_one heapq q n c s).heap ≤ count (λ m. true) s.heap + 1
    unfolding relax_one
    size-relax_one = ground (arith, heapq.push-count (λ m. true) (next_node heapq q n c) s.heap)

    own_item : is_item c.to_hub_code new (next_node heapq q n c) ≡ true
    own_item = ground (arith, eq_iff c.to_hub_code c.to_hub_code)

    -- A cost that is known afterwards was known, or its item has been pushed.
    pub explained-relax_one :
        (h : String) (k : ℕ)
        → lookup h (relax_one heapq q n c s).best ≡ some k
        → (lookup h s.best ≡ some k) ⊎ (1 ≤ count (is_item h k) (relax_one heapq q n c s).heap)
    unfolding lookup
    explained-relax_one h k =
        relax_one-cases
          (λ s'.
            lookup h s'.best ≡ some k
            → (lookup h s.best ≡ some k) ⊎ (1 ≤ count (is_item h k) s'.heap))
          (λ known. inl known)
          λ better known. elim (Bool-cases (str_eq c.to_hub_code h)) [
            | inl e ↦ inr (
                ground (
                  arith,
                  heapq.push-count (is_item h k) (next_node heapq q n c) s.heap,
                  own_item,
                  eq_iff c.to_hub_code h,
                ))
            | inr e ↦ inl (rw e at known)
          ]

    pub sound-relax_one :
        Walk q n.hub_code n.priority
        → Link c q.conns
        → c.from_hub_code ≡ n.hub_code
        → ((h : String) (k : ℕ) → lookup h s.best ≡ some k → Walk q h k)
        → (h : String) (k : ℕ) → lookup h (relax_one heapq q n c s).best ≡ some k
        → Walk q h k
    unfolding lookup
    sound-relax_one walked link own sound h k =
        relax_one-cases (λ s'. lookup h s'.best ≡ some k → Walk q h k) (sound h k)
          λ better known. elim (Bool-cases (str_eq c.to_hub_code h)) [
            | inl e ↦
                subst (λ j. Walk q j k) ((eq_iff c.to_hub_code h).0 e)
                  (subst (Walk q c.to_hub_code) (some-injective new k (rw e at known))
                    (step walked c link own))
            | inr e ↦ sound h k (rw e at known)
          ]

    pub trails-relax_one :
        IsTrail q n
        → Link c q.conns
        → c.from_hub_code ≡ n.hub_code
        → All (IsTrail q) s.heap
        → All (IsTrail q) (relax_one heapq q n c s).heap
    trails-relax_one trail link own trails =
        relax_one-cases (λ s'. All (IsTrail q) s'.heap) trails
          λ better.
            heapq.push-All (IsTrail q) (next_node heapq q n c) s.heap (extend trail c link own)
              trails

    lower-pushed :
        improves new c.to_hub_code s.best ≡ true
        → (m : Node) → improves m.priority m.hub_code pushed.best ≡ true
        → improves m.priority m.hub_code s.best ≡ true
    unfolding improves lookup
    lower-pushed better m i = ground (arith, eq_iff c.to_hub_code m.hub_code)

    own_not_below : improves new c.to_hub_code pushed.best ≡ false
    unfolding improves lookup
    own_not_below = ground (arith, eq_iff c.to_hub_code c.to_hub_code)

    pub dearer-relax_one : count_below s ≡ 0 → count_below (relax_one heapq q n c s) ≡ 0
    dearer-relax_one none_below =
        relax_one-cases (λ s'. count_below s' ≡ 0) none_below
          λ better.
            heapq.push-count (λ m. improves m.priority m.hub_code pushed.best)
              (next_node heapq q n c) s.heap
            ∙ rw own_not_below (
                omega (
                  arith,
                  count-le (λ m. improves m.priority m.hub_code pushed.best)
                      (λ m. improves m.priority m.hub_code s.best) s.heap (lower-pushed better),
                ))

    cheap_item :
        improves new c.to_hub_code s.best ≡ true
        → (m : Node) → is_item c.to_hub_code new m ≡ true
        → improves m.priority m.hub_code s.best ≡ true
    unfolding improves
    cheap_item better m i = ground (arith, eq_iff m.hub_code c.to_hub_code)

    own_single :
        count_below s ≡ 0
        → improves new c.to_hub_code s.best ≡ true
        → count (is_item c.to_hub_code new) pushed.heap ≤ 1
    own_single none_below better = ground (
      arith,
      own_item,
      none_below,
      heapq.push-count (is_item c.to_hub_code new) (next_node heapq q n c) s.heap,
      count-le (is_item c.to_hub_code new) (λ m. improves m.priority m.hub_code s.best) s.heap
          (cheap_item better),
    )

    pub Single-relax_one : count_below s ≡ 0 → Single s → Single (relax_one heapq q n c s)
    unfolding lookup
    Single-relax_one none_below single = relax_one-cases Single single λ better h k known.
        elim (Bool-cases (str_eq c.to_hub_code h)) [
          | inl e ↦
              subst (λ j. count (is_item j k) pushed.heap ≤ 1) ((eq_iff c.to_hub_code h).0 e)
                (subst (λ j. count (is_item c.to_hub_code j) pushed.heap ≤ 1)
                  (some-injective new k (rw e at known)) (own_single none_below better))
          | inr e ↦ ground (
            arith,
            single h k (rw e at known),
            heapq.push-count (is_item h k) (next_node heapq q n c) s.heap,
          )
        ]

    pub IsDone-relax_one :
        (h : String) (k : ℕ) → k ≤ n.priority → IsDone h k s → IsDone h k (relax_one heapq q n c s)
    unfolding improves lookup
    IsDone-relax_one h k early d = relax_one-cases (IsDone h k) d λ better.
        elim (Bool-cases (str_eq c.to_hub_code h)) [
          | inl e ↦ absurd (ground (arith, d.known, eq_iff c.to_hub_code h))
          | inr e ↦ record {
            known = rw e d.known;
            least = ground (
              arith,
              d.least,
              heapq.push-count (λ m. ltb m.priority k) (next_node heapq q n c) s.heap,
            );
            alone = ground (
              arith,
              d.alone,
              heapq.push-count (λ m. str_eq m.hub_code h && leb m.priority k)
                  (next_node heapq q n c) s.heap,
            );
          }
        ]
