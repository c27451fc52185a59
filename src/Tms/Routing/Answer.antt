-- ===== src/Tms/Routing/Answer.antt =====
-- The cost and the path that the route planner answers.
use mathlib.Core.Option.{some-injective, none-ne-some}
use oms_wms_tms.Prelude.{
  ℕ, ◌+◌, ◌≤◌, ◌<◌, ◌≡◌, refl, subst, ◌&&◌, Option, none, some, List, [], ◌∷◌, arith, str_eq,
  eq_iff, leb, Bool-cases, Option-cases, inl, inr, ◌⊎◌, length, All, lookup, select,
}
use oms_wms_tms.Tms.Routing.{
  Search, Node, count, Heapq, State, Route, item_for, route_of, answer, dijkstra,
}
use oms_wms_tms.Tms.Routing.Walks.{Walk, Trail, IsTrail}
use oms_wms_tms.Tms.Routing.Ends.{within_known, within_unknown, Ended, search_total}

-- No walk leads to the destination; or the cost is that of a walk, and no walk costs less.
abbrev pub IsCheapest : Search → Option Route → Type 0
IsCheapest q none = (cost : ℕ) → Walk q q.destination cost → ⊥
IsCheapest q (some r) =
    Walk q q.destination r.total_cost
    × ((cost : ℕ) → Walk q q.destination cost → r.total_cost ≤ cost)

-- The path is the direct one, or a path over connections that costs more than the answered cost.
abbrev pub IsDirectOrLonger : Search → Route → Type 0
IsDirectOrLonger q r =
    (r.path ≡ q.origin ∷ q.destination ∷ [])
    ⊎ ((cost : ℕ) × Trail q r.path q.destination cost × (r.total_cost < cost))

module _ (q : Search) (k : ℕ) where
  item_lem :
      (ns : List Node) (n : Node)
      → item_for q.destination ns ≡ some n
      → All (IsTrail q) ns
      → count (λ m. str_eq m.hub_code q.destination && leb m.priority k) ns ≡ 0
      → (cost : ℕ) × Trail q n.path q.destination cost × (k < cost)
  unfolding item_for select
  item_lem [] n found trails late = absurd (none-ne-some n found)
  item_lem (m ∷ ns) n found trails late = elim (Bool-cases (str_eq m.hub_code q.destination)) [
    | inl e ↦
        own (some-injective m n (rw e at found)) ((eq_iff m.hub_code q.destination).0 e)
          (ground arith)
    | inr e ↦ item_lem ns n (rw e at found) trails.1 (ground arith)
  ]
    where
      own :
          m ≡ n
          → m.hub_code ≡ q.destination
          → k < m.priority
          → (cost : ℕ) × Trail q n.path q.destination cost × (k < cost)
      own same at more = (
        m.priority,
        subst (λ (x : Node). Trail q x.path q.destination m.priority) same
            (subst (λ h. Trail q m.path h m.priority) at trails.0),
        more,
      )

module _ (heapq : Heapq) (q : Search) where
  route_cost : (k : ℕ) (o : Option Node) → (route_of heapq q k o).total_cost ≡ k
  unfolding route_of
  route_cost k none = refl
  route_cost k (some n) = refl

  answer-IsCheapest : (s : State) → Ended heapq q s → IsCheapest q (answer heapq q s)
  unfolding answer
  answer-IsCheapest s e = elim (Option-cases (lookup q.destination s.best)) [
    | inl unknown ↦
        rw (unknown, answer)
          (λ cost walk. within_unknown q.destination cost s.best unknown (e.optimal cost walk))
    | inr (k, known) ↦
        rw (known, answer)
          (rw (route_cost k (item_for q.destination s.heap)) (
            e.sound k known,
            λ cost walk. within_known q.destination k cost s.best known (e.optimal cost walk),
          ))
  ]

  route-IsDirectOrLonger :
      (s : State) (k : ℕ)
      → Ended heapq q s
      → lookup q.destination s.best ≡ some k
      → (o : Option Node) → item_for q.destination s.heap ≡ o
      → IsDirectOrLonger q (route_of heapq q k o)
  unfolding route_of
  route-IsDirectOrLonger s k e known none found = inl refl
  route-IsDirectOrLonger s k e known (some n) found =
      inr (item_lem q k s.heap n found e.trails (e.late k known))

  answer-IsDirectOrLonger :
      (s : State) (r : Route) → Ended heapq q s → answer heapq q s ≡ some r → IsDirectOrLonger q r
  unfolding answer
  answer-IsDirectOrLonger s r e given = elim (Option-cases (lookup q.destination s.best)) [
    | inl unknown ↦ absurd (none-ne-some r (rw (unknown, answer) at given))
    | inr (k, known) ↦
        subst (IsDirectOrLonger q)
          (some-injective (route_of heapq q k (item_for q.destination s.heap)) r
            (rw (known, answer) at given))
          (route-IsDirectOrLonger s k e known (item_for q.destination s.heap) refl)
  ]

  -- With fuel for two rounds more than there are connections, or with more, the planner ends. It answers no route
  -- exactly where no walk over the connections leads to the destination; and the cost of a route that it answers
  -- is that of a walk to the destination, and no walk costs less.
  pub dijkstra-IsCheapest :
      (fuel : ℕ)
      → length q.conns + 2 ≤ fuel
      → (r : Option Route) × (dijkstra heapq q fuel ≡ some r) × IsCheapest q r
  unfolding dijkstra
  dijkstra-IsCheapest fuel enough =
      let (s, ends, e) = search_total heapq q fuel enough in
      (answer heapq q s, rw (ends, dijkstra) refl, answer-IsCheapest s e)

  -- The path of a route that the planner answers, with that much fuel, is the direct one from the origin to the
  -- destination, or a path over connections that costs more than the answered cost.
  pub dijkstra-IsDirectOrLonger :
      (fuel : ℕ) (r : Route)
      → length q.conns + 2 ≤ fuel
      → dijkstra heapq q fuel ≡ some (some r)
      → IsDirectOrLonger q r
  unfolding dijkstra
  dijkstra-IsDirectOrLonger fuel r enough given =
      let (s, ends, e) = search_total heapq q fuel enough in
      answer-IsDirectOrLonger s r e
        (some-injective (answer heapq q s) (some r) (rw (ends, dijkstra) at given))
