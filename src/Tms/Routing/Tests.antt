-- ===== src/Tms/Routing/Tests.antt =====
-- A heap for the route planner, and small networks of hubs.
use mathlib.Core.Option.{some-injective, none-ne-some}
use oms_wms_tms.Prelude.{
  ℕ, ◌+◌, ◌≤◌, ◌≡◌, refl, sym, ap, ◌∙◌, subst, String, Bool, Option, none, some, List, [], ◌∷◌,
  arith, ltb, leb, if◌then◌else◌, Bool-cases, inl, inr, All, select, lookup, ok, err, index_error,
}
use oms_wms_tms.Tms.Routing.{HubConnection, Search, Node, count, Heapq, Route, dijkstra}
use oms_wms_tms.Tms.Routing.Plan.{TransferHub, Order, Network, plan_order}
use oms_wms_tms.Tms.Routing.Answer.{
  IsCheapest, dijkstra-IsCheapest, IsDirectOrLonger, dijkstra-IsDirectOrLonger,
}

-- A least item of a list that starts with `n`, and the others.
extract : Node → List Node → Node × List Node
extract n [] = (n, [])
extract n (m ∷ ms) =
    let best = extract m ms in
    if leb n.priority best.0.priority then (n, m ∷ ms) else (best.0, n ∷ best.1)

pop : List Node → Option (Node × List Node)
unfolding extract
pop [] = none
pop (n ∷ ns) = some (extract n ns)

extract-count :
    (p : Node → Bool) (n : Node) (ns : List Node)
    → count p (n ∷ ns)
      ≡ (if p (extract n ns).0 then count p (extract n ns).1 + 1 else count p (extract n ns).1)
unfolding extract select
extract-count p n [] = ground arith
extract-count p n (m ∷ ms) = elim (Bool-cases (leb n.priority (extract m ms).0.priority)) [
  | inl e ↦ rw e (ground arith)
  | inr e ↦ rw e (ground (arith, extract-count p m ms))
]

extract-least :
    (n : Node) (ns : List Node) (k : ℕ)
    → k ≤ (extract n ns).0.priority
    → count (λ m. ltb m.priority k) (n ∷ ns) ≡ 0
unfolding extract select
extract-least n [] k h = ground arith
extract-least n (m ∷ ms) k h = elim (Bool-cases (leb n.priority (extract m ms).0.priority)) [
  | inl e ↦
      let h' : k ≤ n.priority = rw e at h in ground (arith, extract-least m ms k (ground arith))
  | inr e ↦
      let h' : k ≤ (extract m ms).0.priority = rw e at h in ground (arith, extract-least m ms k h')
]

extract-rest :
    (n : Node) (ns : List Node)
    → count (λ m. ltb m.priority (extract n ns).0.priority) (extract n ns).1 ≡ 0
extract-rest n ns =
    let k = (extract n ns).0.priority in
    ground (arith, extract-count (λ m. ltb m.priority k) n ns, extract-least n ns k (omega arith))

extract-All :
    (P : Node → Type 0) (n : Node) (ns : List Node)
    → P n
    → All P ns
    → P (extract n ns).0 × All P (extract n ns).1
unfolding extract
extract-All P n [] h hs = (h, tt)
extract-All P n (m ∷ ms) h hs = elim (Bool-cases (leb n.priority (extract m ms).0.priority)) [
  | inl e ↦ rw e (h, hs)
  | inr e ↦ let (best, rest) = extract-All P m ms hs.0 hs.1 in rw e (best, (h, rest))
]

module _ (ns : List Node) (n : Node) (rest : List Node) where
  pop-count :
      (p : Node → Bool)
      → pop ns ≡ some (n, rest)
      → count p ns ≡ (if p n then count p rest + 1 else count p rest)
  unfolding pop select
  pop-count p h = by_items ns h
    where
      by_items :
          (ns : List Node)
          → pop ns ≡ some (n, rest)
          → count p ns ≡ (if p n then count p rest + 1 else count p rest)
      by_items [] h = absurd (none-ne-some (n, rest) h)
      by_items (m ∷ ms) h =
          let e = some-injective (extract m ms) (n, rest) h in
          extract-count p m ms ∙ ap (λ x. if p x.0 then count p x.1 + 1 else count p x.1) e

  pop-least : pop ns ≡ some (n, rest) → count (λ m. ltb m.priority n.priority) rest ≡ 0
  unfolding pop select
  pop-least h = by_items ns h
    where
      by_items :
          (ns : List Node)
          → pop ns ≡ some (n, rest)
          → count (λ m. ltb m.priority n.priority) rest ≡ 0
      by_items [] h = absurd (none-ne-some (n, rest) h)
      by_items (m ∷ ms) h =
          let e = some-injective (extract m ms) (n, rest) h in
          ap (λ x. count (λ m. ltb m.priority x.0.priority) x.1) (sym e) ∙ extract-rest m ms

  pop-All : (P : Node → Type 0) → pop ns ≡ some (n, rest) → All P ns → P n × All P rest
  unfolding pop
  pop-All P h all = by_items ns h all
    where
      by_items : (ns : List Node) → pop ns ≡ some (n, rest) → All P ns → P n × All P rest
      by_items [] h all = absurd (none-ne-some (n, rest) h)
      by_items (m ∷ ms) h all =
          subst (λ (x : Node × List Node). P x.0 × All P x.1)
            (some-injective (extract m ms) (n, rest) h) (extract-All P m ms all.0 all.1)

pop-none : (ns : List Node) → pop ns ≡ none → ns ≡ []
unfolding pop
pop-none [] h = refl
pop-none (n ∷ ns) h = absurd (none-ne-some (extract n ns) (sym h))

push_count :
    (p : Node → Bool) (n : Node) (ns : List Node)
    → count p (n ∷ ns) ≡ (if p n then count p ns + 1 else count p ns)
unfolding select
push_count p n ns = ground arith

abbrev a_heap : Heapq
a_heap = record {
  push = λ n ns. n ∷ ns;
  pop = pop;
  push-count = push_count;
  pop-count = λ p ns n rest. pop-count ns n rest p;
  pop-least = pop-least;
  pop-none = pop-none;
  push-All = λ P n ns h hs. (h, hs);
  pop-All = λ P ns n rest. pop-All ns n rest P;
}

abbrev conn : String → String → ℕ → HubConnection
conn from to distance = record {
  from_hub_code = from;
  to_hub_code = to;
  distance_km = distance;
  transit_hours = 5;
}

-- From A to B directly, and more cheaply by way of C.
abbrev a_search : Search
a_search = record {
  conns = conn "A" "B" 10 ∷ conn "A" "C" 1 ∷ conn "C" "B" 2 ∷ [];
  prices = [];
  origin_city = "X";
  dest_city = "Y";
  weight_kg = 10000;
  origin = "A";
  destination = "B";
}

abbrev a_route : Route
a_route = record {
  path = "A" ∷ "B" ∷ [];
  total_distance = 10;
  total_hours = 5;
  total_cost = 15000;
  seg_distances = 10 ∷ [];
  seg_hours = 5 ∷ [];
}

-- The cost by way of C, with the path and the distance of the direct connection.
found_route : dijkstra a_heap a_search 5 ≡ some (some a_route)
unfolding dijkstra pop select lookup
found_route = refl

dijkstra-IsCheapest_example :
    (r : Option Route) × (dijkstra a_heap a_search 5 ≡ some r) × IsCheapest a_search r
dijkstra-IsCheapest_example = dijkstra-IsCheapest a_heap a_search 5 (omega arith)

dijkstra-IsDirectOrLonger_example : IsDirectOrLonger a_search a_route
dijkstra-IsDirectOrLonger_example =
    dijkstra-IsDirectOrLonger a_heap a_search 5 a_route (omega arith) found_route

abbrev an_order : Order
an_order = record {
  id = 1;
  pickup_city = some "X";
  delivery_city = some "Y";
  total_weight_kg = some 10000;
}

abbrev hub : String → String → TransferHub
hub code city = record { code = code; city = city }

-- Two hubs in the one city, of which the second has no connection.
abbrev a_network : Network
a_network = record {
  orders = an_order ∷ [];
  hubs = hub "A" "X" ∷ hub "D" "X" ∷ hub "B" "Y" ∷ [];
  conns = a_search.conns;
  routes = [];
}

-- The hubs' codes have one character, and the plan takes the second one of a code for a hub.
no_such_character : plan_order a_heap a_network an_order ≡ err index_error
unfolding plan_order dijkstra pop select lookup
no_such_character = refl

-- The same with codes of two characters.
abbrev named_network : Network
named_network = record a_network {
  hubs = hub "AA" "X" ∷ hub "DD" "X" ∷ hub "BB" "Y" ∷ [];
  conns = conn "AA" "BB" 10 ∷ conn "AA" "CC" 1 ∷ conn "CC" "BB" 2 ∷ [];
}

shown_cost :
    elim (plan_order a_heap named_network an_order) [ ok plan ↦ plan.total_cost_amount | err e ↦ 0 ]
    ≡ 15000
unfolding plan_order dijkstra pop select lookup
shown_cost = refl
