-- ===== src/Tms/Routing.antt =====
-- The route planner of src/tms/service.py, `_dijkstra` over the connections of the hubs. Distances, weights and
-- prices are ten-thousandths of their units and hours are tenths, as their columns keep them, so a cost is a number
-- of units of 10 ^ -8. `Walks` says what the search is about, `Steps`, `Rounds` and `Invariant` hold its
-- invariants, `Ends` its fuel, `Answer` the cost and the path that it gives. `Plan` is the plan of an order,
-- `Cheapest` about its route.
pub mod Walks
pub mod Steps
pub mod Rounds
pub mod Invariant
pub mod Ends
pub mod Answer
pub mod Plan
pub mod Cheapest
mod Tests
use oms_wms_tms.Prelude.{
  ℕ, zero, suc, ◌+◌, ◌*◌, ◌≤◌, ◌≡◌, String, Bool, true, false, ◌&&◌, Option, none, some, List, [],
  ◌∷◌, ◌++◌, str_eq, ltb, ◌==◌, if◌then◌else◌, length, All, lookup, select,
}

-- A row of `hub_connections`, and an entry of the adjacency list that is built from it.
pub record HubConnection : Type 0 where
  pub from_hub_code : String
  pub to_hub_code : String
  pub distance_km : ℕ
  pub transit_hours : ℕ

-- `graph.get(hub, [])`: the connections that start at the hub, in the order of the rows.
unfoldable pub edges_from : List HubConnection → String → List HubConnection
edges_from [] hub = []
edges_from (c ∷ cs) hub =
    let rest = edges_from cs hub in if str_eq c.from_hub_code hub then c ∷ rest else rest

-- An entry of `price_map`.
pub record Price : Type 0 where
  pub carrier_code : String
  pub origin_city : String
  pub dest_city : String
  pub base_price_per_kg : ℕ

-- The loop over `price_map`: the least price between the two cities.
unfoldable pub cheaper : Option ℕ → ℕ → Option ℕ
cheaper none p = some p
cheaper (some b) p = if ltb p b then some p else some b

unfoldable pub best_price : String → String → Option ℕ → List Price → Option ℕ
unfolding cheaper
best_price from to best [] = best
best_price from to best (p ∷ ps) =
    best_price from to
      (if str_eq p.origin_city from && str_eq p.dest_city to
        then cheaper best p.base_price_per_kg
        else best)
      ps

pub record Search : Type 0 where
  pub conns : List HubConnection
  pub prices : List Price
  pub origin_city : String
  pub dest_city : String
  pub weight_kg : ℕ
  pub origin : String
  pub destination : String

-- `seg_cost`: `dist * Decimal("0.5")`, or the weight at the least price.
unfoldable pub seg_cost : Search → HubConnection → ℕ
unfolding best_price
seg_cost q c = elim (best_price q.origin_city q.dest_city none q.prices) [
  | none ↦ c.distance_km * 5000
  | some price ↦ q.weight_kg * price
]

pub record Node : Type 0 where
  pub priority : ℕ
  pub hub_code : String
  pub path : List String
  pub total_distance : ℕ
  pub total_hours : ℕ

abbrev pub count : (Node → Bool) → List Node → ℕ
count p ns = length (select p ns)

-- `heapq` on nodes, which compare by priority: the items of the heap as a list, in whatever order the heap has them.
-- `pop` takes an item of least priority and leaves the others.
pub record Heapq : Type 1 where
  pub push : Node → List Node → List Node
  pub pop : List Node → Option (Node × List Node)
  pub push-count :
      (p : Node → Bool) (n : Node) (ns : List Node)
      → count p (push n ns) ≡ (if p n then count p ns + 1 else count p ns)
  pub pop-count :
      (p : Node → Bool) (ns : List Node) (n : Node) (rest : List Node)
      → pop ns ≡ some (n, rest)
      → count p ns ≡ (if p n then count p rest + 1 else count p rest)
  pub pop-least :
      (ns : List Node) (n : Node) (rest : List Node)
      → pop ns ≡ some (n, rest)
      → count (λ m. ltb m.priority n.priority) rest ≡ 0
  pub pop-none : (ns : List Node) → pop ns ≡ none → ns ≡ []
  pub push-All :
      (P : Node → Type 0) (n : Node) (ns : List Node) → P n → All P ns → All P (push n ns)
  pub pop-All :
      (P : Node → Type 0) (ns : List Node) (n : Node) (rest : List Node)
      → pop ns ≡ some (n, rest)
      → All P ns
      → P n × All P rest

pub record State : Type 0 where
  pub heap : List Node
  pub best : List (String × ℕ)

-- `cost < best.get(hub, inf_val)`
unfoldable pub improves : ℕ → String → List (String × ℕ) → Bool
unfolding lookup
improves cost hub best = elim (lookup hub best) [ none ↦ true | some b ↦ ltb cost b ]

-- `node.priority > best.get(node.hub_code, inf_val)`
unfoldable pub is_stale : Node → List (String × ℕ) → Bool
unfolding lookup
is_stale n best = elim (lookup n.hub_code best) [ none ↦ false | some b ↦ ltb b n.priority ]

pub record Route : Type 0 where
  pub path : List String
  pub total_distance : ℕ
  pub total_hours : ℕ
  pub total_cost : ℕ
  pub seg_distances : List ℕ
  pub seg_hours : List ℕ

unfoldable pub total : (HubConnection → ℕ) → List HubConnection → ℕ
total f [] = 0
total f (c ∷ cs) = f c + total f cs

unfoldable pub item_for : String → List Node → Option Node
item_for hub [] = none
item_for hub (n ∷ ns) = if str_eq n.hub_code hub then some n else item_for hub ns

module _ (heapq : Heapq) (q : Search) where
  abbrev pub next_node : Node → HubConnection → Node
  next_node n c = record {
    priority = n.priority + seg_cost q c;
    hub_code = c.to_hub_code;
    path = n.path ++ c.to_hub_code ∷ [];
    total_distance = n.total_distance + c.distance_km;
    total_hours = n.total_hours + c.transit_hours;
  }

  -- The body of the loop over the connections of a hub, and the loop.
  unfoldable pub relax_one : Node → HubConnection → State → State
  unfolding improves seg_cost
  relax_one n c s =
      if improves (n.priority + seg_cost q c) c.to_hub_code s.best
      then (record {
        heap = heapq.push (next_node n c) s.heap;
        best = (c.to_hub_code, n.priority + seg_cost q c) ∷ s.best;
      })
      else s

  unfoldable pub relax : Node → List HubConnection → State → State
  unfolding relax_one
  relax n [] s = s
  relax n (c ∷ cs) s = relax n cs (relax_one n c s)

  -- `while heap`, with fuel; none means that the fuel ran out.
  unfoldable pub search : ℕ → State → Option State
  unfolding relax is_stale edges_from
  search zero s = none
  search (suc fuel) s = elim (heapq.pop s.heap) [
    | none ↦ some s
    | some (n, rest) ↦ elim (str_eq n.hub_code q.destination) [
      | true ↦ some (record s { heap = rest })
      | false ↦ elim (is_stale n s.best) [
        | true ↦ search fuel (record s { heap = rest })
        | false ↦ search fuel (relax n (edges_from q.conns n.hub_code) (record s { heap = rest }))
      ]
    ]
  ]

  abbrev pub start : State
  start = record {
    heap =
        record {
          priority = 0;
          hub_code = q.origin;
          path = q.origin ∷ [];
          total_distance = 0;
          total_hours = 0;
        }
        ∷ [];
    best = (q.origin, 0) ∷ [];
  }

  -- The connections from a hub to the next one.
  unfoldable pub links : String → String → List HubConnection
  unfolding edges_from select
  links from to = select (λ c. str_eq c.to_hub_code to) (edges_from q.conns from)

  unfoldable pub along : (HubConnection → ℕ) → List String → List ℕ
  unfolding links
  along f [] = []
  along f (a ∷ []) = []
  along f (a ∷ b ∷ hubs) = map_links (links a b) (along f (b ∷ hubs))
    where
      map_links : List HubConnection → List ℕ → List ℕ
      map_links [] rest = rest
      map_links (c ∷ cs) rest = f c ∷ map_links cs rest

  -- The route to the destination at the best cost: by the first item for it that is still in the heap, else the
  -- direct one.
  unfoldable pub route_of : ℕ → Option Node → Route
  unfolding along total links
  route_of cost (some n) = record {
    path = n.path;
    total_distance = n.total_distance;
    total_hours = n.total_hours;
    total_cost = cost;
    seg_distances = along (λ c. c.distance_km) n.path;
    seg_hours = along (λ c. c.transit_hours) n.path;
  }
  route_of cost none = record {
    path = q.origin ∷ q.destination ∷ [];
    total_distance = total (λ c. c.distance_km) (links q.origin q.destination);
    total_hours = total (λ c. c.transit_hours) (links q.origin q.destination);
    total_cost = cost;
    seg_distances = total (λ c. c.distance_km) (links q.origin q.destination) ∷ [];
    seg_hours = total (λ c. c.transit_hours) (links q.origin q.destination) ∷ [];
  }

  -- What `_dijkstra` returns when the loop has ended.
  unfoldable pub answer : State → Option Route
  unfolding item_for route_of lookup
  answer s = elim (lookup q.destination s.best) [
    | none ↦ none
    | some cost ↦ some (route_of cost (item_for q.destination s.heap))
  ]

  -- `_dijkstra`, with fuel for the loop.
  unfoldable pub dijkstra : ℕ → Option (Option Route)
  unfolding search answer
  dijkstra fuel = elim (search fuel start) [ none ↦ none | some s ↦ some (answer s) ]
