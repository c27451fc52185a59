-- ===== src/Tms/Routing/Cheapest.antt =====
-- The choice of `_find_best_route_plan_impl` of src/tms/service.py among the routes between the hubs of two cities.
use oms_wms_tms.Prelude.{
  ℕ, ◌+◌, ◌≤◌, ◌≡◌, String, Option, none, some, List, [], ◌∷◌, arith, ltb, Bool-cases, inl, inr,
  length, Result, ok, err, Error, not_found, ◌⊎◌,
}
use oms_wms_tms.Tms.Routing.{Search, Heapq, Route}
use oms_wms_tms.Tms.Routing.Walks.{Walk}
use oms_wms_tms.Tms.Routing.Answer.{IsCheapest, dijkstra-IsCheapest}
use oms_wms_tms.Tms.Routing.Plan.{
  RoutePlan, segments, TransferHub, Network, price_map, better, best_to, best_of, run,
}

-- A hub of a list.
pub data Listed (d : TransferHub) : List TransferHub → Type 0 where
  first : {ds : List TransferHub} → Listed d (d ∷ ds)
  later : {x : TransferHub} {ds : List TransferHub} → Listed d ds → Listed d (x ∷ ds)

-- A route is there, and costs at most `k`.
abbrev AtMost : Option Route → ℕ → Type 0
AtMost none k = ⊥
AtMost (some r) k = r.total_cost ≤ k

abbrev Sat : (Route → Type 0) → Option Route → Type 0
Sat P none = Unit
Sat P (some r) = P r

better-kept : (b x : Option Route) (k : ℕ) → AtMost b k → AtMost (better b x) k
unfolding better
better-kept none x k h = absurd h
better-kept (some b) none k h = h
better-kept (some b) (some x) k h = elim (Bool-cases (ltb x.total_cost b.total_cost)) [
  | inl e ↦ rw e (ground arith)
  | inr e ↦ rw e h
]

better-taken : (b x : Option Route) (k : ℕ) → AtMost x k → AtMost (better b x) k
unfolding better
better-taken b none k h = absurd h
better-taken none (some x) k h = h
better-taken (some b) (some x) k h = elim (Bool-cases (ltb x.total_cost b.total_cost)) [
  | inl e ↦ rw e h
  | inr e ↦ rw e (ground arith)
]

better-Sat : (P : Route → Type 0) (b x : Option Route) → Sat P b → Sat P x → Sat P (better b x)
unfolding better
better-Sat P b none h k = h
better-Sat P none (some x) h k = k
better-Sat P (some b) (some x) h k = elim (Bool-cases (ltb x.total_cost b.total_cost)) [
  | inl e ↦ rw e k
  | inr e ↦ rw e h
]

module _ (route : String → String → Option Route) where
  best_to-kept :
      (from : String) (ds : List TransferHub) (b : Option Route) (k : ℕ)
      → AtMost b k
      → AtMost (best_to route from ds b) k
  unfolding best_to
  best_to-kept from [] b k h = h
  best_to-kept from (d ∷ ds) b k h =
      best_to-kept from ds _ k (better-kept b (route from d.code) k h)

  best_to-taken :
      (from : String) (ds : List TransferHub) (b : Option Route) (k : ℕ) (d : TransferHub)
      → Listed d ds
      → AtMost (route from d.code) k
      → AtMost (best_to route from ds b) k
  unfolding best_to
  best_to-taken from [] b k d at_hub h = elim at_hub [ ]
  best_to-taken from (d ∷ ds) b k d' first h =
      best_to-kept from ds _ k (better-taken b (route from d'.code) k h)
  best_to-taken from (x ∷ ds) b k d (later at_hub) h = best_to-taken from ds _ k d at_hub h

  best_of-kept :
      (os ds : List TransferHub) (b : Option Route) (k : ℕ)
      → AtMost b k
      → AtMost (best_of route os ds b) k
  unfolding best_of
  best_of-kept [] ds b k h = h
  best_of-kept (o ∷ os) ds b k h = best_of-kept os ds _ k (best_to-kept o.code ds b k h)

  best_of-taken :
      (os ds : List TransferHub) (b : Option Route) (k : ℕ) (o d : TransferHub)
      → Listed o os
      → Listed d ds
      → AtMost (route o.code d.code) k
      → AtMost (best_of route os ds b) k
  unfolding best_of
  best_of-taken [] ds b k o d at_o at_d h = elim at_o [ ]
  best_of-taken (x ∷ os) ds b k o d first at_d h =
      best_of-kept os ds _ k (best_to-taken o.code ds b k d at_d h)
  best_of-taken (x ∷ os) ds b k o d (later at_o) at_d h = best_of-taken os ds _ k o d at_o at_d h

  module _ (P : Route → Type 0) where
    best_to-Sat :
        (from : String) (ds : List TransferHub) (b : Option Route)
        → ((d : TransferHub) → Listed d ds → Sat P (route from d.code))
        → Sat P b
        → Sat P (best_to route from ds b)
    unfolding best_to
    best_to-Sat from [] b h k = k
    best_to-Sat from (d ∷ ds) b h k =
        best_to-Sat from ds _ (λ x m. h x (later m))
          (better-Sat P b (route from d.code) k (h d first))

    best_of-Sat :
        (os ds : List TransferHub) (b : Option Route)
        → ((o d : TransferHub) → Listed o os → Listed d ds → Sat P (route o.code d.code))
        → Sat P b
        → Sat P (best_of route os ds b)
    unfolding best_of
    best_of-Sat [] ds b h k = k
    best_of-Sat (o ∷ os) ds b h k =
        best_of-Sat os ds _ (λ x y m. h x y (later m))
          (best_to-Sat o.code ds b (λ d. h o d first) k)

module _ (heapq : Heapq) (network : Network) (pickup delivery : String) (weight : ℕ) where
  -- The search from one hub to another.
  abbrev pub search_of : String → String → Search
  search_of from to = record {
    conns = network.conns;
    prices = price_map [] network.routes;
    origin_city = pickup;
    dest_city = delivery;
    weight_kg = weight;
    origin = from;
    destination = to;
  }

  run-IsCheapest :
      (from to : String)
      → IsCheapest (search_of from to) (run heapq network pickup delivery weight from to)
  unfolding run
  run-IsCheapest from to =
      let (r, ends, e) =
        dijkstra-IsCheapest heapq (search_of from to) (length network.conns + 2) (omega arith) in
      rw (ends, run) e

  -- No hub of the second list can be reached from one of the first; or the cost is that of a walk between two of
  -- the hubs, and no walk between two of them costs less.
  abbrev pub IsBest : List TransferHub → List TransferHub → Option Route → Type 0
  IsBest os ds none =
      (o d : TransferHub) (cost : ℕ)
      → Listed o os
      → Listed d ds
      → Walk (search_of o.code d.code) d.code cost
      → ⊥
  IsBest os ds (some r) =
      ((o : TransferHub) × (d : TransferHub) × Listed o os
        × Listed d ds
        × Walk (search_of o.code d.code) d.code r.total_cost)
      × ((o d : TransferHub) (cost : ℕ)
          → Listed o os
          → Listed d ds
          → Walk (search_of o.code d.code) d.code cost
          → r.total_cost ≤ cost)

  abbrev Between : List TransferHub → List TransferHub → Route → Type 0
  Between os ds r =
      (o : TransferHub) × (d : TransferHub) × Listed o os
      × Listed d ds
      × Walk (search_of o.code d.code) d.code r.total_cost

  reached :
      (q : Search) (x : Option Route)
      → IsCheapest q x
      → (cost : ℕ) → Walk q q.destination cost
      → AtMost x cost
  reached q none e cost w = e cost w
  reached q (some r) e cost w = e.1 cost w

  between :
      (os ds : List TransferHub) (o d : TransferHub)
      → Listed o os
      → Listed d ds
      → (x : Option Route) → IsCheapest (search_of o.code d.code) x
      → Sat (Between os ds) x
  between os ds o d at_o at_d none e = tt
  between os ds o d at_o at_d (some r) e = (o, d, at_o, at_d, e.0)

  both :
      (os ds : List TransferHub) (x : Option Route)
      → Sat (Between os ds) x
      → ((o d : TransferHub) (cost : ℕ)
          → Listed o os
          → Listed d ds
          → Walk (search_of o.code d.code) d.code cost
          → AtMost x cost)
      → IsBest os ds x
  both os ds none h k = k
  both os ds (some r) h k = (h, k)

  -- Of the planner's routes between the hubs of two lists the choice takes a cheapest: there is none exactly where no
  -- walk over the connections leads from a hub of the first to one of the second; else its cost is that of such a
  -- walk, and no such walk costs less.
  pub best_of-IsBest :
      (os ds : List TransferHub)
      → IsBest os ds (best_of (run heapq network pickup delivery weight) os ds none)
  best_of-IsBest os ds =
      let route : String → String → Option Route = run heapq network pickup delivery weight in
      both os ds (best_of route os ds none)
        (best_of-Sat route (Between os ds) os ds none
          (λ o d at_o at_d.
            between os ds o d at_o at_d (route o.code d.code) (run-IsCheapest o.code d.code))
          tt)
        (λ o d cost at_o at_d w. best_of-taken route os ds none cost o d at_o at_d (
          reached (search_of o.code d.code) (route o.code d.code) (run-IsCheapest o.code d.code)
            cost w))

  -- What is answered for a route: its cost, distance and hours with the segments that are made of its path, or the
  -- error that making them raises.
  abbrev pub IsShown : Route → Result RoutePlan → Type 0
  IsShown r answer =
      ((e : Error) × (segments 0 r.path r.seg_distances r.seg_hours ≡ err e) × (answer ≡ err e))
      ⊎ ((plan : RoutePlan) × (answer ≡ ok plan)
          × (plan.origin_city ≡ pickup)
          × (plan.destination_city ≡ delivery)
          × (plan.total_cost_amount ≡ r.total_cost)
          × (plan.total_distance_km ≡ r.total_distance)
          × (plan.estimated_transit_hours ≡ r.total_hours)
          × (segments 0 r.path r.seg_distances r.seg_hours ≡ ok plan.segments))

  -- Not found, where no walk leads from city to city; else a route is shown whose cost is the least.
  abbrev pub IsPlanned : List TransferHub → List TransferHub → Result RoutePlan → Type 0
  IsPlanned os ds answer =
      ((answer ≡ err not_found) × IsBest os ds none)
      ⊎ ((r : Route) × IsBest os ds (some r) × IsShown r answer)
