-- ===== src/Tms/Routing/Plan.antt =====
-- `_find_best_route_plan_impl` of src/tms/service.py: the hubs of both cities, the network and its prices, the
-- cheapest of all pairs of hubs, and the segments of the answer.
use Prim.Native.String as Text
use Prim.Native.Char.{code}
use oms_wms_tms.Prelude.{
  ℕ, zero, suc, ◌+◌, String, Bool, true, false, ◌&&◌, ◌||◌, Option, none, some, List, [], ◌∷◌,
  str_eq, ltb, if◌then◌else◌, length, select, Result, ok, err, not_found, validation, value_error,
  index_error, invalid_operation, RawId, by_id,
}
use oms_wms_tms.Tms.Routing.{HubConnection, Price, Heapq, Route, dijkstra}

pub record TransferHub : Type 0 where
  pub code : String
  pub city : String

-- A row of `carrier_routes`.
pub record CarrierRoute : Type 0 where
  pub carrier_code : String
  pub origin_city : String
  pub dest_city : String
  pub base_price_per_kg : ℕ

-- A transport order as the planner reads it; a city is none where its address has none.
pub record Order : Type 0 where
  pub id : ℕ
  pub pickup_city : Option String
  pub delivery_city : Option String
  pub total_weight_kg : Option ℕ

-- The tables, newest rows first, as the listings order them.
pub record Network : Type 0 where
  pub orders : List Order
  pub hubs : List TransferHub
  pub conns : List HubConnection
  pub routes : List CarrierRoute

unfoldable pub same_route : CarrierRoute → Price → Bool
same_route r p =
    str_eq p.origin_city r.origin_city
    && str_eq p.dest_city r.dest_city
    && str_eq p.carrier_code r.carrier_code

abbrev pub price_of : CarrierRoute → Price
price_of r = record {
  carrier_code = r.carrier_code;
  origin_city = r.origin_city;
  dest_city = r.dest_city;
  base_price_per_kg = r.base_price_per_kg;
}

-- `price_map[key] = …`: a later row takes the place of an earlier one with its key.
unfoldable pub set_price : CarrierRoute → List Price → List Price
unfolding same_route
set_price r [] = price_of r ∷ []
set_price r (p ∷ ps) = if same_route r p then price_of r ∷ ps else p ∷ set_price r ps

unfoldable pub price_map : List Price → List CarrierRoute → List Price
unfolding set_price
price_map ps [] = ps
price_map ps (r ∷ rs) = price_map (set_price r ps) rs

-- `list_hubs(db, city=city)`
unfoldable pub list_hubs : String → List TransferHub → List TransferHub
unfolding select
list_hubs city hubs = select (λ h. str_eq h.city city) hubs

-- `result["total_cost"] < best_cost`, where nothing is found yet or the result is cheaper.
unfoldable pub better : Option Route → Option Route → Option Route
better best none = best
better none (some r) = some r
better (some b) (some r) = if ltb r.total_cost b.total_cost then some r else some b

-- The two loops over the hubs; `run` is `_dijkstra` from hub to hub.
module _ (run : String → String → Option Route) where
  unfoldable pub best_to : String → List TransferHub → Option Route → Option Route
  unfolding better
  best_to from [] best = best
  best_to from (d ∷ ds) best = best_to from ds (better best (run from d.code))

  unfoldable pub best_of : List TransferHub → List TransferHub → Option Route → Option Route
  unfolding best_to
  best_of [] ds best = best
  best_of (o ∷ os) ds best = best_of os ds (best_to o.code ds best)

-- `path[i]` of the text `path`: its character, or IndexError.
unfoldable pub char_at : ℕ → String → Result ℕ
char_at i Text.[] = err index_error
char_at zero (Text.◌∷◌ c s) = ok (code c)
char_at (suc i) (Text.◌∷◌ c s) = char_at i s

pub record Segment : Type 0 where
  pub segment_no : ℕ
  pub from_hub : ℕ
  pub to_hub : ℕ
  pub distance_km : ℕ
  pub transit_hours : ℕ

-- The segments: `zip` of the hubs of the path with the distances and hours, so that the loop's `path` is the code of
-- one hub, whose characters are taken for hubs.
unfoldable pub segments : ℕ → List String → List ℕ → List ℕ → Result (List Segment)
unfolding char_at
segments i (path ∷ paths) (d ∷ ds) (h ∷ hs) =
    joined (char_at i path) (char_at (i + 1) path) (segments (i + 1) paths ds hs)
  where
    joined : Result ℕ → Result ℕ → Result (List Segment) → Result (List Segment)
    joined (err e) b rest = err e
    joined (ok a) (err e) rest = err e
    joined (ok a) (ok b) (err e) = err e
    joined (ok a) (ok b) (ok rest) = ok (
        record { segment_no = i; from_hub = a; to_hub = b; distance_km = d; transit_hours = h }
        ∷ rest)
segments i paths ds hs = ok []

pub record RoutePlan : Type 0 where
  pub origin_city : String
  pub destination_city : String
  pub total_distance_km : ℕ
  pub estimated_transit_hours : ℕ
  pub total_cost_amount : ℕ
  pub segments : List Segment

abbrev pub text_or_empty : Option String → String
text_or_empty none = ""
text_or_empty (some t) = t

abbrev pub is_empty : {A : Type 0} → List A → Bool
is_empty [] = true
is_empty (x ∷ xs) = false

module _ (heapq : Heapq) (network : Network) where
  -- `_dijkstra` between two hubs; its fuel is enough (Routing.Answer).
  unfoldable pub run : String → String → ℕ → String → String → Option Route
  unfolding price_map dijkstra
  run pickup delivery weight from to =
      elim (dijkstra heapq
        (record {
          conns = network.conns;
          prices = price_map [] network.routes;
          origin_city = pickup;
          dest_city = delivery;
          weight_kg = weight;
          origin = from;
          destination = to;
        })
        (length network.conns + 2)) [ none ↦ none | some r ↦ r ]

  -- The answer for the best route.
  unfoldable pub plan_of : String → String → Option Route → Result RoutePlan
  unfolding segments
  plan_of pickup delivery none = err not_found
  plan_of pickup delivery (some r) = elim (segments 0 r.path r.seg_distances r.seg_hours) [
    | err e ↦ err e
    | ok segs ↦ ok (record {
      origin_city = pickup;
      destination_city = delivery;
      total_distance_km = r.total_distance;
      estimated_transit_hours = r.total_hours;
      total_cost_amount = r.total_cost;
      segments = segs;
    })
  ]

  -- `_find_best_route_plan_impl` of an order; a weight that is null is no decimal number.
  unfoldable pub plan_order : Order → Result RoutePlan
  unfolding list_hubs best_of run plan_of
  plan_order o =
      let pickup : String = text_or_empty o.pickup_city in
      let delivery : String = text_or_empty o.delivery_city in
      elim o.total_weight_kg [
        | none ↦ err invalid_operation
        | some weight ↦
            if str_eq pickup "" || str_eq delivery ""
            then err validation
            else (let origins = list_hubs pickup network.hubs in
                let dests = list_hubs delivery network.hubs in
                if is_empty origins || is_empty dests
                then err not_found
                else plan_of pickup delivery
                    (best_of (run pickup delivery weight) origins dests none))
      ]

  unfoldable pub find_best_route_plan_impl : RawId → Result RoutePlan
  unfolding by_id plan_order
  find_best_route_plan_impl none = err value_error
  find_best_route_plan_impl (some i) = elim (by_id (λ (o : Order). o.id) i network.orders) [
    | none ↦ err not_found
    | some o ↦ plan_order o
  ]
