-- ===== src/Tms/Routing/Walks.antt =====
-- Walks over the connections of the hubs, which the route planner's search is about.
use oms_wms_tms.Prelude.{
  ℕ, ◌+◌, ◌≡◌, String, List, [], ◌∷◌, ◌++◌, str_eq, eq_iff, Bool-cases, inl, inr, All,
}
use oms_wms_tms.Tms.Routing.{HubConnection, edges_from, Search, seg_cost, Node}

-- A walk over the connections from the origin, with its cost.
pub data Link (c : HubConnection) : List HubConnection → Type 0 where
  first : {cs : List HubConnection} → Link c (c ∷ cs)
  later : {d : HubConnection} {cs : List HubConnection} → Link c cs → Link c (d ∷ cs)

pub data Walk (q : Search) : String → ℕ → Type 0 where
  here : Walk q q.origin 0
  step :
      {h : String} {cost : ℕ}
      → Walk q h cost
      → (c : HubConnection) → Link c q.conns
      → c.from_hub_code ≡ h
      → Walk q c.to_hub_code (cost + seg_cost q c)

-- The same with the hubs that are passed, the origin first.
pub data Trail (q : Search) : List String → String → ℕ → Type 0 where
  start : Trail q (q.origin ∷ []) q.origin 0
  extend :
      {path : List String} {h : String} {cost : ℕ}
      → Trail q path h cost
      → (c : HubConnection) → Link c q.conns
      → c.from_hub_code ≡ h
      → Trail q (path ++ c.to_hub_code ∷ []) c.to_hub_code (cost + seg_cost q c)

abbrev pub IsTrail : Search → Node → Type 0
IsTrail q m = Trail q m.path m.hub_code m.priority

-- What holds for the connections of a hub.
pub edges-All :
    (P : HubConnection → Type 0) (h : String) (cs : List HubConnection) (c : HubConnection)
    → All P (edges_from cs h)
    → Link c cs
    → c.from_hub_code ≡ h
    → P c
unfolding edges_from
edges-All P h [] c ok link own = elim link [ ]
edges-All P h (c ∷ cs) c' ok first own = kept (rw ((eq_iff c'.from_hub_code h).1 own) at ok)
  where
    kept : P c' × All P (edges_from cs h) → P c'
    kept x = x.0
edges-All P h (d ∷ cs) c ok (later link) own = elim (Bool-cases (str_eq d.from_hub_code h)) [
  | inl e ↦ edges-All P h cs c (rw e at ok).1 link own
  | inr e ↦ edges-All P h cs c (rw e at ok) link own
]

pub edges-Link :
    (h : String) (cs : List HubConnection)
    → All (λ (c : HubConnection). Link c cs × (c.from_hub_code ≡ h)) (edges_from cs h)
unfolding edges_from
edges-Link h [] = tt
edges-Link h (c ∷ cs) = elim (Bool-cases (str_eq c.from_hub_code h)) [
  | inl e ↦
      rw e ((first, (eq_iff c.from_hub_code h).0 e), deeper (edges_from cs h) (edges-Link h cs))
  | inr e ↦ rw e (deeper (edges_from cs h) (edges-Link h cs))
]
  where
    deeper :
        (ds : List HubConnection)
        → All (λ (d : HubConnection). Link d cs × (d.from_hub_code ≡ h)) ds
        → All (λ (d : HubConnection). Link d (c ∷ cs) × (d.from_hub_code ≡ h)) ds
    deeper [] ok = tt
    deeper (d ∷ ds) ok = ((later ok.0.0, ok.0.1), deeper ds ok.1)
