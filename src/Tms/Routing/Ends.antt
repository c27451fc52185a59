-- ===== src/Tms/Routing/Ends.antt =====
-- The route planner's loop ends, and what holds when it does.
use mathlib.Core.Bool.{true≢false}
use mathlib.Core.Option.{some-injective, none-ne-some}
use native.Mathlib.Decide.{dec_lt}
use oms_wms_tms.Prelude.{
  ℕ, zero, suc, ◌+◌, ◌≤◌, ◌<◌, ◌≡◌, ◌≢◌, refl, sym, ap, subst, String, true, false, ◌&&◌, none,
  some, List, [], ◌∷◌, arith, str_eq, eq_iff, ltb, leb, if◌then◌else◌, Bool-cases, Option-cases,
  inl, inr, length, All, lookup, select, mem_text,
}
use oms_wms_tms.Tms.Routing.{
  HubConnection, edges_from, Search, seg_cost, Node, count, Heapq, State, improves, is_stale, relax,
  search, start,
}
use oms_wms_tms.Tms.Routing.Steps.{within, is_item, count-le}
use oms_wms_tms.Tms.Routing.Walks.{Walk, here, step, Trail, IsTrail, edges-All}
use oms_wms_tms.Tms.Routing.Rounds.{size-relax}
use oms_wms_tms.Tms.Routing.Invariant.{
  Inv, count-either, popped_count, none_left, left_trails, stale-Inv, fresh-Inv, not_followed,
}

-- The connections whose hub has not been followed yet.
open_conns : List String → List HubConnection → ℕ
open_conns followed [] = 0
open_conns followed (c ∷ cs) =
    let rest = open_conns followed cs in
    if mem_text c.from_hub_code followed then rest else rest + 1

open_conns-cons :
    (h : String) (followed : List String) (cs : List HubConnection)
    → mem_text h followed ≡ false
    → open_conns (h ∷ followed) cs + length (edges_from cs h) ≡ open_conns followed cs
unfolding open_conns edges_from mem_text
open_conns-cons h followed [] new = omega arith
open_conns-cons h followed (c ∷ cs) new = elim (Bool-cases (str_eq c.from_hub_code h)) [
  | inl e ↦
      let new' : mem_text c.from_hub_code followed ≡ false =
        subst (λ j. mem_text j followed ≡ false) (sym ((eq_iff c.from_hub_code h).0 e)) new in
      ground (
        arith,
        eq_iff h c.from_hub_code,
        eq_iff c.from_hub_code h,
        new',
        open_conns-cons h followed cs new,
      )
  | inr e ↦
      ground (
        arith,
        eq_iff h c.from_hub_code,
        eq_iff c.from_hub_code h,
        open_conns-cons h followed cs new,
      )
]

open_conns-le : (cs : List HubConnection) → open_conns [] cs ≤ length cs
unfolding open_conns mem_text
open_conns-le [] = omega arith
open_conns-le (c ∷ cs) = omega (arith, open_conns-le cs)

weaken :
    (h : String) (a b : ℕ) (best : List (String × ℕ))
    → a ≤ b
    → within h a best ≡ true
    → within h b best ≡ true
weaken h a b best le w = ground arith

pub within_known :
    (h : String) (b k : ℕ) (best : List (String × ℕ))
    → lookup h best ≡ some b
    → within h k best ≡ true
    → b ≤ k
within_known h b k best e w = ground (arith, e)

pub within_unknown :
    (h : String) (k : ℕ) (best : List (String × ℕ)) → lookup h best ≡ none → within h k best ≢ true
within_unknown h k best e w = ground (arith, e)

not_improved :
    (k : ℕ) (h : String) (best : List (String × ℕ))
    → improves k h best ≡ false
    → within h k best ≡ true
unfolding improves
not_improved k h best i = ground arith

module _ (heapq : Heapq) (q : Search) where
  -- A known cost is at most that of any walk which is cheaper than all items.
  optimal_below :
      (followed : List String) (s : State) (limit : ℕ)
      → Inv q followed s
      → ((h : String) (k : ℕ) → k < limit → count (is_item h k) s.heap ≡ 0)
      → {h : String} {cost : ℕ} → Walk q h cost
      → cost < limit
      → within h cost s.best ≡ true
  optimal_below followed s limit inv bare here low = inv.origin
  optimal_below followed s limit inv bare (step {h = h} {cost = k} walk c link own) low =
      let known = optimal_below followed s limit inv bare walk (omega arith) in
      elim (Option-cases (lookup h s.best)) [
        | inl none_known ↦ absurd (within_unknown h k s.best none_known known)
        | inr (b, e) ↦
            let b_le : b ≤ k = within_known h b k s.best e known in
            elim (inv.explained h b e) [
              | inl item ↦ absurd (omega (arith, bare h b (omega arith)))
              | inr relaxed ↦
                  weaken c.to_hub_code (b + seg_cost q c) (k + seg_cost q c) s.best (omega arith) (
                    edges-All
                      (λ (c : HubConnection). within c.to_hub_code (b + seg_cost q c) s.best ≡ true)
                      h q.conns c relaxed link own)
            ]
      ]

  -- What holds when the loop has ended.
  pub record Ended (s : State) : Type 0 where
    pub sound : (k : ℕ) → lookup q.destination s.best ≡ some k → Walk q q.destination k
    pub optimal : (cost : ℕ) → Walk q q.destination cost → within q.destination cost s.best ≡ true
    pub late :
        (k : ℕ)
        → lookup q.destination s.best ≡ some k
        → count (λ m. str_eq m.hub_code q.destination && leb m.priority k) s.heap ≡ 0
    pub trails : All (IsTrail q) s.heap

  empty-Ended : (followed : List String) (s : State) → s.heap ≡ [] → Inv q followed s → Ended s
  unfolding select
  empty-Ended followed s empty inv = record {
    sound = inv.sound q.destination;
    optimal = λ cost walk.
        optimal_below followed s (suc cost) inv (λ h k low. ap (count (is_item h k)) empty) walk
          (omega arith);
    late = λ k known. ap (count (λ m. str_eq m.hub_code q.destination && leb m.priority k)) empty;
    trails = inv.trails;
  }

  module _ (followed : List String) (s : State) (n : Node) (rest : List Node)
      (popped : heapq.pop s.heap ≡ some (n, rest)) (inv : Inv q followed s)
      (at_end : str_eq n.hub_code q.destination ≡ true) where
    cheaper_gone : (h : String) (k : ℕ) → k < n.priority → count (is_item h k) s.heap ≡ 0
    cheaper_gone h k low = ground (
      arith,
      popped_count heapq q followed s n rest popped inv (is_item h k),
      heapq.pop-least s.heap n rest popped,
      count-le (is_item h k) (λ m. ltb m.priority n.priority) rest (λ m i. ground arith),
    )

    reached : within q.destination n.priority s.best ≡ true
    reached =
        subst (λ j. within j n.priority s.best ≡ true) ((eq_iff n.hub_code q.destination).0 at_end)
          (not_improved n.priority n.hub_code s.best
            (none_left heapq q followed s n rest popped inv
              (λ m. improves m.priority m.hub_code s.best) inv.below).1)

    late_lem :
        (k : ℕ)
        → lookup q.destination s.best ≡ some k
        → count (λ m. str_eq m.hub_code q.destination && leb m.priority k) rest ≡ 0
    late_lem k known = elim (dec_lt k n.priority) [
      | yes low ↦ ground (
        arith,
        heapq.pop-least s.heap n rest popped,
        count-le (λ m. str_eq m.hub_code q.destination && leb m.priority k)
            (λ m. ltb m.priority n.priority) rest (λ m i. ground arith),
      )
      | no high ↦
          let same : k ≡ n.priority =
            omega (arith, within_known q.destination k n.priority s.best known reached) in
          ground (
            arith,
            heapq.pop-least s.heap n rest popped,
            inv.single q.destination k known,
            popped_count heapq q followed s n rest popped inv (is_item q.destination k),
            count-either (λ m. str_eq m.hub_code q.destination && leb m.priority k)
                (λ m. ltb m.priority n.priority) (is_item q.destination k) rest
                (λ m i. ground arith),
          )
    ]

    popped-Ended : Ended (record s { heap = rest })
    popped-Ended = record {
      sound = inv.sound q.destination;
      optimal = λ cost walk. elim (dec_lt cost n.priority) [
        | yes low ↦ optimal_below followed s n.priority inv cheaper_gone walk low
        | no high ↦ weaken q.destination n.priority cost s.best (omega arith) reached
      ];
      late = late_lem;
      trails = (left_trails heapq q followed s n rest popped inv).1;
    }

  search_ends :
      (fuel : ℕ) (followed : List String) (s : State)
      → Inv q followed s
      → count (λ m. true) s.heap + open_conns followed q.conns < fuel
      → (s' : State) × (search heapq q fuel s ≡ some s') × Ended s'
  unfolding search
  search_ends zero followed s inv h = absurd (omega arith)
  search_ends (suc fuel) followed s inv h = elim (Option-cases (heapq.pop s.heap)) [
    | inl empty ↦
        (s, rw (empty, search) refl, empty-Ended followed s (heapq.pop-none s.heap empty) inv)
    | inr ((n, rest), popped) ↦ elim (Bool-cases (str_eq n.hub_code q.destination)) [
      | inl at_end ↦ (
        record s { heap = rest },
        rw (popped, search) (rw at_end refl),
        popped-Ended followed s n rest popped inv at_end,
      )
      | inr other ↦ elim (Bool-cases (is_stale n s.best)) [
        | inl stale ↦
            let (s', ends, e) =
              search_ends fuel followed (record s { heap = rest })
                (stale-Inv heapq q followed s n rest popped inv stale)
                (omega (arith, heapq.pop-count (λ m. true) s.heap n rest popped)) in
            (s', rw (popped, search) (rw other (rw stale ends)), e)
        | inr fresh ↦
            let (s', ends, e) =
              search_ends fuel (n.hub_code ∷ followed)
                (relax heapq q n (edges_from q.conns n.hub_code) (record s { heap = rest }))
                (fresh-Inv heapq q followed s n rest popped inv fresh)
                (omega (
                  arith,
                  heapq.pop-count (λ m. true) s.heap n rest popped,
                  size-relax heapq q n (edges_from q.conns n.hub_code) (record s { heap = rest }),
                  open_conns-cons n.hub_code followed q.conns
                      (not_followed heapq q followed s n rest popped inv fresh),
                )) in
            (s', rw (popped, search) (rw other (rw fresh ends)), e)
      ]
    ]
  ]

  start-Inv : Inv q [] (start heapq q)
  unfolding lookup improves select mem_text
  start-Inv = record {
    sound = λ h k known. elim (Bool-cases (str_eq q.origin h)) [
      | inl e ↦
          subst (λ j. Walk q j k) ((eq_iff q.origin h).0 e)
            (subst (Walk q q.origin) (some-injective 0 k (rw e at known)) here)
      | inr e ↦ absurd (none-ne-some k (rw e at known))
    ];
    origin = ground (arith, eq_iff q.origin q.origin);
    explained = λ h k known. inl (ground (arith, known));
    trails = (Trail.start, tt);
    below = ground (arith, eq_iff q.origin q.origin);
    single = λ h k known. ground arith;
    done = λ h m. absurd (true≢false (sym m));
  }

  -- With fuel for the connections and two rounds more the loop ends.
  pub search_total :
      (fuel : ℕ)
      → length q.conns + 2 ≤ fuel
      → (s : State) × (search heapq q fuel (start heapq q) ≡ some s) × Ended s
  unfolding select
  search_total fuel enough =
      search_ends fuel [] (start heapq q) start-Inv (omega (arith, open_conns-le q.conns))
