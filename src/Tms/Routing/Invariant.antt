-- ===== src/Tms/Routing/Invariant.antt =====
-- The invariant of the route planner's loop, with the hubs whose connections have been followed.
use native.Mathlib.Nat.{le_refl, le_trans}
use mathlib.Core.Bool.{true≢false}
use mathlib.Core.Option.{some-injective}
use oms_wms_tms.Prelude.{
  ℕ, ◌+◌, ◌≤◌, ◌≡◌, refl, sym, ap, ◌∙◌, subst, String, Bool, true, false, ◌&&◌, ◌||◌, some, List,
  [], ◌∷◌, arith, str_eq, eq_iff, ltb, leb, if◌then◌else◌, Bool-cases, Option-cases, inl, inr, ◌⊎◌,
  All, lookup, select, mem_text,
}
use oms_wms_tms.Tms.Routing.{
  HubConnection, edges_from, Search, seg_cost, Node, count, Heapq, State, improves, is_stale, relax,
}
use oms_wms_tms.Tms.Routing.Steps.{within, is_item, count_below, IsDone, Single}
use oms_wms_tms.Tms.Routing.Walks.{Walk, IsTrail, edges-Link}
use oms_wms_tms.Tms.Routing.Rounds.{
  within-relax, reached-relax, count-relax-le, explained-relax, sound-relax, trails-relax,
  dearer-relax, Single-relax, IsDone-relax,
}

pub count-either :
    (p r t : Node → Bool) (ns : List Node)
    → ((n : Node) → p n ≡ true → (r n || t n) ≡ true)
    → count p ns ≤ count r ns + count t ns
unfolding select
count-either p r t [] h = omega arith
count-either p r t (n ∷ ns) h = ground (arith, h n, count-either p r t ns h)

module _ (q : Search) where
  -- Every connection from the hub has been followed from its cost.
  abbrev pub Relaxed : String → ℕ → List (String × ℕ) → Type 0
  Relaxed h k best =
      All (λ (c : HubConnection). within c.to_hub_code (k + seg_cost q c) best ≡ true)
        (edges_from q.conns h)

  pub record Inv (followed : List String) (s : State) : Type 0 where
    pub sound : (h : String) (k : ℕ) → lookup h s.best ≡ some k → Walk q h k
    pub origin : within q.origin 0 s.best ≡ true
    pub explained :
        (h : String) (k : ℕ)
        → lookup h s.best ≡ some k
        → (1 ≤ count (is_item h k) s.heap) ⊎ Relaxed h k s.best
    pub trails : All (IsTrail q) s.heap
    pub below : count_below s ≡ 0
    pub single : Single s
    pub done : (h : String) → mem_text h followed ≡ true → (k : ℕ) × IsDone h k s

-- A heap from which a least item has been popped.
module _ (heapq : Heapq) (q : Search) (followed : List String) (s : State) (n : Node)
    (rest : List Node) (popped : heapq.pop s.heap ≡ some (n, rest)) (inv : Inv q followed s) where
  abbrev left : State
  left = record s { heap = rest }

  pub popped_count :
      (p : Node → Bool) → count p s.heap ≡ (if p n then count p rest + 1 else count p rest)
  popped_count p = heapq.pop-count p s.heap n rest popped

  fewer : (p : Node → Bool) → count p rest ≤ count p s.heap
  fewer p = ground (arith, popped_count p)

  pub none_left : (p : Node → Bool) → count p s.heap ≡ 0 → (count p rest ≡ 0) × (p n ≡ false)
  none_left p h = (ground (arith, popped_count p), ground (arith, popped_count p))

  pub left_trails : IsTrail q n × All (IsTrail q) rest
  left_trails = heapq.pop-All (IsTrail q) s.heap n rest popped inv.trails

  left-count_below : count_below left ≡ 0
  left-count_below = (none_left (λ m. improves m.priority m.hub_code s.best) inv.below).0

  left-Single : Single left
  left-Single h k known = le_trans (fewer (is_item h k)) (inv.single h k known)

  left-IsDone : (h : String) (k : ℕ) → IsDone h k s → IsDone h k left
  left-IsDone h k d = record {
    known = d.known;
    least = (none_left (λ m. ltb m.priority k) d.least).0;
    alone = (none_left (λ m. str_eq m.hub_code h && leb m.priority k) d.alone).0;
  }

  stale_other :
      (h : String) (k : ℕ)
      → is_stale n s.best ≡ true
      → lookup h s.best ≡ some k
      → is_item h k n ≡ false
  unfolding is_stale
  stale_other h k stale known = elim (Bool-cases (str_eq n.hub_code h)) [
    | inr e ↦ rw e refl
    | inl e ↦
        let own : lookup n.hub_code s.best ≡ some k =
          subst (λ j. lookup j s.best ≡ some k) (sym ((eq_iff n.hub_code h).0 e)) known in
        ground (arith, rw (own, is_stale) at stale)
  ]

  pub stale-Inv : is_stale n s.best ≡ true → Inv q followed left
  stale-Inv stale = record {
    sound = inv.sound;
    origin = inv.origin;
    explained = λ h k known. elim (inv.explained h k known) [
      | inr relaxed ↦ inr relaxed
      | inl item ↦ inl (ground (arith, stale_other h k stale known, popped_count (is_item h k)))
    ];
    trails = left_trails.1;
    below = left-count_below;
    single = left-Single;
    done = λ h m. let (k, d) = inv.done h m in (k, left-IsDone h k d);
  }

  module _ (fresh : is_stale n s.best ≡ false) where
    known_lem : lookup n.hub_code s.best ≡ some n.priority
    unfolding is_stale improves
    known_lem =
        let low = (none_left (λ m. improves m.priority m.hub_code s.best) inv.below).1 in
        elim (Option-cases (lookup n.hub_code s.best)) [
          | inl unknown ↦ absurd (true≢false (rw (unknown, improves) at low))
          | inr (b, e) ↦
              e ∙ ap some (between b (rw (e, improves) at low) (rw (e, is_stale) at fresh))
        ]
      where
        between : (b : ℕ) → ltb n.priority b ≡ false → ltb b n.priority ≡ false → b ≡ n.priority
        between b h k = ground arith

    pub not_followed : mem_text n.hub_code followed ≡ false
    not_followed = elim (Bool-cases (mem_text n.hub_code followed)) [
      | inr e ↦ e
      | inl e ↦
          let (k, d) = inv.done n.hub_code e in
          let same : n.priority ≡ k = some-injective n.priority k (sym known_lem ∙ d.known) in
          absurd (
            ground (
              arith,
              same,
              eq_iff n.hub_code n.hub_code,
              (none_left (λ m. str_eq m.hub_code n.hub_code && leb m.priority k) d.alone).1,
            ))
    ]

    done_early : (h : String) (k : ℕ) → IsDone h k s → k ≤ n.priority
    done_early h k d = ground (arith, (none_left (λ m. ltb m.priority k) d.least).1)

    own_item : is_item n.hub_code n.priority n ≡ true
    own_item = ground (arith, eq_iff n.hub_code n.hub_code)

    own-IsDone : IsDone n.hub_code n.priority left
    own-IsDone = record {
      known = known_lem;
      least = heapq.pop-least s.heap n rest popped;
      alone = ground (
        arith,
        heapq.pop-least s.heap n rest popped,
        own_item,
        popped_count (is_item n.hub_code n.priority),
        inv.single n.hub_code n.priority known_lem,
        count-either (λ m. str_eq m.hub_code n.hub_code && leb m.priority n.priority)
            (λ m. ltb m.priority n.priority) (is_item n.hub_code n.priority) rest
            (λ m h. ground arith),
      );
    }

    abbrev followed_on : State
    followed_on = relax heapq q n (edges_from q.conns n.hub_code) left

    kept_followed : (h : String) (k : ℕ) → Relaxed q h k s.best → Relaxed q h k followed_on.best
    kept_followed h k r = keep (edges_from q.conns h) r
      where
        keep :
            (cs : List HubConnection)
            → All (λ (c : HubConnection). within c.to_hub_code (k + seg_cost q c) s.best ≡ true) cs
            → All
                (λ (c : HubConnection).
                  within c.to_hub_code (k + seg_cost q c) followed_on.best ≡ true)
                cs
        keep [] ok = tt
        keep (c ∷ cs) ok = (
          within-relax heapq q n (edges_from q.conns n.hub_code) left c.to_hub_code
              (k + seg_cost q c) ok.0,
          keep cs ok.1,
        )

    first_followed :
        (h : String) (k : ℕ)
        → n.hub_code ≡ h
        → lookup h s.best ≡ some k
        → Relaxed q h k followed_on.best
    first_followed h k same before =
        subst (λ j. Relaxed q j k followed_on.best) same
          (subst (λ j. Relaxed q n.hub_code j followed_on.best)
            (some-injective n.priority k
              (sym known_lem ∙ subst (λ j. lookup j s.best ≡ some k) (sym same) before))
            (reached-relax heapq q n (edges_from q.conns n.hub_code) left))

    other_item :
        (h : String) (k : ℕ)
        → str_eq n.hub_code h ≡ false
        → 1 ≤ count (is_item h k) s.heap
        → 1 ≤ count (is_item h k) rest
    other_item h k e item = ground (arith, popped_count (is_item h k))

    explained_on :
        (h : String) (k : ℕ)
        → lookup h followed_on.best ≡ some k
        → (1 ≤ count (is_item h k) followed_on.heap) ⊎ Relaxed q h k followed_on.best
    explained_on h k known =
        elim (explained-relax heapq q n (edges_from q.conns n.hub_code) left h k known) [
          | inr item ↦ inl item
          | inl before ↦ elim (inv.explained h k before) [
            | inr relaxed ↦ inr (kept_followed h k relaxed)
            | inl item ↦ elim (Bool-cases (str_eq n.hub_code h)) [
              | inl e ↦ inr (first_followed h k ((eq_iff n.hub_code h).0 e) before)
              | inr e ↦ inl (
                  le_trans (other_item h k e item)
                    (count-relax-le heapq q n (edges_from q.conns n.hub_code) left (is_item h k)))
            ]
          ]
        ]

    kept_settled :
        (h : String) → mem_text h (n.hub_code ∷ followed) ≡ true → (k : ℕ) × IsDone h k followed_on
    unfolding mem_text
    kept_settled h m = elim (Bool-cases (str_eq n.hub_code h)) [
      | inl e ↦ (
        n.priority,
        subst (λ j. IsDone j n.priority followed_on) ((eq_iff n.hub_code h).0 e)
            (IsDone-relax heapq q n (edges_from q.conns n.hub_code) left n.hub_code n.priority
              (le_refl n.priority) own-IsDone),
      )
      | inr e ↦
          let (k, d) = inv.done h (rw e at m) in
          (
            k,
            IsDone-relax heapq q n (edges_from q.conns n.hub_code) left h k (done_early h k d)
                (left-IsDone h k d),
          )
    ]

    pub fresh-Inv : Inv q (n.hub_code ∷ followed) followed_on
    fresh-Inv = record {
      sound =
          sound-relax heapq q n (edges_from q.conns n.hub_code) left
            (inv.sound n.hub_code n.priority known_lem) (edges-Link n.hub_code q.conns) inv.sound;
      origin = within-relax heapq q n (edges_from q.conns n.hub_code) left q.origin 0 inv.origin;
      explained = explained_on;
      trails =
          trails-relax heapq q n (edges_from q.conns n.hub_code) left left_trails.0
            (edges-Link n.hub_code q.conns) left_trails.1;
      below = dearer-relax heapq q n (edges_from q.conns n.hub_code) left left-count_below;
      single =
          Single-relax heapq q n (edges_from q.conns n.hub_code) left left-count_below left-Single;
      done = kept_settled;
    }
