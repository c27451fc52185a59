-- ===== src/Tms/Routing/Rounds.antt =====
-- What the connections of one hub do to the heap and to the best costs.
use oms_wms_tms.Prelude.{
  ℕ, ◌+◌, ◌≤◌, ◌≡◌, String, Bool, true, some, List, [], ◌∷◌, arith, inl, inr, ◌⊎◌, length, All,
  lookup,
}
use native.Mathlib.Nat.{le_refl, le_trans}
use oms_wms_tms.Tms.Routing.{
  HubConnection, Search, seg_cost, Node, count, Heapq, State, relax_one, relax,
}
use oms_wms_tms.Tms.Routing.Steps.{
  within, is_item, count_below, IsDone, Single, within-relax_one, reached-relax_one,
  count-relax_one-le, size-relax_one, explained-relax_one, sound-relax_one, trails-relax_one,
  dearer-relax_one, Single-relax_one, IsDone-relax_one,
}
use oms_wms_tms.Tms.Routing.Walks.{Link, Walk, IsTrail}

module _ (heapq : Heapq) (q : Search) (n : Node) where
  pub within-relax :
      (cs : List HubConnection) (s : State) (h : String) (b : ℕ)
      → within h b s.best ≡ true
      → within h b (relax heapq q n cs s).best ≡ true
  unfolding relax
  within-relax [] s h b w = w
  within-relax (c ∷ cs) s h b w =
      within-relax cs (relax_one heapq q n c s) h b (within-relax_one heapq q n c s h b w)

  pub reached-relax :
      (cs : List HubConnection) (s : State)
      → All
          (λ (c : HubConnection).
            within c.to_hub_code (n.priority + seg_cost q c) (relax heapq q n cs s).best ≡ true)
          cs
  unfolding relax
  reached-relax [] s = tt
  reached-relax (c ∷ cs) s = (
    within-relax cs (relax_one heapq q n c s) c.to_hub_code (n.priority + seg_cost q c)
        (reached-relax_one heapq q n c s),
    reached-relax cs (relax_one heapq q n c s),
  )

  pub count-relax-le :
      (cs : List HubConnection) (s : State) (p : Node → Bool)
      → count p s.heap ≤ count p (relax heapq q n cs s).heap
  unfolding relax
  count-relax-le [] s p = le_refl _
  count-relax-le (c ∷ cs) s p =
      le_trans (count-relax_one-le heapq q n c s p) (count-relax-le cs (relax_one heapq q n c s) p)

  pub size-relax :
      (cs : List HubConnection) (s : State)
      → count (λ m. true) (relax heapq q n cs s).heap ≤ count (λ m. true) s.heap + length cs
  unfolding relax
  size-relax [] s = omega arith
  size-relax (c ∷ cs) s =
      omega (arith, size-relax_one heapq q n c s, size-relax cs (relax_one heapq q n c s))

  pub explained-relax :
      (cs : List HubConnection) (s : State) (h : String) (k : ℕ)
      → lookup h (relax heapq q n cs s).best ≡ some k
      → (lookup h s.best ≡ some k) ⊎ (1 ≤ count (is_item h k) (relax heapq q n cs s).heap)
  unfolding relax
  explained-relax [] s h k known = inl known
  explained-relax (c ∷ cs) s h k known =
      elim (explained-relax cs (relax_one heapq q n c s) h k known) [
        | inr item ↦ inr item
        | inl before ↦ elim (explained-relax_one heapq q n c s h k before) [
          | inl old ↦ inl old
          | inr item ↦
              inr (le_trans item (count-relax-le cs (relax_one heapq q n c s) (is_item h k)))
        ]
      ]

  pub sound-relax :
      (cs : List HubConnection) (s : State)
      → Walk q n.hub_code n.priority
      → All (λ (c : HubConnection). Link c q.conns × (c.from_hub_code ≡ n.hub_code)) cs
      → ((h : String) (k : ℕ) → lookup h s.best ≡ some k → Walk q h k)
      → (h : String) (k : ℕ) → lookup h (relax heapq q n cs s).best ≡ some k
      → Walk q h k
  unfolding relax
  sound-relax [] s walked links sound = sound
  sound-relax (c ∷ cs) s walked links sound =
      sound-relax cs (relax_one heapq q n c s) walked links.1
        (sound-relax_one heapq q n c s walked links.0.0 links.0.1 sound)

  pub trails-relax :
      (cs : List HubConnection) (s : State)
      → IsTrail q n
      → All (λ (c : HubConnection). Link c q.conns × (c.from_hub_code ≡ n.hub_code)) cs
      → All (IsTrail q) s.heap
      → All (IsTrail q) (relax heapq q n cs s).heap
  unfolding relax
  trails-relax [] s trail links trails = trails
  trails-relax (c ∷ cs) s trail links trails =
      trails-relax cs (relax_one heapq q n c s) trail links.1
        (trails-relax_one heapq q n c s trail links.0.0 links.0.1 trails)

  pub dearer-relax :
      (cs : List HubConnection) (s : State)
      → count_below s ≡ 0
      → count_below (relax heapq q n cs s) ≡ 0
  unfolding relax
  dearer-relax [] s h = h
  dearer-relax (c ∷ cs) s h =
      dearer-relax cs (relax_one heapq q n c s) (dearer-relax_one heapq q n c s h)

  pub Single-relax :
      (cs : List HubConnection) (s : State)
      → count_below s ≡ 0
      → Single s
      → Single (relax heapq q n cs s)
  unfolding relax
  Single-relax [] s h single = single
  Single-relax (c ∷ cs) s h single =
      Single-relax cs (relax_one heapq q n c s) (dearer-relax_one heapq q n c s h)
        (Single-relax_one heapq q n c s h single)

  pub IsDone-relax :
      (cs : List HubConnection) (s : State) (h : String) (k : ℕ)
      → k ≤ n.priority
      → IsDone h k s
      → IsDone h k (relax heapq q n cs s)
  unfolding relax
  IsDone-relax [] s h k early d = d
  IsDone-relax (c ∷ cs) s h k early d =
      IsDone-relax cs (relax_one heapq q n c s) h k early
        (IsDone-relax_one heapq q n c s h k early d)
