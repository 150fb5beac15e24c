-- ===== src/Routing/Cpu/Fuel/Growth.antt =====
-- What scanning edges adds to the frontier: an entry for an edge, at most.
use path_hydra.Common.{
  ℕ, zero, suc, ◌+◌, ◌≤◌, ◌≡◌, ◌∙◌, sym, refl, ◌⊎◌, inl, inr, ltb, ◌==◌, Bool, ok, none, some, List,
  [], ◌∷◌, length, Option, guard, ok_or, ◌>>=◌, >>=-eq-ok, holds_of_ok, Bool-cases, Option-cases,
  arith,
}
use path_hydra.Core.{u64_bound}
use path_hydra.Routing.Float64.{Float64}
use path_hydra.Routing.Profile.{
  RelationMultiplier, RelationUse, disabled, enabled, PackedRelationProfile, relation_use_index,
}
use path_hydra.Routing.Request.{
  RoutingError, out_of_fuel, index_out_of_bounds, internal_invariant, SearchBudget, permits,
  CompletionReason,
}
use path_hydra.Routing.Request
use path_hydra.Routing.Topology.{RoutingTopology, OutgoingEdge}
use path_hydra.Routing.Cpu.{
  Predecessor, Search, more, stop, lower, improve, effective_weight, accumulate_distance,
  relax_enabled, relax_use, relax, scan, polled,
}
use path_hydra.Routing.Cpu.Frontier.{FrontierEntry, push, push_frontier}
use path_hydra.Routing.Cpu.Fuel.{
  IsFuelled, IsFuelled->>=, IsFuelled-ok, IsFuelled-guard, IsFuelled-ok_or, IsBounded,
}

length-push : (e : FrontierEntry) (xs : List FrontierEntry) → length (push e xs) ≡ suc (length xs)
unfolding push
length-push e [] = refl
length-push e (x ∷ xs) = let tail = length-push e xs in ground arith

-- What an edge does to the frontier and to the final nodes.
pub record Grows (by : ℕ) (s s' : Search) : Type 0 where
  pub frontier_le : length s'.frontier ≤ by + length s.frontier
  pub same : s'.finalized ≡ s.finalized

improve-Grows :
    (old : Option ℕ) (candidate destination : ℕ) (p : Predecessor) (s : Search)
    → Grows 1 s (improve old candidate destination p s)
unfolding improve lower push_frontier
improve-Grows none candidate destination p s = record {
  frontier_le =
      omega (arith, length-push (record { distance = candidate; node = destination }) s.frontier);
  same = refl;
}
improve-Grows (some existing) candidate destination p s =
    elim (Bool-cases (ltb candidate existing)) [
      | inl less ↦ rw less (record {
        frontier_le =
            omega
              (arith, length-push (record { distance = candidate; node = destination }) s.frontier);
        same = refl;
      })
      | inr not_less ↦ rw not_less (elim (Bool-cases (candidate == existing)) [
        | inl tie ↦ rw tie (record { frontier_le = omega arith; same = refl })
        | inr no_tie ↦ rw no_tie (record { frontier_le = omega arith; same = refl })
      ])
    ]

module _ (f : Float64) where
  pub effective_weight-IsFuelled :
      (b : _) (m : RelationMultiplier) → IsFuelled (effective_weight f b m)
  unfolding effective_weight
  effective_weight-IsFuelled b m = ground arith

  pub accumulate_distance-IsFuelled : (d w : ℕ) → IsFuelled (accumulate_distance f d w)
  unfolding accumulate_distance
  accumulate_distance-IsFuelled d w = ground arith

module _ (f : Float64) (t : RoutingTopology) (signal : ℕ → Bool) (budget : SearchBudget)
    (profile : PackedRelationProfile) (bounded : IsBounded t) where
  relax_enabled-IsFuelled :
      (current : FrontierEntry) (a : ℕ) (edge : OutgoingEdge) (m : RelationMultiplier) (s : Search)
      → IsFuelled (relax_enabled f t.node_count current a edge m s)
  unfolding relax_enabled
  relax_enabled-IsFuelled current a edge m s =
      IsFuelled->>= _ _
        (IsFuelled-guard (ltb edge.destination t.node_count) index_out_of_bounds (λ p. cc p))
        (λ _ _. elim (Bool-cases (s.finalized edge.destination)) [
          | inl final ↦ rw final (IsFuelled-ok s)
          | inr open_ ↦ rw open_ (
              IsFuelled->>= _ _ (effective_weight-IsFuelled f edge.base_weight m) (λ w _.
                IsFuelled->>= _ _ (accumulate_distance-IsFuelled f current.distance w)
                  (λ c _. IsFuelled-ok _)))
        ])

  relax-IsFuelled :
      (current : FrontierEntry) (a : ℕ) (edge : OutgoingEdge) (s : Search)
      → IsFuelled (relax f t.node_count profile current a edge s)
  unfolding relax relax_use
  relax-IsFuelled current a edge s =
      IsFuelled->>= _ _
        (IsFuelled-ok_or (relation_use_index profile edge.relation_index) _ (λ p. cc p))
        (λ u _. elim u as (λ k. IsFuelled (relax_use f t.node_count current a edge k s)) [
          | disabled ↦ IsFuelled-ok s
          | enabled m ↦ relax_enabled-IsFuelled current a edge m s
        ])

  relax_enabled-Grows :
      (current : FrontierEntry) (a : ℕ) (edge : OutgoingEdge) (m : RelationMultiplier)
      (s s' : Search)
      → relax_enabled f t.node_count current a edge m s ≡ ok s'
      → Grows 1 s s'
  unfolding relax_enabled
  relax_enabled-Grows current a edge m s s' h =
      let (_, _, h1) =
        >>=-eq-ok (guard (ltb edge.destination t.node_count) index_out_of_bounds) _ h in
      elim (Bool-cases (s.finalized edge.destination)) [
        | inl final ↦
            holds_of_ok (Grows 1 s) (record { frontier_le = omega arith; same = refl })
              (rw final at h1)
        | inr open_ ↦
            let (w, _, h2) = >>=-eq-ok (effective_weight f edge.base_weight m) _ (rw open_ at h1) in
            let (c, _, h3) = >>=-eq-ok (accumulate_distance f current.distance w) _ h2 in
            holds_of_ok (Grows 1 s)
              (improve-Grows (s.distances edge.destination) c edge.destination
                (record { source = current.node; edge = edge.edge_id; adjacency = a }) s)
              h3
      ]

  relax-Grows :
      (current : FrontierEntry) (a : ℕ) (edge : OutgoingEdge) (s s' : Search)
      → relax f t.node_count profile current a edge s ≡ ok s'
      → Grows 1 s s'
  unfolding relax relax_use
  relax-Grows current a edge s s' h =
      let (u, _, h1) =
        >>=-eq-ok
          (ok_or (relation_use_index profile edge.relation_index)
            (internal_invariant Request.edge_relation_not_packed))
          _ h in
      elim (use_cases u) [
        | inl e ↦
            holds_of_ok (Grows 1 s) (record { frontier_le = omega arith; same = refl }) (rw e at h1)
        | inr (m, e) ↦ relax_enabled-Grows current a edge m s s' (rw e at h1)
      ]
    where
      use_cases : (u : RelationUse) → (u ≡ disabled) ⊎ ((m : RelationMultiplier) × (u ≡ enabled m))
      use_cases disabled = inl refl
      use_cases (enabled m) = inr (m, refl)

  pub scan-IsFuelled :
      (rounds a : ℕ) (current : FrontierEntry) (s : Search)
      → IsFuelled (scan f t signal budget profile rounds a current s)
  unfolding scan polled
  scan-IsFuelled zero a current s = IsFuelled-ok _
  scan-IsFuelled (suc rounds) a current s = elim (Bool-cases (signal s.clock)) [
    | inl seen ↦ rw seen (IsFuelled-ok _)
    | inr unseen ↦ rw unseen (elim (Bool-cases (permits budget s.examined_edges)) [
      | inr spent ↦ rw spent (IsFuelled-ok _)
      | inl left ↦ rw left (
          IsFuelled->>= _ _ (IsFuelled-guard (ltb (s.examined_edges + 1) u64_bound) _ (λ p. cc p))
            (λ _ _. IsFuelled->>= _ _ (bounded.edge-IsFuelled a (s.clock + 1)) (λ found _.
              elim found
                as (λ k. IsFuelled (elim k [
                  | none ↦ ok (
                      stop CompletionReason.cancelled
                        (record (polled s) { examined_edges = s.examined_edges + 1 }))
                  | some edge ↦
                      relax f t.node_count profile current a edge
                        (record (polled s) { examined_edges = s.examined_edges + 1 })
                      >>= scan f t signal budget profile rounds (a + 1) current
                ])) [
                  | none ↦ IsFuelled-ok _
                  | some edge ↦
                      IsFuelled->>= _ _ (relax-IsFuelled current a edge _)
                        (λ s' _. scan-IsFuelled rounds (a + 1) current s')
                ])))
    ])
  ]

  pub scan-Grows :
      (rounds a : ℕ) (current : FrontierEntry) (s s' : Search)
      → scan f t signal budget profile rounds a current s ≡ ok (more s')
      → Grows rounds s s'
  unfolding scan polled
  scan-Grows zero a current s s' h =
      let p : s ≡ s' = cc h in rw (sym p) (record { frontier_le = omega arith; same = refl })
  scan-Grows (suc rounds) a current s s' h = elim (Bool-cases (signal s.clock)) [
    | inl seen ↦ absurd (cc (rw seen at h))
    | inr unseen ↦ elim (Bool-cases (permits budget s.examined_edges)) [
      | inr spent ↦ absurd (cc (rw (unseen, spent) at h))
      | inl left ↦
          let (_, _, h1) =
            >>=-eq-ok
              (guard (ltb (s.examined_edges + 1) u64_bound)
                (internal_invariant Request.examined_counter_overflow))
              _ (rw (unseen, left) at h) in
          let (found, _, h2) = >>=-eq-ok (t.edge_at a (s.clock + 1)) _ h1 in
          elim (Option-cases found) [
            | inl unread ↦ absurd (cc (rw unread at h2))
            | inr (edge, read) ↦
                let (s1, relaxed, h3) =
                  >>=-eq-ok
                    (relax f t.node_count profile current a edge
                      (record (polled s) { examined_edges = s.examined_edges + 1 }))
                    _ (rw read at h2) in
                let g = relax-Grows current a edge _ s1 relaxed in
                let r = scan-Grows rounds (a + 1) current s1 s' h3 in
                record {
                  frontier_le = omega (arith, g.frontier_le, r.frontier_le);
                  same = r.same ∙ g.same;
                }
          ]
    ]
  ]
