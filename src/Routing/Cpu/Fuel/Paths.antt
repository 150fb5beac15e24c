-- ===== src/Routing/Cpu/Fuel/Paths.antt =====
-- The reconstruction of a path ends: each round adds a step, and the cycle test stops at as many
-- steps as nodes.
use path_hydra.Common.{
  ℕ, zero, suc, ◌+◌, ◌≤◌, ◌<◌, ◌≡◌, inl, inr, leb, ltb, ◌==◌, ◌||◌, ◌&&◌, Bool, true, false, not,
  ok, none, some, List, [], ◌∷◌, length, Option, guard, Bool-cases, Option-cases, arith,
}
use path_hydra.Core.{saturating_suc}
use path_hydra.Core.{NodeId}
use path_hydra.Routing.Float64.{Float64}
use path_hydra.Routing.Profile.{
  RelationUse, disabled, enabled, PackedRelationProfile, relation_use_index,
}
use path_hydra.Routing.Request
use path_hydra.Routing.Request.{internal_invariant, PathStep}
use path_hydra.Routing.Topology.{RoutingTopology, OutgoingEdge}
use path_hydra.Routing.Cpu.{update, Predecessor}
use path_hydra.Routing.Cpu.Path.{
  used_multiplier, sum_steps, path_step, predecessor_edge, walk_back, check_sum, reconstruct_path,
}
use path_hydra.Routing.Cpu.Fuel.{
  IsFuelled, IsFuelled->>=, IsFuelled-ok, IsFuelled-require, IsFuelled-found, IsBounded,
}
use path_hydra.Routing.Cpu.Fuel.Growth.{effective_weight-IsFuelled, accumulate_distance-IsFuelled}

module _ (f : Float64) where
  sum_steps-IsFuelled : (sum : ℕ) (steps : List PathStep) → IsFuelled (sum_steps f sum steps)
  unfolding sum_steps
  sum_steps-IsFuelled sum [] = IsFuelled-ok sum
  sum_steps-IsFuelled sum (step ∷ steps) =
      IsFuelled->>= _ _ (accumulate_distance-IsFuelled f sum step.effective_weight)
        (λ next _. sum_steps-IsFuelled next steps)

used_multiplier-IsFuelled : (u : Option RelationUse) → IsFuelled (used_multiplier u)
unfolding used_multiplier
used_multiplier-IsFuelled none = λ p. cc p
used_multiplier-IsFuelled (some disabled) = λ p. cc p
used_multiplier-IsFuelled (some (enabled m)) = IsFuelled-ok m

module _ (f : Float64) (t : RoutingTopology) (signal : ℕ → Bool) (profile : PackedRelationProfile)
    (predecessors : ℕ → Option Predecessor) (bounded : IsBounded t) where
  path_step-IsFuelled :
      (current : ℕ) (p : Predecessor) (edge : OutgoingEdge)
      → IsFuelled (path_step f t signal profile predecessors current p edge)
  unfolding path_step
  path_step-IsFuelled current p edge =
      IsFuelled->>= _ _
        (IsFuelled-require (edge.edge_id == p.edge && edge.destination == current)
          Request.predecessor_disagrees)
        (λ _ _.
          IsFuelled->>= _ _
            (used_multiplier-IsFuelled (relation_use_index profile edge.relation_index))
            (λ m _. IsFuelled->>= _ _ (effective_weight-IsFuelled f edge.base_weight m) (λ w _.
              IsFuelled->>= _ _
                (IsFuelled-found (t.external_node_id p.source) Request.path_source_unknown)
                (λ a _.
                  IsFuelled->>= _ _
                    (IsFuelled-found (t.external_node_id current) Request.path_destination_unknown)
                    (λ b _. IsFuelled-ok _)))))

  predecessor_edge-IsFuelled :
      (current clock : ℕ)
      → IsFuelled (predecessor_edge f t signal profile predecessors current clock)
  unfolding predecessor_edge
  predecessor_edge-IsFuelled current clock =
      IsFuelled->>= _ _ (IsFuelled-found (predecessors current) Request.missing_predecessor) (λ p _.
        IsFuelled->>= _ _ (bounded.range-IsFuelled p.source) (λ (start, end) _.
          IsFuelled->>= _ _
            (IsFuelled-require (leb start p.adjacency && ltb p.adjacency end)
              Request.predecessor_outside_range)
            (λ _ _.
              IsFuelled->>= _ _ (bounded.edge-IsFuelled p.adjacency clock)
                (λ found _. IsFuelled-ok _))))

  walk_back-IsFuelled :
      (fuel origin current : ℕ) (visited : ℕ → Bool) (steps : List PathStep) (clock count : ℕ)
      → length steps ≤ t.node_count
      → t.node_count < fuel + length steps
      → IsFuelled
          (walk_back f t signal profile predecessors fuel origin current visited steps clock count)
  unfolding walk_back
  walk_back-IsFuelled zero origin current visited steps clock count low high = absurd (omega arith)
  walk_back-IsFuelled (suc fuel) origin current visited steps clock count low high =
      elim (Bool-cases (current == origin)) [
        | inl home ↦ rw home (IsFuelled-ok _)
        | inr away ↦ rw away (elim (Bool-cases (signal clock)) [
          | inl seen ↦ rw seen (IsFuelled-ok _)
          | inr unseen ↦ rw unseen (
              IsFuelled->>= _ _
                (IsFuelled-require (not (visited current || leb t.node_count (length steps)))
                  Request.predecessor_cycle)
                (λ _ passed.
                  IsFuelled->>= _ _ (predecessor_edge-IsFuelled current (clock + 1))
                    (λ (p, found) _. elim (Option-cases found) [
                      | inl unread ↦ rw unread (IsFuelled-ok _)
                      | inr (edge, read) ↦ rw read (
                          IsFuelled->>= _ _ (path_step-IsFuelled current p edge) (λ step _.
                            walk_back-IsFuelled fuel origin p.source (update visited current true)
                              (step ∷ steps) (clock + 1) (saturating_suc count) (room passed)
                              (omega arith)))
                    ])))
        ])
      ]
    where
      room :
          guard
              (not (visited current || leb t.node_count (length steps)))
              (internal_invariant Request.predecessor_cycle)
            ≡ ok tt
          → suc (length steps) ≤ t.node_count
      room h = ground arith

  check_sum-IsFuelled :
      (a b : NodeId) (distance : ℕ) (steps : List PathStep)
      → IsFuelled (check_sum f t signal profile predecessors a b distance steps)
  unfolding check_sum
  check_sum-IsFuelled a b distance steps =
      IsFuelled->>= _ _ (sum_steps-IsFuelled f 0 steps) (λ summed _.
        IsFuelled->>= _ _ (IsFuelled-require (summed == distance) Request.path_distance_disagrees)
          (λ _ _. IsFuelled-ok _))

  pub reconstruct_path-IsFuelled :
      (a : NodeId) (origin : ℕ) (b : NodeId) (destination distance clock count : ℕ)
      → IsFuelled (
          reconstruct_path f t signal profile predecessors a origin b destination distance clock
            count)
  unfolding reconstruct_path
  reconstruct_path-IsFuelled a origin b destination distance clock count =
      elim (Bool-cases (origin == destination)) [
        | inl home ↦ rw home (IsFuelled-ok _)
        | inr away ↦ rw away (
            IsFuelled->>= _ _
              (walk_back-IsFuelled (suc (suc t.node_count)) origin destination (λ _. false) [] clock
                count (omega arith) (omega arith))
              (λ traced _. elim (Option-cases traced.found) [
                | inl missing ↦ rw missing (IsFuelled-ok _)
                | inr (steps, found) ↦ rw found (
                    IsFuelled->>= _ _ (check_sum-IsFuelled a b distance steps)
                      (λ path _. IsFuelled-ok _))
              ]))
      ]
