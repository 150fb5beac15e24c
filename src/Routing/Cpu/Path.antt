-- ===== src/Routing/Cpu/Path.antt =====
-- `reconstruct_path` of crates/pathhydra-routing/src/cpu.rs: the steps of a route, read backwards
-- along the predecessors. The vector `reversed` is kept with its last entry first.
use path_hydra.Common.{
  ℕ, zero, suc, ◌+◌, Bool, true, false, not, ◌||◌, ◌&&◌, ltb, leb, ◌==◌, if◌then◌else◌, Option,
  none, some, List, [], ◌∷◌, length, Result, ok, err, ◌>>=◌, ◌>>◌, guard, ok_or,
}
use path_hydra.Core.{saturating_suc}
use path_hydra.Core.{NodeId}
use path_hydra.Routing.Float64.{Float64}
use path_hydra.Routing.Profile.{
  RelationMultiplier, RelationUse, disabled, enabled, PackedRelationProfile, relation_use_index,
}
use path_hydra.Routing.Request
use path_hydra.Routing.Request.{RoutingError, internal_invariant, out_of_fuel, PathStep, RoutePath}
use path_hydra.Routing.Topology.{RoutingTopology, OutgoingEdge}
use path_hydra.Routing.Cpu.{update, Predecessor, effective_weight, accumulate_distance}

-- `None` where the signal was seen; the clock and the counter of steps go on in both cases.
pub record Traced {ℓ} (A : Type ℓ) : Type ℓ where
  pub found : Option A
  pub clock : ℕ
  pub steps : ℕ

unfoldable pub used_multiplier : Option RelationUse → Result RoutingError RelationMultiplier
used_multiplier none = err (internal_invariant Request.path_relation_not_packed)
used_multiplier (some disabled) = err (internal_invariant Request.path_relation_disabled)
used_multiplier (some (enabled multiplier)) = ok multiplier

module _ (f : Float64) where
  -- `try_fold(0.0, ...)` over the effective weights.
  unfoldable pub sum_steps : ℕ → List PathStep → Result RoutingError ℕ
  sum_steps sum [] = ok sum
  sum_steps sum (step ∷ steps) = do
    next ← accumulate_distance f sum step.effective_weight
    sum_steps next steps

module _ (f : Float64) (t : RoutingTopology) (signal : ℕ → Bool) (profile : PackedRelationProfile)
    (predecessors : ℕ → Option Predecessor) where
  -- The checks on one predecessor edge, and the step that it gives.
  unfoldable pub path_step : ℕ → Predecessor → OutgoingEdge → Result RoutingError PathStep
  unfolding relation_use_index used_multiplier
  path_step current p edge = do
    guard (edge.edge_id == p.edge && edge.destination == current)
        (internal_invariant Request.predecessor_disagrees)
    multiplier ← used_multiplier (relation_use_index profile edge.relation_index)
    effective ← effective_weight f edge.base_weight multiplier
    source ← ok_or (t.external_node_id p.source) (internal_invariant Request.path_source_unknown)
    destination ←
        ok_or (t.external_node_id current) (internal_invariant Request.path_destination_unknown)
    ok (record {
      edge_id = edge.edge_id;
      source = source;
      destination = destination;
      relation_id = edge.relation_id;
      base_weight = edge.base_weight;
      multiplier = multiplier;
      effective_weight = effective;
    })

  -- The edge behind the predecessor of `current`, if the read is made.
  unfoldable pub predecessor_edge : ℕ → ℕ → Result RoutingError (Predecessor × Option OutgoingEdge)
  predecessor_edge current clock = do
    p ← ok_or (predecessors current) (internal_invariant Request.missing_predecessor)
    (start, end) ← t.outgoing_range p.source
    guard (leb start p.adjacency && ltb p.adjacency end)
        (internal_invariant Request.predecessor_outside_range)
    found ← t.edge_at p.adjacency clock
    ok (p, found)

  -- `while current != origin`. The cycle test stops it within `node_count` rounds.
  unfoldable pub walk_back :
      ℕ → ℕ → ℕ → (ℕ → Bool) → List PathStep → ℕ → ℕ → Result RoutingError (Traced (List PathStep))
  walk_back zero origin current visited steps clock count = err out_of_fuel
  walk_back (suc fuel) origin current visited steps clock count =
      if current == origin
      then ok (record { found = some steps; clock = clock; steps = count })
      else if signal clock
      then ok (record { found = none; clock = clock + 1; steps = count })
      else do
        guard (not (visited current || leb t.node_count (length steps)))
            (internal_invariant Request.predecessor_cycle)
        (p, found) ← predecessor_edge current (clock + 1)
        elim found [
          | none ↦ ok (record { found = none; clock = clock + 1; steps = count })
          | some edge ↦ path_step current p edge >>= λ step.
              walk_back fuel origin p.source (update visited current true) (step ∷ steps)
                (clock + 1) (saturating_suc count)
        ]

  unfoldable pub check_sum : NodeId → NodeId → ℕ → List PathStep → Result RoutingError RoutePath
  check_sum external_origin external_destination distance steps = do
    summed ← sum_steps f 0 steps
    guard (summed == distance) (internal_invariant Request.path_distance_disagrees)
    ok (record {
      origin = external_origin;
      destination = external_destination;
      logical_distance = distance;
      steps = steps;
    })

  unfoldable pub reconstruct_path :
      NodeId → ℕ → NodeId → ℕ → ℕ → ℕ → ℕ → Result RoutingError (Traced RoutePath)
  unfolding check_sum
  reconstruct_path external_origin origin external_destination destination distance clock count =
      if origin == destination
      then ok (record {
        found = some (record {
          origin = external_origin;
          destination = external_destination;
          logical_distance = distance;
          steps = [];
        });
        clock = clock;
        steps = count;
      })
      else do
        traced ← walk_back (suc (suc t.node_count)) origin destination (λ _. false) [] clock count
        elim traced.found [
          | none ↦ ok (record { found = none; clock = traced.clock; steps = traced.steps })
          | some steps ↦ do
            path ← check_sum external_origin external_destination distance steps
            ok (record { found = some path; clock = traced.clock; steps = traced.steps })
        ]
