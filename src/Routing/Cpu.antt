-- ===== src/Routing/Cpu.antt =====
-- crates/pathhydra-routing/src/cpu.rs: the search loop of `route_topology_controlled`.
-- A vector with an entry for each dense node is a function on the dense nodes. The destination of
-- an edge, the one index that the topology's data decides, is tested as the slice index does; the
-- other indices are dense nodes from `dense_node_id`, or were tested when they entered the
-- frontier. Memory is reserved without failure, and elapsed times are not modelled.
pub mod Frontier
pub mod Path
pub mod Route
pub mod Walk
pub mod Pending
pub mod Exact
pub mod Results
pub mod Guarantees
pub mod Fuel
pub mod Budget
pub mod Invariant
use path_hydra.Common.{
  ℕ, zero, suc, ◌+◌, ◌-◌, max, Bool, true, false, not, ◌||◌, ◌&&◌, ltb, ◌==◌, if◌then◌else◌, Option,
  none, some, List, [], ◌∷◌, length, Result, ok, err, ◌>>=◌, ◌>>◌, guard, ok_or,
}
use path_hydra.Core.{saturating_suc}
use path_hydra.Core.{EdgeId, u64_bound}
use path_hydra.Core.Weight.{BaseWeight}
use path_hydra.Routing.Float64.{Float64, is_finite}
use path_hydra.Routing.Profile.{
  RelationMultiplier, RelationUse, disabled, enabled, PackedRelationProfile, relation_use_index,
}
use path_hydra.Routing.Request
use path_hydra.Routing.Request.{
  RoutingError, arithmetic, internal_invariant, index_out_of_bounds, out_of_fuel,
  ArithmeticOperation, CompletionReason, SearchBudget, permits,
}
use path_hydra.Routing.Topology.{RoutingTopology, OutgoingEdge}
use Frontier.{FrontierEntry, push_frontier}

-- A vector, changed at one index.
abbrev pub update {ℓ} : {A : Type ℓ} → (ℕ → A) → ℕ → A → ℕ → A
update f i v j = if i == j then v else f j

pub record Predecessor : Type 0 where
  pub source : ℕ
  pub edge : EdgeId
  pub adjacency : ℕ

-- The local variables of the search, with the clock of the cancellation signal.
pub record Search : Type 0 where
  pub pending : ℕ → Bool
  pub pending_count : ℕ
  pub distances : ℕ → Option ℕ
  pub finalized : ℕ → Bool
  pub predecessors : Option (ℕ → Option Predecessor)
  pub frontier : List FrontierEntry
  pub examined_edges : ℕ
  pub finalized_nodes : ℕ
  pub relaxation_updates : ℕ
  pub frontier_high_water_mark : ℕ
  pub clock : ℕ

-- How a part of the loop ends: it goes on, or it leaves the loop with a reason.
pub data Flow : Type 0 where
  more : Search → Flow
  stop : CompletionReason → Search → Flow

unfoldable pub set_predecessor :
    Option (ℕ → Option Predecessor) → ℕ → Predecessor → Option (ℕ → Option Predecessor)
set_predecessor none destination p = none
set_predecessor (some predecessors) destination p = some (update predecessors destination (some p))

-- The body of `candidate < existing`, and of a first distance.
unfoldable pub lower : ℕ → ℕ → Predecessor → Search → Search
unfolding set_predecessor saturating_suc push_frontier
lower candidate destination p s =
    let frontier = push_frontier s.frontier candidate destination in
    record s {
      distances = update s.distances destination (some candidate);
      predecessors = set_predecessor s.predecessors destination p;
      frontier = frontier;
      relaxation_updates = saturating_suc s.relaxation_updates;
      frontier_high_water_mark = max s.frontier_high_water_mark (length frontier);
    }

-- `(current.node, edge.edge_id()) < (old.source, old.edge)`
unfoldable pub precedes : Predecessor → Option Predecessor → Bool
precedes p none = true
precedes p (some old) = ltb p.source old.source || p.source == old.source && ltb p.edge old.edge

unfoldable pub break_tie :
    Option (ℕ → Option Predecessor) → ℕ → Predecessor → Option (ℕ → Option Predecessor)
unfolding precedes
break_tie none destination p = none
break_tie (some predecessors) destination p = some (
    if precedes p (predecessors destination)
    then update predecessors destination (some p)
    else predecessors)

-- The match on `distances[destination_index]`.
unfoldable pub improve : Option ℕ → ℕ → ℕ → Predecessor → Search → Search
unfolding lower break_tie
improve none candidate destination p s = lower candidate destination p s
improve (some existing) candidate destination p s =
    if ltb candidate existing
    then lower candidate destination p s
    else if candidate == existing
    then record s { predecessors = break_tie s.predecessors destination p }
    else s

unfoldable pub polled : Search → Search
polled s = record s { clock = s.clock + 1 }

-- Whether the popped entry is out of date.
unfoldable pub is_stale : FrontierEntry → Search → Bool
is_stale current s =
    s.finalized current.node
    || not (elim (s.distances current.node) [ none ↦ false | some d ↦ d == current.distance ])

-- `finalized[index] = true`, and the membership and the count of the destinations.
unfoldable pub mark : ℕ → Search → Search
mark node s = record s {
  finalized = update s.finalized node true;
  finalized_nodes = s.finalized_nodes + 1;
  pending = update s.pending node false;
  pending_count = if s.pending node then s.pending_count - 1 else s.pending_count;
}

module _ (f : Float64) where
  unfoldable pub effective_weight : BaseWeight → RelationMultiplier → Result RoutingError ℕ
  effective_weight base_weight multiplier =
      let effective = f.multiply (f.widen base_weight.bits) (f.widen multiplier.bits) in
      if is_finite effective
      then ok effective
      else err (arithmetic ArithmeticOperation.effective_weight)

  unfoldable pub accumulate_distance : ℕ → ℕ → Result RoutingError ℕ
  accumulate_distance current effective =
      let candidate = f.add current effective in
      if is_finite candidate
      then ok candidate
      else err (arithmetic ArithmeticOperation.path_addition)

-- One round of the loop over the outgoing edges, once the edge is read.
module _ (f : Float64) (node_count : ℕ) where
  unfoldable pub relax_enabled :
      FrontierEntry → ℕ → OutgoingEdge → RelationMultiplier → Search → Result RoutingError Search
  relax_enabled current adjacency edge multiplier s = do
    guard (ltb edge.destination node_count) index_out_of_bounds
    if s.finalized edge.destination then ok s else do
      effective ← effective_weight f edge.base_weight multiplier
      candidate ← accumulate_distance f current.distance effective
      ok (
          improve (s.distances edge.destination) candidate edge.destination
            (record { source = current.node; edge = edge.edge_id; adjacency = adjacency }) s)

  unfoldable pub relax_use :
      FrontierEntry → ℕ → OutgoingEdge → RelationUse → Search → Result RoutingError Search
  relax_use current adjacency edge disabled s = ok s
  relax_use current adjacency edge (enabled multiplier) s =
      relax_enabled current adjacency edge multiplier s

  unfoldable pub relax :
      PackedRelationProfile → FrontierEntry → ℕ → OutgoingEdge → Search → Result RoutingError Search
  unfolding relax_use relax_enabled relation_use_index
  relax profile current adjacency edge s = do
    relation_use ←
        ok_or (relation_use_index profile edge.relation_index)
          (internal_invariant Request.edge_relation_not_packed)
    relax_use current adjacency edge relation_use s

module _ (f : Float64) (t : RoutingTopology) (signal : ℕ → Bool) (budget : SearchBudget)
    (profile : PackedRelationProfile) where
  -- The loop over `rounds` outgoing edges from `adjacency` on.
  unfoldable pub scan : ℕ → ℕ → FrontierEntry → Search → Result RoutingError Flow
  scan zero adjacency current s = ok (more s)
  scan (suc rounds) adjacency current s =
      if signal s.clock
      then ok (stop CompletionReason.cancelled (polled s))
      else if not (permits budget s.examined_edges)
      then ok (stop CompletionReason.budget_exhausted (polled s))
      else do
        guard (ltb (s.examined_edges + 1) u64_bound)
            (internal_invariant Request.examined_counter_overflow)
        let s' = record (polled s) { examined_edges = s.examined_edges + 1 }
        found ← t.edge_at adjacency s'.clock
        elim found [
          | none ↦ ok (stop CompletionReason.cancelled s')
          | some edge ↦
              relax f t.node_count profile current adjacency edge s'
              >>= scan rounds (adjacency + 1) current
        ]

  -- The current node is final: stop, or scan its edges.
  unfoldable pub expand : FrontierEntry → Search → Result RoutingError Flow
  unfolding mark
  expand current s = do
    guard (ltb (s.finalized_nodes + 1) u64_bound)
        (internal_invariant Request.finalized_counter_overflow)
    let s' = mark current.node s
    if s'.pending_count == 0
        then ok (stop CompletionReason.all_destinations_finalized s')
        else do (start, end) ← t.outgoing_range current.node; scan (end - start) start current s'

  unfoldable pub visit : FrontierEntry → Search → Result RoutingError Flow
  visit current s =
      if is_stale current s
      then ok (more s)
      else if signal s.clock
      then ok (stop CompletionReason.cancelled (polled s))
      else expand current (polled s)

  -- One round of `'search: loop`. The frontier is kept in the order in which it is popped.
  unfoldable pub iterate : Search → Result RoutingError Flow
  iterate s = elim s.frontier [
    | [] ↦ ok (stop CompletionReason.frontier_exhausted s)
    | current ∷ rest ↦ visit current (record s { frontier = rest })
  ]

  unfoldable pub search : ℕ → Search → Result RoutingError (CompletionReason × Search)
  search zero s = err out_of_fuel
  search (suc fuel) s = do
    flow ← iterate s
    elim flow [ stop reason s' ↦ ok (reason, s') | more s' ↦ search fuel s' ]
