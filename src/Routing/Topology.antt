-- ===== src/Routing/Topology.antt =====
-- The trait `RoutingTopology` of crates/pathhydra-routing/src/cpu.rs: what the search asks of an
-- image, with what it relies on. A cancellation signal is the sequence of the answers to its polls;
-- the clock of a read is the number of polls before it.
use path_hydra.Common.{ℕ, ◌≤◌, ◌<◌, ◌≡◌, Option, some, List, Result, ok}
use path_hydra.Core.{NodeId, EdgeId, RelationId}
use path_hydra.Core.Weight.{BaseWeight}
use path_hydra.Core.Float32.{one_bits}
use path_hydra.Routing.Request.{RoutingError}

-- `OutgoingEdge` of image.rs; `destination` is a dense node.
pub record OutgoingEdge : Type 0 where
  pub edge_id : EdgeId
  pub destination : ℕ
  pub relation_id : RelationId
  pub base_weight : BaseWeight
  pub relation_index : ℕ

pub record RoutingTopology : Type 0 where
  pub node_count : ℕ
  pub relation_kind_count : ℕ
  pub adjacency_count : ℕ
  pub dense_node_id : NodeId → Option ℕ
  pub external_node_id : ℕ → Option NodeId
  pub relation_ids : List RelationId
  pub outgoing_range : ℕ → Result RoutingError (ℕ × ℕ)
  pub edge_at : ℕ → ℕ → Result RoutingError (Option OutgoingEdge)

-- A dense node is a valid index, weights are canonical, and a read, if it is made, gives the same
-- edge at every clock.
pub record IsLawful (t : RoutingTopology) : Type 0 where
  pub dense_lt : (id d : ℕ) → t.dense_node_id id ≡ some d → d < t.node_count
  pub destination_lt :
      (i c : ℕ) (e : OutgoingEdge) → t.edge_at i c ≡ ok (some e) → e.destination < t.node_count
  pub weight_le :
      (i c : ℕ) (e : OutgoingEdge) → t.edge_at i c ≡ ok (some e) → e.base_weight.bits ≤ one_bits
  pub stable :
      (i c d : ℕ) (e f : OutgoingEdge)
      → t.edge_at i c ≡ ok (some e)
      → t.edge_at i d ≡ ok (some f)
      → e ≡ f
