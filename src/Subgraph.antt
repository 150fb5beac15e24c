-- ===== src/Subgraph.antt =====
-- crates/pathhydra-subgraph/src/subgraph.rs: a caller's collection of node and edge handles. A
-- `BTreeSet` is a map to the unit type. An error leaves the collection as it was, since each
-- operation returns it before its first change, so an error carries no collection.
pub mod Keeps
pub mod Edges
pub mod Paths
pub mod Unions
use path_hydra.Common.{
  ℕ, Bool, true, false, not, ◌||◌, ◌&&◌, ◌==◌, if◌then◌else◌, Option, none, some, List, [], ◌∷◌,
  map, lookup, insert, retain, length, Result, ok, err, ◌>>=◌, ◌>>◌, guard,
}
use path_hydra.Core.{NodeId, EdgeId, EdgeRecord}
use path_hydra.Routing.Request.{PathStep, RoutePath}

-- The `reason` texts of `SubgraphError::InvalidPath`.
pub data InvalidReason : Type 0 where
  no_steps wrong_start wrong_end discontinuous : InvalidReason

-- The fields of a conflict are the edge, the existing and the proposed endpoints.
pub data SubgraphError : Type 0 where
  edge_identity_conflict : EdgeId → NodeId → NodeId → NodeId → NodeId → SubgraphError
  invalid_path : InvalidReason → SubgraphError

pub record Subgraph : Type 0 where
  pub nodes : List (NodeId × Unit {0})
  pub edges : List (EdgeId × (NodeId × NodeId))

unfoldable pub empty : Subgraph
empty = record { nodes = []; edges = [] }

is_some {ℓ} : {A : Type ℓ} → Option A → Bool
is_some none = false
is_some (some _) = true

unfoldable pub contains_node : Subgraph → NodeId → Bool
unfolding is_some
contains_node g node = is_some (lookup g.nodes node)

unfoldable pub contains_edge : Subgraph → EdgeId → Bool
unfolding is_some
contains_edge g edge = is_some (lookup g.edges edge)

unfoldable pub insert_node : Subgraph → NodeId → Subgraph
insert_node g node = record g { nodes = insert g.nodes node tt }

-- The Boolean is whether the node is new.
unfoldable pub add_node : Subgraph → NodeId → Subgraph × Bool
unfolding insert_node
add_node g node = (insert_node g node, not (contains_node g node))

check_endpoints :
    EdgeId → NodeId → NodeId → Option (NodeId × NodeId) → Result SubgraphError (Unit {0})
check_endpoints edge source destination none = ok tt
check_endpoints edge source destination (some (existing_source, existing_destination)) =
    guard (existing_source == source && existing_destination == destination)
      (edge_identity_conflict edge existing_source existing_destination source destination)

unfoldable pub validate_edge : Subgraph → EdgeId → NodeId → NodeId → Result SubgraphError (Unit {0})
unfolding check_endpoints
validate_edge g edge source destination =
    check_endpoints edge source destination (lookup g.edges edge)

-- `edges.insert(edge, ...)`, then `nodes.insert` of both endpoints.
unfoldable pub insert_edge : Subgraph → EdgeId → NodeId → NodeId → Subgraph
unfolding insert_node
insert_edge g edge source destination =
    insert_node
      (insert_node (record g { edges = insert g.edges edge (source, destination) }) source)
      destination

unfoldable pub add_edge :
    Subgraph → EdgeId → NodeId → NodeId → Result SubgraphError (Subgraph × Bool)
add_edge g edge source destination = do
  validate_edge g edge source destination
  ok (insert_edge g edge source destination, not (contains_edge g edge))

unfoldable pub add_edge_record : Subgraph → EdgeRecord → Result SubgraphError (Subgraph × Bool)
unfolding add_edge
add_edge_record g edge = add_edge g edge.id edge.source edge.destination

starts_at : NodeId → List PathStep → Bool
starts_at origin [] = true
starts_at origin (first ∷ _) = first.source == origin

ends_at : NodeId → List PathStep → Bool
ends_at destination [] = true
ends_at destination (last ∷ []) = last.destination == destination
ends_at destination (_ ∷ step ∷ steps) = ends_at destination (step ∷ steps)

-- No pair of `windows(2)` has endpoints that differ.
is_continuous : List PathStep → Bool
is_continuous [] = true
is_continuous (_ ∷ []) = true
is_continuous (first ∷ second ∷ steps) =
    first.destination == second.source && is_continuous (second ∷ steps)

is_nontrivial : RoutePath → Bool
is_nontrivial path = elim path.steps [ [] ↦ not (path.origin == path.destination) | _ ∷ _ ↦ false ]

unfoldable pub validate_path : RoutePath → Result SubgraphError (Unit {0})
unfolding is_nontrivial starts_at ends_at is_continuous
validate_path path = do
  guard (not (is_nontrivial path)) (invalid_path no_steps)
  guard (starts_at path.origin path.steps) (invalid_path wrong_start)
  guard (ends_at path.destination path.steps) (invalid_path wrong_end)
  guard (is_continuous path.steps) (invalid_path discontinuous)

unfoldable pub validate_steps : Subgraph → List PathStep → Result SubgraphError (Unit {0})
validate_steps g [] = ok tt
validate_steps g (step ∷ steps) = do
  validate_edge g step.edge_id step.source step.destination
  validate_steps g steps

unfoldable pub insert_steps : Subgraph → List PathStep → Subgraph
insert_steps g [] = g
insert_steps g (step ∷ steps) =
    insert_steps (insert_edge g step.edge_id step.source step.destination) steps

unfoldable pub add_path : Subgraph → RoutePath → Result SubgraphError Subgraph
unfolding validate_path validate_steps insert_steps
add_path g path = do
  validate_path path
  validate_steps g path.steps
  ok (insert_steps (insert_node g path.origin) path.steps)

unfoldable pub validate_edges :
    Subgraph → List (EdgeId × (NodeId × NodeId)) → Result SubgraphError (Unit {0})
validate_edges g [] = ok tt
validate_edges g ((edge, (source, destination)) ∷ edges) = do
  validate_edge g edge source destination
  validate_edges g edges

-- `BTreeMap::extend` and `BTreeSet::extend`
unfoldable pub extend : {V : Type 0} → List (ℕ × V) → List (ℕ × V) → List (ℕ × V)
extend m [] = m
extend m ((key, value) ∷ entries) = extend (insert m key value) entries

unfoldable pub union : Subgraph → Subgraph → Result SubgraphError Subgraph
unfolding validate_edges extend
union g other = do
  validate_edges g other.edges
  ok (record { nodes = extend g.nodes other.nodes; edges = extend g.edges other.edges })

unfoldable pub remove_edge : Subgraph → EdgeId → Subgraph × Bool
remove_edge g edge =
    (record g { edges = retain (λ k _. not (k == edge)) g.edges }, contains_edge g edge)

unfoldable pub remove_node : Subgraph → NodeId → Subgraph × Bool
remove_node g node = (
  record {
    nodes = retain (λ k _. not (k == node)) g.nodes;
    edges =
        retain (λ _ (source, destination). not (source == node) && not (destination == node))
          g.edges;
  },
  contains_node g node,
)

pub record EdgeHandle : Type 0 where
  pub edge_id : EdgeId
  pub source : NodeId
  pub destination : NodeId

pub record SubgraphHandles : Type 0 where
  pub nodes : List NodeId
  pub edges : List EdgeHandle

edge_handle : EdgeId × (NodeId × NodeId) → EdgeHandle
edge_handle (id, (source, destination)) = record {
  edge_id = id;
  source = source;
  destination = destination;
}

unfoldable pub handles : Subgraph → SubgraphHandles
unfolding edge_handle
handles g = record { nodes = map (λ n. n.0) g.nodes; edges = map edge_handle g.edges }

unfoldable pub node_count : Subgraph → ℕ
node_count g = length g.nodes

unfoldable pub edge_count : Subgraph → ℕ
edge_count g = length g.edges
