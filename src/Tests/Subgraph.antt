-- ===== src/Tests/Subgraph.antt =====
-- Instances for crates/pathhydra-subgraph: two subgraphs that share the node 2.
use path_hydra.Common.{
  ◌≡◌, ◌≢◌, ◌⊎◌, ◌↔◌, refl, true, false, none, some, if◌then◌else◌, ◌==◌, [], ◌∷◌, not, Has, ok,
  err,
}
use path_hydra.Common.Keyed.{lookup, insert}
use path_hydra.Core.{NodeId, EdgeId}
use path_hydra.Routing.Request.{PathStep, RoutePath}
use path_hydra.Subgraph.{
  Subgraph, edge_identity_conflict, empty, insert_node, insert_edge, add_edge, add_path, union,
  remove_node, contains_node, contains_edge, validate_edge, validate_edges, validate_path,
  validate_steps, insert_steps, extend,
}
use path_hydra.Subgraph.Keeps.{
  IsWellFormed, Reachable, created, with_edge, united, Reachable-IsWellFormed,
}
use path_hydra.Subgraph.Edges.{Fits, add_edge_lem, remove_node_lem}
use path_hydra.Subgraph.Unions.{or_else, union_comm}
use path_hydra.Subgraph.Paths.{IsChain, add_path_lem}

abbrev left : Subgraph
left = record { nodes = (1, tt) ∷ (2, tt) ∷ []; edges = (7, (1, 2)) ∷ [] }

abbrev right : Subgraph
right = record { nodes = (2, tt) ∷ (3, tt) ∷ []; edges = (5, (2, 3)) ∷ [] }

abbrev both : Subgraph
both = record { nodes = (1, tt) ∷ (2, tt) ∷ (3, tt) ∷ []; edges = (5, (2, 3)) ∷ (7, (1, 2)) ∷ [] }

left_made : add_edge empty 7 1 2 ≡ ok (left, true)
unfolding add_edge validate_edge insert_edge insert_node insert lookup contains_edge empty
left_made = refl

right_made : add_edge empty 5 2 3 ≡ ok (right, true)
unfolding add_edge validate_edge insert_edge insert_node insert lookup contains_edge empty
right_made = refl

left-Reachable : Reachable left
left-Reachable = with_edge empty left 7 1 2 true created left_made

Reachable-IsWellFormed_example : IsWellFormed left
Reachable-IsWellFormed_example = Reachable-IsWellFormed left left-Reachable

right-Reachable : Reachable right
right-Reachable = with_edge empty right 5 2 3 true created right_made

left-IsWellFormed : IsWellFormed left
left-IsWellFormed = Reachable-IsWellFormed left left-Reachable

right-IsWellFormed : IsWellFormed right
right-IsWellFormed = Reachable-IsWellFormed right right-Reachable

sides_united : union left right ≡ ok both
unfolding union validate_edges validate_edge extend insert lookup
sides_united = refl

union_comm_example :
    (union right left ≡ ok both)
    × ((edge : EdgeId)
        → lookup both.edges edge ≡ or_else (lookup left.edges edge) (lookup right.edges edge))
union_comm_example = union_comm left right both left-IsWellFormed right-IsWellFormed sides_united

-- The edge 7 is present, with other endpoints.
add_edge_lem_example :
    (Fits left 7 1 9
      × ((h : Subgraph) × (add_edge left 7 1 9 ≡ ok (h, not (contains_edge left 7)))
          × ((other : EdgeId)
              → lookup h.edges other
                ≡ (if 7 == other then some (1, 9) else lookup left.edges other))))
    ⊎ ((s : NodeId) × (d : NodeId) × (lookup left.edges 7 ≡ some (s, d))
        × (¬ Fits left 7 1 9)
        × (add_edge left 7 1 9 ≡ err (edge_identity_conflict 7 s d 1 9)))
add_edge_lem_example = add_edge_lem left 7 1 9

remove_node_lem_example :
    (contains_node (remove_node both 3).0 3 ≡ false)
    × ((edge : EdgeId) (source destination : NodeId)
        → (lookup (remove_node both 3).0.edges edge ≡ some (source, destination)) ↔ (
            (lookup both.edges edge ≡ some (source, destination))
            × (source ≢ 3)
            × (destination ≢ 3)))
remove_node_lem_example = remove_node_lem both 3 (
    Reachable-IsWellFormed both
      (united left right both left-Reachable right-Reachable sides_united))

abbrev step_of : EdgeId → NodeId → NodeId → PathStep
step_of edge source destination = record {
  edge_id = edge;
  source = source;
  destination = destination;
  relation_id = 0;
  base_weight = record { bits = 0 };
  multiplier = record { bits = 0 };
  effective_weight = 0;
}

abbrev path : RoutePath
path = record {
  origin = 1;
  destination = 3;
  logical_distance = 0;
  steps = step_of 7 1 2 ∷ step_of 5 2 3 ∷ [];
}

path_added : add_path left path ≡ ok both
unfolding add_path validate_path validate_steps validate_edge insert_steps insert_edge insert_node
    insert lookup
path_added = refl

add_path_lem_example :
    IsChain 1 path.steps 3
    × ((edge : EdgeId) (source destination : NodeId)
        → lookup left.edges edge ≡ some (source, destination)
        → lookup both.edges edge ≡ some (source, destination))
    × ((step : PathStep) → Has step path.steps → lookup both.edges step.edge_id ≢ none)
    × ((edge : EdgeId) (source destination : NodeId)
        → lookup both.edges edge ≡ some (source, destination)
        → (lookup left.edges edge ≡ some (source, destination))
          ⊎ ((step : PathStep) × Has step path.steps
              × (step.edge_id ≡ edge)
              × (step.source ≡ source)
              × (step.destination ≡ destination)))
add_path_lem_example = add_path_lem left both path path_added
