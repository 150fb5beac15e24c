-- ===== src/Subgraph/Edges.antt =====
-- The single edge operations of a subgraph.
use path_hydra.Common.{
  ◌≡◌, ◌↔◌, ◌⊎◌, inl, inr, ◌≢◌, refl, false, not, ◌&&◌, ◌==◌, none, some, if◌then◌else◌, lookup,
  retain, lookup-insert, lookup-retain, ok, err, arith, Option-cases, Bool-cases,
}
use path_hydra.Core.{NodeId, EdgeId}
use path_hydra.Subgraph.{
  Subgraph, edge_identity_conflict, add_edge, validate_edge, insert_edge, insert_node, remove_node,
  contains_node, contains_edge,
}
use path_hydra.Subgraph.Keeps.{IsWellFormed}

-- The edge is absent, or present with these endpoints.
abbrev pub Fits : Subgraph → EdgeId → NodeId → NodeId → Type 0
Fits g edge source destination =
    (lookup g.edges edge ≡ none) ⊎ (lookup g.edges edge ≡ some (source, destination))

pub validate_edge_iff :
    (g : Subgraph) (edge : EdgeId) (source destination : NodeId)
    → (validate_edge g edge source destination ≡ ok tt) ↔ Fits g edge source destination
unfolding validate_edge
validate_edge_iff g edge source destination = elim (Option-cases (lookup g.edges edge)) [
  | inl absent ↦ rw absent (ground arith)
  | inr ((s, d), present) ↦ rw present (ground arith)
]

pub lookup-insert_edge :
    (g : Subgraph) (edge : EdgeId) (source destination : NodeId) (other : EdgeId)
    → lookup (insert_edge g edge source destination).edges other
      ≡ (if edge == other then some (source, destination) else lookup g.edges other)
unfolding insert_edge insert_node
lookup-insert_edge g edge source destination other =
    lookup-insert g.edges edge (source, destination) other

-- `add_edge` either succeeds, where the edge was absent or had these endpoints: it says whether the
-- edge is new, the edge is looked up with these endpoints, and every other edge as before. Or it
-- fails, where the edge was present with other endpoints, and the error names both pairs.
pub add_edge_lem :
    (g : Subgraph) (edge : EdgeId) (source destination : NodeId)
    → (Fits g edge source destination
        × ((h : Subgraph) × (add_edge g edge source destination
              ≡ ok (h, not (contains_edge g edge)))
            × ((other : EdgeId)
                → lookup h.edges other
                  ≡ (if edge == other then some (source, destination) else lookup g.edges other))))
      ⊎ ((s : NodeId) × (d : NodeId) × (lookup g.edges edge ≡ some (s, d))
          × (¬ Fits g edge source destination)
          × (add_edge g edge source destination
              ≡ err (edge_identity_conflict edge s d source destination)))
unfolding add_edge validate_edge
add_edge_lem g edge source destination = elim (Option-cases (lookup g.edges edge)) [
  | inl absent ↦ inl (
    inl absent,
    (
      insert_edge g edge source destination,
      rw absent refl,
      λ other. lookup-insert_edge g edge source destination other,
    ),
  )
  | inr ((s, d), present) ↦ elim (Bool-cases (s == source && d == destination)) [
    | inl same ↦
        let fits : Fits g edge source destination = inr (ground (arith, present)) in
        inl (
          fits,
          (
            insert_edge g edge source destination,
            rw (present, same) refl,
            λ other. lookup-insert_edge g edge source destination other,
          ),
        )
    | inr different ↦ inr (s, d, present, (λ fits. ground arith), rw (present, different) refl)
  ]
]

-- After `remove_node` of a well-formed subgraph, the edges are those that do not touch the node, and
-- the node is gone.
pub remove_node_lem :
    (g : Subgraph) (node : NodeId)
    → IsWellFormed g
    → (contains_node (remove_node g node).0 node ≡ false)
      × ((edge : EdgeId) (source destination : NodeId)
          → (lookup (remove_node g node).0.edges edge ≡ some (source, destination)) ↔ (
              (lookup g.edges edge ≡ some (source, destination))
              × (source ≢ node)
              × (destination ≢ node)))
unfolding remove_node contains_node
remove_node_lem g node w = (
  elim (Option-cases (lookup (retain (λ k _. not (k == node)) g.nodes) node)) [
    | inl gone ↦ rw gone refl
    | inr (x, left) ↦ absurd (
        let (_, kept) =
          (lookup-retain (λ k _. not (k == node)) g.nodes node x w.nodes_sorted).0 left in
        ground (arith, kept))
  ],
  λ edge source destination.
      let r =
        lookup-retain (λ _ (s, d). not (s == node) && not (d == node)) g.edges edge
          (source, destination) w.edges_sorted in
      ground (arith, r),
)
