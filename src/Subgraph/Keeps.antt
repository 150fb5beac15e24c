-- ===== src/Subgraph/Keeps.antt =====
-- The invariant of a subgraph: the maps are in order, and the endpoints of every edge are nodes.
use path_hydra.Common.{
  ℕ, ◌≡◌, inl, inr, Bool, not, ◌&&◌, ◌==◌, some, List, [], ◌∷◌, lookup, insert, Sorted,
  lookup-insert, lookup-retain, Has-of_lookup, Has-insert, Has-retain, Sorted-insert, Sorted-retain,
  Has, ok, >>=-eq-ok, holds_of_ok, ◌⊎◌, arith,
}
use path_hydra.Core.{NodeId, EdgeId}
use path_hydra.Routing.Request.{PathStep, RoutePath}
use path_hydra.Subgraph.{
  Subgraph, empty, insert_node, insert_edge, add_node, add_edge, insert_steps, add_path, extend,
  union, remove_edge, remove_node, validate_edge, validate_edges, validate_path, validate_steps,
}

abbrev pub IsNode : Subgraph → NodeId → Type 0
IsNode g node = lookup g.nodes node ≡ some tt

pub record IsWellFormed (g : Subgraph) : Type 0 where
  pub nodes_sorted : Sorted g.nodes
  pub edges_sorted : Sorted g.edges
  pub closed :
      (edge : EdgeId) (source destination : NodeId)
      → Has (edge, (source, destination)) g.edges
      → IsNode g source × IsNode g destination

pub insert_node-IsNode :
    (g : Subgraph) (node other : NodeId) → IsNode g other → IsNode (insert_node g node) other
unfolding insert_node
insert_node-IsNode g node other h = let e = lookup-insert g.nodes node tt other in ground arith

pub insert_node-inserted : (g : Subgraph) (node : NodeId) → IsNode (insert_node g node) node
unfolding insert_node
insert_node-inserted g node = let e = lookup-insert g.nodes node tt node in ground arith

pub insert_node-IsWellFormed :
    (g : Subgraph) (node : NodeId) → IsWellFormed g → IsWellFormed (insert_node g node)
unfolding insert_node
insert_node-IsWellFormed g node w = record {
  nodes_sorted = Sorted-insert g.nodes node tt w.nodes_sorted;
  edges_sorted = w.edges_sorted;
  closed = λ edge source destination h.
      let (s, d) = w.closed edge source destination h in
      (insert_node-IsNode g node source s, insert_node-IsNode g node destination d);
}

insert_edge-IsNode :
    (g : Subgraph) (edge : EdgeId) (source destination other : NodeId)
    → IsNode g other
    → IsNode (insert_edge g edge source destination) other
unfolding insert_edge insert_node
insert_edge-IsNode g edge source destination other h =
    let a = lookup-insert g.nodes source tt other in
    let b = lookup-insert (insert g.nodes source tt) destination tt other in ground arith

insert_edge-inserted :
    (g : Subgraph) (edge : EdgeId) (source destination : NodeId)
    → IsNode (insert_edge g edge source destination) source
      × IsNode (insert_edge g edge source destination) destination
unfolding insert_edge insert_node
insert_edge-inserted g edge source destination =
    let a = lookup-insert g.nodes source tt source in
    let b = lookup-insert (insert g.nodes source tt) destination tt source in
    let c = lookup-insert (insert g.nodes source tt) destination tt destination in ground arith

pub insert_edge-IsWellFormed :
    (g : Subgraph) (edge : EdgeId) (source destination : NodeId)
    → IsWellFormed g
    → IsWellFormed (insert_edge g edge source destination)
unfolding insert_edge insert_node
insert_edge-IsWellFormed g edge source destination w = record {
  nodes_sorted = sorted_nodes;
  edges_sorted = sorted_edges;
  closed = λ e s d h. elim (has e s d h) [
    | inl same ↦
        let p : s ≡ source = cc in
        let q : d ≡ destination = cc in rw (p, q) (insert_edge-inserted g edge source destination)
    | inr old ↦
        let (x, y) = w.closed e s d old in
        (
          insert_edge-IsNode g edge source destination s x,
          insert_edge-IsNode g edge source destination d y,
        )
  ];
}
  where
    sorted_nodes : Sorted (insert_edge g edge source destination).nodes
    sorted_nodes =
        Sorted-insert (insert g.nodes source tt) destination tt
          (Sorted-insert g.nodes source tt w.nodes_sorted)

    sorted_edges : Sorted (insert_edge g edge source destination).edges
    sorted_edges = Sorted-insert g.edges edge (source, destination) w.edges_sorted

    has :
        (e : EdgeId) (s d : NodeId)
        → Has (e, (s, d)) (insert_edge g edge source destination).edges
        → (◌≡◌ {A = EdgeId × (NodeId × NodeId)} (e, (s, d)) (edge, (source, destination)))
          ⊎ Has (e, (s, d)) g.edges
    has e s d h = Has-insert g.edges edge (source, destination) (e, (s, d)) h

pub insert_steps-IsWellFormed :
    (g : Subgraph) (steps : List PathStep) → IsWellFormed g → IsWellFormed (insert_steps g steps)
unfolding insert_steps
insert_steps-IsWellFormed g [] w = w
insert_steps-IsWellFormed g (step ∷ steps) w =
    insert_steps-IsWellFormed (insert_edge g step.edge_id step.source step.destination) steps
      (insert_edge-IsWellFormed g step.edge_id step.source step.destination w)

module _ {V : Type 0} where
  pub Sorted-extend : (m n : List (ℕ × V)) → Sorted m → Sorted (extend m n)
  unfolding extend
  Sorted-extend m [] s = s
  Sorted-extend m ((key, value) ∷ n) s =
      Sorted-extend (insert m key value) n (Sorted-insert m key value s)

  pub Has-extend : (m n : List (ℕ × V)) (e : ℕ × V) → Has e (extend m n) → Has e m ⊎ Has e n
  unfolding extend
  Has-extend m [] e h = inl h
  Has-extend m ((key, value) ∷ n) e h = elim (Has-extend (insert m key value) n e h) [
    | inl first ↦ elim (Has-insert m key value e first) [
      | inl new ↦ inr (inl new)
      | inr old ↦ inl old
    ]
    | inr later ↦ inr (inr later)
  ]

-- A node stays one when a set is added, and the nodes of the set are nodes then.
extend_keeps :
    (m n : List (NodeId × Unit {0})) (node : NodeId)
    → lookup m node ≡ some tt
    → lookup (extend m n) node ≡ some tt
unfolding extend
extend_keeps m [] node h = h
extend_keeps m ((key, value) ∷ n) node h =
    extend_keeps (insert m key value) n node
      (let e = lookup-insert m key value node in ground arith)

extend_adds :
    (m n : List (NodeId × Unit {0})) (node : NodeId)
    → Has (node, tt) n
    → lookup (extend m n) node ≡ some tt
unfolding extend
extend_adds m [] node h = absurd h
extend_adds m ((key, value) ∷ n) node (inl same) =
    extend_keeps (insert m key value) n node
      (let e = lookup-insert m key value node in let p : node ≡ key = cc in ground arith)
extend_adds m ((key, value) ∷ n) node (inr later) = extend_adds (insert m key value) n node later

union-IsWellFormed :
    (g other h : Subgraph)
    → IsWellFormed g
    → IsWellFormed other
    → union g other ≡ ok h
    → IsWellFormed h
unfolding union
union-IsWellFormed g other h w v e =
    let (_, _, p) = >>=-eq-ok (validate_edges g other.edges) _ e in
    holds_of_ok IsWellFormed
      (record {
        nodes_sorted = Sorted-extend g.nodes other.nodes w.nodes_sorted;
        edges_sorted = Sorted-extend g.edges other.edges w.edges_sorted;
        closed = λ edge source destination m.
            elim (Has-extend g.edges other.edges (edge, (source, destination)) m) [
              | inl here ↦
                  let (s, d) = w.closed edge source destination here in
                  (
                    extend_keeps g.nodes other.nodes source s,
                    extend_keeps g.nodes other.nodes destination d,
                  )
              | inr there ↦
                  let (s, d) = v.closed edge source destination there in
                  (
                    extend_adds g.nodes other.nodes source (Has-of_lookup other.nodes source tt s),
                    extend_adds g.nodes other.nodes destination
                        (Has-of_lookup other.nodes destination tt d),
                  )
            ];
      })
      p

remove_edge-IsWellFormed :
    (g : Subgraph) (edge : EdgeId) → IsWellFormed g → IsWellFormed (remove_edge g edge).0
unfolding remove_edge
remove_edge-IsWellFormed g edge w = record {
  nodes_sorted = w.nodes_sorted;
  edges_sorted = Sorted-retain (λ k _. not (k == edge)) g.edges w.edges_sorted;
  closed = λ e s d h. w.closed e s d (Has-retain (λ k _. not (k == edge)) g.edges (e, (s, d)) h).0;
}

remove_node-IsWellFormed :
    (g : Subgraph) (node : NodeId) → IsWellFormed g → IsWellFormed (remove_node g node).0
unfolding remove_node
remove_node-IsWellFormed g node w =
    let keep_edge : EdgeId → NodeId × NodeId → Bool =
      λ _ (source, destination). not (source == node) && not (destination == node) in
    record {
      nodes_sorted = Sorted-retain (λ k _. not (k == node)) g.nodes w.nodes_sorted;
      edges_sorted = Sorted-retain keep_edge g.edges w.edges_sorted;
      closed = λ e s d h.
          let (old, kept) = Has-retain keep_edge g.edges (e, (s, d)) h in
          let (x, y) = w.closed e s d old in
          (
            (lookup-retain (λ k _. not (k == node)) g.nodes s tt w.nodes_sorted).1
                (x, ground (arith, kept)),
            (lookup-retain (λ k _. not (k == node)) g.nodes d tt w.nodes_sorted).1
                (y, ground (arith, kept)),
          );
    }

-- The subgraphs that a caller can make.
pub data Reachable : Subgraph → Type 0 where
  created : Reachable empty
  with_node : (g : Subgraph) (node : NodeId) → Reachable g → Reachable (add_node g node).0
  with_edge :
      (g h : Subgraph) (edge : EdgeId) (source destination : NodeId) (inserted : Bool)
      → Reachable g
      → add_edge g edge source destination ≡ ok (h, inserted)
      → Reachable h
  with_path :
      (g h : Subgraph) (path : RoutePath) → Reachable g → add_path g path ≡ ok h → Reachable h
  united :
      (g other h : Subgraph) → Reachable g → Reachable other → union g other ≡ ok h → Reachable h
  without_edge : (g : Subgraph) (edge : EdgeId) → Reachable g → Reachable (remove_edge g edge).0
  without_node : (g : Subgraph) (node : NodeId) → Reachable g → Reachable (remove_node g node).0

-- Every subgraph that the operations make from the empty one has its maps in order, and the
-- endpoints of each of its edges are among its nodes.
pub Reachable-IsWellFormed : (g : Subgraph) → Reachable g → IsWellFormed g
unfolding empty add_node add_edge add_path
Reachable-IsWellFormed _ created = record {
  nodes_sorted = tt;
  edges_sorted = tt;
  closed = λ _ _ _ h. absurd h;
}
Reachable-IsWellFormed _ (with_node g node r) =
    insert_node-IsWellFormed g node (Reachable-IsWellFormed g r)
Reachable-IsWellFormed _ (with_edge g h edge source destination inserted r e) =
    let (_, _, p) = >>=-eq-ok (validate_edge g edge source destination) _ e in
    holds_of_ok (λ x. IsWellFormed x.0)
      (insert_edge-IsWellFormed g edge source destination (Reachable-IsWellFormed g r)) p
Reachable-IsWellFormed _ (with_path g h path r e) =
    let (_, _, p) = >>=-eq-ok (validate_path path) _ e in
    let (_, _, q) = >>=-eq-ok (validate_steps g path.steps) _ p in
    holds_of_ok IsWellFormed
      (insert_steps-IsWellFormed (insert_node g path.origin) path.steps
        (insert_node-IsWellFormed g path.origin (Reachable-IsWellFormed g r)))
      q
Reachable-IsWellFormed _ (united g other h r s e) =
    union-IsWellFormed g other h (Reachable-IsWellFormed g r) (Reachable-IsWellFormed other s) e
Reachable-IsWellFormed _ (without_edge g edge r) =
    remove_edge-IsWellFormed g edge (Reachable-IsWellFormed g r)
Reachable-IsWellFormed _ (without_node g node r) =
    remove_node-IsWellFormed g node (Reachable-IsWellFormed g r)
