-- ===== src/Subgraph/Unions.antt =====
-- The union of two subgraphs.
use path_hydra.Common.{
  ℕ, ◌≡◌, ◌↔◌, inl, inr, refl, sym, ◌∙◌, ap, ◌==◌, Option, none, some, List, [], ◌∷◌, insert,
  Sorted, Has, lookup-insert, lookup-Above, lookup_of_Has, lookup_ext, Has-of_lookup, ok, >>=-eq-ok,
  arith, Option-cases, Bool-cases,
}
use path_hydra.Common.Keyed.{lookup}
use path_hydra.Core.{NodeId, EdgeId}
use path_hydra.Subgraph.{Subgraph, extend, union, validate_edge, validate_edges}
use path_hydra.Subgraph.Keeps.{IsWellFormed, Sorted-extend}
use path_hydra.Subgraph.Edges.{Fits, validate_edge_iff}

-- The first value that is present.
abbrev pub or_else {ℓ} : {A : Type ℓ} → Option A → Option A → Option A
or_else (some a) b = some a
or_else none b = b

lookup-extend :
    {V : Type 0} (m n : List (ℕ × V)) (key : ℕ)
    → Sorted n
    → lookup (extend m n) key ≡ or_else (lookup n key) (lookup m key)
unfolding extend lookup
lookup-extend m [] key s = refl
lookup-extend m ((k, v) ∷ n) key (a, s) =
    let tail = lookup-extend (insert m k v) n key s in
    let head = lookup-insert m k v key in
    elim (Bool-cases (k == key)) [
      | inl same ↦
          let p : key ≡ k = ground arith in
          let gone = lookup-Above n k key (omega arith) a in rw (tail, gone, head, same) refl
      | inr other ↦ rw (tail, head, other) refl
    ]

-- No edge of the two subgraphs has two pairs of endpoints.
abbrev pub Agree : Subgraph → Subgraph → Type 0
Agree g other =
    (edge : EdgeId) (source destination : NodeId)
    → lookup other.edges edge ≡ some (source, destination)
    → Fits g edge source destination

validate_edges_iff :
    (g : Subgraph) (edges : List (EdgeId × (NodeId × NodeId)))
    → (validate_edges g edges ≡ ok tt) ↔ (
        (edge : EdgeId) (source destination : NodeId)
        → Has (edge, (source, destination)) edges
        → Fits g edge source destination)
unfolding validate_edges
validate_edges_iff g [] = (λ _ _ _ _ h. absurd h, λ _. refl)
validate_edges_iff g ((e, (s, d)) ∷ edges) = (
  λ h edge source destination m.
      let (first, p, q) = >>=-eq-ok (validate_edge g e s d) _ h in
      elim m [
        | inl same ↦
            let x : edge ≡ e = cc in
            let y : source ≡ s = cc in
            let z : destination ≡ d = cc in rw (x, y, z) ((validate_edge_iff g e s d).0 p)
        | inr later ↦ (validate_edges_iff g edges).0 q edge source destination later
      ],
  λ fits. rw ((validate_edge_iff g e s d).1 (fits e s d (inl refl))) (
      (validate_edges_iff g edges).1
        (λ edge source destination m. fits edge source destination (inr m))),
)

united : Subgraph → Subgraph → Subgraph
united g other = record { nodes = extend g.nodes other.nodes; edges = extend g.edges other.edges }

-- `union` succeeds exactly where no edge has two pairs of endpoints.
union_iff :
    (g other : Subgraph)
    → IsWellFormed other
    → (union g other ≡ ok (united g other)) ↔ Agree g other
unfolding union united
union_iff g other w = (
  λ h edge source destination e.
      let (_, p, _) = >>=-eq-ok (validate_edges g other.edges) _ h in
      (validate_edges_iff g other.edges).0 p edge source destination
        (Has-of_lookup other.edges edge (source, destination) e),
  λ agree.
      rw
        ((validate_edges_iff g other.edges).1 (λ edge source destination m.
          agree edge source destination
            (lookup_of_Has other.edges edge (source, destination) w.edges_sorted m)))
        refl,
)

union-united : (g other h : Subgraph) → union g other ≡ ok h → h ≡ united g other
unfolding union united
union-united g other h e = let (_, _, p) = >>=-eq-ok (validate_edges g other.edges) _ e in cc p

Agree-sym : (g other : Subgraph) → Agree g other → Agree other g
Agree-sym g other agree edge source destination e = elim (Option-cases (lookup other.edges edge)) [
  | inl absent ↦ inl absent
  | inr ((s, d), present) ↦ elim (agree edge s d present) [
    | inl missing ↦ absurd (cc (e, missing))
    | inr same ↦ inr (present ∙ sym same ∙ e)
  ]
]

-- Where two subgraphs agree, it does not matter whose edge is looked up first.
or_else-swap :
    (g other : Subgraph) (edge : EdgeId)
    → Agree g other
    → or_else (lookup other.edges edge) (lookup g.edges edge)
      ≡ or_else (lookup g.edges edge) (lookup other.edges edge)
or_else-swap g other edge agree = elim (Option-cases (lookup other.edges edge)) [
  | inl absent ↦ elim (Option-cases (lookup g.edges edge)) [
    | inl missing ↦ rw (absent, missing) refl
    | inr (x, here) ↦ rw (absent, here) refl
  ]
  | inr ((s, d), present) ↦ elim (agree edge s d present) [
    | inl missing ↦ rw (present, missing) refl
    | inr same ↦ rw (present, same) refl
  ]
]

or_else_comm : (a b : Option (Unit {0})) → or_else a b ≡ or_else b a
or_else_comm none none = refl
or_else_comm none (some x) = refl
or_else_comm (some x) none = refl
or_else_comm (some x) (some y) = refl

-- The union of two well-formed subgraphs does not depend on their order: where `union` succeeds, it
-- does so the other way round, with the same result, and an edge of the result is looked up as in
-- either of the two that has it.
pub union_comm :
    (g other h : Subgraph)
    → IsWellFormed g
    → IsWellFormed other
    → union g other ≡ ok h
    → (union other g ≡ ok h)
      × ((edge : EdgeId)
          → lookup h.edges edge ≡ or_else (lookup g.edges edge) (lookup other.edges edge))
unfolding united
union_comm g other h w v e =
    let p : h ≡ united g other = union-united g other h e in
    let agree : Agree g other = (union_iff g other v).0 (rw p at e) in
    let nodes_same : extend other.nodes g.nodes ≡ extend g.nodes other.nodes =
      lookup_ext (extend other.nodes g.nodes) (extend g.nodes other.nodes)
        (Sorted-extend other.nodes g.nodes v.nodes_sorted)
        (Sorted-extend g.nodes other.nodes w.nodes_sorted)
        (λ node.
          rw
            (
              lookup-extend other.nodes g.nodes node w.nodes_sorted,
              lookup-extend g.nodes other.nodes node v.nodes_sorted,
            )
            (or_else_comm (lookup g.nodes node) (lookup other.nodes node))) in
    let at_edge : (edge : EdgeId)
        → lookup (extend g.edges other.edges) edge
          ≡ or_else (lookup g.edges edge) (lookup other.edges edge) =
      λ edge.
        lookup-extend g.edges other.edges edge v.edges_sorted ∙ or_else-swap g other edge agree in
    let edges_same : extend other.edges g.edges ≡ extend g.edges other.edges =
      lookup_ext (extend other.edges g.edges) (extend g.edges other.edges)
        (Sorted-extend other.edges g.edges v.edges_sorted)
        (Sorted-extend g.edges other.edges w.edges_sorted)
        (λ edge. lookup-extend other.edges g.edges edge w.edges_sorted ∙ sym (at_edge edge)) in
    let q : united other g ≡ united g other = cc (nodes_same, edges_same) in
    (
      (union_iff other g w).1 (Agree-sym g other agree) ∙ ap ok (q ∙ sym p),
      λ edge. rw p (at_edge edge),
    )
