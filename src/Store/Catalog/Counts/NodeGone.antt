-- ===== src/Store/Catalog/Counts/NodeGone.antt =====
-- What `remove_node` removes, and that no provisional edge refers to it.
use path_hydra.Common.{
  ℕ, ◌≡◌, refl, sym, subst, inl, inr, Bool, false, ◌==◌, if◌then◌else◌, none, List, [], ◌∷◌, Has,
  lookup-remove, ok, Bool-cases,
}
use path_hydra.Common.Keyed.{lookup}
use path_hydra.Core.{NodeId, Candidate}
use path_hydra.Store.Catalog.{Catalog}
use path_hydra.Store.Catalog.Remove.{
  DeletionResult, refers_to_confirmed, provisional_edge_referencing_confirmed_node, remove_node,
}
use path_hydra.Store.Catalog.Counts.NodeRemoved.{remove_node-NodeRemoval}

no_reference :
    (candidates : List (ℕ × Candidate)) (node : NodeId) (e : ℕ × Candidate)
    → provisional_edge_referencing_confirmed_node candidates node ≡ none
    → Has e candidates
    → refers_to_confirmed node e.1 ≡ false
unfolding provisional_edge_referencing_confirmed_node
no_reference [] node e h has = absurd has
no_reference ((k, x) ∷ candidates) node e h has = elim (Bool-cases (refers_to_confirmed node x)) [
  | inl refers ↦ absurd (cc (rw refers at h))
  | inr free ↦ elim has [
    | inl same ↦ subst (λ y. refers_to_confirmed node y.1 ≡ false) (sym same) free
    | inr later ↦ no_reference candidates node e (rw free at h) later
  ]
]

-- A node that is removed is gone from the catalog and every other node stays; no candidate changes,
-- and none of them refers to the node, so that its removal leaves no provisional edge without its end.
pub remove_node_gone :
    (accepted : Bool) (id : NodeId) (c : Catalog) (end : Catalog × DeletionResult)
    → remove_node accepted id c ≡ ok end
    → ((other : NodeId)
        → lookup end.0.nodes other ≡ (if id == other then none else lookup c.nodes other))
      × (end.0.candidates ≡ c.candidates)
      × ((e : ℕ × Candidate) → Has e end.0.candidates → refers_to_confirmed id e.1 ≡ false)
remove_node_gone accepted id c end h =
    let n = remove_node-NodeRemoval accepted id c end h in
    subst
      (λ x.
        ((other : NodeId)
          → lookup x.0.nodes other ≡ (if id == other then none else lookup c.nodes other))
        × (x.0.candidates ≡ c.candidates)
        × ((e : ℕ × Candidate) → Has e x.0.candidates → refers_to_confirmed id e.1 ≡ false))
      (sym n.result)
      (lookup-remove c.nodes id, refl, λ e. no_reference c.candidates id e n.refers_none)
