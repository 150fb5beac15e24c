-- ===== src/Subgraph/Paths.antt =====
-- Adding the path of a route.
use path_hydra.Common.{
  ◌≡◌, ◌≢◌, ◌↔◌, ◌⊎◌, inl, inr, refl, sym, ◌∙◌, true, ◌==◌, Option, none, some, List, [], ◌∷◌,
  lookup, Has, ok, >>=-eq-ok, arith, Bool-cases, List-cases, ==_iff,
}
use path_hydra.Core.{NodeId, EdgeId}
use path_hydra.Routing.Request.{PathStep, RoutePath}
use path_hydra.Subgraph.{
  Subgraph, insert_node, insert_edge, insert_steps, add_path, validate_edge, validate_path,
  validate_steps, is_nontrivial, starts_at, ends_at, is_continuous,
}
use path_hydra.Subgraph.Edges.{Fits, validate_edge_iff, lookup-insert_edge}

-- The steps lead from a node to another, each from where the one before it ends.
abbrev pub IsChain : NodeId → List PathStep → NodeId → Type 0
IsChain origin [] destination = origin ≡ destination
IsChain origin (step ∷ steps) destination =
    (step.source ≡ origin) × IsChain step.destination steps destination

IsChain-iff :
    (first : PathStep) (steps : List PathStep) (destination : NodeId)
    → ((ends_at destination (first ∷ steps) ≡ true) × (is_continuous (first ∷ steps) ≡ true))
      ↔ IsChain first.destination steps destination
unfolding ends_at is_continuous
IsChain-iff first [] destination = ground arith
IsChain-iff first (second ∷ steps) destination =
    let rest = IsChain-iff second steps destination in ground (arith, rest)

-- The checks on a path pass exactly where its steps lead from its origin to its destination.
pub validate_path_iff :
    (path : RoutePath)
    → (validate_path path ≡ ok tt) ↔ IsChain path.origin path.steps path.destination
unfolding validate_path is_nontrivial starts_at ends_at is_continuous
validate_path_iff path = elim (List-cases path.steps) [
  | inl none_ ↦ rw none_ (ground arith)
  | inr (s, steps, split) ↦
      let rest = IsChain-iff s steps path.destination in rw split (ground (arith, rest))
]

-- Each step is absent from the subgraph, or an edge of it with the same endpoints.
abbrev pub StepsFit : Subgraph → List PathStep → Type 0
StepsFit g steps =
    (step : PathStep) → Has step steps → Fits g step.edge_id step.source step.destination

validate_steps-Fit :
    (g : Subgraph) (steps : List PathStep) → validate_steps g steps ≡ ok tt → StepsFit g steps
unfolding validate_steps
validate_steps-Fit g [] h step m = absurd m
validate_steps-Fit g (s ∷ steps) h step m =
    let (_, p, q) = >>=-eq-ok (validate_edge g s.edge_id s.source s.destination) _ h in
    elim m [
      | inl same ↦ rw same ((validate_edge_iff g s.edge_id s.source s.destination).0 p)
      | inr later ↦ validate_steps-Fit g steps q step later
    ]

-- An edge that every step with its identity agrees with is looked up as before.
insert_steps-keeps :
    (g : Subgraph) (steps : List PathStep) (edge : EdgeId) (source destination : NodeId)
    → ((step : PathStep)
        → Has step steps
        → step.edge_id ≡ edge
        → (step.source ≡ source) × (step.destination ≡ destination))
    → lookup g.edges edge ≡ some (source, destination)
    → lookup (insert_steps g steps).edges edge ≡ some (source, destination)
unfolding insert_steps
insert_steps-keeps g [] edge source destination same h = h
insert_steps-keeps g (step ∷ steps) edge source destination same h =
    insert_steps-keeps (insert_edge g step.edge_id step.source step.destination) steps edge source
      destination (λ s m. same s (inr m))
      (let e = lookup-insert_edge g step.edge_id step.source step.destination edge in
        elim (Bool-cases (step.edge_id == edge)) [
          | inl here ↦
              let (p, q) = same step (inl refl) ((==_iff step.edge_id edge).0 here) in
              e ∙ rw (here, p, q) refl
          | inr other ↦ e ∙ rw other h
        ])

insert_steps-present :
    (g : Subgraph) (steps : List PathStep) (edge : EdgeId)
    → lookup g.edges edge ≢ none
    → lookup (insert_steps g steps).edges edge ≢ none
unfolding insert_steps
insert_steps-present g [] edge h = h
insert_steps-present g (step ∷ steps) edge h =
    insert_steps-present (insert_edge g step.edge_id step.source step.destination) steps edge
      (let e = lookup-insert_edge g step.edge_id step.source step.destination edge in ground arith)

insert_steps-added :
    (g : Subgraph) (steps : List PathStep) (step : PathStep)
    → Has step steps
    → lookup (insert_steps g steps).edges step.edge_id ≢ none
unfolding insert_steps
insert_steps-added g [] step m = absurd m
insert_steps-added g (s ∷ steps) step (inl same) =
    insert_steps-present (insert_edge g s.edge_id s.source s.destination) steps step.edge_id (
      let e = lookup-insert_edge g s.edge_id s.source s.destination step.edge_id in
      let p : step.edge_id ≡ s.edge_id = cc in ground arith)
insert_steps-added g (s ∷ steps) step (inr later) =
    insert_steps-added (insert_edge g s.edge_id s.source s.destination) steps step later

insert_steps-origin :
    (g : Subgraph) (steps : List PathStep) (edge : EdgeId) (source destination : NodeId)
    → lookup (insert_steps g steps).edges edge ≡ some (source, destination)
    → (lookup g.edges edge ≡ some (source, destination))
      ⊎ ((step : PathStep) × Has step steps
          × (step.edge_id ≡ edge)
          × (step.source ≡ source)
          × (step.destination ≡ destination))
unfolding insert_steps
insert_steps-origin g [] edge source destination h = inl h
insert_steps-origin g (s ∷ steps) edge source destination h =
    elim (insert_steps-origin (insert_edge g s.edge_id s.source s.destination) steps edge source
      destination h) [
        | inr (step, m, x, y, z) ↦ inr (step, inr m, x, y, z)
        | inl before ↦
            let e = lookup-insert_edge g s.edge_id s.source s.destination edge in
            elim (Bool-cases (s.edge_id == edge)) [
              | inr other ↦ inl (sym (rw other at e) ∙ before)
              | inl here ↦
                  let p : ◌≡◌ {A = Option (NodeId × NodeId)} (some (s.source, s.destination))
                      (some (source, destination)) =
                    sym (rw here at e) ∙ before in
                  inr (s, inl refl, (==_iff s.edge_id edge).0 here, cc, cc)
            ]
      ]

-- Where `add_path` succeeds, the steps of the path lead from its origin to its destination, an edge
-- that was present keeps its endpoints, each step's edge is present, and an edge that is present was
-- so before or is a step's, with the step's endpoints.
pub add_path_lem :
    (g h : Subgraph) (path : RoutePath)
    → add_path g path ≡ ok h
    → IsChain path.origin path.steps path.destination
      × ((edge : EdgeId) (source destination : NodeId)
          → lookup g.edges edge ≡ some (source, destination)
          → lookup h.edges edge ≡ some (source, destination))
      × ((step : PathStep) → Has step path.steps → lookup h.edges step.edge_id ≢ none)
      × ((edge : EdgeId) (source destination : NodeId)
          → lookup h.edges edge ≡ some (source, destination)
          → (lookup g.edges edge ≡ some (source, destination))
            ⊎ ((step : PathStep) × Has step path.steps
                × (step.edge_id ≡ edge)
                × (step.source ≡ source)
                × (step.destination ≡ destination)))
unfolding add_path insert_node
add_path_lem g h path e =
    let (_, valid, e1) = >>=-eq-ok (validate_path path) _ e in
    let (_, fit, e2) = >>=-eq-ok (validate_steps g path.steps) _ e1 in
    let p : h ≡ insert_steps (insert_node g path.origin) path.steps = cc e2 in
    let fits = validate_steps-Fit g path.steps fit in
    rw p (
      (validate_path_iff path).0 valid,
      λ edge source destination k.
          insert_steps-keeps (insert_node g path.origin) path.steps edge source destination
            (λ step m same. elim (fits step m) [
              | inl absent ↦ absurd (cc (k, rw same at absent))
              | inr present ↦
                  let q : ◌≡◌ {A = Option (NodeId × NodeId)} (some (step.source, step.destination))
                      (some (source, destination)) =
                    sym (rw same at present) ∙ k in
                  (cc, cc)
            ])
            k,
      insert_steps-added (insert_node g path.origin) path.steps,
      insert_steps-origin (insert_node g path.origin) path.steps,
    )
