-- ===== src/Store/Catalog/Links/Detached.antt =====
-- The incident edges of `remove_node` are all the edges of its node, and go.
use path_hydra.Common.{
  ℕ, ◌<◌, ◌≡◌, refl, sym, subst, inl, inr, Bool, true, false, ◌==◌, if◌then◌else◌, Option, none,
  some, List, [], ◌∷◌, ◌++◌, All, Has, Has-of_lookup, Has-insert, lookup-insert, lookup-remove,
  remove, ok, guard, >>=-eq-ok, holds_of_ok, Option-cases, Bool-cases, arith,
}
use path_hydra.Common.Keyed.{lookup, insert}
use path_hydra.Core.{u64_bound, NodeId, EdgeId, EdgeRecord}
use path_hydra.Store.Codec.{encode_adjacency_key}
use path_hydra.Store.Catalog.{Catalog}
use path_hydra.Store.Catalog.Remove.{DeletionResult, agrees, merge_incident, remove_all}
use path_hydra.Store.Catalog.Counts.{IsCounted}
use path_hydra.Store.Catalog.Counts.Incident.{IsIncident}
use path_hydra.Store.Catalog.Counts.NodeRemoved.{NodeRemoval, incident_of}
use path_hydra.Store.Catalog.Links.{IsLinked, touches, detached}
use path_hydra.Store.Catalog.Links.Collected.{incident_edges-touches, incident_edges-collects}

unfoldable pub is_some : {A : Type 0} → Option A → Bool
is_some none = false
is_some (some _) = true

Has-append_left : (x : EdgeRecord) (xs ys : List EdgeRecord) → Has x xs → Has x (xs ++ ys)
Has-append_left x [] ys h = absurd h
Has-append_left x (y ∷ xs) ys (inl same) = inl same
Has-append_left x (y ∷ xs) ys (inr later) = inr (Has-append_left x xs ys later)

Has-append_right : (x : EdgeRecord) (xs ys : List EdgeRecord) → Has x ys → Has x (xs ++ ys)
Has-append_right x [] ys h = h
Has-append_right x (y ∷ xs) ys h = inr (Has-append_right x xs ys h)

touches-append :
    (node : NodeId) (xs ys : List EdgeRecord)
    → All (λ x. touches node x ≡ true) xs
    → All (λ x. touches node x ≡ true) ys
    → All (λ x. touches node x ≡ true) (xs ++ ys)
touches-append node [] ys a b = b
touches-append node (x ∷ xs) ys (h, a) b = (h, touches-append node xs ys a b)

-- What is merged stays under its identity.
merge_incident-keeps :
    (id : EdgeId) (found : List EdgeRecord) (incident end : List (ℕ × EdgeRecord))
    → merge_incident found incident ≡ ok end
    → is_some (lookup incident id) ≡ true
    → is_some (lookup end id) ≡ true
unfolding merge_incident is_some
merge_incident-keeps id [] incident end h there =
    holds_of_ok (λ m. is_some (lookup m id) ≡ true) there h
merge_incident-keeps id (x ∷ found) incident end h there =
    let (_, _, h1) = >>=-eq-ok (guard (agrees x (lookup incident x.id)) _) _ h in
    let l = lookup-insert incident x.id x id in
    merge_incident-keeps id found (insert incident x.id x) end h1 (elim (Bool-cases (x.id == id)) [
      | inl same ↦ rw (rw same at l) refl
      | inr other ↦ rw (rw other at l) there
    ])

-- Every edge that is found is merged.
merge_incident-Has :
    (edge : EdgeRecord) (found : List EdgeRecord) (incident end : List (ℕ × EdgeRecord))
    → merge_incident found incident ≡ ok end
    → Has edge found
    → is_some (lookup end edge.id) ≡ true
unfolding merge_incident is_some
merge_incident-Has edge [] incident end h has = absurd has
merge_incident-Has edge (x ∷ found) incident end h has =
    let (_, _, h1) = >>=-eq-ok (guard (agrees x (lookup incident x.id)) _) _ h in
    elim has [
      | inl same ↦
          let l = lookup-insert incident x.id x edge.id in
          let k : (x.id == edge.id) ≡ true = rw same (ground arith) in
          merge_incident-keeps edge.id found (insert incident x.id x) end h1 (rw (rw k at l) refl)
      | inr later ↦ merge_incident-Has edge found (insert incident x.id x) end h1 later
    ]

-- Nothing else is merged.
merge_incident-touches :
    (node : NodeId) (found : List EdgeRecord) (incident end : List (ℕ × EdgeRecord))
    → All (λ x. touches node x ≡ true) found
    → ((e : ℕ × EdgeRecord) → Has e incident → touches node e.1 ≡ true)
    → merge_incident found incident ≡ ok end
    → (e : ℕ × EdgeRecord) → Has e end
    → touches node e.1 ≡ true
unfolding merge_incident
merge_incident-touches node [] incident end a t h =
    holds_of_ok (λ m. (e : ℕ × EdgeRecord) → Has e m → touches node e.1 ≡ true) t h
merge_incident-touches node (x ∷ found) incident end (touching, a) t h =
    let (_, _, h1) = >>=-eq-ok (guard (agrees x (lookup incident x.id)) _) _ h in
    merge_incident-touches node found (insert incident x.id x) end a
      (λ e has. elim (Has-insert incident x.id x e has) [
        | inl new ↦ subst (λ y. touches node y.1 ≡ true) (sym new) touching
        | inr old ↦ t e old
      ])
      h1

-- Removing the incident edges takes away exactly the identities that they stand under.
lookup-remove_all :
    (incident edges : List (ℕ × EdgeRecord)) (id : EdgeId)
    → ((e : ℕ × EdgeRecord) → Has e incident → e.1.id ≡ e.0)
    → lookup (remove_all incident edges) id
      ≡ (if is_some (lookup incident id) then none else lookup edges id)
unfolding remove_all is_some lookup
lookup-remove_all [] edges id keyed = refl
lookup-remove_all ((k, found) ∷ incident) edges id keyed =
    let rest = lookup-remove_all incident (remove edges found.id) id (λ e has. keyed e (inr has)) in
    let l = lookup-remove edges found.id id in
    let same : found.id ≡ k = keyed (k, found) (inl refl) in
    elim (Bool-cases (k == id)) [
      | inl here ↦
          let h : (found.id == id) ≡ true = rw same here in
          rw (here, rest, rw h at l) (ground arith)
      | inr other ↦
          let h : (found.id == id) ≡ false = rw same other in rw (other, rest, rw h at l) refl
    ]

module _ (node : NodeId) (c : Catalog) (end : Catalog × DeletionResult) (n : NodeRemoval node c end)
    (counted : IsCounted c) (linked : IsLinked c) where
  -- An edge at the node is among those that are removed.
  pub touching-incident :
      (id : EdgeId) (edge : EdgeRecord)
      → lookup c.edges id ≡ some edge
      → touches node edge ≡ true
      → is_some (lookup n.incident id) ≡ true
  unfolding touches
  touching-incident id edge there h =
      let entries = linked.entries id edge there in
      let keyed = counted.edges_keyed id edge there in
      let merged : Has edge (n.outgoing ++ n.incoming) → is_some (lookup n.incident id) ≡ true =
        λ has.
          subst (λ k. is_some (lookup n.incident k) ≡ true) keyed
            (merge_incident-Has edge (n.outgoing ++ n.incoming) [] n.incident n.merges has) in
      elim (Bool-cases (edge.source == node)) [
        | inl leaves ↦
            let p : edge.source ≡ node = ground (arith, leaves) in
            merged (
              Has-append_left edge n.outgoing n.incoming (
                incident_edges-collects c node true id edge
                  (subst (λ k. k < u64_bound) p entries.source_fits) entries.id_fits there
                  n.outgoing linked.outgoing
                  (subst (λ k. Has (encode_adjacency_key k id, id) c.outgoing) p entries.outgoing)
                  n.finds_outgoing))
        | inr stays ↦
            let p : edge.destination ≡ node = ground (arith, h, stays) in
            merged (
              Has-append_right edge n.outgoing n.incoming (
                incident_edges-collects c node false id edge
                  (subst (λ k. k < u64_bound) p entries.destination_fits) entries.id_fits there
                  n.incoming linked.incoming
                  (subst (λ k. Has (encode_adjacency_key k id, id) c.incoming) p entries.incoming)
                  n.finds_incoming))
      ]

  pub incident-touching :
      (id : EdgeId) (edge : EdgeRecord)
      → lookup n.incident id ≡ some edge
      → (lookup c.edges id ≡ some edge) × (touches node edge ≡ true)
  incident-touching id edge h =
      let i : IsIncident c.edges n.incident = incident_of node c end n counted in
      let has = Has-of_lookup n.incident id edge h in
      let (keyed, stands) = i.each (id, edge) has in
      (
        subst (λ k. lookup c.edges k ≡ some edge) keyed stands,
        merge_incident-touches node (n.outgoing ++ n.incoming) [] n.incident
            (touches-append node n.outgoing n.incoming
              (incident_edges-touches c node true n.outgoing n.finds_outgoing)
              (incident_edges-touches c node false n.incoming n.finds_incoming))
            (λ e none_yet. absurd none_yet) n.merges (id, edge) has,
      )

  pub NodeRemoval-detaches :
      (id : EdgeId) → lookup (remove_all n.incident c.edges) id ≡ detached node (lookup c.edges id)
  unfolding is_some detached
  NodeRemoval-detaches id =
      let i : IsIncident c.edges n.incident = incident_of node c end n counted in
      let removed = lookup-remove_all n.incident c.edges id (λ e has. (i.each e has).0) in
      elim (Option-cases (lookup n.incident id)) [
        | inr (edge, e) ↦
            let (there, touching) = incident-touching id edge e in
            rw (removed, e, there, touching) refl
        | inl absent ↦ elim (Option-cases (lookup c.edges id)) [
          | inl nothing ↦ rw (removed, absent, nothing) refl
          | inr (edge, there) ↦ elim (Bool-cases (touches node edge)) [
            | inl touching ↦ absurd (cc (rw absent at (touching-incident id edge there touching)))
            | inr free ↦ rw (removed, absent, there, free) refl
          ]
        ]
      ]
