-- ===== src/Store/Catalog/Links/Removal.antt =====
-- What `remove_node` leaves of the edges and of the adjacencies.
use path_hydra.Common.{
  ℕ, ◌≡◌, refl, sym, subst, inl, inr, Bool, true, ◌&&◌, if◌then◌else◌, none, List, [], ◌∷◌, any,
  Has, Has-of_lookup, lookup_of_Has, ok, Option-cases, Bool-cases, arith,
}
use path_hydra.Common.Keyed.{lookup}
use path_hydra.Core.{Bytes, NodeId, EdgeRecord}
use path_hydra.Store.Codec.{encode_adjacency_key}
use path_hydra.Store.Family.{Family, bytes_eq, get, delete}
use path_hydra.Store.Family.Lookup.{get-delete}
use path_hydra.Store.Catalog.{Catalog}
use path_hydra.Store.Catalog.Remove.{DeletionResult, delete_outgoing, delete_incoming, remove_node}
use path_hydra.Store.Catalog.Counts.{IsCounted}
use path_hydra.Store.Catalog.Counts.Incident.{IsIncident}
use path_hydra.Store.Catalog.Counts.NodeRemoved.{
  NodeRemoval, NodeRemoval-IsCounted, incident_of, remove_node-NodeRemoval,
}
use path_hydra.Store.Catalog.Links.{IsLinked, IsDetached, touches, is_unlinked}
use path_hydra.Store.Catalog.Links.Detached.{
  is_some, touching-incident, incident-touching, NodeRemoval-detaches,
}

-- The keys of entries, by one end of each.
abbrev has_key : (EdgeRecord → NodeId) → Bytes → ℕ × EdgeRecord → Bool
has_key endpoint key e = bytes_eq (encode_adjacency_key (endpoint e.1) e.1.id) key

get-delete_outgoing :
    (incident : List (ℕ × EdgeRecord)) (family : Family) (key : Bytes)
    → get (delete_outgoing incident family) key
      ≡ (if any (has_key (λ e. e.source) key) incident then none else get family key)
unfolding delete_outgoing
get-delete_outgoing [] family key = refl
get-delete_outgoing ((k, found) ∷ incident) family key =
    let own : Bytes = encode_adjacency_key found.source found.id in
    let rest = get-delete_outgoing incident (delete family own) key in
    let here = get-delete family own key in
    elim (Bool-cases (bytes_eq own key)) [
      | inl same ↦ rw (rest, same, rw same at here) (ground (arith))
      | inr differs ↦ rw (rest, differs, rw differs at here) refl
    ]

get-delete_incoming :
    (incident : List (ℕ × EdgeRecord)) (family : Family) (key : Bytes)
    → get (delete_incoming incident family) key
      ≡ (if any (has_key (λ e. e.destination) key) incident then none else get family key)
unfolding delete_incoming
get-delete_incoming [] family key = refl
get-delete_incoming ((k, found) ∷ incident) family key =
    let own : Bytes = encode_adjacency_key found.destination found.id in
    let rest = get-delete_incoming incident (delete family own) key in
    let here = get-delete family own key in
    elim (Bool-cases (bytes_eq own key)) [
      | inl same ↦ rw (rest, same, rw same at here) (ground (arith))
      | inr differs ↦ rw (rest, differs, rw differs at here) refl
    ]

any-Has :
    (p : ℕ × EdgeRecord → Bool) (xs : List (ℕ × EdgeRecord))
    → any p xs ≡ true
    → (e : ℕ × EdgeRecord) × Has e xs × (p e ≡ true)
any-Has p [] h = absurd (cc h)
any-Has p (x ∷ xs) h = elim (Bool-cases (p x)) [
  | inl here ↦ (x, inl refl, here)
  | inr there ↦ let (e, has, holds) = any-Has p xs (rw there at h) in (e, inr has, holds)
]

Has-any :
    (p : ℕ × EdgeRecord → Bool) (xs : List (ℕ × EdgeRecord)) (e : ℕ × EdgeRecord)
    → Has e xs
    → p e ≡ true
    → any p xs ≡ true
Has-any p [] e has h = absurd has
Has-any p (x ∷ xs) e (inl same) h =
    let here : p x ≡ true = subst (λ y. p y ≡ true) same h in rw here refl
Has-any p (x ∷ xs) e (inr later) h = let rest = Has-any p xs e later h in ground (arith, rest)

module _ (node : NodeId) (c : Catalog) (end : Catalog × DeletionResult) (n : NodeRemoval node c end)
    (counted : IsCounted c) (linked : IsLinked c) (endpoint : EdgeRecord → NodeId)
    (key : Bytes) where
  incident_key-is_unlinked :
      any (has_key endpoint key) n.incident ≡ true → is_unlinked node endpoint key c.edges ≡ true
  unfolding is_unlinked
  incident_key-is_unlinked h =
      let ((id, edge), has, holds) = any-Has (has_key endpoint key) n.incident h in
      let i : IsIncident c.edges n.incident = incident_of node c end n counted in
      let (there, touching) =
        incident-touching node c end n counted linked id edge
          (lookup_of_Has n.incident id edge i.sorted has) in
      Has-any (λ e. touches node e.1 && has_key endpoint key e) c.edges (id, edge)
        (Has-of_lookup c.edges id edge there) (rw (touching, holds) refl)

  is_unlinked-incident_key :
      is_unlinked node endpoint key c.edges ≡ true → any (has_key endpoint key) n.incident ≡ true
  unfolding is_unlinked is_some
  is_unlinked-incident_key h =
      let ((id, edge), has, holds) =
        any-Has (λ e. touches node e.1 && has_key endpoint key e) c.edges h in
      let there = lookup_of_Has c.edges id edge counted.edges_sorted has in
      let touching : touches node edge ≡ true = ground (arith, holds) in
      let keyed : has_key endpoint key (id, edge) ≡ true = ground (arith, holds) in
      let merged = touching-incident node c end n counted linked id edge there touching in
      elim (Option-cases (lookup n.incident id)) [
        | inl absent ↦ absurd (cc (rw absent at merged))
        | inr (other, e) ↦
            let (there', _) = incident-touching node c end n counted linked id other e in
            let same : edge ≡ other = cc (there, there') in
            Has-any (has_key endpoint key) n.incident (id, other)
              (Has-of_lookup n.incident id other e)
              (subst (λ x. has_key endpoint key (id, x) ≡ true) same keyed)
      ]

  -- The keys that go are those of the edges at the node.
  incident_keys : any (has_key endpoint key) n.incident ≡ is_unlinked node endpoint key c.edges
  incident_keys = elim (Bool-cases (any (has_key endpoint key) n.incident)) [
    | inl gone ↦ cc (gone, incident_key-is_unlinked gone)
    | inr stays ↦ elim (Bool-cases (is_unlinked node endpoint key c.edges)) [
      | inl gone ↦ absurd (cc (stays, is_unlinked-incident_key gone))
      | inr free ↦ cc (stays, free)
    ]
  ]

-- In a catalog whose counts are right and whose edges, with `u64` identities, all have their entries in
-- adjacencies that are in the order of the keys, the removal of a node removes exactly the edges that
-- start or end at it and leaves every other edge as it was, so that none dangles at it; it removes
-- exactly the keys of those edges from each adjacency; and the counts of the catalog stay right: each
-- relation's two counts are the numbers of the provisional and the confirmed edges that name it, and
-- none names an absent relation.
pub remove_node_detaches :
    (accepted : Bool) (id : NodeId) (c : Catalog) (end : Catalog × DeletionResult)
    → IsCounted c
    → IsLinked c
    → remove_node accepted id c ≡ ok end
    → IsDetached id c end.0 × IsCounted end.0
remove_node_detaches accepted id c end counted linked h =
    let n = remove_node-NodeRemoval accepted id c end h in
    (
      subst (λ x. IsDetached id c x.0) (sym n.result)
          (record {
            edges = NodeRemoval-detaches id c end n counted linked;
            outgoing = λ key.
                rw (incident_keys id c end n counted linked (λ e. e.source) key) at
                  (get-delete_outgoing n.incident c.outgoing key);
            incoming = λ key.
                rw (incident_keys id c end n counted linked (λ e. e.destination) key) at
                  (get-delete_incoming n.incident c.incoming key);
          }),
      NodeRemoval-IsCounted id c end n counted,
    )
