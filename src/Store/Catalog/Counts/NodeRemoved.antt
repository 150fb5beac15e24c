-- ===== src/Store/Catalog/Counts/NodeRemoved.antt =====
-- The steps of `remove_node`, and that they keep the counts.
use path_hydra.Common.{
  ℕ, ◌+◌, ◌<◌, ◌≡◌, ◌∙◌, refl, sym, ap, subst, inl, inr, Bool, true, false, ◌==◌, if◌then◌else◌,
  Option, none, some, List, [], ◌∷◌, ◌++◌, All, lookup-Above, Sorted, remove, ok, guard, >>=-eq-ok,
  holds_of_ok, Bool-cases, arith,
}
use path_hydra.Common.Keyed.{lookup}
use path_hydra.Core.{Bytes, CandidateId, NodeId, RelationId, RelationRecord, EdgeRecord, NodeRecord}
use path_hydra.Store.Codec.{encode_name_key}
use path_hydra.Store.Errors.{encoded}
use path_hydra.Store.Family.{get, delete}
use path_hydra.Store.Catalog.{Catalog, get_node, incident_edges}
use path_hydra.Store.Catalog.Insert.{value_or_zero}
use path_hydra.Store.Catalog.Remove.{
  RelationFamilies, DeletionResult, relation_families, lower_relation, lower_relations,
  merge_incident, validate_all, decrements_of, remove_all, delete_outgoing, delete_incoming,
  is_same_id, unreferenced, provisional_edge_referencing_confirmed_node, remove_node,
}
use path_hydra.Store.Catalog.Commit.{commit_batch-eq-ok}
use path_hydra.Store.Catalog.Counts.{IsCounted, provisional_count, confirmed_count}
use path_hydra.Store.Catalog.Counts.Removed.{Lowered, lower_relation-Lowered}
use path_hydra.Store.Catalog.Counts.Incident.{
  IsIncident, All-append, incident_from-Stands, merge_incident-IsIncident, decrements_of-total,
  remove_all-total,
}

-- What has become of a relation `r` over decrements that name it or not.
abbrev Less :
    Catalog → RelationId → Option ℕ → List (ℕ × RelationRecord) → List (ℕ × RelationRecord) → Type 0
Less c r none before after = lookup after r ≡ lookup before r
Less c r (some decrement) before after =
    (confirmed_count (lookup after r) + decrement ≡ confirmed_count (lookup c.relations r))
    × (provisional_count (lookup after r) ≡ provisional_count (lookup c.relations r))

module _ (c : Catalog) (r : RelationId) where
  Less-later :
      (o : Option ℕ) (before mid after : List (ℕ × RelationRecord))
      → lookup mid r ≡ lookup before r
      → Less c r o mid after
      → Less c r o before after
  Less-later none before mid after l u = u ∙ l
  Less-later (some decrement) before mid after l u = u

  Less-step :
      (id decrement : ℕ) (rest : List (ℕ × ℕ)) (old : RelationRecord)
      (before mid after : List (ℕ × RelationRecord))
      → All (λ e. id < e.0) rest
      → lookup c.relations id ≡ some old
      → Lowered r id decrement old before mid
      → Less c r (lookup rest r) mid after
      → Less c r (if id == r then some decrement else lookup rest r) before after
  unfolding confirmed_count provisional_count
  Less-step id decrement rest old before mid after a there l u = elim (Bool-cases (id == r)) [
    | inl same ↦
        let k : id ≡ r = ground (arith, same) in
        let there' : lookup c.relations r ≡ some old =
          subst (λ x. lookup c.relations x ≡ some old) k there in
        let u' : lookup after r ≡ lookup mid r =
          rw (lookup-Above rest id r (omega (arith, k)) a) at u in
        rw (same, u', there') (l.confirmed same, l.provisional same)
    | inr other ↦ rw other (Less-later (lookup rest r) before mid after (l.other other) u)
  ]

  lower_relations-Less :
      (decrements : List (ℕ × ℕ)) (families : RelationFamilies)
      (end : RelationFamilies × DeletionResult)
      → Sorted decrements
      → lower_relations c decrements families ≡ ok end
      → Less c r (lookup decrements r) families.relations end.0.relations
        × (Sorted families.relations → Sorted end.0.relations)
  unfolding lower_relations lookup
  lower_relations-Less [] families end s h =
      holds_of_ok
        (λ x.
          (lookup x.0.relations r ≡ lookup families.relations r)
          × (Sorted families.relations → Sorted x.0.relations))
        {a = (families, [])} (refl, λ t. t) h
  lower_relations-Less ((id, decrement) ∷ rest) families end (a, s) h =
      let ((families1, gone), e, h1) = >>=-eq-ok (lower_relation c id decrement families) _ h in
      let ((families2, removed), e1, h2) = >>=-eq-ok (lower_relations c rest families1) _ h1 in
      let (old, there, lowered) =
        lower_relation-Lowered c id decrement families (families1, gone) e in
      let (u, t) = lower_relations-Less rest families1 (families2, removed) s e1 in
      holds_of_ok
        (λ x.
          Less c r (if id == r then some decrement else lookup rest r) families.relations
            x.0.relations
          × (Sorted families.relations → Sorted x.0.relations))
        {a = (families2, if gone then id ∷ removed else removed)}
        (
          Less-step id decrement rest old families.relations families1.relations families2.relations
              a there (lowered r) u,
          λ o. t ((lowered r).sorted o),
        )
        h2

unreferenced-eq-ok :
    (id : NodeId) (o : Option CandidateId) {u : Unit} → unreferenced id o ≡ ok u → o ≡ none
unfolding unreferenced
unreferenced-eq-ok id none h = refl
unreferenced-eq-ok id (some candidate) h = cc h

-- The steps of a removal that succeeds.
pub record NodeRemoval (id : NodeId) (c : Catalog) (end : Catalog × DeletionResult) : Type 0 where
  pub found : NodeRecord
  pub outgoing : List EdgeRecord
  pub incoming : List EdgeRecord
  pub incident : List (ℕ × EdgeRecord)
  pub decrements : List (ℕ × ℕ)
  pub name_key : Bytes
  pub families : RelationFamilies
  pub removed : DeletionResult
  pub refers_none : provisional_edge_referencing_confirmed_node c.candidates id ≡ none
  pub finds_outgoing : incident_edges c id true ≡ ok outgoing
  pub finds_incoming : incident_edges c id false ≡ ok incoming
  pub merges : merge_incident (outgoing ++ incoming) [] ≡ ok incident
  pub counts : decrements_of incident [] ≡ ok decrements
  pub lowers : lower_relations c decrements (relation_families c) ≡ ok (families, removed)
  pub result : end ≡ (
    record c {
      nodes = remove c.nodes id;
      node_names = delete c.node_names name_key;
      edges = remove_all incident c.edges;
      outgoing = delete_outgoing incident c.outgoing;
      incoming = delete_incoming incident c.incoming;
      relations = families.relations;
      relation_names = families.relation_names;
      popularity = families.popularity;
      has_active_image = false;
    },
    removed,
  )

pub remove_node-NodeRemoval :
    (accepted : Bool) (id : NodeId) (c : Catalog) (end : Catalog × DeletionResult)
    → remove_node accepted id c ≡ ok end
    → NodeRemoval id c end
unfolding remove_node
remove_node-NodeRemoval accepted id c end h =
    let (found, _, h1) = >>=-eq-ok (get_node c id) _ h in
    let (_, e2, h2) =
      >>=-eq-ok (unreferenced id (provisional_edge_referencing_confirmed_node c.candidates id)) _
        h1 in
    let (outgoing, e3, h3) = >>=-eq-ok (incident_edges c id true) _ h2 in
    let (incoming, e4, h4) = >>=-eq-ok (incident_edges c id false) _ h3 in
    let (incident, e5, h5) = >>=-eq-ok (merge_incident (outgoing ++ incoming) []) _ h4 in
    let (_, _, h6) = >>=-eq-ok (validate_all c incident) _ h5 in
    let (decrements, e7, h7) = >>=-eq-ok (decrements_of incident []) _ h6 in
    let (name_key, _, h8) = >>=-eq-ok (encoded (encode_name_key found.name)) _ h7 in
    let (_, _, h9) = >>=-eq-ok (guard (is_same_id id (get c.node_names name_key)) _) _ h8 in
    let ((families, removed), e10, h10) =
      >>=-eq-ok (lower_relations c decrements (relation_families c)) _ h9 in
    record {
      found = found;
      outgoing = outgoing;
      incoming = incoming;
      incident = incident;
      decrements = decrements;
      name_key = name_key;
      families = families;
      removed = removed;
      refers_none =
          unreferenced-eq-ok id (provisional_edge_referencing_confirmed_node c.candidates id) e2;
      finds_outgoing = e3;
      finds_incoming = e4;
      merges = e5;
      counts = e7;
      lowers = e10;
      result = commit_batch-eq-ok accepted _ _ end h10;
    }

Less-confirmed :
    (c : Catalog) (r : RelationId) (o : Option ℕ) (after : List (ℕ × RelationRecord))
    → Less c r o c.relations after
    → confirmed_count (lookup after r) + value_or_zero o ≡ confirmed_count (lookup c.relations r)
unfolding value_or_zero
Less-confirmed c r none after u = rw u (omega arith)
Less-confirmed c r (some decrement) after (p, _) = p

Less-provisional :
    (c : Catalog) (r : RelationId) (o : Option ℕ) (after : List (ℕ × RelationRecord))
    → Less c r o c.relations after
    → provisional_count (lookup after r) ≡ provisional_count (lookup c.relations r)
Less-provisional c r none after u = ap provisional_count u
Less-provisional c r (some decrement) after (_, q) = q

module _ (id : NodeId) (c : Catalog) (end : Catalog × DeletionResult) (n : NodeRemoval id c end)
    (counted : IsCounted c) where
  pub incident_of : IsIncident c.edges n.incident
  unfolding incident_edges
  incident_of =
      merge_incident-IsIncident c.edges (n.outgoing ++ n.incoming) [] n.incident
        (All-append c.edges n.outgoing n.incoming
          (incident_from-Stands c id true _ n.outgoing counted.edges_keyed n.finds_outgoing)
          (incident_from-Stands c id false _ n.incoming counted.edges_keyed n.finds_incoming))
        (record { sorted = tt; each = λ e h. absurd h }) n.merges

  pub NodeRemoval-IsCounted : IsCounted end.0
  unfolding lookup value_or_zero
  NodeRemoval-IsCounted =
      subst (λ x. IsCounted x.0) (sym n.result)
        (record {
          confirmed = λ r.
              let (less, _) = lowered r in
              let fewer = Less-confirmed c r (lookup n.decrements r) n.families.relations less in
              let (counts, _) = decrements_of-total r n.incident [] n.decrements n.counts in
              let (left, _, _) =
                remove_all-total r n.incident c.edges counted.edges_sorted incident_of in
              let before = counted.confirmed r in omega (arith, fewer, counts, left, before);
          provisional = λ r.
              Less-provisional c r (lookup n.decrements r) n.families.relations (lowered r).0
              ∙ counted.provisional r;
          edges_sorted = (remove_all-total 0 n.incident c.edges counted.edges_sorted incident_of).1;
          edges_keyed = λ k found h. counted.edges_keyed k found (
              (remove_all-total 0 n.incident c.edges counted.edges_sorted incident_of).2 k found h);
          relations_sorted = (lowered 0).1 counted.relations_sorted;
          below_next = counted.below_next;
        })
    where
      lowered :
          (r : RelationId)
          → Less c r (lookup n.decrements r) c.relations n.families.relations
            × (Sorted c.relations → Sorted n.families.relations)
      lowered r =
          lower_relations-Less c r n.decrements (relation_families c) (n.families, n.removed)
            ((decrements_of-total r n.incident [] n.decrements n.counts).1 tt) n.lowers
