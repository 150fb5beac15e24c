-- ===== src/Store/Catalog/Remove.antt =====
-- crates/pathhydra-store/src/catalog.rs: `Catalog::remove_edge` and `Catalog::remove_node`. The index of
-- names in memory is the family of names: both change together. The incident edges, a hash map in the
-- source, are visited in the order of their identities.
use path_hydra.Common.{
  ℕ, Bool, true, false, ◌==◌, ◌&&◌, ◌||◌, if◌then◌else◌, Option, none, some, List, [], ◌∷◌, ◌++◌,
  lookup, insert, remove, Result, ok, err, guard, ok_or, ◌>>=◌, ◌>>◌,
}
use path_hydra.Core.{checked_sub}
use path_hydra.Core.{
  NodeId, EdgeId, RelationId, CandidateId, checked_add, Candidate, CandidateNodeReference,
  RelationRecord, EdgeRecord,
}
use path_hydra.Store.Codec.{encode_adjacency_key, encode_name_key, encode_popularity_key}
use path_hydra.Store.Errors.{Corruption, Counter, DependencyReason, CatalogError, encoded}
use path_hydra.Store.Family.{Family, get, delete}
use path_hydra.Store.Catalog.{
  Catalog, get_node, get_edge, get_relation, put_relation, incident_edges, validate_exact_adjacency,
  commit_batch,
}
use path_hydra.Store.Catalog.Insert.{value_or_zero}

-- The three families that know a relation, as the write batch leaves them.
pub record RelationFamilies : Type 0 where
  pub relations : List (ℕ × RelationRecord)
  pub relation_names : Family
  pub popularity : Family

unfoldable pub drop_relation :
    RelationId → RelationFamilies → RelationRecord → Result CatalogError (RelationFamilies × Bool)
drop_relation id families old = do
  old_key ← encoded (encode_popularity_key old)
  name_key ← encoded (encode_name_key old.name)
  ok (
    record {
      relations = remove families.relations id;
      relation_names = delete families.relation_names name_key;
      popularity = delete families.popularity old_key;
    },
    true,
  )

unfoldable pub keep_relation :
    RelationFamilies
    → RelationRecord
    → RelationRecord
    → Result CatalogError (RelationFamilies × Bool)
unfolding put_relation
keep_relation families old updated = do
  (relations, popularity) ← put_relation (families.relations, families.popularity) old updated
  ok (record families { relations = relations; popularity = popularity }, false)

-- A relation loses confirmed edges, and goes when nothing refers to it. Whether it goes is the result.
unfoldable pub lower_relation :
    Catalog → RelationId → ℕ → RelationFamilies → Result CatalogError (RelationFamilies × Bool)
unfolding get_relation drop_relation keep_relation checked_sub
lower_relation c id decrement families = do
  old ← get_relation c id
  confirmed ←
      ok_or (checked_sub old.confirmed_edge_count decrement)
        (CatalogError.corrupt_record (Corruption.confirmed_underflow id))
  if old.provisional_reference_count == 0 && confirmed == 0
      then drop_relation id families old
      else keep_relation families old (record old { id = id; confirmed_edge_count = confirmed })

-- The relation kinds that a deletion removes.
abbrev pub DeletionResult : Type 0
DeletionResult = List RelationId

abbrev pub relation_families : Catalog → RelationFamilies
relation_families c = record {
  relations = c.relations;
  relation_names = c.relation_names;
  popularity = c.popularity;
}

unfoldable pub remove_edge :
    Bool → EdgeId → Catalog → Result CatalogError (Catalog × DeletionResult)
unfolding get_edge validate_exact_adjacency lower_relation commit_batch
remove_edge accepted id c = do
  found ← get_edge c id
  validate_exact_adjacency c found
  (families, gone) ← lower_relation c found.relation_kind 1 (relation_families c)
  written ← commit_batch accepted (record c {
    edges = remove c.edges id;
    outgoing = delete c.outgoing (encode_adjacency_key found.source id);
    incoming = delete c.incoming (encode_adjacency_key found.destination id);
    relations = families.relations;
    relation_names = families.relation_names;
    popularity = families.popularity;
    has_active_image = false;
  })
  ok (written, if gone then found.relation_kind ∷ [] else [])

unfoldable pub refers_to_node : NodeId → CandidateNodeReference → Bool
refers_to_node node (CandidateNodeReference.confirmed id) = id == node
refers_to_node node (CandidateNodeReference.candidate _) = false

unfoldable pub refers_to_confirmed : NodeId → Candidate → Bool
unfolding refers_to_node
refers_to_confirmed node (Candidate.edge _ source destination _ _) =
    refers_to_node node source || refers_to_node node destination
refers_to_confirmed node (Candidate.node _ _ _ _) = false
refers_to_confirmed node (Candidate.relation _ _ _) = false

unfoldable pub provisional_edge_referencing_confirmed_node :
    List (ℕ × Candidate) → NodeId → Option CandidateId
unfolding refers_to_confirmed
provisional_edge_referencing_confirmed_node [] node = none
provisional_edge_referencing_confirmed_node ((id, candidate) ∷ candidates) node =
    if refers_to_confirmed node candidate
    then some id
    else provisional_edge_referencing_confirmed_node candidates node

unfoldable pub edge_eq : EdgeRecord → EdgeRecord → Bool
edge_eq a b =
    a.id == b.id
    && a.source == b.source
    && a.destination == b.destination
    && a.relation_kind == b.relation_kind
    && a.base_weight.bits == b.base_weight.bits

unfoldable pub agrees : EdgeRecord → Option EdgeRecord → Bool
unfolding edge_eq
agrees found none = true
agrees found (some existing) = edge_eq existing found

-- The incident edges, each once.
unfoldable pub merge_incident :
    List EdgeRecord → List (ℕ × EdgeRecord) → Result CatalogError (List (ℕ × EdgeRecord))
unfolding agrees
merge_incident [] incident = ok incident
merge_incident (found ∷ rest) incident = do
  guard (agrees found (lookup incident found.id))
      (CatalogError.corrupt_record (Corruption.differing_edges found.id))
  merge_incident rest (insert incident found.id found)

unfoldable pub validate_all : Catalog → List (ℕ × EdgeRecord) → Result CatalogError (Unit {0})
validate_all c [] = ok tt
validate_all c ((_, found) ∷ incident) = do
  validate_exact_adjacency c found
  validate_all c incident

unfoldable pub decrements_of :
    List (ℕ × EdgeRecord) → List (ℕ × ℕ) → Result CatalogError (List (ℕ × ℕ))
unfolding value_or_zero
decrements_of [] decrements = ok decrements
decrements_of ((_, found) ∷ incident) decrements = do
  count ←
      ok_or (checked_add (value_or_zero (lookup decrements found.relation_kind)) 1)
        (CatalogError.counter_overflow Counter.confirmed_relation_edge)
  decrements_of incident (insert decrements found.relation_kind count)

unfoldable pub lower_relations :
    Catalog
    → List (ℕ × ℕ)
    → RelationFamilies
    → Result CatalogError (RelationFamilies × DeletionResult)
unfolding lower_relation
lower_relations c [] families = ok (families, [])
lower_relations c ((id, decrement) ∷ rest) families = do
  (families1, gone) ← lower_relation c id decrement families
  (families2, removed) ← lower_relations c rest families1
  ok (families2, if gone then id ∷ removed else removed)

unfoldable pub remove_all : List (ℕ × EdgeRecord) → List (ℕ × EdgeRecord) → List (ℕ × EdgeRecord)
remove_all [] edges = edges
remove_all ((_, found) ∷ incident) edges = remove_all incident (remove edges found.id)

unfoldable pub delete_outgoing : List (ℕ × EdgeRecord) → Family → Family
delete_outgoing [] outgoing = outgoing
delete_outgoing ((_, found) ∷ incident) outgoing =
    delete_outgoing incident (delete outgoing (encode_adjacency_key found.source found.id))

unfoldable pub delete_incoming : List (ℕ × EdgeRecord) → Family → Family
delete_incoming [] incoming = incoming
delete_incoming ((_, found) ∷ incident) incoming =
    delete_incoming incident (delete incoming (encode_adjacency_key found.destination found.id))

unfoldable pub is_same_id : NodeId → Option NodeId → Bool
is_same_id id none = false
is_same_id id (some found) = found == id

unfoldable pub unreferenced : NodeId → Option CandidateId → Result CatalogError (Unit {0})
unreferenced id none = ok tt
unreferenced id (some candidate) =
    err (CatalogError.invalid_candidate_dependency candidate (DependencyReason.still_referenced id))

unfoldable pub remove_node :
    Bool → NodeId → Catalog → Result CatalogError (Catalog × DeletionResult)
unfolding get_node provisional_edge_referencing_confirmed_node unreferenced incident_edges
    merge_incident validate_all decrements_of lower_relations remove_all delete_outgoing
    delete_incoming is_same_id commit_batch
remove_node accepted id c = do
  found ← get_node c id
  unreferenced id (provisional_edge_referencing_confirmed_node c.candidates id)
  outgoing ← incident_edges c id true
  incoming ← incident_edges c id false
  incident ← merge_incident (outgoing ++ incoming) []
  validate_all c incident
  decrements ← decrements_of incident []
  name_key ← encoded (encode_name_key found.name)
  guard (is_same_id id (get c.node_names name_key))
      (CatalogError.corrupt_record (Corruption.name_index_disagrees id))
  (families, removed) ← lower_relations c decrements (relation_families c)
  written ← commit_batch accepted (record c {
    nodes = remove c.nodes id;
    node_names = delete c.node_names name_key;
    edges = remove_all incident c.edges;
    outgoing = delete_outgoing incident c.outgoing;
    incoming = delete_incoming incident c.incoming;
    relations = families.relations;
    relation_names = families.relation_names;
    popularity = families.popularity;
    has_active_image = false;
  })
  ok (written, removed)
