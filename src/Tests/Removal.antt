-- ===== src/Tests/Removal.antt =====
-- Runs of `remove_edge` and `remove_node` of crates/pathhydra-store/src/catalog.rs, and instances of the
-- theorems on them.
use path_hydra.Common.{ℕ, ◌≡◌, refl, true, false, [], ◌∷◌, ok, arith}
use path_hydra.Common.Totals.{total, remove}
use path_hydra.Common.Keyed.{lookup, insert, retain}
use path_hydra.Core.{checked_add, total_reference_count, Candidate, RelationRecord}
use path_hydra.Store.Codec
use path_hydra.Store.Family
use path_hydra.Store.Codec.KeyOrder
use path_hydra.Store.Catalog.{Catalog}
use path_hydra.Store.Catalog
use path_hydra.Store.Catalog.Insert
use path_hydra.Store.Catalog.Remove
use path_hydra.Store.Catalog.Remove.{DeletionResult, remove_edge, remove_node}
use path_hydra.Store.Catalog.Counts.{
  IsCounted, uses, references, refers, provisional_count, confirmed_count,
}
use path_hydra.Store.Catalog.Counts.EdgeGone.{IsWithoutEdge, remove_edge_removes}
use path_hydra.Common.{Has, none, some, subst, inl, inr, Bool-cases, ◌==◌, if◌then◌else◌}
use path_hydra.Core.{NodeId, EdgeRecord, checked_sub}
use path_hydra.Store.Catalog.Links.{HasEntries, IsLinked, IsDetached}
use path_hydra.Store.Catalog.Links.Removal.{remove_node_detaches}
use path_hydra.Store.Catalog.Counts.NodeGone.{remove_node_gone}
use path_hydra.Tests.Catalog.{quarter, name_key, number, falling, usage, sample}

abbrev without_edge : Catalog × DeletionResult
without_edge = (
  record sample {
    relations = (4, usage 1 0) ∷ [];
    popularity = (falling 254 (falling 255 (number 4 [])), 4) ∷ [];
    edges = [];
    outgoing = [];
    incoming = [];
    has_active_image = false;
  },
  [],
)

edge_removed : remove_edge true 9 sample ≡ ok without_edge
unfolding remove_edge Remove.lower_relation Remove.keep_relation checked_sub Catalog.get_edge
    Catalog.validate_exact_adjacency Catalog.decoded_value Catalog.get_relation Catalog.put_relation
    Catalog.commit_batch Family.get Family.put Family.delete Family.bytes_eq
    Codec.encode_adjacency_key Codec.encode_relation Codec.encode_named_record
    Codec.encode_popularity_key Codec.push_string Codec.length_prefixed Codec.to_be_bytes
    Codec.complement total_reference_count checked_add lookup insert remove retain
edge_removed = refl

-- The two nodes and the edge alone.
abbrev settled : Catalog
settled = record sample {
  candidates = [];
  relations = (4, usage 0 1) ∷ [];
  popularity = (falling 254 (falling 254 (number 4 [])), 4) ∷ [];
}

abbrev settled_edge : EdgeRecord
settled_edge = record {
  id = 9;
  source = 1;
  destination = 2;
  relation_kind = 4;
  base_weight = quarter;
}

settled-IsCounted : IsCounted settled
unfolding lookup total uses references refers provisional_count confirmed_count
settled-IsCounted = record {
  confirmed = λ r. ground arith;
  provisional = λ r. ground arith;
  edges_sorted = (tt, tt);
  edges_keyed = λ id found h. ground (arith, h);
  relations_sorted = (tt, tt);
  below_next = tt;
}

-- The edge takes its relation along, which nothing else names.
abbrev without_relation : Catalog × DeletionResult
without_relation = (
  record settled {
    relations = [];
    relation_names = [];
    popularity = [];
    edges = [];
    outgoing = [];
    incoming = [];
    has_active_image = false;
  },
  4 ∷ [],
)

last_edge_removed : remove_edge true 9 settled ≡ ok without_relation
unfolding remove_edge Remove.lower_relation Remove.drop_relation checked_sub Catalog.get_edge
    Catalog.validate_exact_adjacency Catalog.decoded_value Catalog.get_relation Catalog.commit_batch
    Family.get Family.delete Family.bytes_eq Codec.encode_adjacency_key Codec.encode_name_key
    Codec.encode_popularity_key Codec.push_string Codec.length_prefixed Codec.to_be_bytes
    Codec.complement total_reference_count checked_add lookup remove retain
last_edge_removed = refl

remove_edge_removes_example :
    (found : EdgeRecord) × (old : RelationRecord) × (lookup settled.edges 9 ≡ some found)
    × (lookup settled.relations found.relation_kind ≡ some old)
    × IsWithoutEdge 9 settled found old without_relation
remove_edge_removes_example =
    remove_edge_removes true 9 settled without_relation settled-IsCounted last_edge_removed

-- The node takes its edge and the relation of it along.
abbrev without_node : Catalog × DeletionResult
without_node = (
  record settled {
    nodes = (2, record { id = 2; name = 98 ∷ []; payload = [] }) ∷ [];
    node_names = (name_key 98, 2) ∷ [];
    relations = [];
    relation_names = [];
    popularity = [];
    edges = [];
    outgoing = [];
    incoming = [];
    has_active_image = false;
  },
  4 ∷ [],
)

node_removed : remove_node true 1 settled ≡ ok without_node
unfolding remove_node Remove.lower_relations Remove.lower_relation Remove.drop_relation checked_sub
    Remove.unreferenced Remove.provisional_edge_referencing_confirmed_node Remove.merge_incident
    Remove.agrees Remove.edge_eq Remove.validate_all Remove.decrements_of Remove.remove_all
    Remove.delete_outgoing Remove.delete_incoming Remove.is_same_id Insert.value_or_zero
    Catalog.get_node Catalog.incident_edges Catalog.incident_from Catalog.incident_edge
    Catalog.decoded_value Catalog.endpoint_of Catalog.decoded_key Catalog.validate_exact_adjacency
    Catalog.get_relation Catalog.commit_batch Family.get Family.put Family.delete Family.seek
    Family.bytes_eq KeyOrder.comes_before Codec.encode_adjacency_key Codec.decode_adjacency_key
    Codec.read_u64 Codec.read_take Codec.finish Codec.from_be_bytes Codec.encode_id_key
    Codec.encode_name_key Codec.encode_popularity_key Codec.push_string Codec.length_prefixed
    Codec.to_be_bytes Codec.complement total_reference_count checked_add lookup insert remove retain
node_removed = refl

settled-IsLinked : IsLinked settled
unfolding lookup Codec.encode_adjacency_key Codec.to_be_bytes
settled-IsLinked = record {
  outgoing = (tt, tt);
  incoming = (tt, tt);
  entries = λ id found h. elim (Bool-cases (9 == id)) [
    | inl same ↦
        let p : 9 ≡ id = ground (arith, same) in
        let q : settled_edge ≡ found = cc (rw same at h) in
        subst (HasEntries settled id) q (
          subst (λ k. HasEntries settled k settled_edge) p
            (record {
              outgoing = inl refl;
              incoming = inl refl;
              source_fits = omega arith;
              destination_fits = omega arith;
              id_fits = omega arith;
            }))
    | inr other ↦ absurd (cc (rw other at h))
  ];
}

remove_node_detaches_example : IsDetached 1 settled without_node.0 × IsCounted without_node.0
remove_node_detaches_example =
    remove_node_detaches true 1 settled without_node settled-IsCounted settled-IsLinked node_removed

remove_node_gone_example :
    ((other : NodeId)
      → lookup without_node.0.nodes other
        ≡ (if 1 == other then none else lookup settled.nodes other))
    × (without_node.0.candidates ≡ settled.candidates)
    × ((e : ℕ × Candidate)
        → Has e without_node.0.candidates
        → Remove.refers_to_confirmed 1 e.1 ≡ false)
remove_node_gone_example = remove_node_gone true 1 settled without_node node_removed
