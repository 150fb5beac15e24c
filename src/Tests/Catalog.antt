-- ===== src/Tests/Catalog.antt =====
-- Runs of the catalog of crates/pathhydra-store/src/catalog.rs, and instances of the theorems on them.
use path_hydra.Common.{ℕ, ◌+◌, ◌≡◌, refl, ◌<◌, true, List, [], ◌∷◌, ok, arith}
use path_hydra.Common.Totals.{total}
use path_hydra.Common.Keyed.{lookup, insert}
use path_hydra.Core.{
  u64_bound, Bytes, CandidateId, checked_add, total_reference_count, Candidate,
  CandidateNodeReference, CandidateRelationReference, candidate_id, RelationRecord,
}
use path_hydra.Core.Weight.{BaseWeight}
use path_hydra.Store.Codec
use path_hydra.Store.Family.{Family}
use path_hydra.Store.Family
use path_hydra.Store.Codec.KeyOrder
use path_hydra.Store.Batch.{BatchNodeReference, BatchRelationReference, CandidateBatchEntry}
use path_hydra.Store.Catalog.{Catalog}
use path_hydra.Store.Catalog
use path_hydra.Store.Catalog.Insert
use path_hydra.Store.Catalog.Insert.{CandidateBatchInsertResult, insert_candidate_batch, ids_from}
use path_hydra.Store.Catalog.Counts.{
  IsCounted, uses, references, refers, provisional_count, confirmed_count,
}
use path_hydra.Store.Catalog.Counts.Inserted.{insert_candidate_batch-IsCounted}
use path_hydra.Store.Catalog.Counts.Recorded.{IsRecorded, insert_candidate_batch_lem}

abbrev pub quarter : BaseWeight
quarter = record { bits = 0x3e800000 }

abbrev pub name_key : ℕ → Bytes
name_key letter = 0 ∷ 0 ∷ 0 ∷ 1 ∷ letter ∷ []

abbrev pub number : ℕ → Bytes → Bytes
number n bytes = 0 ∷ 0 ∷ 0 ∷ 0 ∷ 0 ∷ 0 ∷ 0 ∷ n ∷ bytes

abbrev pub falling : ℕ → Bytes → Bytes
falling n bytes = 255 ∷ 255 ∷ 255 ∷ 255 ∷ 255 ∷ 255 ∷ 255 ∷ n ∷ bytes

abbrev proposal : Candidate
proposal =
    Candidate.edge 3 (CandidateNodeReference.confirmed 1) (CandidateNodeReference.confirmed 2)
      (CandidateRelationReference.confirmed 4) quarter

abbrev pub usage : ℕ → ℕ → RelationRecord
usage provisional confirmed = record {
  id = 4;
  name = 99 ∷ [];
  provisional_reference_count = provisional;
  confirmed_edge_count = confirmed;
}

-- Two nodes, an edge between them, and a proposal of another.
abbrev pub sample : Catalog
sample = record {
  candidates = (3, proposal) ∷ [];
  nodes =
      (1, record { id = 1; name = 97 ∷ []; payload = [] })
      ∷ (2, record { id = 2; name = 98 ∷ []; payload = [] })
      ∷ [];
  node_names = (name_key 97, 1) ∷ (name_key 98, 2) ∷ [];
  relations = (4, usage 1 1) ∷ [];
  relation_names = (name_key 99, 4) ∷ [];
  popularity = (falling 253 (falling 254 (number 4 [])), 4) ∷ [];
  edges =
      (9, record { id = 9; source = 1; destination = 2; relation_kind = 4; base_weight = quarter })
      ∷ [];
  outgoing = (number 1 (number 9 []), 9) ∷ [];
  incoming = (number 2 (number 9 []), 9) ∷ [];
  has_active_image = true;
  next_candidate_id = 5;
  next_node_id = 3;
  next_relation_id = 5;
  next_edge_id = 10;
}

sample-IsCounted : IsCounted sample
unfolding lookup total uses references refers provisional_count confirmed_count
sample-IsCounted = record {
  confirmed = λ r. ground arith;
  provisional = λ r. ground arith;
  edges_sorted = (tt, tt);
  edges_keyed = λ id found h. ground (arith, h);
  relations_sorted = (tt, tt);
  below_next = (omega arith, tt);
}

-- A node, and an edge from it to a confirmed node.
abbrev entries : List CandidateBatchEntry
entries =
    CandidateBatchEntry.node (100 ∷ []) []
    ∷ CandidateBatchEntry.edge (BatchNodeReference.batch_node 0) (BatchNodeReference.confirmed 1)
        (BatchRelationReference.confirmed 4) quarter
    ∷ []

abbrev inserted : Catalog × CandidateBatchInsertResult
inserted = (
  record sample {
    candidates =
        (3, proposal)
        ∷ (5, Candidate.node 5 (100 ∷ []) [] 1)
        ∷ (
          6,
          Candidate.edge 6 (CandidateNodeReference.candidate 5) (CandidateNodeReference.confirmed 1)
              (CandidateRelationReference.confirmed 4) quarter,
        )
        ∷ [];
    relations = (4, usage 2 1) ∷ [];
    popularity = (falling 252 (falling 254 (number 4 [])), 4) ∷ [];
    next_candidate_id = 7;
  },
  record {
    candidate_ids = 5 ∷ 6 ∷ [];
    counts = record { nodes = 1; relation_kinds = 0; edges = 1 };
  },
)

batch_inserted : insert_candidate_batch true entries sample ≡ ok inserted
unfolding insert_candidate_batch Insert.check_limits Insert.sizes_of Insert.checked_mul Insert.plan
    Insert.plan_entry Insert.resolve_batch_node_reference Insert.resolve_batch_relation
    Insert.increment_incoming Insert.value_or_zero Insert.is_node_entry Insert.is_relation_entry
    Insert.complete Insert.with_incoming Insert.put_candidates Insert.put_provisional ids_from
    Catalog.put_relation Catalog.commit_batch Catalog.get_relation Catalog.require_node
    Catalog.require_relation_kind Family.put Family.delete Family.bytes_eq KeyOrder.comes_before
    Codec.encode_candidate Codec.encode_relation Codec.encode_named_record
    Codec.encode_popularity_key Codec.encode_node_reference Codec.encode_relation_reference
    Codec.push_string Codec.push_bytes Codec.length_prefixed Codec.to_be_bytes Codec.complement
    total_reference_count checked_add candidate_id lookup insert
batch_inserted = refl

insert_candidate_batch-IsCounted_example : IsCounted inserted.0
insert_candidate_batch-IsCounted_example =
    insert_candidate_batch-IsCounted true entries sample inserted sample-IsCounted batch_inserted

insert_candidate_batch_lem_example :
    (inserted.1.candidate_ids ≡ ids_from 5 2)
    × (inserted.0.next_candidate_id ≡ 5 + 2)
    × (inserted.0.next_candidate_id < u64_bound)
    × ((id : CandidateId) → id < 5 → lookup inserted.0.candidates id ≡ lookup sample.candidates id)
    × ((j : ℕ) → j < 2 → IsRecorded entries 5 inserted.0.candidates j)
insert_candidate_batch_lem_example =
    insert_candidate_batch_lem true entries sample inserted batch_inserted
