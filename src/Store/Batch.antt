-- ===== src/Store/Batch.antt =====
-- crates/pathhydra-store/src/catalog.rs: the entries of a batch of candidates, and its limits.
use path_hydra.Common.{ℕ, ◌*◌}
use path_hydra.Core.{NodeId, RelationId, Bytes}
use path_hydra.Core.Weight.{BaseWeight}

abbrev pub maximum_candidate_batch_entries : ℕ
maximum_candidate_batch_entries = 120000

abbrev pub maximum_candidate_batch_name_bytes : ℕ
maximum_candidate_batch_name_bytes = 64 * 1024 * 1024

abbrev pub maximum_candidate_batch_payload_bytes : ℕ
maximum_candidate_batch_payload_bytes = 512 * 1024 * 1024

abbrev pub maximum_candidate_batch_estimated_bytes : ℕ
maximum_candidate_batch_estimated_bytes = 1024 * 1024 * 1024

pub data BatchNodeReference : Type 0 where
  confirmed : NodeId → BatchNodeReference
  batch_node : ℕ → BatchNodeReference

pub data BatchRelationReference : Type 0 where
  confirmed : RelationId → BatchRelationReference
  batch_relation_kind : ℕ → BatchRelationReference

-- `node name payload`, `relation_kind name` and `edge source destination relation_kind base_weight`.
pub data CandidateBatchEntry : Type 0 where
  node : Bytes → Bytes → CandidateBatchEntry
  relation_kind : Bytes → CandidateBatchEntry
  edge :
      BatchNodeReference
      → BatchNodeReference
      → BatchRelationReference
      → BaseWeight
      → CandidateBatchEntry

pub record CandidateBatchCounts : Type 0 where
  pub nodes : ℕ
  pub relation_kinds : ℕ
  pub edges : ℕ
