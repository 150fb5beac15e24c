-- ===== src/Store/Errors.antt =====
-- crates/pathhydra-store/src/error.rs: the catalog's errors that do not come from locks or from
-- allocation, with a data type where the source has a message.
use path_hydra.Common.{ℕ, Result, ok, err}
use path_hydra.Core.{NodeId, EdgeId, RelationId, CandidateId}
use path_hydra.Store.Codec.{CodecError}

pub data RecordKind : Type 0 where
  candidate node relation edge : RecordKind

pub data EdgeEndpoint : Type 0 where
  source destination : EdgeEndpoint

-- Which message an `InvalidBatch` carries.
pub data BatchReason : Type 0 where
  empty_batch too_many_entries name_bytes_overflow payload_bytes_overflow : BatchReason
  estimated_bytes_overflow byte_limit : BatchReason
  not_a_node_entry not_a_relation_entry : ℕ → ℕ → BatchReason
  not_a_dependency : ℕ → BatchReason

-- Which message an `InvalidCandidateDependency` carries.
pub data DependencyReason : Type 0 where
  still_referenced : NodeId → DependencyReason

pub data Counter : Type 0 where
  candidate_id provisional_relation_reference candidate_incoming_reference : Counter
  total_relation_reference confirmed_relation_edge : Counter

-- Which message a `CorruptRecord` carries.
pub data Corruption : Type 0 where
  cannot_encode : CodecError → Corruption
  bad_key bad_value : CodecError → Corruption
  confirmed_underflow : RelationId → Corruption
  adjacency_missing edge_missing : EdgeId → Corruption
  wrong_endpoint : EdgeId → NodeId → Corruption
  wrong_prefix : NodeId → Corruption
  differing_edges : EdgeId → Corruption
  name_index_disagrees : NodeId → Corruption

pub data CatalogError : Type 0 where
  not_found : RecordKind → ℕ → CatalogError
  missing_edge_endpoint : EdgeEndpoint → NodeId → CatalogError
  missing_edge_relation_kind : RelationId → CatalogError
  invalid_batch : BatchReason → CatalogError
  invalid_candidate_dependency : CandidateId → DependencyReason → CatalogError
  corrupt_record : Corruption → CatalogError
  counter_overflow : Counter → CatalogError
  name_too_long payload_too_long : ℕ → CatalogError
  rocks_db : CatalogError

unfoldable pub codec_input_error : CodecError → CatalogError
codec_input_error (CodecError.name_too_long n) = name_too_long n
codec_input_error (CodecError.payload_too_long n) = payload_too_long n
codec_input_error other = corrupt_record (cannot_encode other)

-- `.map_err(codec_input_error)?`
abbrev pub encoded : {A : Type 0} → Result CodecError A → Result CatalogError A
encoded (ok a) = ok a
encoded (err e) = err (codec_input_error e)
