-- ===== src/Core.antt =====
-- crates/pathhydra-core: the domain types. An identity is the `u64` it wraps, a name is the UTF-8
-- bytes of its text, a payload is its bytes, and a weight is its `f32` bit pattern.
pub mod Float32
pub mod Weight
use path_hydra.Common.{
  ℕ, ◌≡◌, arith, ◌+◌, ◌-◌, ◌*◌, ◌^◌, Option, none, some, List, ltb, leb, if◌then◌else◌,
}
use Weight.{BaseWeight}

abbrev pub u64_bound : ℕ
u64_bound = 2 ^ 64

-- `u64::checked_add` (and `usize::checked_add` on a 64-bit target).
unfoldable pub checked_add : ℕ → ℕ → Option ℕ
checked_add a b = if ltb (a + b) u64_bound then some (a + b) else none

pub checked_add-eq-some : (a b sum : ℕ) → checked_add a b ≡ some sum → sum ≡ a + b
unfolding checked_add
checked_add-eq-some a b sum h = ground arith

-- `checked_sub`, which does not depend on the width.
unfoldable pub checked_sub : ℕ → ℕ → Option ℕ
checked_sub a b = if leb b a then some (a - b) else none

-- `u64::saturating_add(1)`
unfoldable pub saturating_suc : ℕ → ℕ
saturating_suc n = if ltb (n + 1) u64_bound then n + 1 else n

abbrev pub NodeId : Type 0
NodeId = ℕ

abbrev pub EdgeId : Type 0
EdgeId = ℕ

abbrev pub RelationId : Type 0
RelationId = ℕ

abbrev pub CandidateId : Type 0
CandidateId = ℕ

abbrev pub Bytes : Type 0
Bytes = List ℕ

abbrev pub max_node_payload_bytes : ℕ
max_node_payload_bytes = 16 * 1024 * 1024

pub data CandidateNodeReference : Type 0 where
  confirmed : NodeId → CandidateNodeReference
  candidate : CandidateId → CandidateNodeReference

pub data CandidateRelationReference : Type 0 where
  confirmed : RelationId → CandidateRelationReference
  candidate : CandidateId → CandidateRelationReference

-- The fields of each variant in the source's order: `node id name payload incoming_reference_count`,
-- `relation id name incoming_reference_count`, `edge id source destination relation_kind weight`.
pub data Candidate : Type 0 where
  node : CandidateId → Bytes → Bytes → ℕ → Candidate
  relation : CandidateId → Bytes → ℕ → Candidate
  edge :
      CandidateId
      → CandidateNodeReference
      → CandidateNodeReference
      → CandidateRelationReference
      → BaseWeight
      → Candidate

pub record NodeRecord : Type 0 where
  pub id : NodeId
  pub name : Bytes
  pub payload : Bytes

pub record RelationRecord : Type 0 where
  pub id : RelationId
  pub name : Bytes
  pub provisional_reference_count : ℕ
  pub confirmed_edge_count : ℕ

pub record EdgeRecord : Type 0 where
  pub id : EdgeId
  pub source : NodeId
  pub destination : NodeId
  pub relation_kind : RelationId
  pub base_weight : BaseWeight

unfoldable pub total_reference_count : RelationRecord → Option ℕ
unfolding checked_add
total_reference_count r = checked_add r.provisional_reference_count r.confirmed_edge_count

unfoldable pub candidate_id : Candidate → CandidateId
candidate_id (Candidate.node id _ _ _) = id
candidate_id (Candidate.relation id _ _) = id
candidate_id (Candidate.edge id _ _ _ _) = id
