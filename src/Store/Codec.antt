-- ===== src/Store/Codec.antt =====
-- crates/pathhydra-store/src/codec.rs: keys and records as bytes. A reader is what its slice holds
-- from its position on. A `push` gives the bytes that it appends to the output. The test
-- `std::str::from_utf8` is a parameter, and a text is its bytes.
pub mod Numbers
pub mod Parts
pub mod RoundTrip
pub mod Candidates
pub mod Canonical
pub mod KeyOrder
use path_hydra.Common.{
  ℕ, zero, suc, ◌+◌, ◌-◌, ◌*◌, ◌/◌, ◌%◌, ◌^◌, Bool, ltb, leb, ◌==◌, if◌then◌else◌, Option, List, [],
  ◌∷◌, ◌++◌, length, take, drop, Result, ok, err, ◌>>=◌, ◌>>◌, guard, ok_or,
}
use path_hydra.Core.{
  NodeId, EdgeId, RelationId, Bytes, max_node_payload_bytes, u64_bound, checked_add,
  CandidateNodeReference, CandidateRelationReference, Candidate, NodeRecord, RelationRecord,
  EdgeRecord, total_reference_count,
}
use path_hydra.Core
use path_hydra.Core.Float32.{u32_bound}
use path_hydra.Core.Weight.{BaseWeight, from_bits}

pub data CodecError : Type 0 where
  truncated trailing_garbage : CodecError
  invalid_length : ℕ → CodecError
  invalid_utf8 : CodecError
  invalid_candidate_kind invalid_candidate_reference_kind invalid_base_weight : ℕ → CodecError
  id_mismatch : ℕ → ℕ → CodecError
  name_too_long payload_too_long : ℕ → CodecError

-- `to_be_bytes` of a number of `width` bytes, and `from_be_bytes`.
unfoldable pub to_be_bytes : ℕ → ℕ → Bytes
to_be_bytes zero value = []
to_be_bytes (suc width) value = to_be_bytes width (value / 256) ++ (value % 256) ∷ []

unfoldable pub from_be_bytes : ℕ → Bytes → ℕ
from_be_bytes high [] = high
from_be_bytes high (b ∷ bytes) = from_be_bytes (high * 256 + b) bytes

-- What a method of `Reader` returns, with the bytes that are left.
abbrev pub Read : Type 0 → Type 0
Read A = Result CodecError (A × Bytes)

unfoldable pub read_byte : Bytes → Read ℕ
read_byte [] = err truncated
read_byte (b ∷ bytes) = ok (b, bytes)

-- The end of the slice is no overflow: a slice is shorter than 2 ^ 63, and a length below 2 ^ 32.
unfoldable pub read_take : ℕ → Bytes → Read Bytes
read_take n bytes = if leb n (length bytes) then ok (take n bytes, drop n bytes) else err truncated

unfoldable pub read_u32 : Bytes → Read ℕ
read_u32 bytes = do (taken, rest) ← read_take 4 bytes; ok (from_be_bytes 0 taken, rest)

unfoldable pub read_u64 : Bytes → Read ℕ
read_u64 bytes = do (taken, rest) ← read_take 8 bytes; ok (from_be_bytes 0 taken, rest)

unfoldable pub read_bytes : Bytes → Read Bytes
read_bytes bytes = do (n, rest) ← read_u32 bytes; read_take n rest

unfoldable pub read_payload : Bytes → Read Bytes
read_payload bytes = do
  (payload, rest) ← read_bytes bytes
  guard (leb (length payload) max_node_payload_bytes) (payload_too_long (length payload))
  ok (payload, rest)

unfoldable pub weight_of :
    ℕ → Result Core.Weight.InvalidBaseWeight BaseWeight → Result CodecError BaseWeight
weight_of bits (ok weight) = ok weight
weight_of bits (err _) = err (invalid_base_weight bits)

unfoldable pub read_weight : Bytes → Read BaseWeight
unfolding weight_of
read_weight bytes = do
  (bits, rest) ← read_u32 bytes
  weight ← weight_of bits (from_bits bits)
  ok (weight, rest)

unfoldable pub finish : Bytes → Result CodecError (Unit {0})
finish [] = ok tt
finish (_ ∷ _) = err trailing_garbage

unfoldable pub checked_id : Bytes → ℕ → Read ℕ
checked_id bytes expected = do
  (found, rest) ← read_u64 bytes
  guard (found == expected) (id_mismatch expected found)
  ok (found, rest)

unfoldable pub length_prefixed : Bytes → Bytes
length_prefixed value = to_be_bytes 4 (length value) ++ value

unfoldable pub push_bytes : Bytes → Result CodecError Bytes
unfolding length_prefixed
push_bytes value = do
  guard (leb (length value) max_node_payload_bytes) (payload_too_long (length value))
  guard (ltb (length value) u32_bound) (payload_too_long (length value))
  ok (length_prefixed value)

unfoldable pub push_string : Bytes → Result CodecError Bytes
unfolding length_prefixed
push_string value = do
  guard (ltb (length value) u32_bound) (name_too_long (length value))
  ok (length_prefixed value)

unfoldable pub encode_id_key : ℕ → Bytes
encode_id_key id = to_be_bytes 8 id

unfoldable pub decode_id_key : Bytes → Result CodecError ℕ
decode_id_key bytes = do (value, rest) ← read_u64 bytes; finish rest; ok value

unfoldable pub encode_adjacency_key : NodeId → EdgeId → Bytes
encode_adjacency_key node edge = to_be_bytes 8 node ++ to_be_bytes 8 edge

unfoldable pub decode_adjacency_key : Bytes → Result CodecError (NodeId × EdgeId)
decode_adjacency_key bytes = do
  (node, bytes1) ← read_u64 bytes
  (edge, bytes2) ← read_u64 bytes1
  finish bytes2
  ok (node, edge)

unfoldable pub encode_adjacency_value : EdgeId → Bytes
encode_adjacency_value edge = to_be_bytes 8 edge

unfoldable pub decode_adjacency_value : Bytes → EdgeId → Result CodecError (Unit {0})
unfolding decode_id_key
decode_adjacency_value bytes expected = do
  found ← decode_id_key bytes
  guard (found == expected) (id_mismatch expected found)

unfoldable pub encode_node_reference : CandidateNodeReference → Bytes
encode_node_reference (CandidateNodeReference.confirmed id) = 1 ∷ to_be_bytes 8 id
encode_node_reference (CandidateNodeReference.candidate id) = 2 ∷ to_be_bytes 8 id

unfoldable pub encode_relation_reference : CandidateRelationReference → Bytes
encode_relation_reference (CandidateRelationReference.confirmed id) = 1 ∷ to_be_bytes 8 id
encode_relation_reference (CandidateRelationReference.candidate id) = 2 ∷ to_be_bytes 8 id

unfoldable pub decode_node_reference : Bytes → Read CandidateNodeReference
decode_node_reference bytes = do
  (kind, bytes1) ← read_byte bytes
  if kind == 1
      then (do (id, rest) ← read_u64 bytes1; ok (CandidateNodeReference.confirmed id, rest))
      else if kind == 2
      then (do (id, rest) ← read_u64 bytes1; ok (CandidateNodeReference.candidate id, rest))
      else err (invalid_candidate_reference_kind kind)

unfoldable pub decode_relation_reference : Bytes → Read CandidateRelationReference
decode_relation_reference bytes = do
  (kind, bytes1) ← read_byte bytes
  if kind == 1
      then (do (id, rest) ← read_u64 bytes1; ok (CandidateRelationReference.confirmed id, rest))
      else if kind == 2
      then (do (id, rest) ← read_u64 bytes1; ok (CandidateRelationReference.candidate id, rest))
      else err (invalid_candidate_reference_kind kind)

unfoldable pub encode_candidate : Candidate → Result CodecError Bytes
unfolding push_string push_bytes encode_node_reference encode_relation_reference
encode_candidate (Candidate.node id name payload incoming_reference_count) = do
  named ← push_string name
  paid ← push_bytes payload
  ok (1 ∷ to_be_bytes 8 id ++ (named ++ (paid ++ to_be_bytes 8 incoming_reference_count)))
encode_candidate (Candidate.relation id name incoming_reference_count) = do
  named ← push_string name
  ok (2 ∷ to_be_bytes 8 id ++ (named ++ to_be_bytes 8 incoming_reference_count))
encode_candidate (Candidate.edge id source destination relation_kind base_weight) = ok (
    3 ∷ to_be_bytes 8 id
    ++ (encode_node_reference source
        ++ (encode_node_reference destination
            ++ (encode_relation_reference relation_kind ++ to_be_bytes 4 base_weight.bits))))

unfoldable pub encode_node : NodeRecord → Result CodecError Bytes
unfolding push_string push_bytes
encode_node record_ = do
  named ← push_string record_.name
  paid ← push_bytes record_.payload
  ok (to_be_bytes 8 record_.id ++ (named ++ paid))

unfoldable pub encode_named_record : ℕ → Bytes → Result CodecError Bytes
encode_named_record id name = do named ← push_string name; ok (to_be_bytes 8 id ++ named)

unfoldable pub encode_relation : RelationRecord → Result CodecError Bytes
unfolding encode_named_record push_string
encode_relation record_ = do
  named ← encode_named_record record_.id record_.name
  ok (
      named
      ++ (to_be_bytes 8 record_.provisional_reference_count
          ++ to_be_bytes 8 record_.confirmed_edge_count))

unfoldable pub encode_edge : EdgeRecord → Bytes
encode_edge record_ =
    to_be_bytes 8 record_.id
    ++ (to_be_bytes 8 record_.source
        ++ (to_be_bytes 8 record_.destination
            ++ (to_be_bytes 8 record_.relation_kind ++ to_be_bytes 4 record_.base_weight.bits)))

unfoldable pub decode_edge : Bytes → ℕ → Result CodecError EdgeRecord
unfolding checked_id
decode_edge bytes expected_id = do
  (id, bytes1) ← checked_id bytes expected_id
  (source, bytes2) ← read_u64 bytes1
  (destination, bytes3) ← read_u64 bytes2
  (relation_kind, bytes4) ← read_u64 bytes3
  (base_weight, bytes5) ← read_weight bytes4
  finish bytes5
  ok (record {
    id = id;
    source = source;
    destination = destination;
    relation_kind = relation_kind;
    base_weight = base_weight;
  })

-- `!value` of a `u64`.
unfoldable pub complement : ℕ → ℕ
complement value = u64_bound - 1 - value

unfoldable pub encode_popularity_key : RelationRecord → Result CodecError Bytes
unfolding complement
encode_popularity_key record_ = do
  total ← ok_or (total_reference_count record_) (invalid_length (u32_bound - 1))
  ok (
      to_be_bytes 8 (complement total)
      ++ (to_be_bytes 8 (complement record_.confirmed_edge_count) ++ to_be_bytes 8 record_.id))

unfoldable pub decode_popularity_key : Bytes → Result CodecError (ℕ × ℕ × RelationId)
unfolding complement
decode_popularity_key bytes = do
  (total, bytes1) ← read_u64 bytes
  (confirmed, bytes2) ← read_u64 bytes1
  (id, bytes3) ← read_u64 bytes2
  finish bytes3
  ok (complement total, complement confirmed, id)

unfoldable pub encode_name_key : Bytes → Result CodecError Bytes
encode_name_key name = push_string name

module _ (is_utf8 : Bytes → Bool) where
  unfoldable pub read_string : Bytes → Read Bytes
  read_string bytes = do
    (value, rest) ← read_bytes bytes
    guard (is_utf8 value) invalid_utf8
    ok (value, rest)

  unfoldable pub decode_name_key : Bytes → Result CodecError Bytes
  decode_name_key bytes = do (name, rest) ← read_string bytes; finish rest; ok name

  unfoldable pub decode_node_candidate : ℕ → Bytes → Read Candidate
  decode_node_candidate id bytes = do
    (name, bytes1) ← read_string bytes
    (payload, bytes2) ← read_payload bytes1
    (incoming_reference_count, bytes3) ← read_u64 bytes2
    ok (Candidate.node id name payload incoming_reference_count, bytes3)

  unfoldable pub decode_relation_candidate : ℕ → Bytes → Read Candidate
  decode_relation_candidate id bytes = do
    (name, bytes1) ← read_string bytes
    (incoming_reference_count, bytes2) ← read_u64 bytes1
    ok (Candidate.relation id name incoming_reference_count, bytes2)

  unfoldable pub decode_edge_candidate : ℕ → Bytes → Read Candidate
  unfolding decode_node_reference decode_relation_reference
  decode_edge_candidate id bytes = do
    (source, bytes1) ← decode_node_reference bytes
    (destination, bytes2) ← decode_node_reference bytes1
    (relation_kind, bytes3) ← decode_relation_reference bytes2
    (base_weight, bytes4) ← read_weight bytes3
    ok (Candidate.edge id source destination relation_kind base_weight, bytes4)

  -- The match on the kind.
  unfoldable pub decode_kind : ℕ → ℕ → Bytes → Read Candidate
  unfolding decode_node_candidate decode_relation_candidate decode_edge_candidate
  decode_kind kind id bytes =
      if kind == 1
      then decode_node_candidate id bytes
      else if kind == 2
      then decode_relation_candidate id bytes
      else if kind == 3
      then decode_edge_candidate id bytes
      else err (invalid_candidate_kind kind)

  unfoldable pub decode_candidate : Bytes → ℕ → Result CodecError Candidate
  unfolding decode_kind checked_id
  decode_candidate bytes expected_id = do
    (kind, bytes1) ← read_byte bytes
    (id, bytes2) ← checked_id bytes1 expected_id
    (candidate, bytes3) ← decode_kind kind id bytes2
    finish bytes3
    ok candidate

  unfoldable pub decode_node : Bytes → ℕ → Result CodecError NodeRecord
  unfolding checked_id
  decode_node bytes expected_id = do
    (id, bytes1) ← checked_id bytes expected_id
    (name, bytes2) ← read_string bytes1
    (payload, bytes3) ← read_payload bytes2
    finish bytes3
    ok (record { id = id; name = name; payload = payload })

  unfoldable pub decode_relation : Bytes → ℕ → Result CodecError RelationRecord
  unfolding checked_id checked_add
  decode_relation bytes expected_id = do
    (id, bytes1) ← checked_id bytes expected_id
    (name, bytes2) ← read_string bytes1
    (provisional_reference_count, bytes3) ← read_u64 bytes2
    (confirmed_edge_count, bytes4) ← read_u64 bytes3
    finish bytes4
    _ ←
        ok_or (checked_add provisional_reference_count confirmed_edge_count)
          (invalid_length (u32_bound - 1))
    ok (record {
      id = id;
      name = name;
      provisional_reference_count = provisional_reference_count;
      confirmed_edge_count = confirmed_edge_count;
    })
