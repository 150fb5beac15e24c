-- ===== src/Tests/Store.antt =====
-- Runs of the keys and records of crates/pathhydra-store/src/codec.rs, and instances of the theorems on
-- them. The UTF-8 test accepts ASCII.
use path_hydra.Common.{◌≡◌, refl, Bool, true, ltb, ◌&&◌, [], ◌∷◌, ok, some, arith, ◌||◌, ◌==◌}
use path_hydra.Core.{
  Bytes, checked_add, total_reference_count, Candidate, candidate_id, NodeRecord, RelationRecord,
  EdgeRecord,
}
use path_hydra.Core.Weight.{BaseWeight, from_bits}
use path_hydra.Store.Codec
use path_hydra.Store.Codec.{
  encode_candidate, decode_candidate, encode_node, decode_node, encode_relation, decode_relation,
  encode_edge, decode_edge, encode_popularity_key,
}
use path_hydra.Store.Codec.Candidates.{decode_candidate-encode_candidate}
use path_hydra.Store.Codec.RoundTrip.{
  decode_node-encode_node, decode_relation-encode_relation, decode_edge-encode_edge,
}
use path_hydra.Store.Codec.Canonical.{encode_edge-decode_edge, encode_node-decode_node}
use path_hydra.Store.Codec.KeyOrder.{comes_before, comes_before-encode_popularity_key}

abbrev is_ascii : Bytes → Bool
is_ascii [] = true
is_ascii (b ∷ bytes) = ltb b 128 && is_ascii bytes

abbrev quarter : BaseWeight
quarter = record { bits = 0x3e800000 }

abbrev node_candidate : Candidate
node_candidate = Candidate.node 7 (116 ∷ 111 ∷ []) (0 ∷ 255 ∷ []) 3

abbrev node_candidate_bytes : Bytes
node_candidate_bytes =
    1 ∷ 0 ∷ 0 ∷ 0 ∷ 0 ∷ 0 ∷ 0 ∷ 0 ∷ 7 ∷ 0 ∷ 0 ∷ 0 ∷ 2 ∷ 116 ∷ 111 ∷ 0 ∷ 0 ∷ 0 ∷ 2 ∷ 0 ∷ 255 ∷ 0 ∷ 0
    ∷ 0 ∷ 0 ∷ 0 ∷ 0 ∷ 0 ∷ 3 ∷ []

node_candidate_written : encode_candidate node_candidate ≡ ok node_candidate_bytes
unfolding encode_candidate Codec.push_string Codec.push_bytes Codec.length_prefixed
    Codec.to_be_bytes
node_candidate_written = refl

decode_candidate-encode_candidate_example :
    decode_candidate is_ascii node_candidate_bytes (candidate_id node_candidate) ≡ ok node_candidate
decode_candidate-encode_candidate_example =
    decode_candidate-encode_candidate is_ascii node_candidate node_candidate_bytes
      (omega arith, refl, omega arith) node_candidate_written

abbrev node : NodeRecord
node = record { id = 11; name = 116 ∷ 111 ∷ []; payload = 255 ∷ [] }

abbrev node_bytes : Bytes
node_bytes = 0 ∷ 0 ∷ 0 ∷ 0 ∷ 0 ∷ 0 ∷ 0 ∷ 11 ∷ 0 ∷ 0 ∷ 0 ∷ 2 ∷ 116 ∷ 111 ∷ 0 ∷ 0 ∷ 0 ∷ 1 ∷ 255 ∷ []

node_written : encode_node node ≡ ok node_bytes
unfolding encode_node Codec.push_string Codec.push_bytes Codec.length_prefixed Codec.to_be_bytes
node_written = refl

decode_node-encode_node_example : decode_node is_ascii node_bytes 11 ≡ ok node
decode_node-encode_node_example =
    decode_node-encode_node is_ascii node node_bytes (omega arith) refl node_written

node_read : decode_node is_ascii node_bytes 11 ≡ ok node
unfolding decode_node Codec.checked_id Codec.read_u64 Codec.read_u32 Codec.read_take
    Codec.read_bytes Codec.read_string Codec.read_payload Codec.finish Codec.from_be_bytes
node_read = refl

encode_node-decode_node_example : (encode_node node ≡ ok node_bytes) × (node.id ≡ 11)
encode_node-decode_node_example =
    encode_node-decode_node is_ascii node_bytes 11 node (ground arith) node_read

abbrev relation : RelationRecord
relation = record {
  id = 12;
  name = 99 ∷ [];
  provisional_reference_count = 1;
  confirmed_edge_count = 2;
}

abbrev relation_bytes : Bytes
relation_bytes =
    0 ∷ 0 ∷ 0 ∷ 0 ∷ 0 ∷ 0 ∷ 0 ∷ 12 ∷ 0 ∷ 0 ∷ 0 ∷ 1 ∷ 99 ∷ 0 ∷ 0 ∷ 0 ∷ 0 ∷ 0 ∷ 0 ∷ 0 ∷ 1 ∷ 0 ∷ 0 ∷ 0
    ∷ 0 ∷ 0 ∷ 0 ∷ 0 ∷ 2 ∷ []

relation_written : encode_relation relation ≡ ok relation_bytes
unfolding encode_relation Codec.encode_named_record Codec.push_string Codec.length_prefixed
    Codec.to_be_bytes
relation_written = refl

decode_relation-encode_relation_example : decode_relation is_ascii relation_bytes 12 ≡ ok relation
decode_relation-encode_relation_example =
    decode_relation-encode_relation is_ascii relation relation_bytes (omega arith) refl
      (omega arith) relation_written

abbrev edge : EdgeRecord
edge = record { id = 13; source = 11; destination = 14; relation_kind = 12; base_weight = quarter }

abbrev edge_bytes : Bytes
edge_bytes =
    0 ∷ 0 ∷ 0 ∷ 0 ∷ 0 ∷ 0 ∷ 0 ∷ 13 ∷ 0 ∷ 0 ∷ 0 ∷ 0 ∷ 0 ∷ 0 ∷ 0 ∷ 11 ∷ 0 ∷ 0 ∷ 0 ∷ 0 ∷ 0 ∷ 0 ∷ 0 ∷ 14
    ∷ 0 ∷ 0 ∷ 0 ∷ 0 ∷ 0 ∷ 0 ∷ 0 ∷ 12 ∷ 0x3e ∷ 0x80 ∷ 0 ∷ 0 ∷ []

decode_edge-encode_edge_example : decode_edge (encode_edge edge) 13 ≡ ok edge
decode_edge-encode_edge_example = decode_edge-encode_edge edge (record {
  id_lt = omega arith;
  source_lt = omega arith;
  destination_lt = omega arith;
  relation_lt = omega arith;
  weight_le = omega arith;
})

edge_read : decode_edge edge_bytes 13 ≡ ok edge
unfolding decode_edge Codec.checked_id Codec.read_u64 Codec.read_u32 Codec.read_take
    Codec.read_weight Codec.weight_of from_bits Codec.finish Codec.from_be_bytes
edge_read = refl

encode_edge-decode_edge_example : (encode_edge edge ≡ edge_bytes) × (edge.id ≡ 13)
encode_edge-decode_edge_example =
    encode_edge-decode_edge edge_bytes 13 edge (ground arith) edge_read

-- As many references as `relation`, and more of them confirmed.
abbrev other_relation : RelationRecord
other_relation = record {
  id = 15;
  name = 98 ∷ [];
  provisional_reference_count = 0;
  confirmed_edge_count = 3;
}

total_of : total_reference_count relation ≡ some 3
unfolding total_reference_count checked_add
total_of = refl

other_total_of : total_reference_count other_relation ≡ some 3
unfolding total_reference_count checked_add
other_total_of = refl

abbrev full : Bytes → Bytes
full low = 255 ∷ 255 ∷ 255 ∷ 255 ∷ 255 ∷ 255 ∷ 255 ∷ low

abbrev key : Bytes
key = full (252 ∷ full (253 ∷ 0 ∷ 0 ∷ 0 ∷ 0 ∷ 0 ∷ 0 ∷ 0 ∷ 12 ∷ []))

abbrev other_key : Bytes
other_key = full (252 ∷ full (252 ∷ 0 ∷ 0 ∷ 0 ∷ 0 ∷ 0 ∷ 0 ∷ 0 ∷ 15 ∷ []))

key_written : encode_popularity_key relation ≡ ok key
unfolding encode_popularity_key total_reference_count checked_add Codec.complement Codec.to_be_bytes
key_written = refl

other_key_written : encode_popularity_key other_relation ≡ ok other_key
unfolding encode_popularity_key total_reference_count checked_add Codec.complement Codec.to_be_bytes
other_key_written = refl

comes_before-encode_popularity_key_example :
    comes_before key other_key ≡ (ltb 3 3 || 3 == 3 && (ltb 3 2 || 2 == 3 && ltb 12 15))
comes_before-encode_popularity_key_example =
    comes_before-encode_popularity_key relation other_relation 3 3 key other_key (omega arith)
      (omega arith) total_of other_total_of key_written other_key_written
