-- ===== src/Store/Codec/RoundTrip.antt =====
-- Confirmed records and keys, written and read back.
use path_hydra.Common.{
  ℕ, ◌+◌, ◌-◌, ◌≤◌, ◌<◌, ◌≡◌, refl, Bool, true, ltb, ◌==◌, some, [], ◌++◌, ok, >>=-eq-ok, arith,
}
use path_hydra.Core.{
  Bytes, NodeId, EdgeId, u64_bound, checked_add, NodeRecord, RelationRecord, EdgeRecord,
  total_reference_count,
}
use path_hydra.Core.Float32.{one_bits}
use path_hydra.Core.Weight.{BaseWeight}
use path_hydra.Store.Codec.{
  to_be_bytes, read_u64, read_weight, finish, checked_id, push_string, push_bytes,
  encode_adjacency_key, decode_adjacency_key, encode_name_key, decode_name_key, encode_node,
  decode_node, encode_relation, encode_named_record, decode_relation, encode_edge, decode_edge,
  complement, encode_popularity_key, decode_popularity_key,
}
use path_hydra.Store.Codec.Parts.{
  read_u64-to_be_bytes, read_string-push_string, read_payload-push_bytes, read_weight-to_be_bytes,
}
use mathlib.Core.List.{append-nil, append_assoc}

-- The numbers of an edge are `u64`s, and its weight is canonical.
pub record IsEdgeRecord (e : EdgeRecord) : Type 0 where
  pub id_lt : e.id < u64_bound
  pub source_lt : e.source < u64_bound
  pub destination_lt : e.destination < u64_bound
  pub relation_lt : e.relation_kind < u64_bound
  pub weight_le : e.base_weight.bits ≤ one_bits

pub checked_id-to_be_bytes :
    (id : ℕ) (rest : Bytes)
    → id < u64_bound
    → checked_id (to_be_bytes 8 id ++ rest) id ≡ ok (id, rest)
unfolding checked_id
checked_id-to_be_bytes id rest h =
    let same : (id == id) ≡ true = ground arith in rw (read_u64-to_be_bytes id rest h, same) refl

-- A reader at the end of its slice.
pub weight_end :
    (weight : BaseWeight)
    → weight.bits ≤ one_bits
    → read_weight (to_be_bytes 4 weight.bits) ≡ ok (weight, [])
weight_end weight h =
    rw (append-nil (to_be_bytes 4 weight.bits)) at (read_weight-to_be_bytes weight [] h)

pub number_end : (n : ℕ) → n < u64_bound → read_u64 (to_be_bytes 8 n) ≡ ok (n, [])
number_end n h = rw (append-nil (to_be_bytes 8 n)) at (read_u64-to_be_bytes n [] h)

-- An edge record whose numbers are `u64`s and whose weight is at most the bits of 1 is read back from
-- the bytes that are written for it, under its identity.
pub decode_edge-encode_edge :
    (e : EdgeRecord) → IsEdgeRecord e → decode_edge (encode_edge e) e.id ≡ ok e
unfolding decode_edge encode_edge finish
decode_edge-encode_edge e h =
    rw
      (
        checked_id-to_be_bytes e.id _ h.id_lt,
        read_u64-to_be_bytes e.source _ h.source_lt,
        read_u64-to_be_bytes e.destination _ h.destination_lt,
        read_u64-to_be_bytes e.relation_kind _ h.relation_lt,
        weight_end e.base_weight h.weight_le,
      )
      refl

-- An adjacency key is read back as its node and edge.
pub decode-encode_adjacency_key :
    (node : NodeId) (edge : EdgeId)
    → node < u64_bound
    → edge < u64_bound
    → decode_adjacency_key (encode_adjacency_key node edge) ≡ ok (node, edge)
unfolding decode_adjacency_key encode_adjacency_key finish
decode-encode_adjacency_key node edge h k =
    rw (read_u64-to_be_bytes node _ h, number_end edge k) refl

-- A popularity key is read back as the total and the confirmed count of the relation, with its
-- identity.
pub decode-encode_popularity_key :
    (r : RelationRecord) (total : ℕ) (key : Bytes)
    → r.id < u64_bound
    → total_reference_count r ≡ some total
    → encode_popularity_key r ≡ ok key
    → decode_popularity_key key ≡ ok (total, r.confirmed_edge_count, r.id)
unfolding decode_popularity_key encode_popularity_key finish total_reference_count checked_add
    complement
decode-encode_popularity_key r total key h t e =
    let within : total < u64_bound = ground arith in
    let part : r.confirmed_edge_count ≤ total = ground arith in
    let p : key
        ≡ to_be_bytes 8 (u64_bound - 1 - total)
          ++ (to_be_bytes 8 (u64_bound - 1 - r.confirmed_edge_count) ++ to_be_bytes 8 r.id) =
      cc (rw t at e) in
    let a : u64_bound - 1 - (u64_bound - 1 - total) ≡ total = omega arith in
    let b : u64_bound - 1 - (u64_bound - 1 - r.confirmed_edge_count) ≡ r.confirmed_edge_count =
      omega arith in
    rw
      (
        p,
        read_u64-to_be_bytes (u64_bound - 1 - total) _ (omega arith),
        read_u64-to_be_bytes (u64_bound - 1 - r.confirmed_edge_count) _ (omega arith),
        number_end r.id h,
        a,
        b,
      )
      refl

module _ (is_utf8 : Bytes → Bool) where
  -- A name's key is read back as the name.
  pub decode-encode_name_key :
      (name key : Bytes)
      → is_utf8 name ≡ true
      → encode_name_key name ≡ ok key
      → decode_name_key is_utf8 key ≡ ok name
  unfolding decode_name_key encode_name_key finish
  decode-encode_name_key name key valid e =
      let r = rw (append-nil key) at (read_string-push_string is_utf8 name key [] valid e) in
      rw r refl

  -- A node record whose identity is a `u64` and whose name passes the UTF-8 test is read back from the
  -- bytes that are written for it, where they are written.
  pub decode_node-encode_node :
      (r : NodeRecord) (bytes : Bytes)
      → r.id < u64_bound
      → is_utf8 r.name ≡ true
      → encode_node r ≡ ok bytes
      → decode_node is_utf8 bytes r.id ≡ ok r
  unfolding decode_node encode_node finish
  decode_node-encode_node r bytes h valid e =
      let (named, p, e1) = >>=-eq-ok (push_string r.name) _ e in
      let (paid, q, e2) = >>=-eq-ok (push_bytes r.payload) _ e1 in
      let s : bytes ≡ to_be_bytes 8 r.id ++ (named ++ paid) = cc e2 in
      let last = rw (append-nil paid) at (read_payload-push_bytes r.payload paid [] q) in
      rw
        (
          s,
          checked_id-to_be_bytes r.id (named ++ paid) h,
          read_string-push_string is_utf8 r.name named paid valid p,
          last,
        )
        refl

  -- A relation record whose identity is a `u64`, whose name passes the UTF-8 test and whose two counts
  -- have a `u64` sum is read back from the bytes that are written for it, where they are written.
  pub decode_relation-encode_relation :
      (r : RelationRecord) (bytes : Bytes)
      → r.id < u64_bound
      → is_utf8 r.name ≡ true
      → r.provisional_reference_count + r.confirmed_edge_count < u64_bound
      → encode_relation r ≡ ok bytes
      → decode_relation is_utf8 bytes r.id ≡ ok r
  unfolding decode_relation encode_relation encode_named_record finish checked_add
  decode_relation-encode_relation r bytes h valid fits e =
      let (front, p, e1) = >>=-eq-ok (encode_named_record r.id r.name) _ e in
      let (named, q, p1) = >>=-eq-ok (push_string r.name) _ p in
      let f : front ≡ to_be_bytes 8 r.id ++ named = cc p1 in
      let counts : Bytes =
        to_be_bytes 8 r.provisional_reference_count ++ to_be_bytes 8 r.confirmed_edge_count in
      let s : bytes ≡ front ++ counts = cc e1 in
      let sum : ltb (r.provisional_reference_count + r.confirmed_edge_count) u64_bound ≡ true =
        ground arith in
      rw
        (
          s,
          f,
          append_assoc (to_be_bytes 8 r.id) named counts,
          checked_id-to_be_bytes r.id (named ++ counts) h,
          read_string-push_string is_utf8 r.name named counts valid q,
          read_u64-to_be_bytes r.provisional_reference_count (to_be_bytes 8 r.confirmed_edge_count)
              (omega arith),
          number_end r.confirmed_edge_count (omega arith),
          sum,
        )
        refl
