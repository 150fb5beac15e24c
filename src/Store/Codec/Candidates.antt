-- ===== src/Store/Codec/Candidates.antt =====
-- Candidates, written and read back.
use path_hydra.Common.{◌≤◌, ◌<◌, ◌≡◌, refl, Bool, true, ◌∷◌, ◌++◌, ok, >>=-eq-ok}
use path_hydra.Core.{Bytes, u64_bound, Candidate, candidate_id}
use path_hydra.Core.Float32.{one_bits}
use path_hydra.Store.Codec.{
  to_be_bytes, read_byte, finish, push_string, push_bytes, encode_candidate, decode_candidate,
  encode_node_reference, encode_relation_reference,
}
use path_hydra.Store.Codec.Parts.{
  read_string-push_string, read_payload-push_bytes, id_of_node, id_of_relation,
  decode-encode_node_reference, decode-encode_relation_reference,
}
use path_hydra.Store.Codec.RoundTrip.{checked_id-to_be_bytes, weight_end, number_end}

-- The numbers are `u64`s, the name is UTF-8, and the weight is canonical.
abbrev pub IsCandidate : (Bytes → Bool) → Candidate → Type 0
IsCandidate is_utf8 (Candidate.node id name payload count) =
    (id < u64_bound) × (is_utf8 name ≡ true) × (count < u64_bound)
IsCandidate is_utf8 (Candidate.relation id name count) =
    (id < u64_bound) × (is_utf8 name ≡ true) × (count < u64_bound)
IsCandidate is_utf8 (Candidate.edge id source destination relation_kind weight) =
    (id < u64_bound)
    × (id_of_node source < u64_bound)
    × (id_of_node destination < u64_bound)
    × (id_of_relation relation_kind < u64_bound)
    × (weight.bits ≤ one_bits)

-- A candidate whose numbers are `u64`s, whose name passes the UTF-8 test and whose weight is at most the
-- bits of 1 is read back from the bytes that are written for it, under its identity, where they are
-- written.
pub decode_candidate-encode_candidate :
    (is_utf8 : Bytes → Bool) (c : Candidate) (bytes : Bytes)
    → IsCandidate is_utf8 c
    → encode_candidate c ≡ ok bytes
    → decode_candidate is_utf8 bytes (candidate_id c) ≡ ok c
unfolding decode_candidate encode_candidate read_byte finish candidate_id
decode_candidate-encode_candidate is_utf8 (Candidate.node id name payload count) bytes (h, valid, k)
      e =
    let (named, p, e1) = >>=-eq-ok (push_string name) _ e in
    let (paid, q, e2) = >>=-eq-ok (push_bytes payload) _ e1 in
    let s : bytes ≡ 1 ∷ to_be_bytes 8 id ++ (named ++ (paid ++ to_be_bytes 8 count)) = cc e2 in
    rw
      (
        s,
        checked_id-to_be_bytes id (named ++ (paid ++ to_be_bytes 8 count)) h,
        read_string-push_string is_utf8 name named (paid ++ to_be_bytes 8 count) valid p,
        read_payload-push_bytes payload paid (to_be_bytes 8 count) q,
        number_end count k,
      )
      refl
decode_candidate-encode_candidate is_utf8 (Candidate.relation id name count) bytes (h, valid, k) e =
    let (named, p, e1) = >>=-eq-ok (push_string name) _ e in
    let s : bytes ≡ 2 ∷ to_be_bytes 8 id ++ (named ++ to_be_bytes 8 count) = cc e1 in
    rw
      (
        s,
        checked_id-to_be_bytes id (named ++ to_be_bytes 8 count) h,
        read_string-push_string is_utf8 name named (to_be_bytes 8 count) valid p,
        number_end count k,
      )
      refl
decode_candidate-encode_candidate is_utf8
      (Candidate.edge id source destination relation_kind weight) bytes (h, hs, hd, hr, hw) e =
    let kinds : Bytes = encode_relation_reference relation_kind ++ to_be_bytes 4 weight.bits in
    let ends : Bytes = encode_node_reference destination ++ kinds in
    let s : bytes ≡ 3 ∷ to_be_bytes 8 id ++ (encode_node_reference source ++ ends) = cc e in
    rw
      (
        s,
        checked_id-to_be_bytes id (encode_node_reference source ++ ends) h,
        decode-encode_node_reference source ends hs,
        decode-encode_node_reference destination kinds hd,
        decode-encode_relation_reference relation_kind (to_be_bytes 4 weight.bits) hr,
        weight_end weight hw,
      )
      refl
