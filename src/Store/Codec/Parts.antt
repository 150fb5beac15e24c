-- ===== src/Store/Codec/Parts.antt =====
-- What a reader gives back of the bytes that were pushed, with any bytes behind them.
use path_hydra.Common.{
  ℕ, ◌≤◌, ◌<◌, ◌≡◌, refl, sym, ap, inl, inr, Bool, true, ltb, leb, [], ◌∷◌, ◌++◌, length,
  length-append, take, drop, ok, Bool-cases, ltb→lt, arith,
}
use path_hydra.Core.{
  Bytes, u64_bound, max_node_payload_bytes, CandidateNodeReference, CandidateRelationReference,
}
use path_hydra.Core.Float32.{u32_bound, one_bits}
use path_hydra.Core.Weight.{BaseWeight}
use path_hydra.Core.Weight.Laws.{from_bits-eq-ok_iff}
use path_hydra.Store.Codec.{
  to_be_bytes, read_byte, read_take, read_u32, read_u64, read_bytes, read_payload, read_weight,
  weight_of, read_string, push_string, push_bytes, length_prefixed, encode_node_reference,
  encode_relation_reference, decode_node_reference, decode_relation_reference,
}
use mathlib.Core.List.{append_assoc}
use path_hydra.Store.Codec.Numbers.{length-to_be_bytes, from_be_bytes-to_be_bytes}

pub take-append : (xs ys : Bytes) → take (length xs) (xs ++ ys) ≡ xs
take-append [] ys = refl
take-append (x ∷ xs) ys = ap (◌∷◌ x) (take-append xs ys)

drop-append : (xs ys : Bytes) → drop (length xs) (xs ++ ys) ≡ ys
drop-append [] ys = refl
drop-append (x ∷ xs) ys = drop-append xs ys

pub read_take-append :
    (xs rest : Bytes) (n : ℕ) → n ≡ length xs → read_take n (xs ++ rest) ≡ ok (xs, rest)
unfolding read_take
read_take-append xs rest n e =
    let fits : leb (length xs) (length (xs ++ rest)) ≡ true =
      ground (arith, length-append xs rest) in
    rw (e, fits, take-append xs rest, drop-append xs rest) refl

pub read_u32-to_be_bytes :
    (value : ℕ) (rest : Bytes)
    → value < u32_bound
    → read_u32 (to_be_bytes 4 value ++ rest) ≡ ok (value, rest)
unfolding read_u32
read_u32-to_be_bytes value rest h =
    rw
      (
        read_take-append (to_be_bytes 4 value) rest 4 (sym (length-to_be_bytes 4 value)),
        from_be_bytes-to_be_bytes 4 value (omega arith),
      )
      refl

pub read_u64-to_be_bytes :
    (value : ℕ) (rest : Bytes)
    → value < u64_bound
    → read_u64 (to_be_bytes 8 value ++ rest) ≡ ok (value, rest)
unfolding read_u64
read_u64-to_be_bytes value rest h =
    rw
      (
        read_take-append (to_be_bytes 8 value) rest 8 (sym (length-to_be_bytes 8 value)),
        from_be_bytes-to_be_bytes 8 value (omega arith),
      )
      refl

read_bytes-length_prefixed :
    (value rest : Bytes)
    → length value < u32_bound
    → read_bytes (length_prefixed value ++ rest) ≡ ok (value, rest)
unfolding read_bytes length_prefixed
read_bytes-length_prefixed value rest h =
    rw
      (
        append_assoc (to_be_bytes 4 (length value)) value rest,
        read_u32-to_be_bytes (length value) (value ++ rest) h,
      )
      (read_take-append value rest (length value) refl)

-- A text that is pushed is UTF-8, as `&str` is.
pub read_string-push_string :
    (is_utf8 : Bytes → Bool) (value pushed rest : Bytes)
    → is_utf8 value ≡ true
    → push_string value ≡ ok pushed
    → read_string is_utf8 (pushed ++ rest) ≡ ok (value, rest)
unfolding read_string push_string
read_string-push_string is_utf8 value pushed rest valid h =
    elim (Bool-cases (ltb (length value) u32_bound)) [
      | inr long ↦ absurd (cc (rw long at h))
      | inl fits ↦
          let p : pushed ≡ length_prefixed value = cc (rw fits at h) in
          rw (p, read_bytes-length_prefixed value rest (ltb→lt _ _ fits), valid) refl
    ]

pub read_payload-push_bytes :
    (value pushed rest : Bytes)
    → push_bytes value ≡ ok pushed
    → read_payload (pushed ++ rest) ≡ ok (value, rest)
unfolding read_payload push_bytes
read_payload-push_bytes value pushed rest h =
    elim (Bool-cases (leb (length value) max_node_payload_bytes)) [
      | inr long ↦ absurd (cc (rw long at h))
      | inl short ↦ elim (Bool-cases (ltb (length value) u32_bound)) [
        | inr long ↦ absurd (cc (rw (short, long) at h))
        | inl fits ↦
            let p : pushed ≡ length_prefixed value = cc (rw (short, fits) at h) in
            rw (p, read_bytes-length_prefixed value rest (ltb→lt _ _ fits), short) refl
      ]
    ]

-- The bits of a weight are canonical.
pub read_weight-to_be_bytes :
    (weight : BaseWeight) (rest : Bytes)
    → weight.bits ≤ one_bits
    → read_weight (to_be_bytes 4 weight.bits ++ rest) ≡ ok (weight, rest)
unfolding read_weight weight_of
read_weight-to_be_bytes weight rest h =
    rw
      (
        read_u32-to_be_bytes weight.bits rest (omega arith),
        (from_bits-eq-ok_iff weight.bits weight (omega arith)).1 (h, refl),
      )
      refl

pub id_of_node : CandidateNodeReference → ℕ
id_of_node (CandidateNodeReference.confirmed id) = id
id_of_node (CandidateNodeReference.candidate id) = id

pub id_of_relation : CandidateRelationReference → ℕ
id_of_relation (CandidateRelationReference.confirmed id) = id
id_of_relation (CandidateRelationReference.candidate id) = id

pub decode-encode_node_reference :
    (reference : CandidateNodeReference) (rest : Bytes)
    → id_of_node reference < u64_bound
    → decode_node_reference (encode_node_reference reference ++ rest) ≡ ok (reference, rest)
unfolding decode_node_reference encode_node_reference read_byte id_of_node
decode-encode_node_reference (CandidateNodeReference.confirmed id) rest h =
    rw (read_u64-to_be_bytes id rest h) refl
decode-encode_node_reference (CandidateNodeReference.candidate id) rest h =
    rw (read_u64-to_be_bytes id rest h) refl

pub decode-encode_relation_reference :
    (reference : CandidateRelationReference) (rest : Bytes)
    → id_of_relation reference < u64_bound
    → decode_relation_reference (encode_relation_reference reference ++ rest) ≡ ok (reference, rest)
unfolding decode_relation_reference encode_relation_reference read_byte id_of_relation
decode-encode_relation_reference (CandidateRelationReference.confirmed id) rest h =
    rw (read_u64-to_be_bytes id rest h) refl
decode-encode_relation_reference (CandidateRelationReference.candidate id) rest h =
    rw (read_u64-to_be_bytes id rest h) refl
