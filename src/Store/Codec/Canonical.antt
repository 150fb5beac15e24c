-- ===== src/Store/Codec/Canonical.antt =====
-- A record has one encoding: what is read is written back as the bytes that it was read from.
use path_hydra.Common.{
  ℕ, zero, suc, ◌≤◌, ◌<◌, ◌≡◌, refl, sym, ap, ◌∙◌, inl, inr, Bool, true, ltb, leb, ◌==◌, [], ◌∷◌,
  ◌++◌, length, take, drop, All, Result, ok, err, >>=-eq-ok, holds_of_ok, Bool-cases, leb→le,
  ==_iff, arith,
}
use path_hydra.Core.{Bytes, max_node_payload_bytes, NodeRecord, EdgeRecord}
use path_hydra.Core.Float32.{u32_bound}
use path_hydra.Core.Weight.{BaseWeight, InvalidBaseWeight, from_bits}
use path_hydra.Store.Codec.{
  to_be_bytes, from_be_bytes, read_take, read_u32, read_u64, read_bytes, read_payload, read_weight,
  weight_of, read_string, finish, checked_id, push_string, push_bytes, length_prefixed, decode_node,
  encode_node, decode_edge, encode_edge,
}
use path_hydra.Store.Codec.Numbers.{IsByte, to_be_bytes-from_be_bytes, from_be_bytes-lt}
use mathlib.Core.List.{append-nil, append_assoc}

-- A read took `front` from the bytes, and left `rest`.
record Took (front rest bytes : Bytes) : Type 0 where
  pub split : bytes ≡ front ++ rest
  pub front_bytes : All IsByte front
  pub rest_bytes : All IsByte rest

split_at :
    (n : ℕ) (bytes : Bytes)
    → n ≤ length bytes
    → All IsByte bytes
    → Took (take n bytes) (drop n bytes) bytes × (length (take n bytes) ≡ n)
split_at zero bytes h a = (record { split = refl; front_bytes = tt; rest_bytes = a }, refl)
split_at (suc n) [] h a = absurd (omega arith)
split_at (suc n) (b ∷ bytes) h (x, a) =
    let (t, l) = split_at n bytes (omega arith) a in
    (
      record {
        split = ap (◌∷◌ b) t.split;
        front_bytes = (x, t.front_bytes);
        rest_bytes = t.rest_bytes;
      },
      ap suc l,
    )

read_take-Took :
    (n : ℕ) (bytes front rest : Bytes)
    → All IsByte bytes
    → read_take n bytes ≡ ok (front, rest)
    → Took front rest bytes × (length front ≡ n)
unfolding read_take
read_take-Took n bytes front rest a e = elim (Bool-cases (leb n (length bytes))) [
  | inr short ↦ absurd (cc (rw short at e))
  | inl fits ↦
      holds_of_ok {A = Bytes × Bytes} (λ p. Took p.0 p.1 bytes × (length p.0 ≡ n))
        {a = (take n bytes, drop n bytes)} (split_at n bytes (leb→le _ _ fits) a) (rw fits at e)
]

read_u32-Took :
    (bytes rest : Bytes) (v : ℕ)
    → All IsByte bytes
    → read_u32 bytes ≡ ok (v, rest)
    → Took (to_be_bytes 4 v) rest bytes × (v < u32_bound)
unfolding read_u32
read_u32-Took bytes rest v a e =
    let ((front, after), taken, e1) = >>=-eq-ok (read_take 4 bytes) _ e in
    let (t, l) = read_take-Took 4 bytes front after a taken in
    let back = to_be_bytes-from_be_bytes front t.front_bytes in
    let small = from_be_bytes-lt front t.front_bytes in
    holds_of_ok {A = ℕ × Bytes} (λ p. Took (to_be_bytes 4 p.0) p.1 bytes × (p.0 < u32_bound))
      {a = (from_be_bytes 0 front, after)} (rw (rw l at back) t, omega (arith, rw l at small)) e1

read_u64-Took :
    (bytes rest : Bytes) (v : ℕ)
    → All IsByte bytes
    → read_u64 bytes ≡ ok (v, rest)
    → Took (to_be_bytes 8 v) rest bytes
unfolding read_u64
read_u64-Took bytes rest v a e =
    let ((front, after), taken, e1) = >>=-eq-ok (read_take 8 bytes) _ e in
    let (t, l) = read_take-Took 8 bytes front after a taken in
    let back = to_be_bytes-from_be_bytes front t.front_bytes in
    holds_of_ok {A = ℕ × Bytes} (λ p. Took (to_be_bytes 8 p.0) p.1 bytes)
      {a = (from_be_bytes 0 front, after)} (rw (rw l at back) t) e1

-- Two reads, one after the other.
Took-append :
    {first second rest middle bytes : Bytes}
    → Took first middle bytes
    → Took second rest middle
    → Took (first ++ second) rest bytes
Took-append {first} {second} {rest} {middle} {bytes} t u = record {
  split = t.split ∙ ap (◌++◌ first) u.split ∙ sym (append_assoc first second rest);
  front_bytes = All-append first second t.front_bytes u.front_bytes;
  rest_bytes = u.rest_bytes;
}
  where
    All-append : (xs ys : Bytes) → All IsByte xs → All IsByte ys → All IsByte (xs ++ ys)
    All-append [] ys a b = b
    All-append (x ∷ xs) ys (h, a) b = (h, All-append xs ys a b)

read_bytes-Took :
    (bytes rest value : Bytes)
    → All IsByte bytes
    → read_bytes bytes ≡ ok (value, rest)
    → Took (length_prefixed value) rest bytes × (length value < u32_bound)
unfolding read_bytes length_prefixed
read_bytes-Took bytes rest value a e =
    let ((n, middle), p, e1) = >>=-eq-ok (read_u32 bytes) _ e in
    let (t, small) = read_u32-Took bytes middle n a p in
    let (u, l) = read_take-Took n middle value rest t.rest_bytes e1 in
    (rw l (Took-append t u), omega (arith, small, l))

read_payload-Took :
    (bytes rest value : Bytes)
    → All IsByte bytes
    → read_payload bytes ≡ ok (value, rest)
    → Took (length_prefixed value) rest bytes × (push_bytes value ≡ ok (length_prefixed value))
unfolding read_payload push_bytes
read_payload-Took bytes rest value a e =
    let ((v, after), p, e1) = >>=-eq-ok (read_bytes bytes) _ e in
    let (t, small) = read_bytes-Took bytes after v a p in
    elim (Bool-cases (leb (length v) max_node_payload_bytes)) [
      | inr long ↦ absurd (cc (rw long at e1))
      | inl short ↦
          let fits : ltb (length v) u32_bound ≡ true = ground (arith, small) in
          holds_of_ok {A = Bytes × Bytes}
            (λ x.
              Took (length_prefixed x.0) x.1 bytes × (push_bytes x.0 ≡ ok (length_prefixed x.0)))
            {a = (v, after)} (t, rw (short, fits) refl) (rw short at e1)
    ]

module _ (is_utf8 : Bytes → Bool) where
  read_string-Took :
      (bytes rest value : Bytes)
      → All IsByte bytes
      → read_string is_utf8 bytes ≡ ok (value, rest)
      → Took (length_prefixed value) rest bytes × (push_string value ≡ ok (length_prefixed value))
  unfolding read_string push_string
  read_string-Took bytes rest value a e =
      let ((v, after), p, e1) = >>=-eq-ok (read_bytes bytes) _ e in
      let (t, small) = read_bytes-Took bytes after v a p in
      elim (Bool-cases (is_utf8 v)) [
        | inr invalid ↦ absurd (cc (rw invalid at e1))
        | inl valid ↦
            let fits : ltb (length v) u32_bound ≡ true = ground (arith, small) in
            holds_of_ok {A = Bytes × Bytes}
              (λ x.
                Took (length_prefixed x.0) x.1 bytes × (push_string x.0 ≡ ok (length_prefixed x.0)))
              {a = (v, after)} (t, rw fits refl) (rw valid at e1)
      ]

weight_of-eq-ok :
    (bits : ℕ) (r : Result InvalidBaseWeight BaseWeight) (weight : BaseWeight)
    → weight_of bits r ≡ ok weight
    → r ≡ ok weight
unfolding weight_of
weight_of-eq-ok bits (ok w) weight e = cc e
weight_of-eq-ok bits (err x) weight e = absurd (cc e)

from_bits-bits : (bits : ℕ) (weight : BaseWeight) → from_bits bits ≡ ok weight → weight.bits ≡ bits
unfolding from_bits
from_bits-bits bits weight e = ground arith

read_weight-Took :
    (bytes rest : Bytes) (weight : BaseWeight)
    → All IsByte bytes
    → read_weight bytes ≡ ok (weight, rest)
    → Took (to_be_bytes 4 weight.bits) rest bytes
unfolding read_weight
read_weight-Took bytes rest weight a e =
    let ((bits, after), p, e1) = >>=-eq-ok (read_u32 bytes) _ e in
    let (t, small) = read_u32-Took bytes after bits a p in
    let (w, q, e2) = >>=-eq-ok (weight_of bits (from_bits bits)) _ e1 in
    let same = from_bits-bits bits w (weight_of-eq-ok bits (from_bits bits) w q) in
    holds_of_ok {A = BaseWeight × Bytes} (λ x. Took (to_be_bytes 4 x.0.bits) x.1 bytes)
      {a = (w, after)} (rw same t) e2

checked_id-Took :
    (bytes rest : Bytes) (id expected : ℕ)
    → All IsByte bytes
    → checked_id bytes expected ≡ ok (id, rest)
    → Took (to_be_bytes 8 id) rest bytes × (id ≡ expected)
unfolding checked_id
checked_id-Took bytes rest id expected a e =
    let ((found, after), p, e1) = >>=-eq-ok (read_u64 bytes) _ e in
    let t = read_u64-Took bytes after found a p in
    elim (Bool-cases (found == expected)) [
      | inr other ↦ absurd (cc (rw other at e1))
      | inl same ↦
          holds_of_ok {A = ℕ × Bytes} (λ x. Took (to_be_bytes 8 x.0) x.1 bytes × (x.0 ≡ expected))
            {a = (found, after)} (t, (==_iff found expected).0 same) (rw same at e1)
    ]

-- Nothing is left behind the last read.
finish-Took :
    (rest : Bytes) {front bytes : Bytes}
    → Took front rest bytes
    → finish rest ≡ ok tt
    → bytes ≡ front
unfolding finish
finish-Took [] {front} t e = t.split ∙ append-nil front
finish-Took (x ∷ rest) t e = absurd (cc e)

-- Where bytes are read as an edge record, its identity is the expected one, and writing it gives those
-- bytes.
pub encode_edge-decode_edge :
    (bytes : Bytes) (expected : ℕ) (e : EdgeRecord)
    → All IsByte bytes
    → decode_edge bytes expected ≡ ok e
    → (encode_edge e ≡ bytes) × (e.id ≡ expected)
unfolding decode_edge encode_edge
encode_edge-decode_edge bytes expected e a h =
    let ((id, r1), p1, h1) = >>=-eq-ok (checked_id bytes expected) _ h in
    let (t1, same) = checked_id-Took bytes r1 id expected a p1 in
    let ((source, r2), p2, h2) = >>=-eq-ok (read_u64 r1) _ h1 in
    let t2 = read_u64-Took r1 r2 source t1.rest_bytes p2 in
    let ((destination, r3), p3, h3) = >>=-eq-ok (read_u64 r2) _ h2 in
    let t3 = read_u64-Took r2 r3 destination t2.rest_bytes p3 in
    let ((relation, r4), p4, h4) = >>=-eq-ok (read_u64 r3) _ h3 in
    let t4 = read_u64-Took r3 r4 relation t3.rest_bytes p4 in
    let ((weight, r5), p5, h5) = >>=-eq-ok (read_weight r4) _ h4 in
    let t5 = read_weight-Took r4 r5 weight t4.rest_bytes p5 in
    let (_, p6, h6) = >>=-eq-ok (finish r5) _ h5 in
    let whole =
      finish-Took r5 (Took-append t1 (Took-append t2 (Took-append t3 (Took-append t4 t5)))) p6 in
    holds_of_ok (λ x. (encode_edge x ≡ bytes) × (x.id ≡ expected)) (sym whole, same) h6

-- Where bytes are read as a node record, its identity is the expected one, and writing it gives those
-- bytes.
pub encode_node-decode_node :
    (is_utf8 : Bytes → Bool) (bytes : Bytes) (expected : ℕ) (r : NodeRecord)
    → All IsByte bytes
    → decode_node is_utf8 bytes expected ≡ ok r
    → (encode_node r ≡ ok bytes) × (r.id ≡ expected)
unfolding decode_node encode_node
encode_node-decode_node is_utf8 bytes expected r a h =
    let ((id, r1), p1, h1) = >>=-eq-ok (checked_id bytes expected) _ h in
    let (t1, same) = checked_id-Took bytes r1 id expected a p1 in
    let ((name, r2), p2, h2) = >>=-eq-ok (read_string is_utf8 r1) _ h1 in
    let (t2, named) = read_string-Took is_utf8 r1 r2 name t1.rest_bytes p2 in
    let ((payload, r3), p3, h3) = >>=-eq-ok (read_payload r2) _ h2 in
    let (t3, paid) = read_payload-Took r2 r3 payload t2.rest_bytes p3 in
    let (_, p4, h4) = >>=-eq-ok (finish r3) _ h3 in
    let whole = finish-Took r3 (Took-append t1 (Took-append t2 t3)) p4 in
    holds_of_ok (λ x. (encode_node x ≡ ok bytes) × (x.id ≡ expected))
      (rw (named, paid) (ap ok (sym whole)), same) h4
