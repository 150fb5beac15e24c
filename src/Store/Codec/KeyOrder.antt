-- ===== src/Store/Codec/KeyOrder.antt =====
-- The order of the keys in a column family, which is the order of their bytes.
use path_hydra.Common.{
  ℕ, zero, suc, ◌/◌, ◌%◌, ◌^◌, ◌<◌, ◌≡◌, refl, Bool, true, false, ◌||◌, ◌&&◌, ltb, ◌==◌, some, [],
  ◌∷◌, ◌++◌, ok, arith,
}
use path_hydra.Core.{Bytes, u64_bound, RelationRecord, total_reference_count, checked_add}
use path_hydra.Store.Codec.{to_be_bytes, encode_id_key, encode_popularity_key, complement}
use mathlib.Core.List.{append-nil, append_assoc}

-- Whether the first key stands before the second.
unfoldable pub comes_before : Bytes → Bytes → Bool
comes_before [] [] = false
comes_before [] (_ ∷ _) = true
comes_before (_ ∷ _) [] = false
comes_before (x ∷ xs) (y ∷ ys) = ltb x y || x == y && comes_before xs ys

comes_before-to_be_bytes :
    (width a b : ℕ) (xs ys : Bytes)
    → a < 256 ^ width
    → b < 256 ^ width
    → comes_before (to_be_bytes width a ++ xs) (to_be_bytes width b ++ ys)
      ≡ (ltb a b || a == b && comes_before xs ys)
unfolding to_be_bytes comes_before
comes_before-to_be_bytes zero a b xs ys h k = ground arith
comes_before-to_be_bytes (suc width) a b xs ys h k =
    let high =
      comes_before-to_be_bytes width (a / 256) (b / 256) (a % 256 ∷ xs) (b % 256 ∷ ys) (omega arith)
        (omega arith) in
    rw
      (
        append_assoc (to_be_bytes width (a / 256)) (a % 256 ∷ []) xs,
        append_assoc (to_be_bytes width (b / 256)) (b % 256 ∷ []) ys,
        high,
      )
      (ground arith)

-- The key of an identity stands before another exactly where the identity is less.
pub comes_before-encode_id_key :
    (a b : ℕ)
    → a < u64_bound
    → b < u64_bound
    → comes_before (encode_id_key a) (encode_id_key b) ≡ ltb a b
unfolding encode_id_key comes_before
comes_before-encode_id_key a b h k =
    let r =
      rw (append-nil (to_be_bytes 8 a), append-nil (to_be_bytes 8 b)) at
        (comes_before-to_be_bytes 8 a b [] [] (omega arith) (omega arith)) in
    ground arith

complement-lt : (n : ℕ) → complement n < 256 ^ 8
unfolding complement
complement-lt n = omega arith

ltb-complement :
    (a b : ℕ) → a < u64_bound → b < u64_bound → ltb (complement a) (complement b) ≡ ltb b a
unfolding complement
ltb-complement a b h k = ground arith

==-complement :
    (a b : ℕ) → a < u64_bound → b < u64_bound → (complement a == complement b) ≡ (a == b)
unfolding complement
==-complement a b h k = ground arith

total_bounds :
    (r : RelationRecord) (total : ℕ)
    → total_reference_count r ≡ some total
    → (total < u64_bound) × (r.confirmed_edge_count < u64_bound)
unfolding total_reference_count checked_add
total_bounds r total t = ground arith

-- The popularity keys of two relations with `u64` identities and totals compare, as bytes, by falling
-- total, then by falling confirmed count, then by rising identity.
pub comes_before-encode_popularity_key :
    (r s : RelationRecord) (total total' : ℕ) (key key' : Bytes)
    → r.id < u64_bound
    → s.id < u64_bound
    → total_reference_count r ≡ some total
    → total_reference_count s ≡ some total'
    → encode_popularity_key r ≡ ok key
    → encode_popularity_key s ≡ ok key'
    → comes_before key key' ≡ (
        ltb total' total
        || total == total'
          && (ltb s.confirmed_edge_count r.confirmed_edge_count
              || r.confirmed_edge_count == s.confirmed_edge_count && ltb r.id s.id))
unfolding encode_popularity_key encode_id_key
comes_before-encode_popularity_key r s total total' key key' h k t u e e' =
    let part = total_bounds r total t in
    let part' = total_bounds s total' u in
    let low : Bytes = to_be_bytes 8 r.id in
    let low' : Bytes = to_be_bytes 8 s.id in
    let mid : Bytes = to_be_bytes 8 (complement r.confirmed_edge_count) ++ low in
    let mid' : Bytes = to_be_bytes 8 (complement s.confirmed_edge_count) ++ low' in
    let p : key ≡ to_be_bytes 8 (complement total) ++ mid = cc (rw t at e) in
    let p' : key' ≡ to_be_bytes 8 (complement total') ++ mid' = cc (rw u at e') in
    rw
      (
        p,
        p',
        comes_before-to_be_bytes 8 (complement total) (complement total') mid mid'
            (complement-lt total) (complement-lt total'),
        comes_before-to_be_bytes 8 (complement r.confirmed_edge_count)
            (complement s.confirmed_edge_count) low low' (complement-lt r.confirmed_edge_count)
            (complement-lt s.confirmed_edge_count),
        comes_before-encode_id_key r.id s.id h k,
        ltb-complement total total' part.0 part'.0,
        ==-complement total total' part.0 part'.0,
        ltb-complement r.confirmed_edge_count s.confirmed_edge_count part.1 part'.1,
        ==-complement r.confirmed_edge_count s.confirmed_edge_count part.1 part'.1,
      )
      refl
