-- ===== src/Routing/Profile.antt =====
-- crates/pathhydra-routing/src/profile.rs: relation multipliers, and packing a relation profile
-- into the dense order of the image's relation kinds. Vectors are reserved without failure, so
-- `ProfileError::AllocationFailed` has no counterpart.
pub mod Laws
use path_hydra.Common.{
  ℕ, zero, suc, Bool, true, false, not, ◌||◌, ◌==◌, if◌then◌else◌, Option, none, some, List, [],
  ◌∷◌, map, length, get_elem?, set, replicate, Result, ok, err, ◌>>=◌, ok_or,
}
use path_hydra.Core.{RelationId}
use path_hydra.Core.Float32.{is_finite, is_zero, is_below_zero}
use mathlib.Core.Option

pub record RelationMultiplier : Type 0 where
  pub bits : ℕ

pub data InvalidRelationMultiplier : Type 0 where
  invalid : ℕ → InvalidRelationMultiplier

-- An `f32` is its bit pattern.
unfoldable pub new : ℕ → Result InvalidRelationMultiplier RelationMultiplier
new value =
    if not (is_finite value) || is_below_zero value
    then err (invalid value)
    else ok (record { bits = if is_zero value then 0 else value })

unfoldable pub from_bits : ℕ → Result InvalidRelationMultiplier RelationMultiplier
unfolding new
from_bits bits = do
  canonical ← new bits
  if canonical.bits == bits then ok canonical else err (invalid bits)

pub data RelationUse : Type 0 where
  disabled : RelationUse
  enabled : RelationMultiplier → RelationUse

abbrev pub RelationProfile : Type 0
RelationProfile = List (RelationId × RelationUse)

pub data ProfileError : Type 0 where
  duplicate_relation missing_relation unknown_relation : RelationId → ProfileError

pub record PackedRelationProfile : Type 0 where
  pub uses : List RelationUse
  pub canonical : RelationProfile

-- `slice::binary_search`, on a slice that is sorted with no value twice: the one index at which the
-- value stands.
unfoldable pub binary_search : List ℕ → ℕ → Option ℕ
binary_search [] id = none
binary_search (x ∷ xs) id = if x == id then some 0 else Option.map suc (binary_search xs id)

-- The loop over the profile's entries: `by_index[index].replace(relation_use)`.
replace :
    RelationId
    → RelationUse
    → List (Option RelationUse)
    → ℕ
    → Option (Option RelationUse)
    → Result ProfileError (List (Option RelationUse))
replace id chosen by_index index none = err (unknown_relation id)
replace id chosen by_index index (some none) = ok (set by_index index (some chosen))
replace id chosen by_index index (some (some _)) = err (duplicate_relation id)

unfoldable pub place :
    List RelationId
    → List (Option RelationUse)
    → RelationProfile
    → Result ProfileError (List (Option RelationUse))
unfolding replace
place ids by_index [] = ok by_index
place ids by_index ((id, chosen) ∷ entries) = do
  index ← ok_or (binary_search ids id) (unknown_relation id)
  replaced ← replace id chosen by_index index (get_elem? by_index index)
  place ids replaced entries

-- The loop over the relation kinds, which fills `packed` and `canonical`.
unfoldable pub collect :
    List RelationId → List (Option RelationUse) → Result ProfileError PackedRelationProfile
collect [] by_index = ok (record { uses = []; canonical = [] })
collect (id ∷ ids) [] = err (missing_relation id)
collect (id ∷ ids) (none ∷ by_index) = err (missing_relation id)
collect (id ∷ ids) (some chosen ∷ by_index) = do
  rest ← collect ids by_index
  ok (record { uses = chosen ∷ rest.uses; canonical = (id, chosen) ∷ rest.canonical })

unfoldable pub pack_relation_ids :
    RelationProfile → List RelationId → Result ProfileError PackedRelationProfile
unfolding place collect
pack_relation_ids entries relation_ids = do
  by_index ← place relation_ids (replicate (length relation_ids) none) entries
  collect relation_ids by_index

unfoldable pub relation_use_index : PackedRelationProfile → ℕ → Option RelationUse
relation_use_index p index = get_elem? p.uses index

enabled_flag : RelationUse → ℕ
enabled_flag disabled = 0
enabled_flag (enabled _) = 1

multiplier_bits : RelationUse → ℕ
multiplier_bits disabled = 0
multiplier_bits (enabled m) = m.bits

-- Enabled flags and multiplier bits, in dense order.
unfoldable pub accelerator_arrays : PackedRelationProfile → List ℕ × List ℕ
unfolding enabled_flag multiplier_bits
accelerator_arrays p = (map enabled_flag p.uses, map multiplier_bits p.uses)
