-- ===== src/Tests/Core.antt =====
-- Instances for the weights of crates/pathhydra-core and the multipliers of profile.rs.
use path_hydra.Common.{◌≡◌, refl, ◌≤◌, ◌<◌, ◌↔◌, ok, arith}
use path_hydra.Core.Float32.{one_bits, infinity_bits}
use path_hydra.Core.Weight
use path_hydra.Core.Weight.Laws.{from_bits-eq-ok_iff, new-weight_canonical}
use path_hydra.Routing.Profile
use path_hydra.Routing.Profile.Laws.{new-multiplier_canonical}

-- The negative zero, which `from_bits` does not take for the zero.
from_bits-eq-ok_iff_example :
    (Weight.from_bits 0x80000000 ≡ ok Weight.min_weight)
    ↔ ((0x80000000 ≤ one_bits) × (Weight.min_weight.bits ≡ 0x80000000))
from_bits-eq-ok_iff_example = from_bits-eq-ok_iff 0x80000000 Weight.min_weight (omega arith)

negative_zero_weight : Weight.new 0x80000000 ≡ ok Weight.min_weight
unfolding Weight.new
negative_zero_weight = refl

new-weight_canonical_example :
    (Weight.min_weight.bits ≤ one_bits)
    × (Weight.from_bits Weight.min_weight.bits ≡ ok Weight.min_weight)
new-weight_canonical_example =
    new-weight_canonical 0x80000000 Weight.min_weight (omega arith) negative_zero_weight

abbrev two : Profile.RelationMultiplier
two = record { bits = 0x40000000 }

multiplier_two : Profile.new 0x40000000 ≡ ok two
unfolding Profile.new
multiplier_two = refl

new-multiplier_canonical_example :
    (two.bits < infinity_bits) × (Profile.from_bits two.bits ≡ ok two)
new-multiplier_canonical_example =
    new-multiplier_canonical 0x40000000 two (omega arith) multiplier_two
