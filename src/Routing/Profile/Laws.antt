-- ===== src/Routing/Profile/Laws.antt =====
-- Multipliers are canonical.
use path_hydra.Common.{ℕ, ◌<◌, ◌≡◌, ok, arith}
use path_hydra.Core.Float32.{infinity_bits, u32_bound}
use path_hydra.Routing.Profile.{RelationMultiplier, new, from_bits}

-- The pattern that `new` stores of a 32-bit one is that of a finite value with no sign, and `from_bits` gives the
-- multiplier back.
pub new-multiplier_canonical :
    (value : ℕ) (m : RelationMultiplier)
    → value < u32_bound
    → new value ≡ ok m
    → (m.bits < infinity_bits) × (from_bits m.bits ≡ ok m)
unfolding from_bits
new-multiplier_canonical value m h e = ground arith
