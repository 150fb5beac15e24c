-- ===== src/Core/Weight/Laws.antt =====
-- What the constructors of `BaseWeight` accept, and that the stored form is canonical.
use path_hydra.Common.{ℕ, ◌≤◌, ◌<◌, ◌≡◌, ◌↔◌, ok, arith}
use path_hydra.Core.Float32.{one_bits, u32_bound}
use path_hydra.Core.Weight.{BaseWeight, new, from_bits}

-- Of the 32-bit patterns, `from_bits` accepts exactly those of +0.0 to 1.0, and what it then stores
-- is the pattern unchanged, and nothing else.
pub from_bits-eq-ok_iff :
    (bits : ℕ) (w : BaseWeight)
    → bits < u32_bound
    → (from_bits bits ≡ ok w) ↔ ((bits ≤ one_bits) × (w.bits ≡ bits))
unfolding from_bits
from_bits-eq-ok_iff bits w h = ground arith

-- Of a 32-bit pattern, `new` stores a pattern that `from_bits` gives back, so a stored weight is canonical: at most 1.0,
-- and never the negative zero.
pub new-weight_canonical :
    (value : ℕ) (w : BaseWeight)
    → value < u32_bound
    → new value ≡ ok w
    → (w.bits ≤ one_bits) × (from_bits w.bits ≡ ok w)
unfolding from_bits
new-weight_canonical value w h e = ground arith
