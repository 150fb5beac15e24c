-- ===== src/Core/Weight.antt =====
-- crates/pathhydra-core/src/weight.rs: `BaseWeight` and its two checked constructors. An `f32` is
-- its bit pattern, so `f32::from_bits` and `f32::to_bits` leave no trace.
pub mod Laws
use path_hydra.Common.{ℕ, Result, ok, err, ◌>>=◌, not, ◌||◌, ◌&&◌, ◌==◌, if◌then◌else◌}
use path_hydra.Core.Float32.{is_finite, is_zero, is_below_zero, is_at_most_one, one_bits}

pub record BaseWeight : Type 0 where
  pub bits : ℕ

pub data InvalidBaseWeight : Type 0 where
  invalid : ℕ → InvalidBaseWeight

abbrev pub min_weight : BaseWeight
min_weight = record { bits = 0 }

abbrev pub max_weight : BaseWeight
max_weight = record { bits = one_bits }

unfoldable pub new : ℕ → Result InvalidBaseWeight BaseWeight
new value =
    if not (is_finite value) || not (not (is_below_zero value) && is_at_most_one value)
    then err (invalid value)
    else ok (record { bits = if is_zero value then 0 else value })

unfoldable pub from_bits : ℕ → Result InvalidBaseWeight BaseWeight
unfolding new
from_bits bits = do
  canonical ← new bits
  if canonical.bits == bits then ok canonical else err (invalid bits)
