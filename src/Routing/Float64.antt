-- ===== src/Routing/Float64.antt =====
-- Binary64 arithmetic as the search uses it. The hardware's operations are a parameter. A value is
-- its bit pattern, a number below 2 ^ 64: on the patterns of the non-negative values up to
-- infinity, which are those up to `infinity`, the order of the values, `==` and `f64::total_cmp`
-- are the order and the equality of the patterns.
use path_hydra.Common.{ℕ, ◌%◌, ◌≤◌, ◌<◌, Bool, ltb}
use path_hydra.Core.Float32.{infinity_bits}

abbrev pub infinity : ℕ
infinity = 0x7ff0000000000000

-- `f64::is_finite`: the bits without the sign are below those of infinity.
abbrev pub is_finite : ℕ → Bool
is_finite bits = ltb (bits % 0x8000000000000000) infinity

-- The fields below the three operations are IEEE-754: widening a finite binary32 is exact,
-- a product of non-negative finite values is non-negative and no NaN, and the rounded sum of
-- non-negative values is monotone in its first argument and at least that argument.
pub record Float64 : Type 0 where
  pub widen : ℕ → ℕ
  pub multiply : ℕ → ℕ → ℕ
  pub add : ℕ → ℕ → ℕ
  pub widen-lt : (a : ℕ) → a < infinity_bits → widen a < infinity
  pub multiply-le : (a b : ℕ) → a < infinity → b < infinity → multiply a b ≤ infinity
  pub add-le : (a b : ℕ) → a ≤ infinity → b < infinity → add a b ≤ infinity
  pub le-add : (a b : ℕ) → a ≤ infinity → b < infinity → a ≤ add a b
  pub add_mono : (a b c : ℕ) → a ≤ b → b ≤ infinity → c < infinity → add a c ≤ add b c
