-- ===== src/Core/Float32.antt =====
-- The tests that the code makes on an `f32`, on its IEEE-754 binary32 bit pattern (a number below
-- 2 ^ 32): the top bit is the sign, and the other bits order the magnitudes. A magnitude of
-- 0x7f800000 is an infinity, and one above it is a NaN.
use path_hydra.Common.{ℕ, ◌%◌, ◌^◌, Bool, ltb, leb, ◌==◌, ◌&&◌, ◌||◌}

abbrev pub u32_bound : ℕ
u32_bound = 2 ^ 32

abbrev pub sign_bit : ℕ
sign_bit = 0x80000000

abbrev pub infinity_bits : ℕ
infinity_bits = 0x7f800000

abbrev pub one_bits : ℕ
one_bits = 0x3f800000

abbrev pub magnitude : ℕ → ℕ
magnitude bits = bits % sign_bit

abbrev pub is_negative : ℕ → Bool
is_negative bits = leb sign_bit bits

-- `f32::is_finite`
abbrev pub is_finite : ℕ → Bool
is_finite bits = ltb (magnitude bits) infinity_bits

-- `value == 0.0`, true of both zeros.
abbrev pub is_zero : ℕ → Bool
is_zero bits = magnitude bits == 0

-- `value < 0.0` of a value that is no NaN.
abbrev pub is_below_zero : ℕ → Bool
is_below_zero bits = is_negative bits && ltb 0 (magnitude bits)

-- `value <= 1.0` of a value that is no NaN.
abbrev pub is_at_most_one : ℕ → Bool
is_at_most_one bits = is_negative bits || leb (magnitude bits) one_bits
