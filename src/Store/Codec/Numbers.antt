-- ===== src/Store/Codec/Numbers.antt =====
-- Big-endian numbers.
use path_hydra.Common.{
  ℕ, zero, suc, ◌+◌, ◌*◌, ◌/◌, ◌%◌, ◌^◌, ◌≤◌, ◌<◌, ◌≡◌, refl, sym, ap, ◌∙◌, [], ◌∷◌, ◌++◌, length,
  length-append, All, arith,
}
use path_hydra.Core.{Bytes}
use path_hydra.Store.Codec.{to_be_bytes, from_be_bytes}
use native.Mathlib.Nat.{add-zero, zero-add, mul_assoc}
use mathlib.Core.List.{append-nil, append_assoc}

abbrev pub IsByte : ℕ → Type 0
IsByte b = b < 256

pub length-to_be_bytes : (width value : ℕ) → length (to_be_bytes width value) ≡ width
unfolding to_be_bytes
length-to_be_bytes zero value = refl
length-to_be_bytes (suc width) value = omega (
  arith,
  length-append (to_be_bytes width (value / 256)) (value % 256 ∷ []),
  length-to_be_bytes width (value / 256),
)

pub to_be_bytes-IsByte : (width value : ℕ) → All IsByte (to_be_bytes width value)
unfolding to_be_bytes
to_be_bytes-IsByte zero value = tt
to_be_bytes-IsByte (suc width) value =
    snoc (to_be_bytes width (value / 256)) (value % 256) (to_be_bytes-IsByte width (value / 256))
      (omega arith)
  where
    snoc : (bytes : Bytes) (b : ℕ) → All IsByte bytes → b < 256 → All IsByte (bytes ++ b ∷ [])
    snoc [] b a h = (h, tt)
    snoc (x ∷ bytes) b (a, rest) h = (a, snoc bytes b rest h)

from_be_bytes-snoc :
    (high : ℕ) (bytes : Bytes) (b : ℕ)
    → from_be_bytes high (bytes ++ b ∷ []) ≡ from_be_bytes high bytes * 256 + b
unfolding from_be_bytes
from_be_bytes-snoc high [] b = refl
from_be_bytes-snoc high (x ∷ bytes) b = from_be_bytes-snoc (high * 256 + x) bytes b

pub from_be_bytes-to_be_bytes :
    (width value : ℕ) → value < 256 ^ width → from_be_bytes 0 (to_be_bytes width value) ≡ value
unfolding from_be_bytes to_be_bytes
from_be_bytes-to_be_bytes zero value h = omega arith
from_be_bytes-to_be_bytes (suc width) value h =
    let small : value / 256 < 256 ^ width = omega arith in
    let rest = from_be_bytes-to_be_bytes width (value / 256) small in
    from_be_bytes-snoc 0 (to_be_bytes width (value / 256)) (value % 256) ∙ omega (arith, rest)

to_be_bytes-from :
    (width high : ℕ) (bytes : Bytes)
    → All IsByte bytes
    → to_be_bytes (width + length bytes) (from_be_bytes high bytes)
      ≡ to_be_bytes width high ++ bytes
unfolding from_be_bytes to_be_bytes
to_be_bytes-from width high [] a = rw (add-zero, append-nil) refl
to_be_bytes-from width high (b ∷ bytes) (h, a) =
    let rest = to_be_bytes-from (suc width) (high * 256 + b) bytes a in
    let x : width + suc (length bytes) ≡ suc width + length bytes = omega arith in
    let y : (high * 256 + b) / 256 ≡ high = omega arith in
    let z : (high * 256 + b) % 256 ≡ b = omega arith in
    rw x (rest ∙ rw (y, z) (append_assoc (to_be_bytes width high) (b ∷ []) bytes))

-- The bytes of a number determine it, and every list of bytes is the bytes of its number.
pub to_be_bytes-from_be_bytes :
    (bytes : Bytes) → All IsByte bytes → to_be_bytes (length bytes) (from_be_bytes 0 bytes) ≡ bytes
unfolding to_be_bytes
to_be_bytes-from_be_bytes bytes a =
    ap (λ w. to_be_bytes w (from_be_bytes 0 bytes)) (sym (zero-add (length bytes)))
    ∙ to_be_bytes-from 0 0 bytes a

pow_suc : (n : ℕ) → 256 ^ suc n ≡ 256 * 256 ^ n
pow_suc n = omega arith

shift_bound :
    (high b power x : ℕ)
    → b < 256
    → x < (high * 256 + b + 1) * power
    → x < (high + 1) * (256 * power)
shift_bound high b power x h k =
    let step : (high * 256 + b + 1) * power ≤ ((high + 1) * 256) * power = grind arith in
    let same : ((high + 1) * 256) * power ≡ (high + 1) * (256 * power) =
      mul_assoc (high + 1) 256 power in
    omega (arith, step, same)

from_be_bytes_bound :
    (high : ℕ) (bytes : Bytes)
    → All IsByte bytes
    → from_be_bytes high bytes < (high + 1) * 256 ^ length bytes
unfolding from_be_bytes
from_be_bytes_bound high [] a = omega arith
from_be_bytes_bound high (b ∷ bytes) (h, a) =
    let rest = from_be_bytes_bound (high * 256 + b) bytes a in
    let power : 256 ^ length (b ∷ bytes) ≡ 256 * 256 ^ length bytes = pow_suc (length bytes) in
    rw power (shift_bound high b (256 ^ length bytes) (from_be_bytes (high * 256 + b) bytes) h rest)

pub from_be_bytes-lt :
    (bytes : Bytes) → All IsByte bytes → from_be_bytes 0 bytes < 256 ^ length bytes
from_be_bytes-lt bytes a = let h = from_be_bytes_bound 0 bytes a in omega arith
