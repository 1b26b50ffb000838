-- ===== src/Runtime/Float.antt =====
-- The two tests that src/decode/runtime.cu makes on a `float`, on its IEEE 754 binary32 bits.
use cohere_megakernel.Common.{ℕ, ◌/◌, ◌%◌, ◌^◌, Bool, ◌&&◌, ◌||◌, not, ◌==◌}

-- A float by its 32 bits.
abbrev pub Float : Type 0
Float = ℕ

-- `std::isfinite`: the exponent is not all ones.
unfoldable pub is_finite : Float → Bool
is_finite f = not (f / 2 ^ 23 % 256 == 255)

unfoldable pub sign_bit : Float → Bool
sign_bit f = not (f / 2 ^ 31 == 0)

unfoldable pub is_zero : Float → Bool
is_zero f = f % 2 ^ 31 == 0

-- `isfinite(f) && f > 0`
unfoldable pub finite_positive : Float → Bool
unfolding is_finite sign_bit is_zero
finite_positive f = is_finite f && (not (sign_bit f) && not (is_zero f))

-- `isfinite(f) && f >= 0`
unfoldable pub finite_nonnegative : Float → Bool
unfolding is_finite sign_bit is_zero
finite_nonnegative f = is_finite f && (not (sign_bit f) || is_zero f)
