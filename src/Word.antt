-- ===== src/Word.antt =====
-- The words of the tableau of state/chp_state.hpp. An `int_fast64_t` or `uint_fast64_t` is its bit
-- pattern, a number below 2 ^ 64; a row keeps 32 columns in each word.
pub mod Bits
pub mod Signed
use sabot.Prelude.{ℕ, zero, suc, ◌+◌, ◌-◌, ◌^◌, ◌==◌, ltb, if◌then◌else◌, bit_and, Bool, not}

-- The conversion of a 32-bit `int`, as a bit pattern, to a 64-bit type.
unfoldable pub sign_extend : ℕ → ℕ
sign_extend w = if ltb w (2 ^ 31) then w else w + (2 ^ 64 - 2 ^ 32)

-- `1 << i` is an `int`, so that bit 31 is its sign and the result is sign-extended.
unfoldable pub pt : ℕ → ℕ
unfolding sign_extend
pt i = sign_extend (2 ^ i)

-- `w & pt(j)` as a condition.
unfoldable pub has : ℕ → ℕ → Bool
has w j = not (bit_and w (pt j) == 0)
