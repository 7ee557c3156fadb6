-- ===== src/Chp.antt =====
-- The tableau of state/chp_state.hpp, `_chp_state`. The arrays `x`, `z` and `r` are kept together
-- by row; the columns of a row are bits of its words, 32 to a word.
pub mod Gates
pub mod Rows
pub mod Measure
pub mod Init
pub mod Run
pub mod Symplectic
mod Tests
use sabot.Prelude.{
  ℕ, ◌+◌, ◌*◌, ◌/◌, ◌%◌, ◌==◌, ltb, if◌then◌else◌, bit_xor, Bool, false, ◌&&◌, ◌||◌,
}
use sabot.Word.{has}
use sabot.Loop.{update}

-- x[i], z[i] and r[i] of one row i. The phase is 0 for +1, 1 for i, 2 for -1 and 3 for -i.
pub record Row : Type 0 where
  pub x : ℕ → ℕ
  pub z : ℕ → ℕ
  pub r : ℕ

-- `allocated` says that the arrays have been allocated and not freed; they then have 2n + 1 rows
-- of `over32` words.
pub record ChpState : Type 0 where
  pub n : ℕ
  pub over32 : ℕ
  pub allocated : Bool
  pub row : ℕ → Row

-- words[q>>5]&pt(q&0x1F), as a condition.
unfoldable pub column : (ℕ → ℕ) → ℕ → Bool
column words q = has (words (q / 32)) (q % 32)

-- words[j] ^= mask
unfoldable pub xor_word : (ℕ → ℕ) → ℕ → ℕ → ℕ → ℕ
xor_word words j mask = update words j (bit_xor (words j) mask)

-- r = (r+2)%4
abbrev pub negate : Row → Row
negate w = record w { r = (w.r + 2) % 4 }

-- The rows of a tableau that holds no row yet.
abbrev pub no_rows : ℕ → Row
no_rows i = record { x = λ j. 0; z = λ j. 0; r = 0 }

-- `_chp_state()`
pub empty_state : ChpState
empty_state = record { n = 0; over32 = 0; allocated = false; row = no_rows }

-- The loops over rows read column `q` of rows below 2n + 1. Where there is such a loop and the
-- column lies outside the words of a row, or there are no rows, the source reads memory that is
-- not the row's.
unfoldable pub reachable : ChpState → ℕ → Bool
reachable s q = s.n == 0 || (s.allocated && ltb (q / 32) s.over32)
