-- ===== src/Utility/Rounding.antt =====
-- What `round_to_multiple` and `memory_overlap` compute where nothing wraps around.
use native.Mathlib.Nat.{div-mul-le_self, lt-div-mul-add, mul-mod_left}
use sabot.Prelude.{ℕ, ◌+◌, ◌-◌, ◌*◌, ◌/◌, ◌%◌, ◌<◌, ◌≤◌, ◌≡◌, ◌↔◌, arith, leb, true, if◌then◌else◌}
use sabot.Utility.{word_mod, round_to_multiple, memory_overlap}

no_wrap : (n m : ℕ) → 0 < m → n + m ≤ word_mod → (n + m + word_mod - 1) % word_mod ≡ n + m - 1
no_wrap n m h k = omega arith

-- For a `multiple` that is not 0, and where nothing wraps around, the result is the least multiple of
-- it that is at least `number`.
pub round_to_multiple_lem :
    (number multiple : ℕ)
    → 0 < multiple
    → number + multiple ≤ word_mod
    → (round_to_multiple number multiple % multiple ≡ 0)
      × (number ≤ round_to_multiple number multiple)
      × (round_to_multiple number multiple < number + multiple)
unfolding round_to_multiple
round_to_multiple_lem n m h k =
    let low : (n + m - 1) / m * m ≤ n + m - 1 = div-mul-le_self (n + m - 1) m in
    let high : n + m - 1 < (n + m - 1) / m * m + m = lt-div-mul-add h in
    let fits : (n + m - 1) / m * m % word_mod ≡ (n + m - 1) / m * m = omega arith in
    rw (no_wrap n m h k, fits) (mul-mod_left _ _, omega arith, omega arith)

-- Two arrays of bytes, neither empty nor past the end of memory, are found to overlap exactly if
-- they share an address.
pub memory_overlap_iff :
    (a a_size b b_size : ℕ)
    → 0 < a_size
    → 0 < b_size
    → a + a_size ≤ word_mod
    → b + b_size ≤ word_mod
    → (memory_overlap a a_size b b_size 1 ≡ true)
      ↔ ((x : ℕ) × (a ≤ x) × (x < a + a_size) × (b ≤ x) × (x < b + b_size))
unfolding memory_overlap
memory_overlap_iff a n b m p q u v = (
  λ e. (if leb a b then b else a, ground arith, ground arith, ground arith, ground arith),
  λ (x, h, i, j, k). ground arith,
)
