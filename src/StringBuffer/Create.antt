-- ===== src/StringBuffer/Create.antt =====
-- The constructors of string_buffer, and the array that a managed_container starts with.
use native.Mathlib.Nat.{mod-eq_of_lt}
use sabot.Prelude.{
  ℕ, ltb, ltb→lt, Bool-cases, inl, inr, ◌+◌, ◌*◌, ◌%◌, ◌≤◌, ◌<◌, ◌≡◌, refl, arith, some, List, [],
  ◌∷◌, ◌++◌, length, replicate, length-replicate, length-append,
}
use sabot.Outcome.{returned}
use sabot.Utility.{word_mod, round_to_multiple}
use sabot.Utility.Rounding.{round_to_multiple_lem}
use sabot.Container.{
  Container, stack_capacity, empty_container, capacity, capacity_of, mdata, data_of, contents,
}
use sabot.Container.Laws.{IsContainer}
use sabot.Container.Grow.{add-contents}
use sabot.StringBuffer.{empty_buffer, of_string}

-- For a number asked for that is not 0 and does not wrap around, the array in the object has at least
-- as many items as asked for, and as a word has bytes; their number is the least multiple of the
-- number asked for that is at least 8.
pub stack_capacity_lem :
    (initial : ℕ)
    → 0 < initial
    → initial + 8 ≤ word_mod
    → (8 ≤ stack_capacity initial)
      × (initial ≤ stack_capacity initial)
      × (stack_capacity initial % initial ≡ 0)
      × (stack_capacity initial < 8 + initial)
unfolding stack_capacity
stack_capacity_lem initial pos small =
    let (multiple, large, least) = round_to_multiple_lem 8 initial pos (omega arith) in
    (large, at_least (round_to_multiple 8 initial) multiple large, multiple, least)
  where
    at_least : (c : ℕ) → c % initial ≡ 0 → 8 ≤ c → initial ≤ c
    at_least c multiple large = elim (Bool-cases (ltb c initial)) [
      | inl less ↦ absurd (omega (arith, mod-eq_of_lt (ltb→lt c initial less)))
      | inr enough ↦ ground arith
    ]

empty_buffer-IsContainer :
    (initial : ℕ) → 0 < initial → 2 * initial + 8 ≤ word_mod → IsContainer (empty_buffer initial)
unfolding empty_buffer empty_container capacity capacity_of mdata data_of
empty_buffer-IsContainer initial pos small =
    let n : length {A = ℕ} (replicate (stack_capacity initial) 0) ≡ stack_capacity initial =
      length-replicate (stack_capacity initial) 0 in
    let (a, b, c, least) = stack_capacity_lem initial pos (omega arith) in
    record { capacity_length = refl; count_le = omega arith; small = omega arith }

-- A buffer that is made of a C string holds the string and its terminator, whatever the size of the
-- array that it starts with, if both sizes are small enough for 64 bits and the array is not empty.
pub of_string-contents :
    (fresh : ℕ → List ℕ) (initial : ℕ) (str : List ℕ)
    → ((k : ℕ) → length (fresh k) ≡ k)
    → 0 < initial
    → 2 * initial + 8 ≤ word_mod
    → length str + 9 ≤ word_mod
    → (d : Container ℕ) × (of_string fresh initial (some str) ≡ returned d)
      × IsContainer d
      × (contents d ≡ str ++ 0 ∷ [])
unfolding of_string empty_buffer empty_container contents
of_string-contents fresh initial str sized pos small short =
    let whole = empty_buffer-IsContainer initial pos small in
    add-contents 1 fresh (empty_buffer initial) (str ++ 0 ∷ []) sized whole (omega arith)
      (omega (arith, length-append str (0 ∷ [])))
