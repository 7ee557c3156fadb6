-- ===== src/Chp/Rows/Multiply.antt =====
-- `rowmult` multiplies the operators of two rows.
use sabot.Prelude.{ℕ, zero, suc, ◌+◌, ◌*◌, ◌/◌, ◌%◌, ◌<◌, ◌≡◌, ◌≢◌, refl, arith, Bool, xor}
use sabot.Prelude.Int.{ℤ, pos, negsuc, ◌+ℤ◌, pos_part, neg_part, +ℤ_parts}
use sabot.Word.{has}
use sabot.Pauli.{product, of_bits}
use sabot.Loop.{for_below, for_below_inv, update_self, update_ne}
use sabot.Chp.{Row, ChpState, column}
use native.Mathlib.Decide.{ℕ_discrete}
use sabot.Chp.Gates.Conjugation.{IsRow, letter}
use sabot.Chp.Gates.Refinement.{IsTableau}
use sabot.Chp.Rows.{clifford_step, clifford_sum, clifford, to_phase, xor_words, rowmult}
use sabot.Chp.Rows.Words.{column-xor_words, xor_words-IsSigned}

-- An exponent of i, which counts modulo 4.
abbrev residue : ℤ → ℕ
residue e = (pos_part e + 3 * neg_part e) % 4

residue-+ℤ : (a b : ℤ) → residue (a +ℤ b) ≡ (residue a + residue b) % 4
residue-+ℤ a b = omega (arith, +ℤ_parts a b)

to_phase-residue : (e : ℤ) → to_phase e ≡ residue e
unfolding to_phase
to_phase-residue (pos e) = ground arith
to_phase-residue (negsuc e) = ground arith

-- The power of i that the products on the first `count` qubits give together.
pub power_sum : ℕ → Row → Row → ℕ
power_sum zero b a = 0
power_sum (suc k) b a = power_sum k b a + (product (letter b k) (letter a k)).power

letter_place :
    (w : Row) (i j : ℕ) → j < 32 → letter w (32 * i + j) ≡ of_bits (has (w.x i) j) (has (w.z i) j)
unfolding column
letter_place w i j h = rw (quotient, remainder)
  where
    quotient : (32 * i + j) / 32 ≡ i
    quotient = omega arith

    remainder : (32 * i + j) % 32 ≡ j
    remainder = omega arith

clifford_step-residue :
    (a b : Row) (i j : ℕ) (e : ℤ)
    → j < 32
    → residue (clifford_step a b i j e)
      ≡ (residue e + (product (letter b (32 * i + j)) (letter a (32 * i + j))).power) % 4
unfolding clifford_step
clifford_step-residue a b i j e h =
    rw (letter_place a i j h, letter_place b i j h)
      (ground (arith, residue-+ℤ e (pos 1), residue-+ℤ e (negsuc 0)))

module _ (a b : Row) where
  abbrev Counts : ℕ → ℤ → Type 0
  Counts k e = residue e ≡ power_sum k b a % 4

  clifford_step-Counts :
      (i j : ℕ) (e : ℤ)
      → j < 32
      → Counts (32 * i + j) e
      → Counts (32 * i + suc j) (clifford_step a b i j e)
  unfolding power_sum
  clifford_step-Counts i j e h c =
      rw (next_place i j) (omega (arith, clifford_step-residue a b i j e h))
    where
      next_place : (i j : ℕ) → 32 * i + suc j ≡ suc (32 * i + j)
      next_place i j = omega arith

  word-Counts :
      (i : ℕ) (e : ℤ)
      → Counts (32 * i) e
      → Counts (32 * suc i) (for_below 32 (λ j d. clifford_step a b i j d) e)
  word-Counts i e c = rw (next_word i) (
      for_below_inv (λ j. Counts (32 * i + j)) (λ j d. clifford_step a b i j d) 32
        (λ j d h g. clifford_step-Counts i j d h g) e (rw (first_place i) c))
    where
      next_word : (i : ℕ) → 32 * suc i ≡ 32 * i + 32
      next_word i = omega arith

      first_place : (i : ℕ) → 32 * i + 0 ≡ 32 * i
      first_place i = omega arith

  pub clifford_sum-Counts : (over32 : ℕ) → Counts (32 * over32) (clifford_sum over32 a b)
  unfolding clifford_sum
  clifford_sum-Counts over32 =
      for_below_inv (λ i. Counts (32 * i)) (λ i e. for_below 32 (λ j d. clifford_step a b i j d) e)
        over32 (λ i e h g. word-Counts i e g) (pos 0) (unfold power_sum in refl)

-- `w` is the product of the rows b and a on `count` qubits.
pub record IsProduct (count : ℕ) (b a w : Row) : Type 0 where
  pub letters : (k : ℕ) → k < count → letter w k ≡ (product (letter b k) (letter a k)).operator
  pub phase : w.r ≡ (power_sum count b a + a.r + b.r) % 4

module _ (s : ChpState) (a b : ℕ) (ha : IsRow (s.row a)) (hb : IsRow (s.row b)) where
  clifford_lem :
      clifford s a b
      ≡ (power_sum (32 * s.over32) (s.row b) (s.row a) + (s.row a).r + (s.row b).r) % 4
  unfolding clifford
  clifford_lem = omega (
    arith,
    to_phase-residue
        (clifford_sum s.over32 (s.row a) (s.row b) +ℤ pos (s.row a).r +ℤ pos (s.row b).r),
    residue-+ℤ (clifford_sum s.over32 (s.row a) (s.row b) +ℤ pos (s.row a).r) (pos (s.row b).r),
    residue-+ℤ (clifford_sum s.over32 (s.row a) (s.row b)) (pos (s.row a).r),
    clifford_sum-Counts (s.row a) (s.row b) s.over32,
  )

  of_bits-product :
      (x z x' z' : Bool)
      → of_bits (xor x x') (xor z z') ≡ (product (of_bits x' z') (of_bits x z)).operator
  of_bits-product x z x' z' = ground arith

  multiplied : Row
  multiplied = record {
    x = xor_words s.over32 (s.row a).x (s.row b).x;
    z = xor_words s.over32 (s.row a).z (s.row b).z;
    r = clifford s a b;
  }

  rowmult_self : (rowmult s a b).row a ≡ multiplied
  unfolding rowmult multiplied
  rowmult_self = update_self s.row a multiplied

  -- On rows of sign-extended words, `rowmult` leaves in row a the product of the operators of rows b and
  -- a, with its phase.
  pub rowmult-IsProduct : IsProduct (32 * s.over32) (s.row b) (s.row a) ((rowmult s a b).row a)
  unfolding multiplied
  rowmult-IsProduct = rw rowmult_self (record {
    letters = λ k lt.
        rw
          (
            column-xor_words s.over32 _ _ ha.x_signed hb.x_signed k lt,
            column-xor_words s.over32 _ _ ha.z_signed hb.z_signed k lt,
          )
          (of_bits-product (column (s.row a).x k) (column (s.row a).z k) (column (s.row b).x k)
            (column (s.row b).z k));
    phase = clifford_lem;
  })

  pub rowmult-IsRow : IsRow ((rowmult s a b).row a)
  unfolding multiplied
  rowmult-IsRow = rw rowmult_self (record {
    x_signed = xor_words-IsSigned s.over32 _ _ ha.x_signed hb.x_signed;
    z_signed = xor_words-IsSigned s.over32 _ _ ha.z_signed hb.z_signed;
  })

  pub column-rowmult :
      (k : ℕ)
      → k < 32 * s.over32
      → column ((rowmult s a b).row a).x k ≡ xor (column (s.row a).x k) (column (s.row b).x k)
  unfolding multiplied
  column-rowmult k lt = rw rowmult_self (column-xor_words s.over32 _ _ ha.x_signed hb.x_signed k lt)

-- No other row changes.
pub rowmult_ne : (s : ChpState) (a b i : ℕ) → i ≢ a → (rowmult s a b).row i ≡ s.row i
unfolding rowmult
rowmult_ne s a b i h = update_ne s.row a i _ h

pub rowmult-IsTableau : (s : ChpState) (a b : ℕ) → IsTableau s → IsTableau (rowmult s a b)
rowmult-IsTableau s a b h = record {
  rows = λ i. elim (ℕ_discrete i a) [
    | yes e ↦ rw e (rowmult-IsRow s a b (h.rows a) (h.rows b))
    | no e ↦ rw (rowmult_ne s a b i e) (h.rows i)
  ];
}

pub rowmult_shape :
    (s : ChpState) (a b : ℕ)
    → ((rowmult s a b).n ≡ s.n)
      × ((rowmult s a b).over32 ≡ s.over32)
      × ((rowmult s a b).allocated ≡ s.allocated)
unfolding rowmult
rowmult_shape s a b = (refl, refl, refl)
