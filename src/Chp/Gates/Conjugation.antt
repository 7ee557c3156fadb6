-- ===== src/Chp/Gates/Conjugation.antt =====
-- The gates act on each row as conjugation acts on the Pauli operator that the row stands for.
use sabot.Prelude.{ℕ, ◌+◌, ◌%◌, ◌≡◌, ◌≢◌, arith, ◌==◌, if◌then◌else◌, not, ◌&&◌, xor}
use sabot.Word.Signed.{IsSigned}
use sabot.Pauli.{Pauli, Phased, of_bits, hadamard_image, phase_image, cnot_image}
use sabot.Chp.{Row, column}
use sabot.Chp.Gates.{hadamard_row, phase_row, cnot_row}
use sabot.Chp.Gates.Columns.{
  take_column, column-take_column, add_column, column-add_column, column_flip, take_column-IsSigned,
  add_column-IsSigned, flip-IsSigned,
}

-- A row that the program may meet: its words are sign-extended.
pub record IsRow (w : Row) : Type 0 where
  pub x_signed : (j : ℕ) → IsSigned (w.x j)
  pub z_signed : (j : ℕ) → IsSigned (w.z j)

-- The operator of a row on qubit k.
abbrev pub letter : Row → ℕ → Pauli
letter w k = of_bits (column w.x k) (column w.z k)

-- `w'` is `w` with the operator on qubit q replaced by its image, where powers of i count modulo 4.
pub record Conjugates (image : Pauli → Phased) (q : ℕ) (w w' : Row) : Type 0 where
  pub letters :
      (k : ℕ) → letter w' k ≡ (if k == q then (image (letter w q)).operator else letter w k)
  pub phase : w'.r % 4 ≡ (w.r + (image (letter w q)).power) % 4

module _ (q : ℕ) (w : Row) (h : IsRow w) where
  hadamard_columns :
      (k : ℕ)
      → (column (hadamard_row q w).x k ≡ (if k == q then column w.z q else column w.x k))
        × (column (hadamard_row q w).z k ≡ (if k == q then column w.x q else column w.z k))
        × ((hadamard_row q w).r ≡ (if column w.z q && column w.x q then (w.r + 2) % 4 else w.r))
  unfolding hadamard_row take_column
  hadamard_columns k = ground (
    arith,
    column-take_column w.x w.z q h.x_signed h.z_signed k,
    column-take_column w.z w.x q h.z_signed h.x_signed k,
    column-take_column w.x w.z q h.x_signed h.z_signed q,
    column-take_column w.z w.x q h.z_signed h.x_signed q,
  )

  pub hadamard_row-Conjugates : Conjugates hadamard_image q w (hadamard_row q w)
  hadamard_row-Conjugates = record {
    letters = λ k. ground (arith, hadamard_columns k);
    phase = ground (arith, hadamard_columns q);
  }

  phase_columns :
      (k : ℕ)
      → (column (phase_row q w).x k ≡ column w.x k)
        × (column (phase_row q w).z k ≡ xor (column w.x q && (k == q)) (column w.z k))
        × ((phase_row q w).r ≡ (if column w.x q && column w.z q then (w.r + 2) % 4 else w.r))
  unfolding phase_row add_column
  phase_columns k = ground (arith, column-add_column w.z w.x q h.z_signed h.x_signed k)

  pub phase_row-Conjugates : Conjugates phase_image q w (phase_row q w)
  phase_row-Conjugates = record {
    letters = λ k. ground (arith, phase_columns k);
    phase = ground (arith, phase_columns q);
  }

  pub hadamard_row-IsRow : IsRow (hadamard_row q w)
  unfolding hadamard_row take_column
  hadamard_row-IsRow = record {
    x_signed = λ j. ground (arith, take_column-IsSigned w.x w.z q h.x_signed h.z_signed j);
    z_signed = λ j. ground (arith, take_column-IsSigned w.z w.x q h.z_signed h.x_signed j);
  }

  pub phase_row-IsRow : IsRow (phase_row q w)
  unfolding phase_row add_column
  phase_row-IsRow = record {
    x_signed = λ j. ground (arith, h.x_signed j);
    z_signed = λ j. ground (arith, add_column-IsSigned w.z w.x q h.z_signed h.x_signed j);
  }

-- `w'` is `w` with the operators on qubits c and t replaced by their common image.
pub record ConjugatesPair (c t : ℕ) (w w' : Row) : Type 0 where
  pub letters :
      (k : ℕ)
      → letter w' k ≡ (
          if k == c
          then (cnot_image (letter w c) (letter w t)).control
          else if k == t
          then (cnot_image (letter w c) (letter w t)).target
          else letter w k)
  pub phase : w'.r % 4 ≡ (w.r + (cnot_image (letter w c) (letter w t)).power) % 4

module _ (c t : ℕ) (w : Row) (h : IsRow w) (apart : c ≢ t) where
  cnot_columns :
      (k : ℕ)
      → (column (cnot_row c t w).x k ≡ xor (column w.x c && (k == t)) (column w.x k))
        × (column (cnot_row c t w).z k ≡ xor (column w.z t && (k == c)) (column w.z k))
  unfolding cnot_row
  cnot_columns k = ground (arith, column_flip t w.x k h.x_signed, column_flip c w.z k h.z_signed)

  cnot_sign : (cnot_row c t w).r ≡ (
      if column w.x c && column w.z t && not (xor (column w.x t) (column w.z c))
      then (w.r + 2) % 4
      else w.r)
  unfolding cnot_row
  cnot_sign = ground (
    arith,
    column_flip t w.x c h.x_signed,
    column_flip t w.x t h.x_signed,
    column_flip c w.z c h.z_signed,
    column_flip c w.z t h.z_signed,
  )

  pub cnot_row-ConjugatesPair : ConjugatesPair c t w (cnot_row c t w)
  cnot_row-ConjugatesPair = record {
    letters = λ k. ground (arith, cnot_columns k);
    phase = ground (arith, cnot_sign);
  }

  pub cnot_row-IsRow : IsRow (cnot_row c t w)
  unfolding cnot_row
  cnot_row-IsRow = record {
    x_signed = λ j. ground (arith, h.x_signed j, flip-IsSigned w.x t h.x_signed j);
    z_signed = λ j. ground (arith, h.z_signed j, flip-IsSigned w.z c h.z_signed j);
  }
