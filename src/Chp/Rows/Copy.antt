-- ===== src/Chp/Rows/Copy.antt =====
-- Rows that are copied, cleared or set stay rows that the program may meet.
use sabot.Prelude.{
  ℕ, ◌+◌, ◌-◌, ◌*◌, ◌/◌, ◌%◌, ◌<◌, ◌≡◌, refl, arith, ltb, ◌==◌, false, Bool-cases, inl, inr,
  if◌then◌else◌,
}
use sabot.Word.{pt}
use sabot.Pauli.{sigma_z, unit}
use sabot.Word.Signed.{IsSigned, pt-IsSigned, has-pt}
use sabot.Loop.{update}
use sabot.Chp.{Row, ChpState, column}
use sabot.Chp.Gates.Conjugation.{IsRow, letter}
use sabot.Chp.Gates.Refinement.{IsTableau}
use sabot.Chp.Rows.{copied_row, clear_words, cleared_row, observable_row}
use sabot.Chp.Rows.Words.{
  copy_words-IsSigned, clear_words-IsSigned, column-copy_words, column-clear_words,
}

-- One row of a tableau is replaced.
abbrev pub set_row : ChpState → ℕ → Row → ChpState
set_row s i w = record s { row = update s.row i w }

pub set_row-IsTableau :
    (s : ChpState) (i : ℕ) (w : Row) → IsTableau s → IsRow w → IsTableau (set_row s i w)
set_row-IsTableau s i w h hw = record {
  rows = λ j. elim (Bool-cases (j == i)) [ inl e ↦ rw e hw | inr e ↦ rw e (h.rows j) ];
}

pub copied_row-IsRow :
    (over32 : ℕ) (to from : Row) → IsRow to → IsRow from → IsRow (copied_row over32 to from)
unfolding copied_row
copied_row-IsRow over32 to from ht hf = record {
  x_signed = copy_words-IsSigned over32 _ _ ht.x_signed hf.x_signed;
  z_signed = copy_words-IsSigned over32 _ _ ht.z_signed hf.z_signed;
}

pub column-copied_row :
    (over32 : ℕ) (to from : Row) (k : ℕ)
    → k < 32 * over32
    → column (copied_row over32 to from).x k ≡ column from.x k
unfolding copied_row
column-copied_row over32 to from k lt = column-copy_words over32 to.x from.x k lt

update-IsSigned :
    (v : ℕ → ℕ) (i m : ℕ)
    → ((j : ℕ) → IsSigned (v j))
    → IsSigned m
    → (j : ℕ) → IsSigned (update v i m j)
update-IsSigned v i m h s j = elim (Bool-cases (j == i)) [ inl e ↦ rw e s | inr e ↦ rw e (h j) ]

pub observable_row-IsRow :
    (n over32 observable : ℕ) (w : Row) → IsRow w → IsRow (observable_row n over32 observable w)
unfolding observable_row cleared_row
observable_row-IsRow n over32 o w h = elim (Bool-cases (ltb o n)) [
  | inl e ↦ rw e (record {
    x_signed =
        update-IsSigned _ _ _ (clear_words-IsSigned over32 w.x h.x_signed)
          (pt-IsSigned _ (omega arith));
    z_signed = clear_words-IsSigned over32 w.z h.z_signed;
  })
  | inr e ↦ rw e (record {
    x_signed = clear_words-IsSigned over32 w.x h.x_signed;
    z_signed =
        update-IsSigned _ _ _ (clear_words-IsSigned over32 w.z h.z_signed)
          (pt-IsSigned _ (omega arith));
  })
]

-- The row of an observable Z_b has no X.
pub column-observable_row :
    (n over32 b k : ℕ) (w : Row)
    → k < 32 * over32
    → column (observable_row n over32 (b + n) w).x k ≡ false
unfolding observable_row cleared_row
column-observable_row n over32 b k w lt = rw (above b n) (column-clear_words over32 w.x k lt)
  where
    above : (b n : ℕ) → ltb (b + n) n ≡ false
    above b n = ground arith

pub letter-copied_row :
    (over32 : ℕ) (to from : Row) (k : ℕ)
    → k < 32 * over32
    → letter (copied_row over32 to from) k ≡ letter from k
unfolding copied_row
letter-copied_row over32 to from k lt =
    rw (column-copy_words over32 to.x from.x k lt, column-copy_words over32 to.z from.z k lt) refl

one_column :
    (v : ℕ → ℕ) (q k : ℕ)
    → column v k ≡ false
    → column (update v (q / 32) (pt (q % 32))) k ≡ (k == q)
unfolding column
one_column v q k off = elim (Bool-cases (k / 32 == q / 32)) [
  | inl e ↦ rw (e, has-pt (q % 32) (k % 32) (omega arith) (omega arith)) (ground arith)
  | inr e ↦ rw (e, off) (ground arith)
]

-- The row of an observable Z_b is Z on qubit b and nothing else.
pub letter-observable_row :
    (n over32 b k : ℕ) (w : Row)
    → k < 32 * over32
    → letter (observable_row n over32 (b + n) w) k ≡ (if k == b then sigma_z else unit)
unfolding observable_row cleared_row
letter-observable_row n over32 b k w lt =
    let above : ltb (b + n) n ≡ false = ground arith in
    let place : b + n - n ≡ b = omega arith in
    rw
      (
        above,
        place,
        column-clear_words over32 w.x k lt,
        one_column (clear_words over32 w.z) b k (column-clear_words over32 w.z k lt),
      )
      (ground arith)
