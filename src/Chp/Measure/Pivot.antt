-- ===== src/Chp/Measure/Pivot.antt =====
-- What the branch of a random outcome writes before it updates the other rows.
use sabot.Prelude.{ℕ, ◌+◌, ◌*◌, ◌<◌, ◌≡◌, ◌≢◌, refl, arith, ◌==◌, true, false, if◌then◌else◌}
use sabot.Pauli.{sigma_z, unit}
use sabot.Chp.{Row, ChpState, column}
use sabot.Chp.Gates.Conjugation.{IsRow, letter}
use sabot.Chp.Gates.Refinement.{IsTableau}
use sabot.Chp.Rows.{copied_row, observable_row, rowcopy, rowset}
use sabot.Chp.Rows.Copy.{
  set_row, set_row-IsTableau, copied_row-IsRow, column-copied_row, observable_row-IsRow,
  column-observable_row, letter-copied_row, letter-observable_row,
}
use sabot.Chp.Measure.{replace_pivot}

module _ (s : ChpState) (qubit p bit : ℕ) (h : IsTableau s) (lt : p < s.n) (small : bit < 2) where
  abbrev stabilizer : Row
  stabilizer = s.row (p + s.n)

  destabilizer : Row
  destabilizer = copied_row s.over32 (s.row p) stabilizer

  measured : Row
  measured = observable_row s.n s.over32 (qubit + s.n) stabilizer

  signed : Row
  signed = record { x = measured.x; z = measured.z; r = 2 * bit }

  measured-IsRow : IsRow measured
  unfolding measured
  measured-IsRow = observable_row-IsRow s.n s.over32 (qubit + s.n) stabilizer (h.rows (p + s.n))

  same_row : (p + s.n == p + s.n) ≡ true
  same_row = ground arith

  other_row : (p + s.n == p) ≡ false
  other_row = ground arith

  other_row' : (p == p + s.n) ≡ false
  other_row' = ground arith

  same_row' : (p == p) ≡ true
  same_row' = ground arith

  replaced : ChpState
  replaced = set_row (set_row (set_row s p destabilizer) (p + s.n) measured) (p + s.n) signed

  replace_pivot_lem : replace_pivot s qubit p bit ≡ replaced
  unfolding replace_pivot rowcopy rowset replaced destabilizer measured signed
  replace_pivot_lem = rw (same_row, other_row)

  pub replace_pivot-IsTableau : IsTableau (replace_pivot s qubit p bit)
  unfolding replaced destabilizer measured signed
  replace_pivot-IsTableau = rw replace_pivot_lem (
      set_row-IsTableau _ _ _
        (set_row-IsTableau _ _ _
          (set_row-IsTableau s p _ h (copied_row-IsRow s.over32 _ _ (h.rows p) (h.rows (p + s.n))))
          measured-IsRow)
        (record { x_signed = measured-IsRow.x_signed; z_signed = measured-IsRow.z_signed }))

  pub replace_pivot_phase : ((replace_pivot s qubit p bit).row (p + s.n)).r ≡ 2 * bit
  unfolding replaced signed
  replace_pivot_phase = rw (replace_pivot_lem, replaced, same_row)

  pub column-replace_pivot :
      qubit < 32 * s.over32 → column ((replace_pivot s qubit p bit).row (p + s.n)).x qubit ≡ false
  unfolding replaced signed measured
  column-replace_pivot small_q =
      rw (replace_pivot_lem, replaced, same_row)
        (column-observable_row s.n s.over32 qubit qubit stabilizer small_q)

  pub column-replace_pivot_destabilizer :
      qubit < 32 * s.over32
      → column ((replace_pivot s qubit p bit).row p).x qubit ≡ column (s.row (p + s.n)).x qubit
  unfolding replaced destabilizer
  column-replace_pivot_destabilizer small_q =
      rw (replace_pivot_lem, replaced, other_row', same_row')
        (column-copied_row s.over32 (s.row p) stabilizer qubit small_q)

  pub replace_pivot_shape :
      ((replace_pivot s qubit p bit).n ≡ s.n)
      × ((replace_pivot s qubit p bit).over32 ≡ s.over32)
      × ((replace_pivot s qubit p bit).allocated ≡ s.allocated)
  unfolding replace_pivot rowcopy rowset
  replace_pivot_shape = (refl, refl, refl)

  -- The operators of the rows after it: the destabilizer takes the stabilizer's, the stabilizer is Z on
  -- the qubit, and the other rows stay.
  pub letter-replace_pivot_destabilizer :
      (k : ℕ)
      → k < 32 * s.over32
      → letter ((replace_pivot s qubit p bit).row p) k ≡ letter (s.row (p + s.n)) k
  unfolding replaced destabilizer
  letter-replace_pivot_destabilizer k below =
      rw (replace_pivot_lem, replaced, other_row', same_row')
        (letter-copied_row s.over32 (s.row p) stabilizer k below)

  pub letter-replace_pivot_stabilizer :
      (k : ℕ)
      → k < 32 * s.over32
      → letter ((replace_pivot s qubit p bit).row (p + s.n)) k
        ≡ (if k == qubit then sigma_z else unit)
  unfolding replaced signed measured
  letter-replace_pivot_stabilizer k below =
      rw (replace_pivot_lem, replaced, same_row)
        (letter-observable_row s.n s.over32 qubit k stabilizer below)

  pub replace_pivot_ne :
      (i : ℕ) → i ≢ p → i ≢ p + s.n → (replace_pivot s qubit p bit).row i ≡ s.row i
  unfolding replaced
  replace_pivot_ne i a b =
      let na : (i == p) ≡ false = ground arith in
      let nb : (i == p + s.n) ≡ false = ground arith in rw (replace_pivot_lem, replaced, na, nb)
