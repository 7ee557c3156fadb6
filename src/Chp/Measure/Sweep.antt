-- ===== src/Chp/Measure/Sweep.antt =====
-- The loop that multiplies the pivot into the rows that do not commute with the measurement.
use mathlib.Core.Path.{subst}
use native.Mathlib.Decide.{ℕ_discrete}
use sabot.Prelude.{
  ℕ, suc, ◌*◌, ◌<◌, ◌≤◌, ◌≡◌, ◌≢◌, refl, sym, ◌∙◌, arith, ◌==◌, true, false, not, ◌&&◌, Bool-cases,
  inl, inr,
}
use sabot.Loop.{for_below, for_below_inv}
use sabot.Chp.{ChpState, column}
use sabot.Chp.Gates.Refinement.{IsTableau}
use sabot.Chp.Rows.{rowmult}
use sabot.Chp.Rows.Multiply.{
  IsProduct, rowmult-IsProduct, rowmult-IsTableau, column-rowmult, rowmult_ne, rowmult_shape,
}
use sabot.Chp.Measure.{update_row}

module _ (t : ChpState) (p qubit : ℕ) where
  -- The state u, after the rounds for the rows below i of state t.
  pub record IsSwept (i : ℕ) (u : ChpState) : Type 0 where
    pub same_n : u.n ≡ t.n
    pub same_over32 : u.over32 ≡ t.over32
    pub same_allocated : u.allocated ≡ t.allocated
    pub tableau : IsTableau u
    pub pivot_kept : u.row p ≡ t.row p
    pub cleared : (k : ℕ) → k < i → k ≢ p → column (u.row k).x qubit ≡ false
    pub kept : (k : ℕ) → column (t.row k).x qubit ≡ false → u.row k ≡ t.row k
    pub rest : (k : ℕ) → i ≤ k → u.row k ≡ t.row k
    pub multiplied :
        (k : ℕ)
        → k < i
        → k ≢ p
        → column (t.row k).x qubit ≡ true
        → IsProduct (32 * t.over32) (t.row p) (t.row k) (u.row k)

module _ (t : ChpState) (p qubit : ℕ) (small : qubit < 32 * t.over32)
    (on : column (t.row p).x qubit ≡ true) where
  skip-IsSwept :
      (i : ℕ) (u : ChpState)
      → (not (i == p) && column (u.row i).x qubit) ≡ false
      → IsSwept t p qubit i u
      → IsSwept t p qubit (suc i) u
  skip-IsSwept i u e w = record {
    same_n = w.same_n;
    same_over32 = w.same_over32;
    same_allocated = w.same_allocated;
    tableau = w.tableau;
    pivot_kept = w.pivot_kept;
    kept = w.kept;
    cleared = λ k lt ne. elim (ℕ_discrete k i) [
      | yes same ↦ ground arith
      | no other ↦ w.cleared k (omega arith) ne
    ];
    rest = λ k le. w.rest k (omega arith);
    multiplied = λ k lt ne odd. elim (ℕ_discrete k i) [
      | yes same ↦
          let first = w.rest i (omega arith) in
          let odd_i : column (u.row i).x qubit ≡ true = rw (first, sym same) odd in
          absurd (ground arith)
      | no other ↦ w.multiplied k (omega arith) ne odd
    ];
  }

  cleared_row :
      (i : ℕ) (u : ChpState)
      → column (u.row i).x qubit ≡ true
      → IsSwept t p qubit i u
      → column ((rowmult u i p).row i).x qubit ≡ false
  cleared_row i u e w =
      column-rowmult u i p (w.tableau.rows i) (w.tableau.rows p) qubit (rw w.same_over32 small)
      ∙ rw (e, w.pivot_kept, on)

  new_product :
      (i : ℕ) (u : ChpState)
      → IsSwept t p qubit i u
      → IsProduct (32 * t.over32) (t.row p) (t.row i) ((rowmult u i p).row i)
  new_product i u w =
      subst (λ c. IsProduct (32 * c) (t.row p) (t.row i) ((rowmult u i p).row i)) w.same_over32
        (subst (λ r. IsProduct (32 * u.over32) r (t.row i) ((rowmult u i p).row i)) w.pivot_kept
          (subst (λ r. IsProduct (32 * u.over32) (u.row p) r ((rowmult u i p).row i))
            (w.rest i (omega arith))
            (rowmult-IsProduct u i p (w.tableau.rows i) (w.tableau.rows p))))

  multiply-IsSwept :
      (i : ℕ) (u : ChpState)
      → i ≢ p
      → column (u.row i).x qubit ≡ true
      → IsSwept t p qubit i u
      → IsSwept t p qubit (suc i) (rowmult u i p)
  multiply-IsSwept i u ne e w = record {
    same_n = (rowmult_shape u i p).0 ∙ w.same_n;
    same_over32 = (rowmult_shape u i p).1 ∙ w.same_over32;
    same_allocated = (rowmult_shape u i p).2 ∙ w.same_allocated;
    tableau = rowmult-IsTableau u i p w.tableau;
    pivot_kept = rowmult_ne u i p p (λ q. ne (sym q)) ∙ w.pivot_kept;
    cleared = λ k lt other. elim (ℕ_discrete k i) [
      | yes same ↦ rw same (cleared_row i u e w)
      | no differs ↦ rw (rowmult_ne u i p k differs) (w.cleared k (omega arith) other)
    ];
    kept = λ k off. rowmult_ne u i p k (λ q. ground (arith, w.kept k off)) ∙ w.kept k off;
    rest = λ k le. rowmult_ne u i p k (λ q. omega arith) ∙ w.rest k (omega arith);
    multiplied = λ k lt other odd. elim (ℕ_discrete k i) [
      | yes same ↦ rw same (new_product i u w)
      | no differs ↦ rw (rowmult_ne u i p k differs) (w.multiplied k (omega arith) other odd)
    ];
  }

  update_row-IsSwept :
      (i : ℕ) (u : ChpState)
      → IsSwept t p qubit i u
      → IsSwept t p qubit (suc i) (update_row p qubit i u)
  unfolding update_row
  update_row-IsSwept i u w = elim (Bool-cases (not (i == p) && column (u.row i).x qubit)) [
    | inl e ↦ rw e (multiply-IsSwept i u (λ q. ground arith) (ground arith) w)
    | inr e ↦ rw e (skip-IsSwept i u e w)
  ]

  pub sweep-IsSwept :
      (count : ℕ) → IsTableau t → IsSwept t p qubit count (for_below count (update_row p qubit) t)
  sweep-IsSwept count h =
      for_below_inv (IsSwept t p qubit) (update_row p qubit) count
        (λ i u lt w. update_row-IsSwept i u w) t
        (record {
          same_n = refl;
          same_over32 = refl;
          same_allocated = refl;
          tableau = h;
          pivot_kept = refl;
          cleared = λ k lt ne. absurd (omega arith);
          kept = λ k off. refl;
          rest = λ k le. refl;
          multiplied = λ k lt ne odd. absurd (omega arith);
        })
