-- ===== src/Chp/Init/Zero.antt =====
-- The tableau of `init_state` is that of the state |0...0>.
use sabot.Prelude.{
  ℕ, ◌+◌, ◌-◌, ◌*◌, ◌/◌, ◌%◌, ◌<◌, ◌≡◌, refl, sym, ap, ◌∙◌, arith, ltb, lt→ltb, ◌==◌, if◌then◌else◌,
  Bool, true, false, not, ◌&&◌, Bool-cases, inl, inr, some,
}
use sabot.Randnum.{Generator, Draw}
use sabot.Word.{pt}
use sabot.Word.Signed.{has-pt, has_zero}
use sabot.Loop.{update}
use sabot.Pauli.{unit, sigma_x, sigma_z}
use sabot.Chp.{ChpState, column}
use sabot.Chp.Gates.Conjugation.{letter}
use sabot.Chp.Gates.Refinement.{IsTableau}
use sabot.Chp.Init.{init_state, initial_row, initialised}
use sabot.Chp.Measure.{measure, measure_determined, outcome}
use sabot.Chp.Measure.Collapse.{IsCollapsed, measure_of_determined}
use sabot.Chp.Measure.Repeat.{no_pivot, measured_sign}
use sabot.Chp.Run.Ready.{initialised-IsReady, measurable_of_ready}

column_zeros : (k : ℕ) → column (λ j. 0) k ≡ false
unfolding column
column_zeros k = has_zero (k % 32)

column_one : (q k : ℕ) → column (update (λ j. 0) (q / 32) (pt (q % 32))) k ≡ (k == q)
unfolding column
column_one q k = elim (Bool-cases (k / 32 == q / 32)) [
  | inl e ↦ rw (e, has-pt (q % 32) (k % 32) (omega arith) (omega arith)) (ground arith)
  | inr e ↦ rw (e, has_zero (k % 32)) (ground arith)
]

module _ (fresh n : ℕ) where
  -- Row i < n is X_i, the row n + i is Z_i, and every generator has the sign +.
  pub initial_row-letter :
      (i k : ℕ)
      → i < 2 * n
      → (letter (initial_row fresh n i) k ≡ (
          if ltb i n
          then (if k == i then sigma_x else unit)
          else if k == i - n
          then sigma_z
          else unit))
        × ((initial_row fresh n i).r ≡ 0)
  unfolding initial_row
  initial_row-letter i k lt = elim (Bool-cases (ltb i n)) [
    | inl e ↦ rw (e, column_one i k, column_zeros k) (ground arith, refl)
    | inr e ↦ rw (e, column_one (i - n) k, column_zeros k, lt→ltb i (2 * n) lt) (ground arith, refl)
  ]

  pub initial_column : (i k : ℕ) → column (initial_row fresh n i).x k ≡ (ltb i n && (k == i))
  unfolding initial_row
  initial_column i k = elim (Bool-cases (ltb i n)) [
    | inl e ↦ rw (e, column_one i k)
    | inr e ↦ rw (e, column_zeros k)
  ]

  pub initial_z_column :
      (i k : ℕ) → column (initial_row fresh n i).z k ≡ (not (ltb i n) && (k == i - n))
  unfolding initial_row
  initial_z_column i k = elim (Bool-cases (ltb i n)) [
    | inl e ↦ rw (e, column_zeros k)
    | inr e ↦ rw (e, column_one (i - n) k)
  ]

  module _ (s : ChpState) (h : IsTableau (initialised fresh s n)) (q : ℕ) (lt : q < n) where
    initialised_row : (i : ℕ) → i < 2 * n → (initialised fresh s n).row i ≡ initial_row fresh n i
    unfolding initialised
    initialised_row i below = rw (lt→ltb i (2 * n + 1) (omega arith))

    initialised-IsCollapsed : IsCollapsed n q q 0 (initialised fresh s n)
    initialised-IsCollapsed = record {
      same_n = unfold initialised in refl;
      tableau = h;
      sign =
          rw (initialised_row (q + n) (omega arith)) (initial_row-letter (q + n) 0 (omega arith)).1;
      alone = rw (initialised_row q (omega arith), initial_column q q) (ground arith);
      others = λ k below ne. rw (initialised_row k below, initial_column k q) (ground arith);
    }

-- On the tableau that `init_state` makes for n qubits, when it can be allocated, measuring any of them
-- gives 0 without drawing.
pub measure-init_state :
    {Rng : Type 0} (draw : Draw Rng) (g : Generator Rng) (allocates : ℕ → Bool) (fresh n q : ℕ)
    (s : ChpState)
    → IsTableau s
    → allocates n ≡ true
    → q < n
    → let t = (init_state allocates fresh s n).1 in
      (u : ChpState) × (measure draw t q g ≡ some (0, u, g))
unfolding init_state
measure-init_state draw g allocates fresh n q s h e lt =
    let t = initialised fresh s n in
    let r = initialised-IsReady fresh n s h in
    let c = initialised-IsCollapsed fresh n s r.tableau q lt in
    rw e (
      measure_determined t q,
      measure_of_determined draw t q g (measurable_of_ready n q t r lt)
            (no_pivot n q q 0 t c lt ∙ sym r.has_n)
          ∙ ap (λ b. some (b, measure_determined t q, g))
              (ap outcome (measured_sign n q q 0 t c lt)),
    )
