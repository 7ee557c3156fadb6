-- ===== src/Chp/Symplectic/Init.antt =====
-- The tableau that init_state makes keeps the commutation relations.
use sabot.Prelude.{ℕ, ◌+◌, ◌-◌, ◌*◌, ◌<◌, ◌≡◌, refl, ◌∙◌, arith, ltb, lt→ltb, Bool-cases, inl, inr}
use sabot.Chp.{ChpState}
use sabot.Chp.Init.{initialised, initial_row}
use sabot.Chp.Init.Zero.{initial_row-letter, initial_column, initial_z_column}
use sabot.Chp.Symplectic.{clash, paired, IsSymplectic}
use sabot.Chp.Symplectic.Form.{clash_x, clash_z}

module _ (fresh n : ℕ) where
  initial_clash :
      (i j : ℕ)
      → i < 2 * n
      → j < 2 * n
      → clash n (initial_row fresh n i) (initial_row fresh n j) ≡ paired n i j
  unfolding paired
  initial_clash i j li lj = elim (Bool-cases (ltb i n)) [
    | inl e ↦
        clash_x n (initial_row fresh n i) (initial_row fresh n j) i (ground arith)
          (λ k lt. (initial_row-letter fresh n i k li).0 ∙ rw e refl)
        ∙ initial_z_column fresh n j i
        ∙ ground arith
    | inr e ↦
        clash_z n (initial_row fresh n i) (initial_row fresh n j) (i - n) (ground arith)
          (λ k lt. (initial_row-letter fresh n i k li).0 ∙ rw e refl)
        ∙ initial_column fresh n j (i - n)
        ∙ ground arith
  ]

  pub initialised-IsSymplectic : (s : ChpState) → IsSymplectic n (initialised fresh s n).row
  unfolding initialised
  initialised-IsSymplectic s = record {
    relation = λ i j li lj.
        rw (lt→ltb i (2 * n + 1) (omega arith), lt→ltb j (2 * n + 1) (omega arith))
          (initial_clash i j li lj);
  }
