-- ===== src/Chp/Symplectic/Determined.antt =====
-- What the scratch row holds when the outcome of a measurement is determined.
use mathlib.Core.Path.{subst}
use native.Mathlib.Decide.{ℕ_discrete, dec_lt}
use sabot.Prelude.{
  ℕ, suc, ◌+◌, ◌-◌, ◌*◌, ◌<◌, ◌≤◌, ◌≡◌, refl, sym, ap, ◌∙◌, arith, ◌==◌, ◌&&◌, ltb, Bool, true,
  false, xor, Bool-cases, inl, inr, if◌then◌else◌,
}
use sabot.Pauli.{Pauli, unit, sigma_z, product, anticommute}
use sabot.Loop.{for_below_inv, update_self}
use sabot.Chp.{Row, ChpState, column}
use sabot.Chp.Gates.Conjugation.{letter}
use sabot.Chp.Gates.Refinement.{IsTableau}
use sabot.Chp.Rows.{rowcopy, rowmult}
use sabot.Chp.Rows.Copy.{letter-copied_row}
use sabot.Chp.Rows.Multiply.{rowmult-IsProduct, rowmult_shape}
use sabot.Randnum.{Generator, Draw}
use sabot.Chp.Measure.{
  measure_checked, outcome, measure_determined, collect_row, pivot, destabilizer_pivot,
}
use sabot.Chp.Measure.Collapse.{
  KeepsShape, collect_row-KeepsShape, scratch_copy-KeepsShape, pivot-IsFirst,
  destabilizer_pivot-IsFirst,
}
use sabot.Chp.Symplectic.{clash, commutator, paired, IsSymplectic, IsComplete}
use sabot.Chp.Symplectic.Form.{parity_ext, clash_letters, clash-product}
use sabot.Chp.Symplectic.Complete.{commutator_one, commutator-product}

product_unit : (p q : Pauli) → (product p q).operator ≡ unit → p ≡ q
product_unit p q h = ground (arith, h)

commutator_sym : (n : ℕ) (f g : ℕ → Pauli) → commutator n f g ≡ commutator n g f
unfolding commutator
commutator_sym n f g = parity_ext n _ _ (λ k lt. anticommute_sym (f k) (g k))
  where
    anticommute_sym : (p q : Pauli) → anticommute p q ≡ anticommute q p
    anticommute_sym p q = ground arith

-- The round of number i takes in the stabilizer that anticommutes with destabilizer i only.
next_pair :
    (n i j : ℕ) (odd : ℕ → Bool)
    → i < n
    → j < 2 * n
    → odd i ≡ true
    → xor (paired n (i + n) j) (ltb j i && odd j) ≡ (ltb j (suc i) && odd j)
unfolding paired
next_pair n i j odd li lj h = elim (ℕ_discrete j i) [
  | yes e ↦ rw (e, h) (ground arith)
  | no ne ↦ ground arith
]

skipped_pair :
    (i j : ℕ) (odd : ℕ → Bool) → odd i ≡ false → (ltb j i && odd j) ≡ (ltb j (suc i) && odd j)
skipped_pair i j odd h = elim (ℕ_discrete j i) [
  | yes e ↦ rw (e, h) (ground arith)
  | no ne ↦ ground arith
]

module _ (s : ChpState) (q : ℕ) (h : IsTableau s) (small : q < s.n) (room : s.n < 32 * s.over32)
    (determined : pivot s q ≡ s.n) (old : IsSymplectic s.n s.row) (all : IsComplete s.n s.row) where
  abbrev n : ℕ
  n = s.n

  abbrev m : ℕ
  m = destabilizer_pivot s q

  -- The row anticommutes with Z on the qubit.
  abbrev odd : ℕ → Bool
  odd i = column (s.row i).x q

  stabilizers_even : (i : ℕ) → i < n → odd (i + n) ≡ false
  stabilizers_even i lt = (pivot-IsFirst s q).none_before i (omega arith) (omega arith)

  upper_even : (j : ℕ) → n ≤ j → j < 2 * n → odd j ≡ false
  upper_even j le lt =
      let place : j - n + n ≡ j = omega arith in
      ap odd (sym place) ∙ stabilizers_even (j - n) (omega arith)

  -- The operator measured.
  abbrev measured : ℕ → Pauli
  measured k = if k == q then sigma_z else unit

  with_row : (j : ℕ) → commutator n (letter (s.row j)) measured ≡ odd j
  with_row j = commutator_one n (letter (s.row j)) q sigma_z small ∙ ground arith

  -- Some destabilizer anticommutes with it.
  found : m < n
  found = elim (dec_lt m n) [ yes e ↦ e | no e ↦ absurd (nothing e) ]
    where
      odd_none : ¬ (m < n) → (j : ℕ) → j < 2 * n → odd j ≡ false
      odd_none e j lt = elim (dec_lt j n) [
        | yes low ↦ (destabilizer_pivot-IsFirst s q).none_before j (omega arith) (omega arith)
        | no high ↦ upper_even j (omega arith) lt
      ]

      nothing : ¬ (m < n) → ⊥
      nothing e =
          let is_unit =
            all.complete measured
              (λ j lt. commutator_sym n measured (letter (s.row j)) ∙ with_row j ∙ odd_none e j lt)
              q small in
          let here : measured q ≡ sigma_z = ground arith in cc

  -- The scratch row anticommutes with the rows that the operator measured anticommutes with, as far as
  -- the loop has come.
  record IsCollected (i : ℕ) (u : ChpState) : Type 0 where
    shape : KeepsShape s u
    scratch : (j : ℕ) → j < 2 * n → clash n (u.row (2 * u.n)) (s.row j) ≡ (ltb j i && odd j)

  copied-IsCollected : IsCollected (suc m) (rowcopy s (2 * s.n) (m + s.n))
  unfolding rowcopy paired
  copied-IsCollected = record {
    shape = scratch_copy-KeepsShape s (m + s.n) h;
    scratch = λ j lt.
        clash_letters n (s.row (m + s.n)) _ (s.row j) (λ k below.
          ap (λ r. letter r k) (update_self s.row (2 * s.n) _)
          ∙ letter-copied_row s.over32 (s.row (2 * s.n)) (s.row (m + s.n)) k (omega arith))
        ∙ old.relation (m + s.n) j (omega (arith, found)) lt
        ∙ first j lt;
  }
    where
      first : (j : ℕ) → j < 2 * n → paired n (m + n) j ≡ (ltb j (suc m) && odd j)
      first j lt =
          let f = destabilizer_pivot-IsFirst s q in
          elim (ℕ_discrete j m) [
            | yes e ↦ rw (e, f.passes found) (ground arith)
            | no ne ↦ elim (dec_lt j m) [
              | yes low ↦ rw (f.none_before j (omega arith) low) (ground arith)
              | no high ↦ ground arith
            ]
          ]

  stabilizer_same :
      (i : ℕ) (u : ChpState) → i < n → KeepsShape s u → u.row (i + u.n) ≡ s.row (i + n)
  stabilizer_same i u lt keeps =
      let place : i + u.n ≡ i + n = omega (arith, keeps.same_n) in
      ap u.row place ∙ keeps.rows_kept (i + n) (omega arith)

  -- Multiplied by stabilizer i, the scratch row anticommutes also with destabilizer i.
  multiplied :
      (i : ℕ) (u : ChpState)
      → i < n
      → IsCollected i u
      → odd i ≡ true
      → (j : ℕ) → j < 2 * n
      → clash n
          ((rowmult u (2 * u.n) (i + u.n)).row (2 * (rowmult u (2 * u.n) (i + u.n)).n))
          (s.row j)
        ≡ (ltb j (suc i) && odd j)
  multiplied i u lt c e j lj =
      let product =
        rowmult-IsProduct u (2 * u.n) (i + u.n) (c.shape.tableau.rows (2 * u.n))
          (c.shape.tableau.rows (i + u.n)) in
      let split =
        clash-product n (u.row (i + u.n)) (u.row (2 * u.n))
          ((rowmult u (2 * u.n) (i + u.n)).row (2 * u.n)) (s.row j)
          (λ k below. product.letters k (omega (arith, c.shape.same_over32))) in
      ap (λ w. clash n ((rowmult u (2 * u.n) (i + u.n)).row (2 * w)) (s.row j))
        (rowmult_shape u (2 * u.n) (i + u.n)).0
      ∙ split
      ∙ rw (stabilizer_same i u lt c.shape, old.relation (i + n) j (omega arith) lj, c.scratch j lj)
          (next_pair n i j odd lt lj e)

  passed_on :
      (i : ℕ) (u : ChpState)
      → i < n
      → IsCollected i u
      → (j : ℕ) → j < 2 * n
      → clash n ((collect_row q i u).row (2 * (collect_row q i u).n)) (s.row j)
        ≡ (ltb j (suc i) && odd j)
  unfolding collect_row
  passed_on i u lt c j lj = elim (Bool-cases (column (u.row i).x q)) [
    | inl e ↦ rw e (multiplied i u lt c (sym same_odd ∙ e) j lj)
    | inr e ↦ rw e (c.scratch j lj ∙ skipped_pair i j odd (sym same_odd ∙ e))
  ]
    where
      same_odd : column (u.row i).x q ≡ odd i
      same_odd = ap (λ (r : Row). column r.x q) (c.shape.rows_kept i (omega arith))

  collect_row-IsCollected :
      (i : ℕ) (u : ChpState) → i < n → IsCollected i u → IsCollected (suc i) (collect_row q i u)
  collect_row-IsCollected i u lt c = record {
    shape = collect_row-KeepsShape s u q i c.shape;
    scratch = passed_on i u lt c;
  }

  collected : IsCollected n (measure_determined s q)
  unfolding measure_determined
  collected =
      subst (λ w. IsCollected w (measure_determined s q)) (omega (arith, found))
        (for_below_inv (λ d t. IsCollected (suc m + d) t) (λ d. collect_row q (suc m + d))
          (n - suc m)
          (λ d t lt c.
            subst (λ w. IsCollected w (collect_row q (suc m + d) t)) (omega arith)
              (collect_row-IsCollected (suc m + d) t (omega arith) c))
          (rowcopy s (2 * s.n) (m + s.n))
          (subst (λ w. IsCollected w (rowcopy s (2 * s.n) (m + s.n))) (omega arith)
            copied-IsCollected))

  scratch_commutator :
      (j : ℕ)
      → j < 2 * n
      → commutator n (letter ((measure_determined s q).row (2 * s.n))) (letter (s.row j)) ≡ odd j
  unfolding commutator clash
  scratch_commutator j lj =
      ap (λ w. clash n ((measure_determined s q).row (2 * w)) (s.row j))
        (sym collected.shape.same_n)
      ∙ collected.scratch j lj
      ∙ below_only
    where
      below_only : (ltb j n && odd j) ≡ odd j
      below_only = elim (dec_lt j n) [
        | yes low ↦ ground arith
        | no high ↦ rw (upper_even j (omega arith) lj) (ground arith)
      ]

  -- The row that the outcome is read from is Z on the qubit.
  pub measure_determined-letter :
      (k : ℕ)
      → k < n
      → letter ((measure_determined s q).row (2 * s.n)) k ≡ (if k == q then sigma_z else unit)
  measure_determined-letter k below = product_unit _ _ (all.complete both commutes k below)
    where
      scratch_letter : ℕ → Pauli
      scratch_letter = letter ((measure_determined s q).row (2 * s.n))

      both : ℕ → Pauli
      both k = (product (scratch_letter k) (measured k)).operator

      commutes : (j : ℕ) → j < 2 * n → commutator n both (letter (s.row j)) ≡ false
      commutes j lj =
          let by_measured = commutator_sym n measured (letter (s.row j)) ∙ with_row j in
          commutator-product n scratch_letter measured (letter (s.row j))
          ∙ rw (scratch_commutator j lj, by_measured) (ground arith)

  -- On a tableau of sign-extended words with room for its n qubits, that satisfies the commutation
  -- relations and is complete: when no stabilizer anticommutes with Z on one of the qubits, the
  -- measurement of that qubit draws no bit, keeps the destabilizers and the stabilizers, and reads the
  -- outcome from the phase of a scratch row that is Z on the qubit and the unit on the others.
  pub measure_checked-ReadsZ :
      {Rng : Type 0} (draw : Draw Rng) (g : Generator Rng)
      → (t : ChpState) × (measure_checked draw s q g ≡ (outcome (t.row (2 * s.n)).r, t, g))
        × ((j : ℕ) → j < 2 * s.n → t.row j ≡ s.row j)
        × ((k : ℕ) → k < s.n → letter (t.row (2 * s.n)) k ≡ (if k == q then sigma_z else unit))
  unfolding measure_checked
  measure_checked-ReadsZ draw g =
      let not_random : ltb (pivot s q) s.n ≡ false = ground arith in
      (
        measure_determined s q,
        rw not_random refl,
        collected.shape.rows_kept,
        measure_determined-letter,
      )
