-- ===== src/Chp/Symplectic/Collapse.antt =====
-- The generators still determine an operator after a measurement.
use native.Mathlib.Decide.{ℕ_discrete}
use sabot.Prelude.{
  ℕ, ◌+◌, ◌*◌, ◌<◌, ◌≡◌, ◌≢◌, refl, sym, ap, ◌∙◌, arith, Bool, true, false, xor, Bool-cases, inl,
  inr,
}
use sabot.Pauli.{Pauli, unit, sigma_z, of_bits, product, anticommute}
use sabot.Chp.{ChpState, column}
use sabot.Chp.Gates.Conjugation.{letter}
use sabot.Chp.Gates.Refinement.{IsTableau}
use sabot.Chp.Measure.{replace_pivot, measure_random, pivot}
use sabot.Chp.Measure.Pivot.{
  letter-replace_pivot_destabilizer, letter-replace_pivot_stabilizer, replace_pivot_ne,
  replace_pivot_shape,
}
use sabot.Chp.Symplectic.{clash, commutator, paired, IsSymplectic, IsComplete}
use sabot.Chp.Symplectic.Form.{parity_ext, parity-xor}
use sabot.Chp.Symplectic.Complete.{commutator_ext, commutator_one, commutator-product}
use sabot.Chp.Symplectic.Measure.{swept, off, odd_pivot}

commutator-product_right :
    (n : ℕ) (f g h : ℕ → Pauli)
    → commutator n f (λ k. (product (g k) (h k)).operator)
      ≡ xor (commutator n f g) (commutator n f h)
unfolding commutator
commutator-product_right n f g h =
    parity_ext n _ _ (λ k lt. split (f k) (g k) (h k)) ∙ parity-xor n _ _
  where
    split :
        (p q r : Pauli)
        → anticommute p (product q r).operator ≡ xor (anticommute p q) (anticommute p r)
    split p q r = ground arith

-- A product is the unit if its factors are one operator.
same_factor :
    (p : Pauli) (z : Bool)
    → (product p (of_bits true z)).operator ≡ unit
    → anticommute p sigma_z ≡ true
same_factor p true e = ground arith
same_factor p false e = ground arith

module _ (s : ChpState) (q bit : ℕ) (h : IsTableau s) (small : q < s.n) (room : s.n < 32 * s.over32)
    (random : pivot s q < s.n) (le : bit < 2) (old : IsSymplectic s.n s.row)
    (all : IsComplete s.n s.row) (f : ℕ → Pauli)
    (commutes : (j : ℕ)
      → j < 2 * s.n
      → commutator s.n f (letter ((measure_random s q (pivot s q) bit).row j)) ≡ false) where
  abbrev n : ℕ
  n = s.n

  abbrev p : ℕ
  p = pivot s q

  abbrev t : ChpState
  t = replace_pivot s q p bit

  abbrev u : ChpState
  u = measure_random s q p bit

  -- It commutes with the operator measured.
  with_measured : anticommute (f q) sigma_z ≡ false
  with_measured =
      sym (commutator_one n f q sigma_z small)
      ∙ commutator_ext n f f _ _ (λ k lt. refl)
          (λ k lt.
            sym (letter-replace_pivot_stabilizer s q p bit h random le k (omega arith))
            ∙ ap (λ r. letter r k)
                (sym (
                  (swept s q bit h small room random le old).kept (p + n)
                    (off s q bit h small room random le old))))
      ∙ commutes (p + n) (omega arith)

  with_pivot : commutator n f (letter (t.row p)) ≡ false
  with_pivot =
      ap (λ r. commutator n f (letter r))
        (sym (swept s q bit h small room random le old).pivot_kept)
      ∙ commutes p (omega arith)

  with_stabilizer : commutator n f (letter (s.row (p + n))) ≡ false
  with_stabilizer =
      commutator_ext n f f _ _ (λ k lt. refl)
        (λ k lt. sym (letter-replace_pivot_destabilizer s q p bit h random le k (omega arith)))
      ∙ with_pivot

  with_other : (j : ℕ) → j < 2 * n → j ≢ p → j ≢ p + n → commutator n f (letter (s.row j)) ≡ false
  with_other j lt a b =
      let w = swept s q bit h small room random le old in
      ap (λ r. commutator n f (letter r)) (sym (replace_pivot_ne s q p bit h random le j a b))
      ∙ elim (Bool-cases (column (t.row j).x q)) [
        | inr e ↦ ap (λ r. commutator n f (letter r)) (sym (w.kept j e)) ∙ commutes j lt
        | inl e ↦
            let product = w.multiplied j lt a e in
            let wide = (replace_pivot_shape s q p bit h random le).1 in
            let split =
              commutator_ext n f f _ _ (λ k below. refl)
                (λ k below. product.letters k (omega (arith, wide)))
              ∙ commutator-product_right n f (letter (t.row p)) (letter (t.row j)) in
            ground (arith, split, with_pivot, commutes j lt)
      ]

  -- It commutes with the pivot's destabilizer too: otherwise it is the pivot's stabilizer, which does
  -- not commute with the operator measured.
  with_destabilizer : commutator n f (letter (s.row p)) ≡ false
  unfolding paired
  with_destabilizer = elim (Bool-cases (commutator n f (letter (s.row p)))) [
    | inr e ↦ e
    | inl e ↦ absurd (
        let is_unit =
          all.complete (λ k. (product (f k) (letter (s.row (p + n)) k)).operator) (with_all e) q
            small in
        let same : anticommute (f q) sigma_z ≡ true =
          same_factor (f q) (column (s.row (p + n)).z q)
            (rw (odd_pivot s q bit h small room random le old) at is_unit) in
        cc (same, with_measured))
  ]
    where
      relation :
          (i j : ℕ)
          → i < 2 * n
          → j < 2 * n
          → commutator n (letter (s.row i)) (letter (s.row j)) ≡ paired n i j
      relation i j li lj = unfold clash commutator in old.relation i j li lj

      with_all :
          commutator n f (letter (s.row p)) ≡ true
          → (j : ℕ) → j < 2 * n
          → commutator n
              (λ k. (product (f k) (letter (s.row (p + n)) k)).operator)
              (letter (s.row j))
            ≡ false
      with_all e j lt =
          commutator-product n f (letter (s.row (p + n))) (letter (s.row j))
          ∙ elim (ℕ_discrete j p) [
            | yes i ↦ rw (i, e, relation (p + n) p (omega arith) (omega arith)) (ground arith)
            | no a ↦ elim (ℕ_discrete j (p + n)) [
              | yes i ↦
                  rw (i, with_stabilizer, relation (p + n) (p + n) (omega arith) (omega arith))
                    (ground arith)
              | no b ↦ rw (with_other j lt a b, relation (p + n) j (omega arith) lt) (ground arith)
            ]
          ]

  pub is_unit_after : (k : ℕ) → k < n → f k ≡ unit
  is_unit_after k lt = all.complete f every k lt
    where
      every : (j : ℕ) → j < 2 * n → commutator n f (letter (s.row j)) ≡ false
      every j below = elim (ℕ_discrete j p) [
        | yes i ↦ rw i with_destabilizer
        | no a ↦ elim (ℕ_discrete j (p + n)) [
          | yes i ↦ rw i with_stabilizer
          | no b ↦ with_other j below a b
        ]
      ]
