-- ===== src/Chp/Symplectic/Measure.antt =====
-- Measurement keeps the commutation relations.
use native.Mathlib.Decide.{ℕ_discrete}
use sabot.Prelude.{
  ℕ, ◌+◌, ◌*◌, ◌<◌, ◌≡◌, ◌≢◌, refl, sym, ap, ◌∙◌, arith, ◌==◌, Bool, true, false, not, ◌&&◌, xor,
  Bool-cases, inl, inr,
}
use sabot.Chp.{Row, ChpState, column}
use sabot.Chp.Gates.Refinement.{IsTableau}
use sabot.Chp.Measure.{replace_pivot, measure_random, pivot}
use sabot.Chp.Measure.Pivot.{
  replace_pivot-IsTableau, replace_pivot_shape, column-replace_pivot,
  column-replace_pivot_destabilizer, letter-replace_pivot_destabilizer,
  letter-replace_pivot_stabilizer, replace_pivot_ne,
}
use sabot.Chp.Measure.Sweep.{IsSwept, sweep-IsSwept}
use sabot.Chp.Measure.Collapse.{pivot-IsFirst}
use sabot.Chp.Symplectic.{clash, paired, IsSymplectic}
use sabot.Chp.Symplectic.Form.{clash_sym, clash_self, clash_letters, clash-product, clash_z}

module _ (s : ChpState) (q bit : ℕ) (h : IsTableau s) (small : q < s.n) (room : s.n < 32 * s.over32)
    (random : pivot s q < s.n) (le : bit < 2) (old : IsSymplectic s.n s.row) where
  abbrev n : ℕ
  n = s.n

  abbrev p : ℕ
  p = pivot s q

  abbrev t : ChpState
  t = replace_pivot s q p bit

  -- The row anticommutes with Z on the qubit.
  abbrev odd : ℕ → Bool
  odd i = column (s.row i).x q

  pub odd_pivot : odd (p + n) ≡ true
  odd_pivot = (pivot-IsFirst s q).passes random

  destabilizer_clash : (v : Row) → clash n (t.row p) v ≡ clash n (s.row (p + n)) v
  destabilizer_clash v =
      clash_letters n (s.row (p + n)) (t.row p) v
        (λ k lt. letter-replace_pivot_destabilizer s q p bit h random le k (omega arith))

  stabilizer_clash : (v : Row) → clash n (t.row (p + n)) v ≡ column v.x q
  stabilizer_clash v =
      clash_z n (t.row (p + n)) v q small
        (λ k lt. letter-replace_pivot_stabilizer s q p bit h random le k (omega arith))

  on : column (t.row p).x q ≡ true
  on = column-replace_pivot_destabilizer s q p bit h random le (omega arith) ∙ odd_pivot

  pub off : column (t.row (p + n)).x q ≡ false
  off = column-replace_pivot s q p bit h random le (omega arith)

  pub swept : IsSwept t p q (2 * n) (measure_random s q p bit)
  unfolding measure_random
  swept =
      let shape = replace_pivot_shape s q p bit h random le in
      let inside : q < 32 * s.over32 = omega arith in
      sweep-IsSwept t p q (rw shape.1 inside) on (2 * n)
        (replace_pivot-IsTableau s q p bit h random le)

  -- The row is multiplied by the pivot.
  abbrev changes : ℕ → Bool
  changes i = not (i == p) && column (t.row i).x q

  new_clash :
      (i : ℕ) (v : Row)
      → i < 2 * n
      → clash n ((measure_random s q p bit).row i) v
        ≡ xor (changes i && clash n (t.row p) v) (clash n (t.row i) v)
  new_clash i v lt = elim (ℕ_discrete i p) [
    | yes e ↦
        let same : (i == p) ≡ true = ground arith in
        rw same (
          ap (λ k. clash n ((measure_random s q p bit).row k) v) e
          ∙ ap (λ r. clash n r v) swept.pivot_kept
          ∙ ap (λ k. clash n (t.row k) v) (sym e))
    | no ne ↦
        let other : (i == p) ≡ false = ground arith in
        elim (Bool-cases (column (t.row i).x q)) [
          | inl e ↦
              let product = swept.multiplied i lt ne e in
              let wide = (replace_pivot_shape s q p bit h random le).1 in
              rw (other, e)
                (clash-product n (t.row p) (t.row i) _ v
                  (λ k below. product.letters k (omega (arith, wide))))
          | inr e ↦ rw (other, e) (ap (λ r. clash n r v) (swept.kept i e))
        ]
  ]

  -- The relations of the rows that replace_pivot leaves.
  pivot_pivot : clash n (t.row p) (t.row p) ≡ false
  pivot_pivot = clash_self n (t.row p)

  stabilizer_pivot : clash n (t.row (p + n)) (t.row p) ≡ true
  stabilizer_pivot = stabilizer_clash (t.row p) ∙ on

  stabilizer_stabilizer : clash n (t.row (p + n)) (t.row (p + n)) ≡ false
  stabilizer_stabilizer = clash_self n (t.row (p + n))

  pivot_other : (j : ℕ) → j < 2 * n → j ≢ p → j ≢ p + n → clash n (t.row p) (t.row j) ≡ false
  unfolding paired
  pivot_other j lt a b =
      destabilizer_clash (t.row j)
      ∙ ap (clash n (s.row (p + n))) (replace_pivot_ne s q p bit h random le j a b)
      ∙ old.relation (p + n) j (omega arith) lt
      ∙ ground arith

  other_other :
      (i j : ℕ)
      → i < 2 * n
      → j < 2 * n
      → i ≢ p
      → i ≢ p + n
      → j ≢ p
      → j ≢ p + n
      → clash n (t.row i) (t.row j) ≡ paired n i j
  other_other i j li lj a b c d =
      ap (λ r. clash n r (t.row j)) (replace_pivot_ne s q p bit h random le i a b)
      ∙ ap (clash n (s.row i)) (replace_pivot_ne s q p bit h random le j c d)
      ∙ old.relation i j li lj

  changes_pivot : changes p ≡ false
  changes_pivot = ground arith

  changes_stabilizer : changes (p + n) ≡ false
  changes_stabilizer = rw off (ground arith)

  changes_other : (i : ℕ) → i ≢ p → changes i ≡ column (t.row i).x q
  changes_other i ne = ground arith

  -- The relations after the sweep, in those before it.
  expand :
      (i j : ℕ)
      → i < 2 * n
      → j < 2 * n
      → clash n ((measure_random s q p bit).row i) ((measure_random s q p bit).row j)
        ≡ xor
            (changes i && clash n (t.row j) (t.row p))
            (xor (changes j && clash n (t.row i) (t.row p)) (clash n (t.row i) (t.row j)))
  expand i j li lj =
      let u = (measure_random s q p bit).row j in
      let pivot_new : clash n (t.row p) u ≡ clash n (t.row j) (t.row p) =
        clash_sym n (t.row p) u ∙ new_clash j (t.row p) lj ∙ rw pivot_pivot (ground arith) in
      let row_new : clash n (t.row i) u
          ≡ xor (changes j && clash n (t.row i) (t.row p)) (clash n (t.row i) (t.row j)) =
        clash_sym n (t.row i) u
        ∙ new_clash j (t.row i) lj
        ∙ rw (clash_sym n (t.row p) (t.row i), clash_sym n (t.row j) (t.row i)) refl in
      new_clash i u li ∙ rw (pivot_new, row_new) refl

  from_pivot :
      (j : ℕ)
      → j < 2 * n
      → xor
          (changes p && clash n (t.row j) (t.row p))
          (xor (changes j && clash n (t.row p) (t.row p)) (clash n (t.row p) (t.row j)))
        ≡ paired n p j
  unfolding paired
  from_pivot j lj = elim (ℕ_discrete j p) [
    | yes e ↦ rw (e, changes_pivot, pivot_pivot) (ground arith)
    | no a ↦ elim (ℕ_discrete j (p + n)) [
      | yes e ↦
          rw
            (e, changes_pivot, pivot_pivot, clash_sym n (t.row p) (t.row (p + n)), stabilizer_pivot)
            (ground arith)
      | no b ↦ rw (changes_pivot, pivot_pivot, pivot_other j lj a b) (ground arith)
    ]
  ]

  from_stabilizer :
      (j : ℕ)
      → j < 2 * n
      → xor
          (changes (p + n) && clash n (t.row j) (t.row p))
          (xor (changes j && clash n (t.row (p + n)) (t.row p)) (clash n (t.row (p + n)) (t.row j)))
        ≡ paired n (p + n) j
  unfolding paired
  from_stabilizer j lj = elim (ℕ_discrete j p) [
    | yes e ↦ rw (e, changes_stabilizer, changes_pivot, stabilizer_pivot) (ground arith)
    | no a ↦ elim (ℕ_discrete j (p + n)) [
      | yes e ↦ rw (e, changes_stabilizer, stabilizer_stabilizer) (ground arith)
      | no b ↦
          rw (changes_stabilizer, changes_other j a, stabilizer_pivot, stabilizer_clash (t.row j))
            (ground arith)
    ]
  ]

  from_other :
      (i j : ℕ)
      → i < 2 * n
      → j < 2 * n
      → i ≢ p
      → i ≢ p + n
      → xor
          (changes i && clash n (t.row j) (t.row p))
          (xor (changes j && clash n (t.row i) (t.row p)) (clash n (t.row i) (t.row j)))
        ≡ paired n i j
  unfolding paired
  from_other i j li lj ni nis =
      let apart : clash n (t.row i) (t.row p) ≡ false =
        clash_sym n (t.row i) (t.row p) ∙ pivot_other i li ni nis in
      elim (ℕ_discrete j p) [
        | yes e ↦ rw (e, changes_pivot, pivot_pivot, apart) (ground arith)
        | no a ↦ elim (ℕ_discrete j (p + n)) [
          | yes e ↦
              rw
                (
                  e,
                  changes_stabilizer,
                  changes_other i ni,
                  stabilizer_pivot,
                  clash_sym n (t.row i) (t.row (p + n)),
                  stabilizer_clash (t.row i),
                )
                (ground arith)
          | no b ↦
              rw
                (
                  clash_sym n (t.row j) (t.row p),
                  pivot_other j lj a b,
                  apart,
                  other_other i j li lj ni nis a b,
                )
                (ground arith)
        ]
      ]

  pub measured_relation :
      (i j : ℕ)
      → i < 2 * n
      → j < 2 * n
      → clash n ((measure_random s q p bit).row i) ((measure_random s q p bit).row j) ≡ paired n i j
  measured_relation i j li lj = expand i j li lj ∙ elim (ℕ_discrete i p) [
    | yes e ↦ rw e (from_pivot j lj)
    | no a ↦ elim (ℕ_discrete i (p + n)) [
      | yes e ↦ rw e (from_stabilizer j lj)
      | no b ↦ from_other i j li lj a b
    ]
  ]
