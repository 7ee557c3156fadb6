-- ===== src/Chp/Measure/Repeat.antt =====
-- A measurement that is repeated.
use native.Mathlib.Decide.{dec_lt}
use mathlib.Core.Bool.{false≢true}
use sabot.Prelude.{
  ℕ, zero, suc, ◌+◌, ◌-◌, ◌*◌, ◌<◌, ◌≡◌, refl, sym, ap, ◌∙◌, arith, true, false, some,
}
use sabot.Randnum.{Generator, Draw, IsUniform, get_uniform_integer}
use sabot.Loop.{for_below_inv, update_self, update_ne}
use sabot.Chp.{ChpState, column}
use sabot.Chp.Gates.Refinement.{IsTableau}
use sabot.Chp.Rows.{rowcopy, copied_row}
use sabot.Chp.Measure.{
  measure_random, measure_determined, collect_row, measurable, measure, pivot, destabilizer_pivot,
  outcome,
}
use sabot.Chp.Measure.Collapse.{
  pivot-IsFirst, destabilizer_pivot-IsFirst, IsCollapsed, measure_random-IsCollapsed,
  measure_random_shape, place_of_measurable, measurable_same, measure_of_random,
  measure_of_determined,
}

module _ (n p q bit : ℕ) (u : ChpState) (c : IsCollapsed n p q bit u) (lt : p < n) where
  pub no_pivot : pivot u q ≡ n
  no_pivot =
      let f = pivot-IsFirst u q in
      elim (dec_lt (pivot u q) n) [
        | yes early ↦ absurd (
            false≢true (
              sym (c.others (pivot u q + n) (omega arith) (λ e. omega arith))
              ∙ ap (λ m. column (u.row (pivot u q + m)).x q) (sym c.same_n)
              ∙ f.passes (omega (arith, early, c.same_n))))
        | no late ↦ omega (arith, f.le_end, c.same_n)
      ]

  same_pivot : destabilizer_pivot u q ≡ p
  same_pivot =
      let f = destabilizer_pivot-IsFirst u q in
      let m = destabilizer_pivot u q in
      elim (dec_lt m p) [
        | yes early ↦ absurd (
            false≢true (
              sym (c.others m (omega arith) (λ e. omega arith))
              ∙ f.passes (omega (arith, c.same_n))))
        | no late ↦ elim (dec_lt p m) [
          | yes after ↦ absurd (false≢true (sym (f.none_before p (omega arith) after) ∙ c.alone))
          | no here ↦ omega arith
        ]
      ]

  scratch : ChpState
  scratch = rowcopy u (2 * u.n) (p + u.n)

  uncollected : (i : ℕ) → p < i → i < u.n → column (scratch.row i).x q ≡ false
  unfolding scratch rowcopy
  uncollected i after below =
      ap (λ w. column w.x q) (update_ne u.row (2 * u.n) i _ (λ e. omega arith))
      ∙ c.others i (omega (arith, c.same_n)) (λ e. omega arith)

  collects_nothing :
      (v : ChpState) (i : ℕ) → p < i → i < u.n → v ≡ scratch → collect_row q i v ≡ scratch
  unfolding collect_row
  collects_nothing v i after below e = rw (e, uncollected i after below)

  -- The scratch row is the pivot's stabilizer, and nothing is multiplied into it.
  measured_scratch : measure_determined u q ≡ scratch
  unfolding measure_determined
  measured_scratch = rw same_pivot (
      for_below_inv (λ k v. v ≡ scratch) (λ d. collect_row q (suc p + d)) (u.n - suc p)
        (λ d v below e. collects_nothing v (suc p + d) (omega arith) (omega arith) e) _
        (unfold scratch in refl))

  pub measured_sign : ((measure_determined u q).row (2 * u.n)).r ≡ 2 * bit
  unfolding scratch rowcopy copied_row
  measured_sign =
      rw (measured_scratch, scratch)
        (ap (λ w. w.r)
            (update_self u.row (2 * u.n) (copied_row u.over32 (u.row (2 * u.n)) (u.row (p + u.n))))
          ∙ ap (λ m. (u.row (p + m)).r) c.same_n
          ∙ c.sign)

outcome_of_bit : (bit : ℕ) → bit < 2 → outcome (2 * bit) ≡ bit
outcome_of_bit zero h = refl
outcome_of_bit (suc zero) h = refl
outcome_of_bit (suc (suc b)) h = absurd (omega arith)

-- On a tableau whose rows hold the qubit's column, and with a distribution that keeps its bounds, a
-- random measurement returns the bit drawn from the generator, and measuring the same qubit
-- again returns the same bit without drawing.
pub measure_random_again :
    {Rng : Type 0} (draw : Draw Rng) (s : ChpState) (q : ℕ) (g : Generator Rng)
    → IsUniform draw
    → IsTableau s
    → measurable s q ≡ true
    → pivot s q < s.n
    → let (bit, g1) = get_uniform_integer draw g 0 1 in
      (t u : ChpState) × (measure draw s q g ≡ some (bit, t, g1))
      × (measure draw t q g1 ≡ some (bit, u, g1))
unfolding get_uniform_integer
measure_random_again draw s q g uniform h e random =
    let bit = (draw 0 1 g.rng).0 in
    let g1 = (get_uniform_integer draw g 0 1).1 in
    let le : bit < 2 = omega (arith, uniform 0 1 g.rng) in
    let small = place_of_measurable s q e (omega arith) in
    let p = pivot s q in
    let t = measure_random s q p bit in
    let c = measure_random-IsCollapsed s q bit h small random le in
    let (sn, so, sa) = measure_random_shape s q bit h random le small in
    (
      t,
      measure_determined t q,
      measure_of_random draw s q g e random
          ∙ ap (λ b. some (b, t, g1)) (ap outcome c.sign ∙ outcome_of_bit bit le),
      measure_of_determined draw t q g1 (measurable_same s t q sn so sa e)
            (no_pivot s.n p q bit t c random ∙ sym sn)
          ∙ ap (λ b. some (b, measure_determined t q, g1))
              (ap outcome (measured_sign s.n p q bit t c random) ∙ outcome_of_bit bit le),
    )
