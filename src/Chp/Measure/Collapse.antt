-- ===== src/Chp/Measure/Collapse.antt =====
-- The state that a measurement leaves.
use sabot.Prelude.{
  ℕ, suc, ◌+◌, ◌-◌, ◌*◌, ◌<◌, ◌≡◌, ◌≢◌, refl, ◌∙◌, arith, ltb, lt→ltb, true, false, Bool-cases, inl,
  inr, some,
}
use sabot.Randnum.{Generator, Draw, get_uniform_integer}
use sabot.Loop.{for_below_inv, IsFirst, scan_all, update_ne}
use sabot.Chp.{ChpState, column}
use sabot.Chp.Gates.Refinement.{IsTableau}
use sabot.Chp.Rows.Multiply.{rowmult-IsTableau, rowmult_ne, rowmult_shape}
use sabot.Chp.Rows.Copy.{set_row-IsTableau, copied_row-IsRow}
use sabot.Chp.Rows.{rowcopy}
use sabot.Chp.Measure.{
  replace_pivot, measure_random, measure_determined, collect_row, measurable, measure,
  measure_checked, pivot, destabilizer_pivot, outcome,
}
use sabot.Chp.Measure.Pivot.{
  replace_pivot-IsTableau, replace_pivot_phase, column-replace_pivot,
  column-replace_pivot_destabilizer, replace_pivot_shape,
}
use sabot.Chp.Measure.Sweep.{sweep-IsSwept}

pub pivot-IsFirst :
    (s : ChpState) (q : ℕ) → IsFirst 0 s.n (pivot s q) (λ p. column (s.row (p + s.n)).x q)
unfolding pivot
pivot-IsFirst s q = scan_all s.n _

pub destabilizer_pivot-IsFirst :
    (s : ChpState) (q : ℕ) → IsFirst 0 s.n (destabilizer_pivot s q) (λ m. column (s.row m).x q)
unfolding destabilizer_pivot
destabilizer_pivot-IsFirst s q = scan_all s.n _

-- After a random outcome: the pivot's stabilizer carries it, and only the pivot's destabilizer
-- still fails to commute with the measurement.
pub record IsCollapsed (n p q bit : ℕ) (u : ChpState) : Type 0 where
  pub same_n : u.n ≡ n
  pub tableau : IsTableau u
  pub sign : (u.row (p + n)).r ≡ 2 * bit
  pub alone : column (u.row p).x q ≡ true
  pub others : (k : ℕ) → k < 2 * n → k ≢ p → column (u.row k).x q ≡ false

pub measure_random-IsCollapsed :
    (s : ChpState) (q bit : ℕ)
    → IsTableau s
    → q < 32 * s.over32
    → pivot s q < s.n
    → bit < 2
    → IsCollapsed s.n (pivot s q) q bit (measure_random s q (pivot s q) bit)
unfolding measure_random
measure_random-IsCollapsed s q bit h small random le =
    let p = pivot s q in
    let t = replace_pivot s q p bit in
    let shape = replace_pivot_shape s q p bit h random le in
    let on : column (t.row p).x q ≡ true =
      column-replace_pivot_destabilizer s q p bit h random le small
      ∙ (pivot-IsFirst s q).passes random in
    let w =
      sweep-IsSwept t p q (rw shape.1 small) on (2 * s.n)
        (replace_pivot-IsTableau s q p bit h random le) in
    let off = column-replace_pivot s q p bit h random le small in
    record {
      same_n = w.same_n ∙ shape.0;
      tableau = w.tableau;
      sign = rw (w.kept (p + s.n) off) (replace_pivot_phase s q p bit h random le);
      alone = rw w.pivot_kept on;
      others = λ k lt ne. w.cleared k lt ne;
    }

module _ (s : ChpState) (q bit : ℕ) (h : IsTableau s) (random : pivot s q < s.n) (le : bit < 2)
    (small : q < 32 * s.over32) where
  pub measure_random_shape :
      ((measure_random s q (pivot s q) bit).n ≡ s.n)
      × ((measure_random s q (pivot s q) bit).over32 ≡ s.over32)
      × ((measure_random s q (pivot s q) bit).allocated ≡ s.allocated)
  unfolding measure_random
  measure_random_shape =
      let p = pivot s q in
      let t = replace_pivot s q p bit in
      let shape = replace_pivot_shape s q p bit h random le in
      let on : column (t.row p).x q ≡ true =
        column-replace_pivot_destabilizer s q p bit h random le small
        ∙ (pivot-IsFirst s q).passes random in
      let w =
        sweep-IsSwept t p q (rw shape.1 small) on (2 * s.n)
          (replace_pivot-IsTableau s q p bit h random le) in
      (w.same_n ∙ shape.0, w.same_over32 ∙ shape.1, w.same_allocated ∙ shape.2)

pub place_of_measurable :
    (s : ChpState) (q : ℕ) → measurable s q ≡ true → 0 < s.n → q < 32 * s.over32
unfolding measurable
place_of_measurable s q e pos = ground arith

pub measurable_same :
    (s t : ChpState) (q : ℕ)
    → t.n ≡ s.n
    → t.over32 ≡ s.over32
    → t.allocated ≡ s.allocated
    → measurable s q ≡ true
    → measurable t q ≡ true
unfolding measurable
measurable_same s t q n o a e = ground arith

module _ {Rng : Type 0} (draw : Draw Rng) (s : ChpState) (q : ℕ) (g : Generator Rng) where
  pub measure_of_random :
      measurable s q ≡ true
      → pivot s q < s.n
      → measure draw s q g ≡ (
          let (bit, g1) = get_uniform_integer draw g 0 1 in
          let t = measure_random s q (pivot s q) bit in
          some (outcome (t.row (pivot s q + s.n)).r, t, g1))
  unfolding measure measure_checked
  measure_of_random e random = rw (e, lt→ltb (pivot s q) s.n random)

  pub measure_of_determined :
      measurable s q ≡ true
      → pivot s q ≡ s.n
      → measure draw s q g
        ≡ some (outcome ((measure_determined s q).row (2 * s.n)).r, measure_determined s q, g)
  unfolding measure measure_checked
  measure_of_determined e all = rw (e, ge all)
    where
      ge : {p n : ℕ} → p ≡ n → ltb p n ≡ false
      ge h = ground arith

-- A determined outcome changes only the scratch row, and keeps the tableau's shape.
pub record KeepsShape (s t : ChpState) : Type 0 where
  pub same_n : t.n ≡ s.n
  pub same_over32 : t.over32 ≡ s.over32
  pub same_allocated : t.allocated ≡ s.allocated
  pub tableau : IsTableau t
  pub rows_kept : (k : ℕ) → k < 2 * s.n → t.row k ≡ s.row k

pub collect_row-KeepsShape :
    (s t : ChpState) (q i : ℕ) → KeepsShape s t → KeepsShape s (collect_row q i t)
unfolding collect_row
collect_row-KeepsShape s t q i k = elim (Bool-cases (column (t.row i).x q)) [
  | inl e ↦ rw e (record {
    same_n = (rowmult_shape t (2 * t.n) (i + t.n)).0 ∙ k.same_n;
    same_over32 = (rowmult_shape t (2 * t.n) (i + t.n)).1 ∙ k.same_over32;
    same_allocated = (rowmult_shape t (2 * t.n) (i + t.n)).2 ∙ k.same_allocated;
    tableau = rowmult-IsTableau t (2 * t.n) (i + t.n) k.tableau;
    rows_kept = λ j lt.
        rowmult_ne t (2 * t.n) (i + t.n) j (λ e. omega (arith, k.same_n, e)) ∙ k.rows_kept j lt;
  })
  | inr e ↦ rw e k
]

pub scratch_copy-KeepsShape :
    (s : ChpState) (from : ℕ) → IsTableau s → KeepsShape s (rowcopy s (2 * s.n) from)
unfolding rowcopy
scratch_copy-KeepsShape s from h = record {
  same_n = refl;
  same_over32 = refl;
  same_allocated = refl;
  tableau =
      set_row-IsTableau s (2 * s.n) _ h
        (copied_row-IsRow s.over32 _ _ (h.rows (2 * s.n)) (h.rows from));
  rows_kept = λ k lt. update_ne s.row (2 * s.n) k _ (λ e. omega arith);
}

pub measure_determined-KeepsShape :
    (s : ChpState) (q : ℕ) → IsTableau s → KeepsShape s (measure_determined s q)
unfolding measure_determined
measure_determined-KeepsShape s q h =
    let m = destabilizer_pivot s q in
    for_below_inv (λ k t. KeepsShape s t) (λ d. collect_row q (suc m + d)) (s.n - suc m)
      (λ d t lt k. collect_row-KeepsShape s t q (suc m + d) k) _
      (scratch_copy-KeepsShape s (m + s.n) h)
