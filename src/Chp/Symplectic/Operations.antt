-- ===== src/Chp/Symplectic/Operations.antt =====
-- Each operation of state/chp_state.hpp keeps the commutation relations of the tableau.
use mathlib.Core.Path.{subst}
use native.Mathlib.Decide.{dec_lt}
use sabot.Prelude.{ℕ, ◌*◌, ◌<◌, ◌≡◌, sym, ap, ◌∙◌, arith, Bool, true, Option, some}
use sabot.Randnum.{Generator, Draw, IsUniform, get_uniform_integer}
use sabot.Chp.{Row, ChpState}
use sabot.Chp.Gates.Refinement.{IsTableau, Returns}
use sabot.Chp.Init.{initialised, init_state}
use sabot.Chp.Measure.{measure, pivot}
use sabot.Chp.Measure.Collapse.{
  pivot-IsFirst, measure_of_random, measure_of_determined, measure_determined-KeepsShape,
}
use sabot.Chp.Run.Ready.{IsReady, measurable_of_ready, initialised-IsReady, measure-IsReady}
use sabot.Chp.Symplectic.{IsSymplectic, IsComplete, commutator}
use sabot.Chp.Symplectic.Gates.{Keeps, Acts-IsSymplectic}
use sabot.Chp.Symplectic.Init.{initialised-IsSymplectic}
use sabot.Chp.Symplectic.Measure.{measured_relation}
use sabot.Chp.Symplectic.Complete.{Reflects, Acts-IsComplete, initialised-IsComplete}
use sabot.Chp.Symplectic.Collapse.{is_unit_after}
use sabot.Chp.Gates.Conjugation.{letter}

-- A tableau for n qubits whose rows are destabilizers and stabilizers.
pub record IsStabilizer (n : ℕ) (s : ChpState) : Type 0 where
  pub ready : IsReady n s
  pub relations : IsSymplectic n s.row
  pub basis : IsComplete n s.row

pub Returns-IsStabilizer :
    (P : Row → Row → Type 0) (n : ℕ) (s : ChpState) (result : Option ChpState)
    → Keeps s.n P
    → Reflects s.n P
    → IsStabilizer n s
    → Returns P s result
    → (t : ChpState) × (result ≡ some t) × IsStabilizer n t
Returns-IsStabilizer P n s result keeps reflects h (t, e, a, tableau) = (
  t,
  e,
  record {
    ready = record {
      has_n = a.same_n ∙ h.ready.has_n;
      has_over32 = a.same_over32 ∙ h.ready.has_over32;
      has_memory = a.same_allocated ∙ h.ready.has_memory;
      tableau = tableau;
    };
    relations =
        subst (λ m. IsSymplectic m t.row) (a.same_n ∙ h.ready.has_n)
          (Acts-IsSymplectic P s t keeps a
            (subst (λ m. IsSymplectic m s.row) (sym h.ready.has_n) h.relations));
    basis =
        subst (λ m. IsComplete m t.row) (a.same_n ∙ h.ready.has_n)
          (Acts-IsComplete P s t reflects a
            (subst (λ m. IsComplete m s.row) (sym h.ready.has_n) h.basis));
  },
)

pub init_state-IsStabilizer :
    (allocates : ℕ → Bool) (fresh n : ℕ) (s : ChpState)
    → IsTableau s
    → allocates n ≡ true
    → (t : ChpState) × (init_state allocates fresh s n ≡ (true, t)) × IsStabilizer n t
unfolding init_state
init_state-IsStabilizer allocates fresh n s h e = (
  initialised fresh s n,
  rw e,
  record {
    ready = initialised-IsReady fresh n s h;
    relations = initialised-IsSymplectic fresh n s;
    basis = initialised-IsComplete fresh n s;
  },
)

measured_state :
    {Rng : Type 0} {b b' : ℕ} {t t' : ChpState} {g g' : Generator Rng}
    {result : Option (ℕ × ChpState × Generator Rng)}
    → result ≡ some (b, t, g)
    → result ≡ some (b', t', g')
    → t' ≡ t
measured_state e e' = cc

-- Measurement keeps the relations, whichever way its outcome is found.
measured-IsSymplectic :
    {Rng : Type 0} (draw : Draw Rng) (q : ℕ) (s : ChpState) (g : Generator Rng) {bit : ℕ}
    {t : ChpState} {g' : Generator Rng}
    → IsUniform draw
    → IsReady s.n s
    → q < s.n
    → IsSymplectic s.n s.row
    → measure draw s q g ≡ some (bit, t, g')
    → IsSymplectic s.n t.row
measured-IsSymplectic draw q s g uniform ready lt old called =
    let e = measurable_of_ready s.n q s ready lt in
    let first = pivot-IsFirst s q in
    elim (dec_lt (pivot s q) s.n) [
      | yes random ↦
          let drawn = (get_uniform_integer draw g 0 1).0 in
          let small : drawn < 2 = unfold get_uniform_integer in omega (arith, uniform 0 1 g.rng) in
          let room : s.n < 32 * s.over32 = omega (arith, ready.has_over32) in
          let same = measured_state (measure_of_random draw s q g e random) called in
          record {
            relation = λ i j li lj.
                rw same
                  (measured_relation s q drawn ready.tableau lt room random small old i j li lj);
          }
      | no determined ↦
          let k = measure_determined-KeepsShape s q ready.tableau in
          let same =
            measured_state (measure_of_determined draw s q g e (omega (arith, first.le_end)))
              called in
          record {
            relation =
                λ i j li lj. rw (same, k.rows_kept i li, k.rows_kept j lj) (old.relation i j li lj);
          }
    ]

measured-IsComplete :
    {Rng : Type 0} (draw : Draw Rng) (q : ℕ) (s : ChpState) (g : Generator Rng) {bit : ℕ}
    {t : ChpState} {g' : Generator Rng}
    → IsUniform draw
    → IsReady s.n s
    → q < s.n
    → IsSymplectic s.n s.row
    → IsComplete s.n s.row
    → measure draw s q g ≡ some (bit, t, g')
    → IsComplete s.n t.row
measured-IsComplete draw q s g uniform ready lt old all called =
    let e = measurable_of_ready s.n q s ready lt in
    let first = pivot-IsFirst s q in
    elim (dec_lt (pivot s q) s.n) [
      | yes random ↦
          let drawn = (get_uniform_integer draw g 0 1).0 in
          let small : drawn < 2 = unfold get_uniform_integer in omega (arith, uniform 0 1 g.rng) in
          let room : s.n < 32 * s.over32 = omega (arith, ready.has_over32) in
          let same = measured_state (measure_of_random draw s q g e random) called in
          record {
            complete = λ f commutes k below.
                is_unit_after s q drawn ready.tableau lt room random small old all f
                  (λ j lj. rw same at (commutes j lj)) k below;
          }
      | no determined ↦
          let kept = measure_determined-KeepsShape s q ready.tableau in
          let same =
            measured_state (measure_of_determined draw s q g e (omega (arith, first.le_end)))
              called in
          record {
            complete = λ f commutes k below.
                all.complete f
                  (λ j lj.
                    ap (λ r. commutator s.n f (letter r)) (sym (kept.rows_kept j lj))
                    ∙ (rw same at (commutes j lj)))
                  k below;
          }
    ]

pub measure-IsStabilizer :
    {Rng : Type 0} (draw : Draw Rng) (n q : ℕ) (s : ChpState) (g : Generator Rng)
    → IsUniform draw
    → IsStabilizer n s
    → q < n
    → (bit : ℕ) × (t : ChpState) × (g' : Generator Rng) × (measure draw s q g ≡ some (bit, t, g'))
      × IsStabilizer n t
measure-IsStabilizer draw n q s g uniform h lt =
    let (bit, t, g', called, _, ready) = measure-IsReady draw n q s g uniform h.ready lt in
    let same = sym h.ready.has_n in
    (
      bit,
      t,
      g',
      called,
      record {
        ready = ready;
        relations =
            subst (λ m. IsSymplectic m t.row) h.ready.has_n
              (measured-IsSymplectic draw q s g uniform (subst (λ m. IsReady m s) same h.ready)
                (subst (λ m. q < m) same lt) (subst (λ m. IsSymplectic m s.row) same h.relations)
                called);
        basis =
            subst (λ m. IsComplete m t.row) h.ready.has_n
              (measured-IsComplete draw q s g uniform (subst (λ m. IsReady m s) same h.ready)
                (subst (λ m. q < m) same lt) (subst (λ m. IsSymplectic m s.row) same h.relations)
                (subst (λ m. IsComplete m s.row) same h.basis) called);
      },
    )
