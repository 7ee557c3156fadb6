-- ===== src/Chp/Run/Ready.antt =====
-- Tableaux that a program can run on, and what each operation leaves of that.
use sabot.Prelude.{
  ℕ, ◌+◌, ◌-◌, ◌*◌, ◌/◌, ◌%◌, ◌<◌, ◌≡◌, refl, ◌∙◌, arith, ltb, ◌==◌, Bool, true, Bool-cases, inl,
  inr, Option, some,
}
use native.Mathlib.Decide.{dec_lt}
use sabot.Randnum.{Generator, Draw, IsUniform, get_uniform_integer}
use sabot.Word.Signed.{IsSigned, zero-IsSigned, pt-IsSigned}
use sabot.Loop.{update}
use sabot.Chp.{Row, ChpState, empty_state, reachable}
use sabot.Chp.Gates.Conjugation.{IsRow}
use sabot.Chp.Gates.Refinement.{IsTableau, Returns}
use sabot.Chp.Measure.{measure, measurable, pivot, outcome}
use sabot.Chp.Measure.Collapse.{
  pivot-IsFirst, measure_random-IsCollapsed, measure_random_shape, place_of_measurable,
  measure_of_random, measure_of_determined, measure_determined-KeepsShape,
}
use sabot.Chp.Init.{init_state, initialised, initial_row}

-- An allocated tableau for n qubits.
pub record IsReady (n : ℕ) (s : ChpState) : Type 0 where
  pub has_n : s.n ≡ n
  pub has_over32 : s.over32 ≡ n / 32 + 1
  pub has_memory : s.allocated ≡ true
  pub tableau : IsTableau s

pub reachable_of_ready : (n q : ℕ) (s : ChpState) → IsReady n s → q < n → reachable s q ≡ true
unfolding reachable
reachable_of_ready n q s r h = ground (arith, r.has_n, r.has_over32, r.has_memory)

pub measurable_of_ready : (n q : ℕ) (s : ChpState) → IsReady n s → q < n → measurable s q ≡ true
unfolding measurable
measurable_of_ready n q s r h = ground (arith, r.has_n, r.has_over32, r.has_memory)

pub Returns-IsReady :
    (P : Row → Row → Type 0) (n : ℕ) (s : ChpState) (result : Option ChpState)
    → IsReady n s
    → Returns P s result
    → (t : ChpState) × (result ≡ some t) × IsReady n t
Returns-IsReady P n s result r (t, e, a, h) = (
  t,
  e,
  record {
    has_n = a.same_n ∙ r.has_n;
    has_over32 = a.same_over32 ∙ r.has_over32;
    has_memory = a.same_allocated ∙ r.has_memory;
    tableau = h;
  },
)

zeros-IsSigned : (j : ℕ) → IsSigned 0
zeros-IsSigned j = zero-IsSigned

pub empty_state-IsTableau : IsTableau empty_state
unfolding empty_state
empty_state-IsTableau = record {
  rows = λ i. record { x_signed = zeros-IsSigned; z_signed = zeros-IsSigned };
}

one_word-IsSigned : (i m : ℕ) → IsSigned m → (j : ℕ) → IsSigned (update (λ j. 0) i m j)
one_word-IsSigned i m h j = elim (Bool-cases (j == i)) [
  | inl e ↦ rw e h
  | inr e ↦ rw e zero-IsSigned
]

initial_row-IsRow : (fresh n i : ℕ) → IsRow (initial_row fresh n i)
unfolding initial_row
initial_row-IsRow fresh n i = elim (Bool-cases (ltb i n)) [
  | inl e ↦ rw e (record {
    x_signed = one_word-IsSigned _ _ (pt-IsSigned (i % 32) (omega arith));
    z_signed = zeros-IsSigned;
  })
  | inr e ↦ rw e (record {
    x_signed = zeros-IsSigned;
    z_signed = one_word-IsSigned _ _ (pt-IsSigned ((i - n) % 32) (omega arith));
  })
]

pub initialised-IsReady :
    (fresh n : ℕ) (s : ChpState) → IsTableau s → IsReady n (initialised fresh s n)
unfolding initialised
initialised-IsReady fresh n s h = record {
  has_n = refl;
  has_over32 = refl;
  has_memory = refl;
  tableau = record {
    rows = λ i. elim (Bool-cases (ltb i (2 * n + 1))) [
      | inl b ↦ rw b (initial_row-IsRow fresh n i)
      | inr b ↦ rw b (h.rows i)
    ];
  };
}

pub init_state-IsReady :
    (allocates : ℕ → Bool) (fresh n : ℕ) (s : ChpState)
    → IsTableau s
    → allocates n ≡ true
    → (t : ChpState) × (init_state allocates fresh s n ≡ (true, t)) × IsReady n t
unfolding init_state
init_state-IsReady allocates fresh n s h e =
    (initialised fresh s n, rw e, initialised-IsReady fresh n s h)

outcome-lt : (phase : ℕ) → outcome phase < 2
outcome-lt phase = ground arith

pub measure-IsReady :
    {Rng : Type 0} (draw : Draw Rng) (n q : ℕ) (s : ChpState) (g : Generator Rng)
    → IsUniform draw
    → IsReady n s
    → q < n
    → (bit : ℕ) × (t : ChpState) × (g' : Generator Rng) × (measure draw s q g ≡ some (bit, t, g'))
      × (bit < 2)
      × IsReady n t
measure-IsReady draw n q s g uniform r lt =
    let e = measurable_of_ready n q s r lt in
    let f = pivot-IsFirst s q in
    elim (dec_lt (pivot s q) s.n) [
      | yes random ↦
          let bit = (get_uniform_integer draw g 0 1).0 in
          let small : bit < 2 = unfold get_uniform_integer in omega (arith, uniform 0 1 g.rng) in
          let place = place_of_measurable s q e (omega arith) in
          let (sn, so, sa) = measure_random_shape s q bit r.tableau random small place in
          let c = measure_random-IsCollapsed s q bit r.tableau place random small in
          (
            _,
            _,
            _,
            measure_of_random draw s q g e random,
            outcome-lt _,
            record {
              has_n = sn ∙ r.has_n;
              has_over32 = so ∙ r.has_over32;
              has_memory = sa ∙ r.has_memory;
              tableau = c.tableau;
            },
          )
      | no determined ↦
          let k = measure_determined-KeepsShape s q r.tableau in
          (
            _,
            _,
            _,
            measure_of_determined draw s q g e (omega (arith, f.le_end)),
            outcome-lt _,
            record {
              has_n = k.same_n ∙ r.has_n;
              has_over32 = k.same_over32 ∙ r.has_over32;
              has_memory = k.same_allocated ∙ r.has_memory;
              tableau = k.tableau;
            },
          )
    ]
