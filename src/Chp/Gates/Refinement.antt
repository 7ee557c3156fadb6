-- ===== src/Chp/Gates/Refinement.antt =====
-- The gates on a whole tableau.
use sabot.Prelude.{
  ℕ, zero, suc, ◌*◌, ◌≤◌, ◌<◌, ◌≡◌, ◌≢◌, refl, arith, ltb, lt→ltb, if◌then◌else◌, true, Option,
  some, Bool-cases, inl, inr,
}
use sabot.Pauli.{hadamard_image, phase_image}
use sabot.Loop.{for_below, update}
use sabot.Chp.{Row, ChpState, reachable}
use sabot.Chp.Gates.{hadamard_row, phase_row, cnot_row, each_row, hadamard, phase, cnot}
use sabot.Chp.Gates.Conjugation.{
  IsRow, Conjugates, ConjugatesPair, hadamard_row-Conjugates, phase_row-Conjugates,
  cnot_row-ConjugatesPair, hadamard_row-IsRow, phase_row-IsRow, cnot_row-IsRow,
}

-- Every row of the memory is one that the program may meet.
pub record IsTableau (s : ChpState) : Type 0 where
  pub rows : (i : ℕ) → IsRow (s.row i)

-- `s'` has the rows of `s`, related by P in the 2n rows of generators, and the scratch row alike.
pub record Acts (P : Row → Row → Type 0) (s s' : ChpState) : Type 0 where
  pub same_n : s'.n ≡ s.n
  pub same_over32 : s'.over32 ≡ s.over32
  pub same_allocated : s'.allocated ≡ s.allocated
  pub inside : (i : ℕ) → i < 2 * s.n → P (s.row i) (s'.row i)
  pub outside : (i : ℕ) → 2 * s.n ≤ i → s'.row i ≡ s.row i

each_row_loop :
    (f : Row → Row) (rows : ℕ → Row) (count i : ℕ)
    → for_below count (λ i rows. update rows i (f (rows i))) rows i
      ≡ (if ltb i count then f (rows i) else rows i)
unfolding for_below
each_row_loop f rows zero i = ground arith
each_row_loop f rows (suc k) i = ground (arith, each_row_loop f rows k i, each_row_loop f rows k k)

module _ (P : Row → Row → Type 0) (f : Row → Row)
    (keeps : (w : Row) → IsRow w → P w (f w) × IsRow (f w)) (s : ChpState) (h : IsTableau s) where
  each_row-row : (i : ℕ) → (each_row f s).row i ≡ (if ltb i (2 * s.n) then f (s.row i) else s.row i)
  unfolding each_row
  each_row-row i = each_row_loop f s.row (2 * s.n) i

  pub each_row-Acts : Acts P s (each_row f s) × IsTableau (each_row f s)
  unfolding each_row
  each_row-Acts = (
    record {
      same_n = refl;
      same_over32 = refl;
      same_allocated = refl;
      inside = λ i lt. rw (each_row-row i, lt→ltb i (2 * s.n) lt) (keeps (s.row i) (h.rows i)).0;
      outside = λ i le. ground (arith, each_row-row i);
    },
    record {
      rows = λ i. elim (Bool-cases (ltb i (2 * s.n))) [
        | inl e ↦ rw (each_row-row i, e) (keeps (s.row i) (h.rows i)).1
        | inr e ↦ rw (each_row-row i, e) (h.rows i)
      ];
    },
  )

-- A call that returns a tableau, on whose rows it acts by P.
abbrev pub Returns : (Row → Row → Type 0) → ChpState → Option ChpState → Type 0
Returns P s result = (s' : ChpState) × (result ≡ some s') × Acts P s s' × IsTableau s'

-- The Hadamard gate returns on a column that the rows hold, and conjugates each generator by H.
pub hadamard-Returns :
    (s : ChpState) (q : ℕ)
    → IsTableau s
    → reachable s q ≡ true
    → Returns (Conjugates hadamard_image q) s (hadamard s q)
unfolding hadamard
hadamard-Returns s q h e =
    let a =
      each_row-Acts (Conjugates hadamard_image q) (hadamard_row q)
        (λ w g. (hadamard_row-Conjugates q w g, hadamard_row-IsRow q w g)) s h in
    (_, rw e, a.0, a.1)

-- The phase gate returns on a column that the rows hold, and conjugates each generator by S.
pub phase-Returns :
    (s : ChpState) (q : ℕ)
    → IsTableau s
    → reachable s q ≡ true
    → Returns (Conjugates phase_image q) s (phase s q)
unfolding phase
phase-Returns s q h e =
    let a =
      each_row-Acts (Conjugates phase_image q) (phase_row q)
        (λ w g. (phase_row-Conjugates q w g, phase_row-IsRow q w g)) s h in
    (_, rw e, a.0, a.1)

-- On two distinct columns that the rows hold the CNOT gate returns, and conjugates each generator
-- by CNOT.
pub cnot-Returns :
    (s : ChpState) (c t : ℕ)
    → IsTableau s
    → reachable s c ≡ true
    → reachable s t ≡ true
    → c ≢ t
    → Returns (ConjugatesPair c t) s (cnot s c t)
unfolding cnot
cnot-Returns s c t h p q apart =
    let a =
      each_row-Acts (ConjugatesPair c t) (cnot_row c t)
        (λ w g. (cnot_row-ConjugatesPair c t w g apart, cnot_row-IsRow c t w g apart)) s h in
    (_, rw (p, q), a.0, a.1)

-- What a gate acts on is reachable after it too.
pub Acts-reachable :
    {P : Row → Row → Type 0} {s t : ChpState} (q : ℕ)
    → Acts P s t
    → reachable s q ≡ true
    → reachable t q ≡ true
unfolding reachable
Acts-reachable q a e = rw (a.same_n, a.same_over32, a.same_allocated) e
