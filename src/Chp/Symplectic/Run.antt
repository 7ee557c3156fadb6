-- ===== src/Chp/Symplectic/Run.antt =====
-- Programs of state/chp_state.hpp keep the commutation relations of the tableau.
use mathlib.Core.Path.{subst}
use sabot.Prelude.{ℕ, ◌+◌, ◌<◌, ◌≡◌, refl, sym, Bool, true, Option, some, List, [], ◌∷◌, ◌++◌}
use sabot.Pauli.{Pauli, Phased, sigma_x, sigma_y, sigma_z, hadamard_image, phase_image, pauli_image}
use sabot.Randnum.{IsUniform}
use sabot.Language.Machine.{Operation, Instruction}
use sabot.Chp.{ChpState}
use sabot.Chp.Gates.Refinement.{IsTableau, Returns, hadamard-Returns, phase-Returns, cnot-Returns}
use sabot.Chp.Gates.Sequence.{paulix-Returns, pauliy-Returns, pauliz-Returns}
use sabot.Chp.Run.{Env, Machine, on_state, step, run_program}
use sabot.Chp.Run.Ready.{reachable_of_ready}
use sabot.Chp.Run.Safety.{Fits, FitsAll, qubits_after, qubits_of}
use sabot.Chp.Symplectic.{IsSymplectic, IsComplete}
use sabot.Chp.Symplectic.Complete.{
  IsAdjoint, hadamard-IsAdjoint, phase-IsAdjoint, pauli-IsAdjoint, Conjugates-Reflects,
  ConjugatesPair-Reflects,
}
use sabot.Chp.Gates.Conjugation.{Conjugates}
use sabot.Chp.Symplectic.Gates.{
  Faithful, Conjugates-Keeps, ConjugatesPair-Keeps, hadamard-Faithful, phase-Faithful,
  pauli-Faithful,
}
use sabot.Chp.Symplectic.Operations.{
  IsStabilizer, Returns-IsStabilizer, init_state-IsStabilizer, measure-IsStabilizer,
}

module _ {Rng : Type 0} (env : Env Rng) where
  -- An instruction that goes on, in a stabilizer tableau for n qubits.
  abbrev Continues : ℕ → Option (Bool × Machine Rng) → Type 0
  Continues n result = (m' : Machine Rng) × (result ≡ some (true, m')) × IsStabilizer n m'.state

  gate-Continues :
      (n : ℕ) (m : Machine Rng) (result : Option ChpState)
      → (t : ChpState) × (result ≡ some t) × IsStabilizer n t
      → Continues n (on_state env m result)
  gate-Continues n m result (t, e, h) = (record m { state = t }, rw e, h)

  conjugating :
      (n : ℕ) (m : Machine Rng) (q : ℕ) (image : Pauli → Phased) (result : Option ChpState)
      → Faithful image
      → IsAdjoint image
      → IsStabilizer n m.state
      → Returns (Conjugates image q) m.state result
      → Continues n (on_state env m result)
  conjugating n m q image result faithful adjoint h returns = gate-Continues n m result (
      Returns-IsStabilizer _ n m.state result (Conjugates-Keeps m.state.n q image faithful)
        (Conjugates-Reflects m.state.n q image adjoint) h returns)

  step-Continues :
      (op : Operation) (i : Instruction) (n : ℕ) (m : Machine Rng)
      → IsUniform env.draw
      → IsStabilizer n m.state
      → Fits env n op i
      → Continues (qubits_after env n op i) (step env op i m)
  unfolding step
  step-Continues Operation.macro i n m u h f = (m, refl, h)
  step-Continues Operation.identity i n m u h f = (m, refl, h)
  step-Continues Operation.initialize i n m u h f =
      let (t, e, new) =
        init_state-IsStabilizer env.allocates env.uninitialised i.first m.state h.ready.tableau f in
      (record m { state = t }, rw e, new)
  step-Continues Operation.hadamard i n m u h f =
      conjugating n m i.first hadamard_image _ hadamard-Faithful hadamard-IsAdjoint h (
        hadamard-Returns m.state i.first h.ready.tableau
          (reachable_of_ready n i.first m.state h.ready f))
  step-Continues Operation.phase i n m u h f =
      conjugating n m i.first phase_image _ phase-Faithful phase-IsAdjoint h (
        phase-Returns m.state i.first h.ready.tableau
          (reachable_of_ready n i.first m.state h.ready f))
  step-Continues Operation.paulix i n m u h f =
      conjugating n m i.first (pauli_image sigma_x) _ (pauli-Faithful sigma_x)
        (pauli-IsAdjoint sigma_x) h
        (paulix-Returns m.state i.first h.ready.tableau
          (reachable_of_ready n i.first m.state h.ready f))
  step-Continues Operation.pauliy i n m u h f =
      conjugating n m i.first (pauli_image sigma_y) _ (pauli-Faithful sigma_y)
        (pauli-IsAdjoint sigma_y) h
        (pauliy-Returns m.state i.first h.ready.tableau
          (reachable_of_ready n i.first m.state h.ready f))
  step-Continues Operation.pauliz i n m u h f =
      conjugating n m i.first (pauli_image sigma_z) _ (pauli-Faithful sigma_z)
        (pauli-IsAdjoint sigma_z) h
        (pauliz-Returns m.state i.first h.ready.tableau
          (reachable_of_ready n i.first m.state h.ready f))
  step-Continues Operation.cnot i n m u h f =
      let same = sym h.ready.has_n in
      gate-Continues n m _ (
        Returns-IsStabilizer _ n m.state _
          (ConjugatesPair-Keeps m.state.n i.first i.second (subst (λ k. i.first < k) same f.0)
            (subst (λ k. i.second < k) same f.1) f.2)
          (ConjugatesPair-Reflects m.state.n i.first i.second (subst (λ k. i.first < k) same f.0)
            (subst (λ k. i.second < k) same f.1) f.2)
          h
          (cnot-Returns m.state i.first i.second h.ready.tableau
            (reachable_of_ready n i.first m.state h.ready f.0)
            (reachable_of_ready n i.second m.state h.ready f.1) f.2))
  step-Continues Operation.measure i n m u h f =
      let (bit, t, g, e, new) = measure-IsStabilizer env.draw n i.first m.state m.generator u h f in
      (record { state = t; buffer = m.buffer ++ (bit + b'0') ∷ []; generator = g }, rw e, new)

run_program-IsStabilizer :
    {Rng : Type 0} (env : Env Rng) (program : List Instruction) (n : ℕ) (m : Machine Rng)
    → IsUniform env.draw
    → IsStabilizer n m.state
    → FitsAll env n program
    → (m' : Machine Rng) × (run_program env m program ≡ some (true, m'))
      × IsStabilizer (qubits_of env n program) m'.state
unfolding run_program
run_program-IsStabilizer env [] n m u h f = (m, refl, h)
run_program-IsStabilizer env (i ∷ is) n m u h (f, fs) =
    let (m1, e, h1) = step-Continues env i.bytecode i n m u h f in
    let (m2, e2, h2) =
      run_program-IsStabilizer env is (qubits_after env n i.bytecode i) m1 u h1 fs in
    (m2, rw (e, e2), h2)

-- A program that begins by asking for n qubits, which can be allocated, and then fits them returns
-- true, whatever tableau of sign-extended words it began with. In the tableau that it leaves, any two
-- of the rows commute, except that each destabilizer anticommutes with the stabilizer of the same
-- number, and only the unit commutes with all of them, so that no generator is a product of others.
pub run_program-IsSymplectic :
    {Rng : Type 0} (env : Env Rng) (n second : ℕ) (program : List Instruction) (m : Machine Rng)
    → IsUniform env.draw
    → IsTableau m.state
    → env.allocates n ≡ true
    → FitsAll env n program
    → (m' : Machine Rng) × (run_program env m
          (record { bytecode = Operation.initialize; first = n; second = second } ∷ program)
        ≡ some (true, m'))
      × (m'.state.n ≡ qubits_of env n program)
      × IsSymplectic m'.state.n m'.state.row
      × IsComplete m'.state.n m'.state.row
unfolding run_program
run_program-IsSymplectic env n second program m u r a f =
    let start : Instruction = record {
      bytecode = Operation.initialize;
      first = n;
      second = second;
    } in
    let (t, e, h) = init_state-IsStabilizer env.allocates env.uninitialised n m.state r a in
    let (m', e', h') = run_program-IsStabilizer env program n (record m { state = t }) u h f in
    let called : step env Operation.initialize start m ≡ some (true, record m { state = t }) =
      unfold step in rw e in
    (
      m',
      rw (called, e'),
      h'.ready.has_n,
      subst (λ k. IsSymplectic k m'.state.row) (sym h'.ready.has_n) h'.relations,
      subst (λ k. IsComplete k m'.state.row) (sym h'.ready.has_n) h'.basis,
    )
