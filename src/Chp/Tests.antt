-- ===== src/Chp/Tests.antt =====
-- The theorems on the tableau at concrete states.
use sabot.Prelude.{
  ℕ, ◌+◌, ◌*◌, ◌%◌, ◌<◌, ◌≡◌, ◌==◌, refl, arith, if◌then◌else◌, true, some, List, [], ◌∷◌, length,
}
use sabot.Randnum.{Generator, Draw, IsUniform, get_uniform_integer}
use sabot.Pauli.{unit, sigma_x, sigma_y, sigma_z, hadamard_image, phase_image, pauli_image}
use sabot.Loop.{for_below, scan}
use sabot.Word.{has, pt, sign_extend}
use sabot.Language.Machine.{Operation, Instruction}
use sabot.Chp.{ChpState, empty_state, reachable, column, xor_word}
use sabot.Chp.Gates.{hadamard, phase, cnot, paulix, pauliy, pauliz, each_row, hadamard_row}
use sabot.Chp.Gates.Conjugation.{
  Conjugates, ConjugatesPair, hadamard_row-Conjugates, hadamard_row-IsRow,
}
use sabot.Chp.Gates.Refinement.{
  Returns, IsTableau, each_row-Acts, hadamard-Returns, phase-Returns, cnot-Returns,
}
use sabot.Chp.Gates.Sequence.{pauli_gates-Returns}
use sabot.Chp.Rows.{rowmult}
use sabot.Chp.Rows.Multiply.{IsProduct, rowmult-IsProduct}
use sabot.Chp.Measure.{measure, measurable, measure_checked, outcome, pivot}
use sabot.Chp.Measure.Repeat.{measure_random_again}
use sabot.Chp.Init.{init_state, initialised, initial_row}
use sabot.Chp.Init.Zero.{measure-init_state}
use sabot.Chp.Run.{Env, Machine, run_program, compute_result}
use sabot.Chp.Run.Ready.{IsReady, initialised-IsReady, empty_state-IsTableau, reachable_of_ready}
use sabot.Chp.Symplectic.{IsSymplectic, IsComplete}
use sabot.Chp.Gates.Conjugation.{letter}
use sabot.Chp.Symplectic.Init.{initialised-IsSymplectic}
use sabot.Chp.Symplectic.Complete.{initialised-IsComplete}
use sabot.Chp.Symplectic.Determined.{measure_checked-ReadsZ}
use sabot.Chp.Symplectic.Run.{run_program-IsSymplectic}
use sabot.Chp.Run.Safety.{FitsAll, results_of, qubits_of, run_program_total, compute_result_total}

-- A generator that gives the bounds in turn.
abbrev turns : Draw ℕ
turns lower upper rng = (if rng % 2 == 0 then lower else upper, rng + 1)

turns-IsUniform : IsUniform turns
turns-IsUniform lower upper rng h = ground arith

abbrev start : Generator ℕ
start = record { rng_seed = 0; position = 0; rng = 0 }

abbrev env : Env ℕ
env = record { allocates = λ n. true; uninitialised = 7; draw = turns }

abbrev two_qubits : ChpState
two_qubits = initialised 0 empty_state 2

two_qubits-IsReady : IsReady 2 two_qubits
two_qubits-IsReady = initialised-IsReady 0 2 empty_state empty_state-IsTableau

two_qubits-reachable : (q : ℕ) → q < 2 → reachable two_qubits q ≡ true
two_qubits-reachable q h = reachable_of_ready 2 q two_qubits two_qubits-IsReady h

cnot-Returns_example : Returns (ConjugatesPair 0 1) two_qubits (cnot two_qubits 0 1)
cnot-Returns_example =
    cnot-Returns two_qubits 0 1 two_qubits-IsReady.tableau (two_qubits-reachable 0 (omega arith))
      (two_qubits-reachable 1 (omega arith)) (λ e. absurd (omega arith))

hadamard-Returns_example : Returns (Conjugates hadamard_image 1) two_qubits (hadamard two_qubits 1)
hadamard-Returns_example =
    hadamard-Returns two_qubits 1 two_qubits-IsReady.tableau (two_qubits-reachable 1 (omega arith))

phase-Returns_example : Returns (Conjugates phase_image 0) two_qubits (phase two_qubits 0)
phase-Returns_example =
    phase-Returns two_qubits 0 two_qubits-IsReady.tableau (two_qubits-reachable 0 (omega arith))

pauli_gates-Returns_example :
    Returns (Conjugates (pauli_image sigma_x) 0) two_qubits (paulix two_qubits 0)
    × Returns (Conjugates (pauli_image sigma_y) 0) two_qubits (pauliy two_qubits 0)
    × Returns (Conjugates (pauli_image sigma_z) 0) two_qubits (pauliz two_qubits 0)
pauli_gates-Returns_example =
    pauli_gates-Returns two_qubits 0 two_qubits-IsReady.tableau
      (two_qubits-reachable 0 (omega arith))

rowmult-IsProduct_example :
    IsProduct
      (32 * two_qubits.over32)
      (two_qubits.row 2)
      (two_qubits.row 0)
      ((rowmult two_qubits 0 2).row 0)
rowmult-IsProduct_example =
    rowmult-IsProduct two_qubits 0 2 (two_qubits-IsReady.tableau.rows 0)
      (two_qubits-IsReady.tableau.rows 2)

measure-init_state_example :
    (u : ChpState) × (measure turns (init_state (λ n. true) 7 empty_state 40).1 33 start
      ≡ some (0, u, start))
measure-init_state_example =
    measure-init_state turns start (λ n. true) 7 40 33 empty_state empty_state-IsTableau refl
      (omega arith)

-- Qubit 0 after a Hadamard gate.
abbrev plus : ChpState
plus = each_row (hadamard_row 0) two_qubits

plus-IsTableau : IsTableau plus
plus-IsTableau =
    (each_row-Acts (Conjugates hadamard_image 0) (hadamard_row 0)
      (λ w g. (hadamard_row-Conjugates 0 w g, hadamard_row-IsRow 0 w g)) two_qubits
      two_qubits-IsReady.tableau).1

plus-measurable : measurable plus 0 ≡ true
unfolding measurable each_row initialised
plus-measurable = refl

plus_random : pivot plus 0 < plus.n
unfolding pivot scan each_row for_below hadamard_row initialised initial_row column has pt
    sign_extend xor_word
plus_random = omega arith

measure_random_again_example :
    (t u : ChpState) × (measure turns plus 0 start
      ≡ some (0, t, record { rng_seed = 0; position = 1; rng = 1 }))
    × (measure turns t 0 (record { rng_seed = 0; position = 1; rng = 1 })
        ≡ some (0, u, record { rng_seed = 0; position = 1; rng = 1 }))
unfolding get_uniform_integer
measure_random_again_example =
    measure_random_again turns plus 0 start turns-IsUniform plus-IsTableau plus-measurable
      plus_random

-- A Bell pair, both qubits of which are measured.
abbrev bell : List Instruction
bell =
    record { bytecode = Operation.hadamard; first = 0; second = 0 }
    ∷ record { bytecode = Operation.cnot; first = 0; second = 1 }
    ∷ record { bytecode = Operation.measure; first = 0; second = 0 }
    ∷ record { bytecode = Operation.measure; first = 1; second = 0 }
    ∷ []

bell-FitsAll : FitsAll env 2 bell
bell-FitsAll = (
  omega arith,
  ((omega arith, omega arith, λ e. absurd (omega arith)), (omega arith, (omega arith, tt))),
)

abbrev machine : Machine ℕ
machine = record { state = two_qubits; buffer = []; generator = start }

run_program_total_example :
    (m : Machine ℕ) × (run_program env machine bell ≡ some (true, m))
    × IsReady (qubits_of env 2 bell) m.state
    × (length m.buffer ≡ length machine.buffer + results_of env bell)
run_program_total_example =
    run_program_total env bell 2 machine turns-IsUniform two_qubits-IsReady bell-FitsAll

compute_result_total_example :
    (buffer : List ℕ) × (g : Generator ℕ) × (compute_result env
        (record { bytecode = Operation.initialize; first = 2; second = 0 } ∷ bell)
        []
        start
      ≡ some (true, buffer, g))
    × (length buffer ≡ length {A = ℕ} [] + results_of env bell)
compute_result_total_example =
    compute_result_total env 2 0 bell [] start turns-IsUniform refl bell-FitsAll

run_program-IsSymplectic_example :
    (m : Machine ℕ) × (run_program env
        (record { state = empty_state; buffer = []; generator = start })
        (record { bytecode = Operation.initialize; first = 2; second = 0 } ∷ bell)
      ≡ some (true, m))
    × (m.state.n ≡ qubits_of env 2 bell)
    × IsSymplectic m.state.n m.state.row
    × IsComplete m.state.n m.state.row
run_program-IsSymplectic_example =
    run_program-IsSymplectic env 2 0 bell
      (record { state = empty_state; buffer = []; generator = start }) turns-IsUniform
      empty_state-IsTableau refl bell-FitsAll

no_stabilizer_odd : pivot two_qubits 0 ≡ 2
unfolding pivot scan initialised initial_row column has pt
no_stabilizer_odd = refl

measure_checked-ReadsZ_example :
    (t : ChpState) × (measure_checked turns two_qubits 0 start
      ≡ (outcome (t.row (2 * two_qubits.n)).r, t, start))
    × ((j : ℕ) → j < 2 * two_qubits.n → t.row j ≡ two_qubits.row j)
    × ((k : ℕ)
        → k < two_qubits.n
        → letter (t.row (2 * two_qubits.n)) k ≡ (if k == 0 then sigma_z else unit))
unfolding initialised
measure_checked-ReadsZ_example =
    measure_checked-ReadsZ two_qubits 0 two_qubits-IsReady.tableau (omega arith) (omega arith)
      no_stabilizer_odd (initialised-IsSymplectic 0 2 empty_state)
      (initialised-IsComplete 0 2 empty_state) turns start
