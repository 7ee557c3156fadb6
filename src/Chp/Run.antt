-- ===== src/Chp/Run.antt =====
-- `run_program` of state/chp_state.hpp, and the virtual functions of state/chp_state.cpp. `none` is
-- an access outside the memory of the tableau.
pub mod Ready
pub mod Safety
use sabot.Prelude.{
  ℕ, ◌+◌, Bool, true, false, if◌then◌else◌, List, [], ◌∷◌, ◌++◌, Option, none, some, ◌>>=◌,
}
use sabot.Randnum.{Generator, Draw}
use sabot.Language.Machine.{Operation, Instruction}
use sabot.Chp.{ChpState, empty_state}
use sabot.Chp.Gates.{hadamard, phase, cnot, paulix, pauliy, pauliz}
use sabot.Chp.Measure.{measure}
use sabot.Chp.Init.{init_state}

-- What is outside the program's text: the allocator, the memory it returns, and the distribution.
pub record Env (Rng : Type 0) : Type 0 where
  pub allocates : ℕ → Bool
  pub uninitialised : ℕ
  pub draw : Draw Rng

-- The state, the bytes of the string buffer, and the generator.
pub record Machine (Rng : Type 0) : Type 0 where
  pub state : ChpState
  pub buffer : List ℕ
  pub generator : Generator Rng

module _ {Rng : Type 0} (env : Env Rng) where
  abbrev pub on_state : Machine Rng → Option ChpState → Option (Bool × Machine Rng)
  on_state m none = none
  on_state m (some s) = some (true, record m { state = s })

  -- tempMeasurement = measure(...)+'0', added to the buffer.
  abbrev pub on_measured :
      Machine Rng → Option (ℕ × ChpState × Generator Rng) → Option (Bool × Machine Rng)
  on_measured m none = none
  on_measured m (some (bit, s, g)) =
      some (true, record { state = s; buffer = m.buffer ++ (bit + b'0') ∷ []; generator = g })

  -- One round of the loop; `false` ends the program with `return false`.
  unfoldable pub step : Operation → Instruction → Machine Rng → Option (Bool × Machine Rng)
  step Operation.macro i m = some (true, m)
  step Operation.initialize i m =
      let (done, s) = init_state env.allocates env.uninitialised m.state i.first in
      some (done, record m { state = s })
  step Operation.identity i m = some (true, m)
  step Operation.hadamard i m = on_state m (hadamard m.state i.first)
  step Operation.phase i m = on_state m (phase m.state i.first)
  step Operation.measure i m = on_measured m (measure env.draw m.state i.first m.generator)
  step Operation.cnot i m = on_state m (cnot m.state i.first i.second)
  step Operation.paulix i m = on_state m (paulix m.state i.first)
  step Operation.pauliy i m = on_state m (pauliy m.state i.first)
  step Operation.pauliz i m = on_state m (pauliz m.state i.first)

  unfoldable pub run_program : Machine Rng → List Instruction → Option (Bool × Machine Rng)
  run_program m [] = some (true, m)
  run_program m (i ∷ is) = do
    (going, m') ← step i.bytecode i m
    let rest = run_program m' is
    if going then rest else some (false, m')

  -- The new state, whether or not `run_program` succeeded, and the generator; its results go to a
  -- buffer that is dropped.
  unfoldable pub encode_state : List Instruction → Generator Rng → Option (ChpState × Generator Rng)
  encode_state program g = do
    (done, m) ← run_program (record { state = empty_state; buffer = []; generator = g }) program
    some (m.state, m.generator)

  unfoldable pub modify_state :
      ChpState → List Instruction → Generator Rng → Option (Bool × ChpState × Generator Rng)
  modify_state s program g = do
    (done, m) ← run_program (record { state = s; buffer = []; generator = g }) program
    some (done, m.state, m.generator)

  unfoldable pub measure_state : Machine Rng → List Instruction → Option (Bool × Machine Rng)
  measure_state m program = run_program m program

  -- On a state of its own, which is dropped.
  unfoldable pub compute_result :
      List Instruction → List ℕ → Generator Rng → Option (Bool × List ℕ × Generator Rng)
  compute_result program buffer g = do
    (done, m) ← run_program (record { state = empty_state; buffer = buffer; generator = g }) program
    some (done, m.buffer, m.generator)
