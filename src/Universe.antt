-- ===== src/Universe.antt =====
-- universe.cpp, with the systems, kernels and interpreters that it holds (quantum_system.hpp,
-- state/quantum_state.hpp, state/state_type.hpp, kernel.cpp). Programs are run by the CHP states, the only registered state
-- type. A C string is the list of its bytes; of a string buffer, its bytes are kept.
pub mod Operations
pub mod Program
pub mod Missing
mod Tests
use sabot.Prelude.{
  ℕ, Bool, true, false, ◌==◌, if◌then◌else◌, Option, none, some, List, [], ◌∷◌, ◌++◌,
}
use sabot.Outcome.{Outcome, Exception, returned, threw, fault, spin, ◌>>=◌}
use sabot.Language.Machine.{Instruction}
use sabot.Language.Dialect.{Dialect, same_string, instantiate}
use sabot.Language.Chpext.{chpext}
use sabot.Language.Interpreter.{parse_program}
use sabot.Randnum.{Generator}
use sabot.Chp.{ChpState}
use sabot.Chp.Run.{Env, Machine, encode_state, modify_state, measure_state, compute_result}
use sabot.MsContainer.{MsContainer, count, insert_at, insert, insert_made, erase, edit_item, empty}

-- The container of interpreters, by dialect; an interpreter is its dialect.
abbrev pub Interpreters : Type 0
Interpreters = MsContainer (List ℕ) Dialect

-- The macros of a kernel.
abbrev pub Kernel : Type 0
Kernel = MsContainer ℕ (List Instruction)

-- The states of a system.
abbrev pub QuantumSystem : Type 0
QuantumSystem = MsContainer ℕ ChpState

pub record Universe (Rng : Type 0) : Type 0 where
  pub interpreters : Interpreters
  pub kernels : MsContainer ℕ Kernel
  pub systems : MsContainer ℕ QuantumSystem
  pub generator : Generator Rng

-- What a program that is compiled and run can change besides the item that is edited.
pub record World (Rng : Type 0) : Type 0 where
  pub interpreters : Interpreters
  pub generator : Generator Rng

-- The registered dialects and state types.
abbrev pub dialects : List (List ℕ × Dialect)
dialects = ((b'c' ∷ b'h' ∷ b'p' ∷ b'e' ∷ b'x' ∷ b't' ∷ []), chpext) ∷ []

abbrev pub state_types : List (List ℕ)
state_types = (b'c' ∷ b'h' ∷ b'p' ∷ b'_' ∷ b's' ∷ b't' ∷ b'a' ∷ b't' ∷ b'e' ∷ []) ∷ []

-- `state_type_factory::instantiate`: no state yet.
unfoldable pub instantiate_state_type : List (List ℕ) → List ℕ → Outcome QuantumSystem
instantiate_state_type [] name = threw Exception.invalid_argument
instantiate_state_type (key ∷ rest) name =
    if same_string key name then returned empty else instantiate_state_type rest name

unfoldable pub initialize_interpreter : List ℕ → Interpreters → Interpreters × Outcome Bool
initialize_interpreter dialect is =
    if count same_string dialect is == 0
    then made (instantiate dialects dialect)
    else (is, returned true)
  where
    made : Outcome Dialect → Interpreters × Outcome Bool
    made (returned d) = ((insert_at same_string dialect d is).1, returned true)
    made (threw e) = (is, threw e)
    made fault = (is, fault)
    made spin = (is, spin)

module _ {Rng : Type 0} (env : Env Rng) (junk : ℕ) where
  unfoldable pub compile_program :
      List ℕ → List ℕ → ℕ → Interpreters → Interpreters × Outcome (List Instruction)
  compile_program dialect text line is = parse_with (initialize_interpreter dialect is)
    where
      parse_with : Interpreters × Outcome Bool → Interpreters × Outcome (List Instruction)
      parse_with (is', returned b) =
          let (is'', u, result) =
            edit_item same_string {W = Unit {0}} dialect
              (λ d w. (d, w, parse_program d line junk text)) is' tt in
          (is'', result)
      parse_with (is', threw e) = (is', threw e)
      parse_with (is', fault) = (is', fault)
      parse_with (is', spin) = (is', spin)

  -- An item is edited by a program, once that has been compiled.
  abbrev with_program {ℓ} :
      {S : Type 0} {B : Type ℓ}
      → List ℕ
      → List ℕ
      → ℕ
      → (List Instruction → S → World Rng → S × World Rng × Outcome B)
      → S
      → World Rng
      → S × World Rng × Outcome B
  with_program {S = S} {B = B} dialect text line f s w =
      let (is, compiled) = compile_program dialect text line w.interpreters in
      run_compiled (record { interpreters = is; generator = w.generator }) compiled
    where
      run_compiled : World Rng → Outcome (List Instruction) → S × World Rng × Outcome B
      run_compiled v (returned program) = f program s v
      run_compiled v (threw e) = (s, v, threw e)
      run_compiled v fault = (s, v, fault)
      run_compiled v spin = (s, v, spin)

  -- `program_insert_state` and `chp_state::encode_state`
  unfoldable pub program_insert_state :
      List Instruction → QuantumSystem → World Rng → QuantumSystem × World Rng × Outcome ℕ
  program_insert_state program s w = of_encoded (encode_state env program w.generator)
    where
      of_encoded : Option (ChpState × Generator Rng) → QuantumSystem × World Rng × Outcome ℕ
      of_encoded none = (s, w, fault)
      of_encoded (some (state, g)) =
          let (key, s') = insert state s in
          (s', record { interpreters = w.interpreters; generator = g }, returned key)

  unfoldable pub program_modify_state :
      ℕ → List Instruction → QuantumSystem → World Rng → QuantumSystem × World Rng × Outcome Bool
  program_modify_state id program s w =
      edit_item ◌==◌ id (λ state v. of_run state v (modify_state env state program v.generator)) s w
    where
      of_run :
          ChpState
          → World Rng
          → Option (Bool × ChpState × Generator Rng)
          → ChpState × World Rng × Outcome Bool
      of_run state v none = (state, v, fault)
      of_run state v (some (done, state', g)) =
          (state', record { interpreters = v.interpreters; generator = g }, returned done)

  -- try { ... } catch(const std::out_of_range&) { return otherwise; }
  unfoldable pub rescue {ℓ} : {B : Type ℓ} → Outcome B → Outcome B → Outcome B
  rescue otherwise (threw Exception.out_of_range) = otherwise
  rescue otherwise result = result

  -- The result and the bytes of the buffer after it.
  unfoldable pub program_measure_state :
      ℕ
      → List ℕ
      → List Instruction
      → QuantumSystem
      → World Rng
      → QuantumSystem × World Rng × Outcome (Bool × List ℕ)
  program_measure_state id buffer program s w =
      let (s', w', result) =
        edit_item ◌==◌ id
          (λ state v. of_run state v (
            measure_state env (record { state = state; buffer = buffer; generator = v.generator })
              program))
          s w in
      (s', w', rescue (returned (false, buffer)) result)
    where
      of_run :
          ChpState
          → World Rng
          → Option (Bool × Machine Rng)
          → ChpState × World Rng × Outcome (Bool × List ℕ)
      of_run state v none = (state, v, fault)
      of_run state v (some (done, m)) = (
        m.state,
        record { interpreters = v.interpreters; generator = m.generator },
        returned (done, m.buffer),
      )

  unfoldable pub program_compute_result :
      List ℕ
      → List Instruction
      → QuantumSystem
      → World Rng
      → QuantumSystem × World Rng × Outcome (Bool × List ℕ)
  program_compute_result buffer program s w = of_run (compute_result env program buffer w.generator)
    where
      of_run :
          Option (Bool × List ℕ × Generator Rng)
          → QuantumSystem × World Rng × Outcome (Bool × List ℕ)
      of_run none = (s, w, fault)
      of_run (some (done, buffer', g)) =
          (s, record { interpreters = w.interpreters; generator = g }, returned (done, buffer'))

  -- `delete_state_element`, as a bool.
  unfoldable pub delete_state_element :
      ℕ → QuantumSystem → World Rng → QuantumSystem × World Rng × Outcome Bool
  delete_state_element id s w = of_erased (erase ◌==◌ id s)
    where
      of_erased : Outcome (ℕ × QuantumSystem) → QuantumSystem × World Rng × Outcome Bool
      of_erased (returned (n, s')) = (s', w, returned (if n == 0 then false else true))
      of_erased (threw e) = (s, w, threw e)
      of_erased fault = (s, w, fault)
      of_erased spin = (s, w, spin)
