-- ===== src/Universe/Tests.antt =====
-- The theorems on the universe at a concrete one, with a system, a free interpreter, and no states.
use sabot.Prelude.{
  ℕ, ◌+◌, ◌%◌, ◌≡◌, inr, refl, ◌==◌, true, false, if◌then◌else◌, some, List, [], ◌∷◌, arith,
}
use sabot.CString.{c_string}
use sabot.Outcome.{Exception, returned, threw, spin}
use sabot.Randnum.{Generator}
use sabot.Language.Machine.{Operation, operand_count, Instruction}
use sabot.Language.Dialect.{same_string, find_idef, same_bytes}
use sabot.Language.Chpext.{chpext, instruction_defs, mnemonic_of}
use sabot.Language.Interpreter.{
  parse_program, parse_instructions, parse_instruction, remove_leading_whitespace, advance,
}
use sabot.Language.Interpreter.Print.{print_program, AllWritten}
use sabot.Chp.{empty_state}
use sabot.Chp.Run.{Env, encode_state}
use sabot.Chp.Run
use sabot.Chp.Init.{init_state, initialised}
use sabot.MsContainer.{find, insert}
use sabot.Universe.{Universe, QuantumSystem, Interpreters, compile_program}
use sabot.Universe.Operations.{create_state, compute_result}
use sabot.Universe.Program.{
  IsFree, compile_threw_spins, compute-print_program, create-print_program,
}

abbrev env : Env ℕ
env = record {
  allocates = λ n. true;
  uninitialised = 0;
  draw = λ lower upper rng. (if rng % 2 == 0 then lower else upper, rng + 1);
}

abbrev name : List ℕ
name = b'c' ∷ b'h' ∷ b'p' ∷ []

abbrev interpreters : Interpreters
interpreters = record {
  key_generator = 0;
  entries = record { key = name; item = record { busy = false; value = chpext } } ∷ [];
}

abbrev system : QuantumSystem
system = record { key_generator = 0; entries = [] }

abbrev start : Generator ℕ
start = record { rng_seed = 0; position = 0; rng = 0 }

abbrev universe : Universe ℕ
universe = record {
  interpreters = interpreters;
  kernels = record { key_generator = 0; entries = [] };
  systems = record {
    key_generator = 3;
    entries = record { key = 2; item = record { busy = false; value = system } } ∷ [];
  };
  generator = start;
}

interpreters-IsFree : IsFree name chpext interpreters
unfolding find same_string
interpreters-IsFree = refl

system_found : find ◌==◌ 2 universe.systems.entries ≡ some (record { busy = false; value = system })
unfolding find
system_found = refl

-- init 2
abbrev program : List Instruction
program = record { bytecode = Operation.initialize; first = 2; second = 0 } ∷ []

program-AllWritten : AllWritten 0 program
unfolding operand_count
program-AllWritten =
    (record { first_lt = omega arith; second_lt = omega arith; unwritten = λ e. refl }, tt)

program_run : Run.compute_result env program [] start ≡ some (true, [], start)
unfolding Run.compute_result Run.run_program Run.step init_state
program_run = refl

compute-print_program_example :
    let (v, result) = compute_result env 0 2 name (print_program b';' program) b';' [] universe in
    (result ≡ returned (true, []))
    × (v.generator ≡ start)
    × IsFree name chpext v.interpreters
    × (find ◌==◌ 2 v.systems.entries ≡ some (record { busy = false; value = system }))
compute-print_program_example =
    compute-print_program env 2 b';' 0 name program [] [] universe system true start (omega arith)
      (inr (omega arith)) program-AllWritten interpreters-IsFree system_found program_run

program_encoded : encode_state env program start ≡ some (initialised 0 empty_state 2, start)
unfolding encode_state Run.run_program Run.step init_state
program_encoded = refl

create-print_program_example :
    let (v, result) = create_state env 0 2 name (print_program b';' program) b';' universe in
    (result ≡ returned (insert (initialised 0 empty_state 2) system).0)
    × (v.generator ≡ start)
    × IsFree name chpext v.interpreters
    × (find ◌==◌ 2 v.systems.entries
        ≡ some (record { busy = false; value = (insert (initialised 0 empty_state 2) system).1 }))
create-print_program_example =
    create-print_program env 2 b';' 0 name program universe system (initialised 0 empty_state 2)
      start (omega arith) (inr (omega arith)) program-AllWritten interpreters-IsFree system_found
      program_encoded

-- No instruction is called q.
bad_throws : parse_program chpext b';' 0 (b'q' ∷ b' ' ∷ b'0' ∷ []) ≡ threw Exception.plain_exception
unfolding parse_program c_string parse_instructions parse_instruction remove_leading_whitespace
    advance find_idef same_bytes chpext instruction_defs mnemonic_of operand_count
bad_throws = refl

compile_threw_spins_example :
    let (js, result) = compile_program env 0 name (b'q' ∷ b' ' ∷ b'0' ∷ []) b';' interpreters in
    (result ≡ threw Exception.plain_exception)
    × ((compile_program env 0 name (b'h' ∷ b' ' ∷ b'0' ∷ []) b';' js).1 ≡ spin)
compile_threw_spins_example =
    compile_threw_spins env 0 b';' name (b'q' ∷ b' ' ∷ b'0' ∷ []) (b'h' ∷ b' ' ∷ b'0' ∷ []) chpext
      interpreters Exception.plain_exception interpreters-IsFree bad_throws
