-- ===== src/Universe/Program.antt =====
-- Programs that are compiled and run inside the universe.
use sabot.Prelude.{ℕ, ◌<◌, ◌≡◌, ◌⊎◌, refl, ap, Bool, true, false, ◌==◌, some, List}
use sabot.Outcome.{Exception, returned, threw, spin}
use sabot.Language.Machine.{Instruction}
use sabot.Language.Dialect.{Dialect, same_string}
use sabot.Language.Chpext.{chpext}
use sabot.Language.Interpreter.{parse_program}
use sabot.Language.Interpreter.Print.{print_program, AllWritten}
use sabot.Language.Interpreter.RoundTrip.{parse-print_program}
use sabot.Randnum.{Generator}
use sabot.Chp.{ChpState}
use sabot.Chp.Run
use sabot.Chp.Run.{Env}
use sabot.MsContainer.{Item, with_item, insert, find, count, edit_item}
use sabot.MsContainer.Laws.{find-put_self}
use sabot.Universe.{
  Universe, Interpreters, QuantumSystem, initialize_interpreter, compile_program,
  program_compute_result, program_insert_state, rescue,
}
use sabot.Universe.Operations.{edit_system, compute_result, create_state}

-- The interpreter for a dialect is there, and its flag is clear.
abbrev pub IsFree : List ℕ → Dialect → Interpreters → Type 0
IsFree dialect d is =
    find same_string dialect is.entries ≡ some (record { busy = false; value = d })

initialize_interpreter_found :
    (dialect : List ℕ) (item : Item Dialect) (is : Interpreters)
    → find same_string dialect is.entries ≡ some item
    → initialize_interpreter dialect is ≡ (is, returned true)
unfolding initialize_interpreter count
initialize_interpreter_found dialect item is found = rw found refl

-- A program that is written in chpext, its lines ended by a byte that is neither a digit nor zero,
-- and compiled by an interpreter that is free, is the program that was written, and leaves the
-- interpreter free.
pub compile-print_program :
    {Rng : Type 0} (env : Env Rng) (dialect : List ℕ) (line junk : ℕ) (program : List Instruction)
    (is : Interpreters)
    → 0 < line
    → (line < b'0') ⊎ (b'9' < line)
    → AllWritten junk program
    → IsFree dialect chpext is
    → let (js, result) = compile_program env junk dialect (print_program line program) line is in
      (result ≡ returned program) × IsFree dialect chpext js
unfolding compile_program edit_item
compile-print_program env dialect line junk program is positive not_digit written free =
    rw
      (
        initialize_interpreter_found dialect _ is free,
        free,
        parse-print_program line junk program positive not_digit written,
      )
      (refl, find-put_self same_string dialect _ _ is.entries free)

compile_threw :
    {Rng : Type 0} (env : Env Rng) (junk line : ℕ) (dialect text : List ℕ) (d : Dialect)
    (is : Interpreters) (x : Exception)
    → IsFree dialect d is
    → parse_program d line junk text ≡ threw x
    → compile_program env junk dialect text line is
      ≡ (with_item same_string dialect (record { busy = true; value = d }) is, threw x)
unfolding compile_program edit_item
compile_threw env junk line dialect text d is x free e =
    rw (initialize_interpreter_found dialect _ is free, free, e) refl

compile_busy :
    {Rng : Type 0} (env : Env Rng) (junk line : ℕ) (dialect text : List ℕ) (d : Dialect)
    (is : Interpreters)
    → find same_string dialect is.entries ≡ some (record { busy = true; value = d })
    → compile_program env junk dialect text line is ≡ (is, spin)
unfolding compile_program edit_item
compile_busy env junk line dialect text d is found =
    rw (initialize_interpreter_found dialect _ is found, found) refl

-- If the interpreter of a dialect is free and its parser throws on a text, compiling that text throws
-- the same, and compiling any text in that dialect after it never returns.
pub compile_threw_spins :
    {Rng : Type 0} (env : Env Rng) (junk line : ℕ) (dialect bad next : List ℕ) (d : Dialect)
    (is : Interpreters) (x : Exception)
    → IsFree dialect d is
    → parse_program d line junk bad ≡ threw x
    → let (js, result) = compile_program env junk dialect bad line is in
      (result ≡ threw x) × ((compile_program env junk dialect next line js).1 ≡ spin)
compile_threw_spins env junk line dialect bad next d is x free e =
    let set_flag =
      find-put_self same_string dialect _ (record { busy = true; value = d }) is.entries free in
    let after = with_item same_string dialect (record { busy = true; value = d }) is in
    rw (compile_threw env junk line dialect bad d is x free e)
      (refl, ap (λ p. p.1) (compile_busy env junk line dialect next d after set_flag))

-- On a system and an interpreter whose flags are clear, a chpext program that was written out, its
-- lines ended by a byte that is neither a digit nor zero, is compiled and run: the answer, the
-- buffer and the generator are those of the run, the systems are as they were, and the system and
-- the interpreter are free again.
pub compute-print_program :
    {Rng : Type 0} (env : Env Rng) (id line junk : ℕ) (dialect : List ℕ)
    (program : List Instruction) (buffer buffer' : List ℕ) (u : Universe Rng) (s : QuantumSystem)
    (done : Bool) (g : Generator Rng)
    → 0 < line
    → (line < b'0') ⊎ (b'9' < line)
    → AllWritten junk program
    → IsFree dialect chpext u.interpreters
    → find ◌==◌ id u.systems.entries ≡ some (record { busy = false; value = s })
    → Run.compute_result env program buffer u.generator ≡ some (done, buffer', g)
    → let (v, result) =
        compute_result env junk id dialect (print_program line program) line buffer u in
      (result ≡ returned (done, buffer'))
      × (v.generator ≡ g)
      × IsFree dialect chpext v.interpreters
      × (find ◌==◌ id v.systems.entries ≡ some (record { busy = false; value = s }))
unfolding compute_result edit_system edit_item program_compute_result rescue
compute-print_program env id line junk dialect program buffer buffer' u s done g positive not_digit
      written free found run =
    let (compiled, still_free) =
      compile-print_program env dialect line junk program u.interpreters positive not_digit written
        free in
    rw (found, compiled, run)
      (refl, refl, still_free, find-put_self ◌==◌ id _ _ u.systems.entries found)

-- On a system and an interpreter whose flags are clear, a state that is created from a chpext program
-- that was written out, its lines ended by a byte that is neither a digit nor zero, is the one that
-- the program encodes, whether or not the program succeeded: it is inserted into the system, its key
-- is the answer, and the system and the interpreter are free again.
pub create-print_program :
    {Rng : Type 0} (env : Env Rng) (id line junk : ℕ) (dialect : List ℕ)
    (program : List Instruction) (u : Universe Rng) (s : QuantumSystem) (state : ChpState)
    (g : Generator Rng)
    → 0 < line
    → (line < b'0') ⊎ (b'9' < line)
    → AllWritten junk program
    → IsFree dialect chpext u.interpreters
    → find ◌==◌ id u.systems.entries ≡ some (record { busy = false; value = s })
    → Run.encode_state env program u.generator ≡ some (state, g)
    → let (v, result) = create_state env junk id dialect (print_program line program) line u in
      (result ≡ returned (insert state s).0)
      × (v.generator ≡ g)
      × IsFree dialect chpext v.interpreters
      × (find ◌==◌ id v.systems.entries
          ≡ some (record { busy = false; value = (insert state s).1 }))
unfolding create_state edit_system edit_item program_insert_state rescue
create-print_program env id line junk dialect program u s state g positive not_digit written free
      found run =
    let (compiled, still_free) =
      compile-print_program env dialect line junk program u.interpreters positive not_digit written
        free in
    rw (found, compiled, run)
      (refl, refl, still_free, find-put_self ◌==◌ id _ _ u.systems.entries found)
