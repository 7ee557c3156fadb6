-- ===== src/Net/Server/Compute.antt =====
-- A request for compute_result, from its message to its response, and requests for a system that the
-- universe does not hold.
use mathlib.Core.Path.{subst}
use sabot.Prelude.{
  ℕ, ◌%◌, ◌^◌, ◌<◌, ◌≡◌, ◌⊎◌, refl, sym, ap, ◌∙◌, arith, ◌==◌, Bool, true, false, none, some, List,
  [], ◌∷◌, length,
}
use sabot.Outcome.{Outcome, Exception, returned, threw, fault, spin}
use sabot.Randnum.{Generator, Floating, RealDraw, IsUniform}
use sabot.Chp.Run
use sabot.Chp.Run.{Env}
use sabot.Chp.Run.Safety.{FitsAll, results_of, compute_result_total}
use sabot.Language.Machine.{Operation, Instruction}
use sabot.Language.Chpext.{chpext}
use sabot.Language.Interpreter.Print.{print_program, AllWritten}
use sabot.MsContainer.{find}
use sabot.Net.Json.{RapidJson, IsJson, HasScalars}
use sabot.Net.Request.{make_request}
use sabot.CString.{IsText}
use sabot.Language.Interpreter.Print.{print_program-IsText}
use sabot.Net.Request.Client.{
  request_document, request_message, IsWritten, unsigned_long-request, cstring-request,
}
use sabot.Net.Response.{Response, of_buffer, of_unsigned_long}
use sabot.Universe.{Universe, QuantumSystem}
use sabot.Universe.Operations
use sabot.Universe.Program.{IsFree, compute-print_program}
use sabot.Universe.Missing.{missing_system_throws}
use sabot.Actions.{RegisteredCalls, no_calls, register_calls}
use sabot.Actions.Calls.{Action, method_of, parameter_count_of, start_calls}
use sabot.Actions.Process.{
  Reply, answered, escaped, respond, respond_checked, compute_failed, process,
  process_compute_result, process_create_state,
}
use sabot.Net.Server.{answer_message, caught}
use sabot.Net.Server.Routing.{answer_message-process}

module _ {Value Real Rng : Type 0} (J : RapidJson Value Real) (env : Env Rng) (junk : ℕ)
    (arithmetic : Floating Real) (draw_real : RealDraw Real Rng) (new_array : ℕ → Bool)
    (law : IsJson J) (scalars : HasScalars J) (t : RegisteredCalls Action)
    (started : register_calls no_calls start_calls ≡ returned t) (id line : ℕ) (dialect : List ℕ)
    (id_small : id < 2 ^ 64) (dialect_text : IsText dialect) (line_byte : line < 256) where
  abbrev answer : List ℕ → Universe Rng → Universe Rng × Reply
  answer = answer_message J env junk arithmetic draw_real new_array t

  -- The parameters of a program that is to run on a system.
  abbrev parameters : List ℕ → List Value
  parameters text =
      J.from_uint64 id ∷ J.from_string dialect ∷ J.from_string text ∷ J.from_uint64 line ∷ []

  -- The message of a request for a call with these parameters.
  abbrev message : Action → List ℕ → List ℕ
  message a text = request_message J (method_of a) (parameters text)

  answered_checked :
      (message : List ℕ) (make : List ℕ → Response) (v : Universe Rng) (o : Outcome (Bool × List ℕ))
      {buffer : List ℕ}
      → o ≡ returned (true, buffer)
      → caught J env junk arithmetic draw_real new_array (respond_checked message make (v, o))
        ≡ (v, answered (make buffer))
  answered_checked message make v (returned (true, b)) e = ground arith
  answered_checked message make v (returned (false, b)) e = cc
  answered_checked message make v (threw x) e = cc
  answered_checked message make v fault e = cc
  answered_checked message make v spin e = cc

  -- What the processing function does, once its parameters are read.
  compute-process :
      (text : List ℕ) (u : Universe Rng)
      → IsText text
      → IsWritten J (request_document J (method_of Action.compute_result) (parameters text))
      → process J env junk arithmetic draw_real new_array Action.compute_result
          (make_request J (message Action.compute_result text))
          u
        ≡ respond_checked compute_failed
            (λ buffer. of_buffer J buffer false)
            (Operations.compute_result env junk id dialect text line [] u)
  unfolding process process_compute_result
  compute-process text u is_text written =
      let name = method_of Action.compute_result in
      let values = parameters text in
      let wrap : line % 256 ≡ line = omega arith in
      rw
        (
          unsigned_long-request J law scalars name values written 0 id refl id_small,
          cstring-request J law scalars name values written 1 dialect refl dialect_text,
          cstring-request J law scalars name values written 2 text refl is_text,
          unsigned_long-request J law scalars name values written 3 line refl (omega arith),
          wrap,
        )
        refl

  create-process :
      (text : List ℕ) (u : Universe Rng)
      → IsText text
      → IsWritten J (request_document J (method_of Action.create_state) (parameters text))
      → process J env junk arithmetic draw_real new_array Action.create_state
          (make_request J (message Action.create_state text))
          u
        ≡ respond
            (λ key. of_unsigned_long J key false)
            (Operations.create_state env junk id dialect text line u)
  unfolding process process_create_state
  create-process text u is_text written =
      let name = method_of Action.create_state in
      let values = parameters text in
      let wrap : line % 256 ≡ line = omega arith in
      rw
        (
          unsigned_long-request J law scalars name values written 0 id refl id_small,
          cstring-request J law scalars name values written 1 dialect refl dialect_text,
          cstring-request J law scalars name values written 2 text refl is_text,
          unsigned_long-request J law scalars name values written 3 line refl (omega arith),
          wrap,
        )
        refl

  compute-answer :
      (program : List Instruction) (u : Universe Rng) (s : QuantumSystem) (buffer : List ℕ)
      (g : Generator Rng)
      → (line < b'0') ⊎ (b'9' < line)
      → 0 < line
      → AllWritten junk program
      → IsFree dialect chpext u.interpreters
      → find ◌==◌ id u.systems.entries ≡ some (record { busy = false; value = s })
      → Run.compute_result env program [] u.generator ≡ some (true, buffer, g)
      → IsWritten J (
          request_document J
            (method_of Action.compute_result)
            (parameters (print_program line program)))
      → let (v, reply) = answer (message Action.compute_result (print_program line program)) u in
        (reply ≡ answered (of_buffer J buffer false))
        × (v.generator ≡ g)
        × IsFree dialect chpext v.interpreters
        × (find ◌==◌ id v.systems.entries ≡ some (record { busy = false; value = s }))
  compute-answer program u s buffer g not_digit pos written_program free found run written =
      let text = print_program line program in
      let routed =
        answer_message-process J env junk arithmetic draw_real new_array t Action.compute_result
          (parameters text) u started (unfold parameter_count_of in refl) law scalars written in
      let (result, gen, freed, there) =
        compute-print_program env id line junk dialect program [] buffer u s true g pos not_digit
          written_program free found run in
      let (v, o) = Operations.compute_result env junk id dialect text line [] u in
      let all =
        routed
        ∙ ap (caught J env junk arithmetic draw_real new_array)
            (compute-process text u (print_program-IsText line program pos) written)
        ∙ answered_checked compute_failed (λ b. of_buffer J b false) v o result in
      subst
        (λ (w : Universe Rng × Reply).
          (w.1 ≡ answered (of_buffer J buffer false))
          × (w.0.generator ≡ g)
          × IsFree dialect chpext w.0.interpreters
          × (find ◌==◌ id w.0.systems.entries ≡ some (record { busy = false; value = s })))
        (sym all) (refl, gen, freed, there)

-- Requests to run a program on a system that does not exist, whatever its text: the exception is no
-- runtime_error, so that it leaves the function of the worker's thread, which ends the server.
pub missing_system-escapes :
    {Value Real Rng : Type 0} (J : RapidJson Value Real) (env : Env Rng) (junk : ℕ)
    (arithmetic : Floating Real) (draw_real : RealDraw Real Rng) (new_array : ℕ → Bool)
    (t : RegisteredCalls Action) (id line : ℕ) (dialect text : List ℕ) (u : Universe Rng)
    → IsJson J
    → HasScalars J
    → register_calls no_calls start_calls ≡ returned t
    → id < 2 ^ 64
    → line < 256
    → IsText dialect
    → IsText text
    → find ◌==◌ id u.systems.entries ≡ none
    → let values =
        J.from_uint64 id ∷ J.from_string dialect ∷ J.from_string text ∷ J.from_uint64 line ∷ [] in
      IsWritten J (request_document J (method_of Action.compute_result) values)
      → IsWritten J (request_document J (method_of Action.create_state) values)
      → let answer = answer_message J env junk arithmetic draw_real new_array t in
        (answer (request_message J (method_of Action.compute_result) values) u
          ≡ (u, escaped Exception.invalid_argument))
        × (answer (request_message J (method_of Action.create_state) values) u
            ≡ (u, escaped Exception.invalid_argument))
missing_system-escapes J env junk arithmetic draw_real new_array t id line dialect text u law
      scalars started small byte dialect_text is_text missing sent sent' =
    let values =
      J.from_uint64 id ∷ J.from_string dialect ∷ J.from_string text ∷ J.from_uint64 line ∷ [] in
    let (created, _, _, _, computed) =
      missing_system_throws env junk id 0 dialect text line [] u missing in
    let caught_reply = caught J env junk arithmetic draw_real new_array in
    (
      answer_message-process J env junk arithmetic draw_real new_array t Action.compute_result
            values u started (unfold parameter_count_of in refl) law scalars sent
          ∙ ap caught_reply (
              compute-process J env junk arithmetic draw_real new_array law scalars t started id
                line dialect small dialect_text byte text u is_text sent)
          ∙ rw computed refl,
      answer_message-process J env junk arithmetic draw_real new_array t Action.create_state values
            u started (unfold parameter_count_of in refl) law scalars sent'
          ∙ ap caught_reply (
              create-process J env junk arithmetic draw_real new_array law scalars t started id line
                dialect small dialect_text byte text u is_text sent')
          ∙ rw created refl,
    )

-- The message of a request for compute_result: the system `id` and the interpreter of the dialect are
-- free, and the program, written out in chpext with lines ended by a byte that is neither zero nor a
-- digit, asks for n qubits, which can be allocated, and then fits them. The server answers it, with a
-- response of one byte for each measurement and without an error flag, and leaves the system and the
-- interpreter free.
pub compute_result-answered :
    {Value Real Rng : Type 0} (J : RapidJson Value Real) (env : Env Rng) (junk : ℕ)
    (arithmetic : Floating Real) (draw_real : RealDraw Real Rng) (new_array : ℕ → Bool)
    (t : RegisteredCalls Action) (id line : ℕ) (dialect : List ℕ) (n second : ℕ)
    (program : List Instruction) (u : Universe Rng) (s : QuantumSystem)
    → IsJson J
    → HasScalars J
    → register_calls no_calls start_calls ≡ returned t
    → IsUniform env.draw
    → id < 2 ^ 64
    → IsText dialect
    → (line < b'0') ⊎ (b'9' < line)
    → 0 < line
    → line < 256
    → let whole =
        record { bytecode = Operation.initialize; first = n; second = second } ∷ program in
      let values =
        J.from_uint64 id
        ∷ J.from_string dialect
        ∷ J.from_string (print_program line whole)
        ∷ J.from_uint64 line
        ∷ [] in
      AllWritten junk whole
      → IsFree dialect chpext u.interpreters
      → find ◌==◌ id u.systems.entries ≡ some (record { busy = false; value = s })
      → env.allocates n ≡ true
      → FitsAll env n program
      → IsWritten J (request_document J (method_of Action.compute_result) values)
      → (buffer : List ℕ) × (let (v, reply) =
            answer_message J env junk arithmetic draw_real new_array t
              (request_message J (method_of Action.compute_result) values)
              u in
          (length buffer ≡ results_of env program)
          × (reply ≡ answered (of_buffer J buffer false))
          × IsFree dialect chpext v.interpreters
          × (find ◌==◌ id v.systems.entries ≡ some (record { busy = false; value = s })))
compute_result-answered J env junk arithmetic draw_real new_array t id line dialect n second program
      u s law scalars started uniform small text not_digit pos byte written free found allocated
      fits sent =
    let whole = record { bytecode = Operation.initialize; first = n; second = second } ∷ program in
    let (buffer, g, run, count) =
      compute_result_total env n second program [] u.generator uniform allocated fits in
    let (replied, _, freed, there) =
      compute-answer J env junk arithmetic draw_real new_array law scalars t started id line dialect
        small text byte whole u s buffer g not_digit pos written free found run sent in
    (buffer, (omega (arith, count), replied, freed, there))
