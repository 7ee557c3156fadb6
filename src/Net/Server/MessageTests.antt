-- ===== src/Net/Server/MessageTests.antt =====
-- The theorems on messages at concrete ones.
use sabot.Prelude.{
  ℕ, ◌+◌, ◌-◌, ◌%◌, ◌≡◌, ◌≢◌, inr, refl, arith, ltb, ◌==◌, true, false, if◌then◌else◌, Option, none,
  some, List, [], ◌∷◌, length,
}
use sabot.Outcome.{Exception, returned}
use sabot.Randnum.{Floating, RealDraw, Draw, IsUniform}
use sabot.Chp.Run.{Env}
use sabot.Chp.Run.Safety.{results_of}
use sabot.Language.Machine.{Operation, Instruction, operand_count}
use sabot.Language.Dialect.{same_string}
use sabot.Language.Chpext.{chpext}
use sabot.Language.Interpreter.Print.{print_program, AllWritten}
use sabot.MsContainer.{find}
use sabot.Universe.{Universe, QuantumSystem, Interpreters}
use sabot.Universe.Program.{IsFree}
use sabot.Actions.{RegisteredCalls, no_calls, register_calls}
use sabot.Actions.Calls.{Action, method_of, parameter_count_of, start_calls, start_calls-found}
use sabot.Actions.Process.{answered, escaped, crashed, reply, process}
use sabot.Net.Json.{RapidJson}
use sabot.Net.Sample.{Document, sample_of, sample-IsJson, sample-HasScalars, member}
use sabot.Net.Request.{make_request, method_name}
use sabot.CString.{IsText}
use sabot.Net.Request.Client.{request_document, request_message, IsWritten}
use sabot.Net.Response.{Response, of_cstring, of_buffer, rapid_json_array, push_all}
use sabot.Net.Server.{answer_message, caught, missing_terminator, type_not_found}
use sabot.Net.Server.Routing.{answer_message-process, answer_message-refused}
use sabot.Net.Server.Lifecycle.{Zmq, Worker, Proxy, Server, answer_end}
use sabot.Net.Server.Compute.{compute_result-answered, missing_system-escapes}

abbrev turns : Draw ℕ
turns lower upper rng = (if rng % 2 == 0 then lower else upper, rng + 1)

turns-IsUniform : IsUniform turns
turns-IsUniform lower upper rng h = ground arith

abbrev env : Env ℕ
env = record { allocates = λ n. true; uninitialised = 0; draw = turns }

abbrev whole : Floating ℕ
whole = record { zero = 0; add = ◌+◌; sub = ◌-◌; less = ltb }

abbrev middle : RealDraw ℕ ℕ
middle lower upper rng = (lower, rng + 1)

abbrev dialect : List ℕ
dialect = b'c' ∷ b'h' ∷ b'p' ∷ []

abbrev system : QuantumSystem
system = record { key_generator = 0; entries = [] }

abbrev interpreters : Interpreters
interpreters = record {
  key_generator = 0;
  entries = record { key = dialect; item = record { busy = false; value = chpext } } ∷ [];
}

abbrev universe : Universe ℕ
universe = record {
  interpreters = interpreters;
  kernels = record { key_generator = 0; entries = [] };
  systems = record {
    key_generator = 3;
    entries = record { key = 2; item = record { busy = false; value = system } } ∷ [];
  };
  generator = record { rng_seed = 0; position = 0; rng = 0 };
}

interpreters-IsFree : IsFree dialect chpext interpreters
unfolding find same_string
interpreters-IsFree = refl

system_found : find ◌==◌ 2 universe.systems.entries ≡ some (record { busy = false; value = system })
unfolding find
system_found = refl

seven_missing : find ◌==◌ 7 universe.systems.entries ≡ none
unfolding find
seven_missing = refl

table : RegisteredCalls Action
table = start_calls-found.0

table_started : register_calls no_calls start_calls ≡ returned table
unfolding table
table_started = start_calls-found.1

-- init 1, measure 0
abbrev program : List Instruction
program = record { bytecode = Operation.measure; first = 0; second = 0 } ∷ []

abbrev whole_program : List Instruction
whole_program = record { bytecode = Operation.initialize; first = 1; second = 0 } ∷ program

whole_program-AllWritten : AllWritten 0 whole_program
unfolding operand_count
whole_program-AllWritten = (
  record { first_lt = omega arith; second_lt = omega arith; unwritten = λ e. refl },
  (record { first_lt = omega arith; second_lt = omega arith; unwritten = λ e. refl }, tt),
)

-- The document of a request.
abbrev document_of : List ℕ → List Document → Document
document_of name values =
    Document.add_member (b'p' ∷ b'a' ∷ b'r' ∷ b'a' ∷ b'm' ∷ b'e' ∷ b't' ∷ b'e' ∷ b'r' ∷ b's' ∷ [])
      (pushed values Document.empty_array)
      (Document.add_member method_name (Document.string name) Document.empty_object)
  where
    pushed : List Document → Document → Document
    pushed [] array = array
    pushed (v ∷ vs) array = pushed vs (Document.push_back v array)

-- The text of a request is the name of its method; that is enough to tell two requests apart.
abbrev write : Document → List ℕ
write v = written (member method_name v)
  where
    written : Option Document → List ℕ
    written (some (Document.string s)) = s
    written _ = b'{' ∷ []

abbrev values : ℕ → List ℕ → List Document
values id text =
    Document.natural id
    ∷ Document.string dialect
    ∷ Document.string text
    ∷ Document.natural b';'
    ∷ []

abbrev json : List Document → RapidJson Document ℕ
json parameters = sample_of (λ text. document_of text parameters) write

method_of-IsText : (a : Action) → IsText (method_of a)
unfolding method_of
method_of-IsText a = ground arith

request-IsWritten :
    (a : Action) (id : ℕ) (text : List ℕ)
    → IsWritten
        (json (values id text))
        (request_document (json (values id text)) (method_of a) (values id text))
unfolding request_document rapid_json_array push_all same_string
request-IsWritten a id text = record { text = method_of-IsText a; reads_back = refl }

answer_message-process_example :
    answer_message
      (json (values 2 []))
      env
      0
      whole
      middle
      (λ n. true)
      table
      (request_message (json (values 2 [])) (method_of Action.create_state) (values 2 []))
      universe
    ≡ caught
        (json (values 2 []))
        env
        0
        whole
        middle
        (λ n. true)
        (process
          (json (values 2 []))
          env
          0
          whole
          middle
          (λ n. true)
          Action.create_state
          (make_request
            (json (values 2 []))
            (request_message (json (values 2 [])) (method_of Action.create_state) (values 2 [])))
          universe)
answer_message-process_example =
    answer_message-process (json (values 2 [])) env 0 whole middle (λ n. true) table
      Action.create_state (values 2 []) universe table_started (unfold parameter_count_of in refl)
      (sample-IsJson _ _) (sample-HasScalars _ _) (request-IsWritten Action.create_state 2 [])

-- delete_state takes two parameters, not four.
other_counts : (a : Action) → method_of Action.delete_state ≡ method_of a → 4 ≢ parameter_count_of a
unfolding method_of parameter_count_of
other_counts a e = ground arith

answer_message-refused_example :
    let answer = answer_message (json (values 2 [])) env 0 whole middle (λ n. true) table in
    (answer [] universe ≡ (universe, crashed))
    × (answer (b'{' ∷ b'}' ∷ []) universe
        ≡ (universe, reply (of_cstring (json (values 2 [])) (some missing_terminator) true)))
    × (answer
          (request_message (json (values 2 [])) (method_of Action.delete_state) (values 2 []))
          universe
        ≡ (universe, reply (of_cstring (json (values 2 [])) (some type_not_found) true)))
answer_message-refused_example =
    answer_message-refused (json (values 2 [])) env 0 whole middle (λ n. true) table (b'{' ∷ [])
      b'}' (method_of Action.delete_state) (values 2 []) universe table_started (omega arith)
      (unfold method_of in omega arith) (omega arith) other_counts (sample-IsJson _ _)
      (sample-HasScalars _ _) (request-IsWritten Action.delete_state 2 [])

missing_system-escapes_example :
    let answer = answer_message (json (values 7 [])) env 0 whole middle (λ n. true) table in
    (answer
        (request_message (json (values 7 [])) (method_of Action.compute_result) (values 7 []))
        universe
      ≡ (universe, escaped Exception.invalid_argument))
    × (answer
          (request_message (json (values 7 [])) (method_of Action.create_state) (values 7 []))
          universe
        ≡ (universe, escaped Exception.invalid_argument))
missing_system-escapes_example =
    missing_system-escapes (json (values 7 [])) env 0 whole middle (λ n. true) table 7 b';' dialect
      [] universe (sample-IsJson _ _) (sample-HasScalars _ _) table_started (omega arith)
      (omega arith) (omega arith, (omega arith, (omega arith, tt))) tt seven_missing
      (request-IsWritten Action.compute_result 7 []) (request-IsWritten Action.create_state 7 [])

abbrev text : List ℕ
text = print_program b';' whole_program

compute_result-answered_example :
    (buffer : List ℕ) × (let (v, reply) =
        answer_message
          (json (values 2 text))
          env
          0
          whole
          middle
          (λ n. true)
          table
          (request_message (json (values 2 text)) (method_of Action.compute_result) (values 2 text))
          universe in
      (length buffer ≡ results_of env program)
      × (reply ≡ answered (of_buffer (json (values 2 text)) buffer false))
      × IsFree dialect chpext v.interpreters
      × (find ◌==◌ 2 v.systems.entries ≡ some (record { busy = false; value = system })))
compute_result-answered_example =
    compute_result-answered (json (values 2 text)) env 0 whole middle (λ n. true) table 2 b';'
      dialect 1 0 program universe system (sample-IsJson _ _) (sample-HasScalars _ _) table_started
      turns-IsUniform (omega arith) (omega arith, (omega arith, (omega arith, tt)))
      (inr (omega arith)) (omega arith) (omega arith) whole_program-AllWritten interpreters-IsFree
      system_found refl (omega arith, tt) (request-IsWritten Action.compute_result 2 text)

abbrev on_missing_system : List ℕ
on_missing_system =
    request_message (json (values 7 [])) (method_of Action.compute_result) (values 7 [])

-- Nothing fails.
abbrev zmq : Zmq ℕ
zmq = record {
  bind_clients = λ e z. some z;
  bind_workers = λ z. some z;
  bind_control = λ z. some z;
  send_control = λ z. some z;
  disconnect_control = λ z. some z;
}

-- Worker 1 is at the message.
abbrev server : Server ℕ
server = record {
  endpoint = [];
  sockets = 0;
  is_running = true;
  do_exit = false;
  workers =
      Worker.receiving
      ∷ Worker.working (
          answer_end
            (answer_message (json (values 7 [])) env 0 whole middle (λ n. true) table
              on_missing_system universe).1)
      ∷ [];
  proxy = Proxy.steering;
}
