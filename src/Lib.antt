-- ===== src/Lib.antt =====
-- A model of sabot, a server for the simulation of quantum states (the repository's C++ sources), and
-- what is proved of it. The build is the one that common.hpp leaves, without SABOT_THROW, on 64 bits.
--
-- A request names an action (actions.cpp), which calls the universe (universe.cpp). The universe keeps
-- quantum systems, kernels and interpreters in maps whose items are locked one by one
-- (ms_container.hpp). A system keeps states (state/quantum_state.hpp). A program is a text in a dialect
-- (language/), which an interpreter turns into instructions (machine.hpp), which run on a state, the
-- stabilizer tableau of state/chp_state.hpp; the results of measurements go to a string buffer
-- (string_buffer.hpp, managed_container.hpp).
--
-- Prelude, Outcome, Loop, CString: shared names; how a call may end; loops over an index; C strings.
-- Word, Pauli: the 64-bit words of the tableau, of which 32 columns each are used; the Pauli operators
--   and the images of the gates, which are the specification of the tableau.
-- Chp: state/chp_state.hpp. Chp/Gates has cnot, hadamard, phase and the Pauli gates of run_program,
--   Chp/Rows the row operations, Chp/Measure measure, Chp/Init init_state, Chp/Run run_program and the
--   functions of state/chp_state.cpp; Chp/Symplectic is about which rows
--   commute, and what that says of a determined outcome.
-- Language: machine.hpp and language/. Language/Interpreter is parse_program, of texts that are written
--   in Language/Interpreter/Print or end their lines (Language/Interpreter/Lines), Language/Program the
--   object of language/program.hpp.
-- Randnum: randnum/generator.hpp. Utility: utility.hpp.
-- Container, StringBuffer, MsContainer: managed_container.hpp, string_buffer.hpp, ms_container.hpp.
-- Universe: universe.cpp, kernel.cpp, state/quantum_state.hpp, state/state_type.hpp.
-- Actions: actions.cpp; Actions/Process has the functions that answer requests.
-- Net: net/. Net/Json is RapidJSON as a parameter, Net/Request and Net/Response are net/request.hpp and
--   net/response.hpp, with clients that write requests and read responses; Net/Server is how
--   net/server.cpp answers a message, and Net/Server/Lifecycle its listen, stop and threads.
--
-- The arrays x, z and r of the tableau are kept together by row. An access outside the words of a row
-- is `none`; operands are not checked by the source either. Memory that is read before it is written
-- (the scratch row's phase, operands that an instruction does not use, new heap arrays) is a parameter,
-- and so are the success of an allocation and the distributions of Boost, of which it is assumed that
-- a sample lies between its bounds. A C string is the list of its bytes before the terminator. A call
-- of the universe runs alone; one that meets a set flag never returns. The loop of parse_program has
-- the length of the text as fuel, which is enough since each round passes a byte.
--
-- RapidJSON and ZeroMQ are parameters, with what they document as named hypotheses: members and elements
-- are found as they were added, numbers of a type are read back, and the name of an inproc
-- endpoint in use cannot be bound again. The arithmetic of doubles is one too, with some numbers on which
-- it is exact. The threads of the server take turns in a list that is given; of a message that arrives in
-- a turn only how its answer ends is kept there.
--
-- Not modelled: gaussian and seed of state/chp_state.hpp, which nothing calls; move operations but those
-- of managed_container and program, and destructors; the seed that the generator takes from the clock;
-- sabot.cpp, which reads the command line.
pub mod Prelude
pub mod Word
pub mod CString
pub mod Loop
pub mod Pauli
pub mod Outcome
pub mod Utility
pub mod Container
pub mod MsContainer
pub mod Universe
pub mod Actions
pub mod Net
pub mod StringBuffer
pub mod Randnum
pub mod Language
pub mod Chp
