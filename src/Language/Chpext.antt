-- ===== src/Language/Chpext.antt =====
-- language/dialects/chpext.cpp.
use sabot.Prelude.{ℕ, List, [], ◌∷◌, length}
use sabot.Language.Machine.{Operation, operand_count}
use sabot.Language.Dialect.{Dialect, InstructionDefinition}

-- `INSDEF_HELPER(name, method)`
abbrev pub definition : List ℕ → Operation → InstructionDefinition
definition name method = record {
  mnemonic = name;
  mnemonic_length = length name;
  operand_count = operand_count method;
  bytecode = method;
}

-- The mnemonics, as bytes.
unfoldable pub mnemonic_of : Operation → List ℕ
mnemonic_of Operation.macro = b'm' ∷ b'a' ∷ b'c' ∷ b'r' ∷ b'o' ∷ []
mnemonic_of Operation.initialize = b'i' ∷ b'n' ∷ b'i' ∷ b't' ∷ []
mnemonic_of Operation.identity = b'i' ∷ []
mnemonic_of Operation.hadamard = b'h' ∷ []
mnemonic_of Operation.phase = b'p' ∷ []
mnemonic_of Operation.measure = b'm' ∷ []
mnemonic_of Operation.cnot = b'c' ∷ []
mnemonic_of Operation.paulix = b'x' ∷ []
mnemonic_of Operation.pauliy = b'y' ∷ []
mnemonic_of Operation.pauliz = b'z' ∷ []

abbrev entry : Operation → InstructionDefinition
entry op = definition (mnemonic_of op) op

unfoldable pub instruction_defs : List InstructionDefinition
unfolding mnemonic_of operand_count
instruction_defs =
    entry Operation.macro
    ∷ entry Operation.initialize
    ∷ entry Operation.identity
    ∷ entry Operation.hadamard
    ∷ entry Operation.phase
    ∷ entry Operation.measure
    ∷ entry Operation.cnot
    ∷ entry Operation.paulix
    ∷ entry Operation.pauliy
    ∷ entry Operation.pauliz
    ∷ []

unfoldable pub chpext : Dialect
unfolding instruction_defs
chpext = record {
  opcode_delimiter = b' ';
  operand_delimiter = b',';
  instruction_defs = instruction_defs;
}
