-- ===== src/Language/Machine.antt =====
-- machine.hpp and language/instruction.hpp.
use sabot.Prelude.{ℕ}

-- `machine::operation`
pub data Operation : Type 0 where
  macro initialize identity hadamard phase measure cnot paulix pauliy pauliz : Operation

-- `machine::operand_counts`
unfoldable pub operand_count : Operation → ℕ
operand_count macro = 2
operand_count initialize = 1
operand_count identity = 1
operand_count hadamard = 1
operand_count phase = 1
operand_count measure = 1
operand_count cnot = 2
operand_count paulix = 1
operand_count pauliy = 1
operand_count pauliz = 1

abbrev pub max_operand_count : ℕ
max_operand_count = 2

-- `language::instruction`: the bytecode and operands[0], operands[1].
pub record Instruction : Type 0 where
  pub bytecode : Operation
  pub first : ℕ
  pub second : ℕ
