-- ===== src/Language/Interpreter.antt =====
-- `parse_program` of language/interpreter.cpp. The position `pos` is the text from there on, up to
-- its terminator; stepping over the terminator is a fault.
pub mod Lines
pub mod Total
pub mod Print
pub mod RoundTrip
use sabot.Prelude.{
  ℕ, zero, suc, ◌+◌, Bool, true, false, ◌||◌, ◌==◌, if◌then◌else◌, List, [], ◌∷◌, ◌++◌, length,
  get_or,
}
use sabot.Outcome.{Outcome, returned, threw, fault, spin, ◌>>=◌}
use sabot.CString.{c_string}
use sabot.Utility.{stuif}
use sabot.Language.Machine.{Operation, Instruction}
use sabot.Language.Dialect.{Dialect, InstructionDefinition, find_idef}

-- `remove_leading_whitespace`
unfoldable pub remove_leading_whitespace : List ℕ → List ℕ
remove_leading_whitespace [] = []
remove_leading_whitespace (c ∷ cs) =
    if c == b' ' || c == b'\t' then remove_leading_whitespace cs else c ∷ cs

-- while(*pos is none of the stops && *pos != '\0') pos++, as the bytes passed and the text left.
unfoldable pub advance : (ℕ → Bool) → List ℕ → ℕ × List ℕ
advance stops [] = (0, [])
advance stops (c ∷ cs) =
    let (n, rest) = advance stops cs in if stops c then (0, c ∷ cs) else (suc n, rest)

-- ++pos
unfoldable pub step_over : List ℕ → Outcome (List ℕ)
step_over [] = fault
step_over (c ∷ cs) = returned cs

-- The loop over the operands that remain.
unfoldable pub parse_operands : ℕ → ℕ → ℕ → List ℕ → Outcome (List ℕ × List ℕ)
unfolding step_over
parse_operands zero operand_delimiter line_delimiter pos = returned ([], pos)
parse_operands (suc remaining) operand_delimiter line_delimiter pos = do
  start ← step_over pos
  let (size, end) = advance (λ c. c == operand_delimiter || c == line_delimiter) start
  (operands, after) ← parse_operands remaining operand_delimiter line_delimiter end
  returned (stuif start size ∷ operands, after)

-- if(*pos != '\0') pos++
abbrev pub pass_line : List ℕ → List ℕ
pass_line [] = []
pass_line (c ∷ cs) = cs

-- One round of the loop over instructions. `junk` is what the operands hold that are not written.
unfoldable pub parse_instruction : Dialect → ℕ → ℕ → List ℕ → Outcome (Instruction × List ℕ)
parse_instruction dialect line_delimiter junk pos = do
  let (size, end) = advance (λ c. c == dialect.opcode_delimiter) pos
  opcode ← find_idef dialect.instruction_defs pos size
  (operands, after) ←
      parse_operands opcode.operand_count dialect.operand_delimiter line_delimiter end
  returned (
    record {
      bytecode = opcode.bytecode;
      first = get_or operands 0 junk;
      second = get_or operands 1 junk;
    },
    pass_line after,
  )

-- The loop over instructions, with fuel for its rounds.
unfoldable pub parse_instructions : ℕ → Dialect → ℕ → ℕ → List ℕ → Outcome (List Instruction)
parse_instructions fuel dialect line_delimiter junk [] = returned []
parse_instructions zero dialect line_delimiter junk (c ∷ cs) = spin
parse_instructions (suc fuel) dialect line_delimiter junk (c ∷ cs) = do
  (i, pos) ← parse_instruction dialect line_delimiter junk (c ∷ cs)
  is ← parse_instructions fuel dialect line_delimiter junk pos
  returned (i ∷ is)

-- Each round passes a byte, so that the length of the text is fuel enough.
unfoldable pub parse_program : Dialect → ℕ → ℕ → List ℕ → Outcome (List Instruction)
parse_program dialect line_delimiter junk text =
    let pos = remove_leading_whitespace (c_string text) in
    parse_instructions (length pos) dialect line_delimiter junk pos
