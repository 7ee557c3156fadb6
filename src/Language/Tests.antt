-- ===== src/Language/Tests.antt =====
-- The theorems on programs at concrete texts.
use sabot.Prelude.{ℕ, ◌≡◌, inr, refl, replicate, length-replicate, List, [], ◌∷◌, arith}
use sabot.Outcome.{returned, Halts}
use sabot.Language.Machine.{Operation, operand_count, Instruction}
use sabot.Language.Chpext.{chpext, instruction_defs, mnemonic_of}
use sabot.Language.Program.{Program, make_program, moved_program, size}
use sabot.Language.Program.Stored.{ReadsAs, make_program-ReadsAs}
use sabot.Language.Interpreter.{parse_program}
use sabot.CString.{c_string}
use sabot.Language.Interpreter.Lines.{LastIs, AreLineWise}
use sabot.Language.Interpreter.Total.{parse_program-Halts}
use sabot.Language.Interpreter.Print.{print_program, AllWritten}
use sabot.Language.Interpreter.RoundTrip.{parse-print_program}

-- init 2; c 0,1; m 1
abbrev three_lines : List Instruction
three_lines =
    record { bytecode = Operation.initialize; first = 2; second = 77 }
    ∷ record { bytecode = Operation.cnot; first = 0; second = 1 }
    ∷ record { bytecode = Operation.measure; first = 1; second = 77 }
    ∷ []

three_lines-AllWritten : AllWritten 77 three_lines
unfolding operand_count
three_lines-AllWritten = (
  record { first_lt = omega arith; second_lt = omega arith; unwritten = λ e. refl },
  (
    record {
      first_lt = omega arith;
      second_lt = omega arith;
      unwritten = λ e. absurd (omega arith);
    },
    (record { first_lt = omega arith; second_lt = omega arith; unwritten = λ e. refl }, tt),
  ),
)

parse-print_program_example :
    parse_program chpext b';' 77 (print_program b';' three_lines) ≡ returned three_lines
parse-print_program_example =
    parse-print_program b';' 77 three_lines (omega arith) (inr (omega arith)) three_lines-AllWritten

chpext-AreLineWise : AreLineWise b';' chpext.instruction_defs
unfolding chpext instruction_defs mnemonic_of operand_count
chpext-AreLineWise = ground arith

-- h 1;c 0; where an operand is missing, which is read as 0.
abbrev short_of_operands : List ℕ
short_of_operands = b'h' ∷ b' ' ∷ b'1' ∷ b';' ∷ b'c' ∷ b' ' ∷ b'0' ∷ b';' ∷ []

short_of_operands-LastIs : LastIs b';' (c_string short_of_operands)
unfolding c_string
short_of_operands-LastIs = refl

parse_program-Halts_example : Halts (parse_program chpext b';' 0 short_of_operands)
unfolding chpext
parse_program-Halts_example =
    parse_program-Halts chpext b';' 0 chpext-AreLineWise (λ e. absurd (omega arith))
      short_of_operands short_of_operands-LastIs

abbrev blank : Instruction
blank = record { bytecode = Operation.macro; first = 0; second = 0 }

make_program-ReadsAs_example :
    (p : Program) × (make_program (λ k. replicate k blank) (replicate 16 blank) three_lines
      ≡ returned p)
    × ReadsAs p three_lines
    × ReadsAs (moved_program (replicate 16 blank) p).0 three_lines
    × (size (moved_program (replicate 16 blank) p).1 ≡ 0)
make_program-ReadsAs_example =
    make_program-ReadsAs (λ k. replicate k blank) (replicate 16 blank) (replicate 16 blank)
      three_lines (λ k. length-replicate k blank) refl refl (omega arith)
