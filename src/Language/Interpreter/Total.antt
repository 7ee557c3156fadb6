-- ===== src/Language/Interpreter/Total.antt =====
-- When `parse_program` ends inside what C++ defines: each line of the text is ended by the delimiter.
use mathlib.Core.Path.{subst}
use sabot.Prelude.{
  ℕ, zero, suc, ◌≤◌, ◌≡◌, arith, ◌==◌, ◌||◌, Bool, Bool-cases, inl, inr, List, [], ◌∷◌, length,
  ◌&&◌, ◌≢◌, refl, sym, ap, ◌∙◌,
}
use sabot.CString.{c_string}
use sabot.Outcome.{returned, Halts, bind-Halts, bind-eq-returned}
use sabot.Language.Machine.{Instruction}
use sabot.Language.Dialect.{Dialect, InstructionDefinition, find_idef, same_bytes}
use sabot.Language.Interpreter.Lines.{
  LastIs, LastIs-tail, AreLineWise, advance-LastIs, advance-ne-end, advance-stops, advance-passed,
  count-find_idef, find_idef-ne-whole,
}
use sabot.Language.Interpreter.{
  remove_leading_whitespace, advance, step_over, parse_operands, pass_line, parse_instruction,
  parse_instructions, parse_program,
}

find_idef-Halts :
    (ds : List InstructionDefinition) (str : List ℕ) (len : ℕ) → Halts (find_idef ds str len)
unfolding find_idef
find_idef-Halts [] str len = tt
find_idef-Halts (d ∷ ds) str len =
    elim (Bool-cases (d.mnemonic_length == len && same_bytes len d.mnemonic str)) [
      | inl e ↦ rw e tt
      | inr e ↦ rw e (find_idef-Halts ds str len)
    ]

length-step_over : (pos start : List ℕ) → step_over pos ≡ returned start → length start ≤ length pos
unfolding step_over
length-step_over [] start e = cc
length-step_over (c ∷ cs) start e = ground arith

length-advance : (stops : ℕ → Bool) (text : List ℕ) → length (advance stops text).1 ≤ length text
unfolding advance
length-advance stops [] = omega arith
length-advance stops (c ∷ cs) = ground (arith, length-advance stops cs)

module _ (operand_delimiter line_delimiter : ℕ) where
  ends : ℕ → Bool
  ends c = c == operand_delimiter || c == line_delimiter

  last_operand :
      (pos : List ℕ) → pos ≢ [] → Halts (parse_operands 1 operand_delimiter line_delimiter pos)
  unfolding parse_operands step_over
  last_operand [] ne = absurd (ne refl)
  last_operand (c ∷ cs) ne = tt

  -- Of two operands at most, the last may be empty: a text whose first byte is not the delimiter of
  -- the line is not left.
  parse_operands-Halts :
      (n c : ℕ) (cs : List ℕ)
      → n ≤ 2
      → c ≢ line_delimiter
      → LastIs line_delimiter (c ∷ cs)
      → Halts (parse_operands n operand_delimiter line_delimiter (c ∷ cs))
  unfolding parse_operands step_over ends
  parse_operands-Halts zero c cs few apart last = tt
  parse_operands-Halts (suc zero) c cs few apart last = tt
  parse_operands-Halts (suc (suc zero)) c [] few apart last = absurd (apart last)
  parse_operands-Halts (suc (suc zero)) c (d ∷ ds) few apart last =
      bind-Halts (parse_operands 1 operand_delimiter line_delimiter _) _
        (last_operand _ (advance-ne-end ends line_delimiter d ds (ground arith) last)) (λ a e. tt)
  parse_operands-Halts (suc (suc (suc n))) c cs few apart last = absurd (omega arith)

  parse_operands-LastIs :
      (n : ℕ) (pos operands after : List ℕ)
      → LastIs line_delimiter pos
      → parse_operands n operand_delimiter line_delimiter pos ≡ returned (operands, after)
      → LastIs line_delimiter after
  unfolding parse_operands step_over ends
  parse_operands-LastIs zero pos operands after last e =
      let same : pos ≡ after = ground (arith, e) in subst (LastIs line_delimiter) same last
  parse_operands-LastIs (suc n) [] operands after last e = cc
  parse_operands-LastIs (suc n) (c ∷ cs) operands after last e =
      let ((ops, end), p, q) =
        bind-eq-returned (parse_operands n operand_delimiter line_delimiter (advance ends cs).1) _
          e in
      let same : end ≡ after = ground (arith, q) in
      subst (LastIs line_delimiter) same (
        parse_operands-LastIs n _ ops end
          (advance-LastIs ends line_delimiter cs (LastIs-tail line_delimiter c cs last)) p)

  length-parse_operands :
      (n : ℕ) (pos operands after : List ℕ)
      → parse_operands n operand_delimiter line_delimiter pos ≡ returned (operands, after)
      → length after ≤ length pos
  unfolding parse_operands
  length-parse_operands zero pos operands after e = ground arith
  length-parse_operands (suc n) pos operands after e =
      let (start, p, q) = bind-eq-returned (step_over pos) _ e in
      let stops = λ (c : ℕ). c == operand_delimiter || c == line_delimiter in
      let ((ops, end), p', q') =
        bind-eq-returned (parse_operands n operand_delimiter line_delimiter (advance stops start).1)
          _ q in
      ground (
        arith,
        length-step_over pos start p,
        length-advance stops start,
        length-parse_operands n _ ops end p',
      )

length-pass_line :
    (c : ℕ) (after cs : List ℕ)
    → length after ≤ length (c ∷ cs)
    → length (pass_line after) ≤ length cs
length-pass_line c [] cs h = omega arith
length-pass_line c (a ∷ after) cs h = omega arith

pass_line-LastIs : (line : ℕ) (text : List ℕ) → LastIs line text → LastIs line (pass_line text)
pass_line-LastIs line [] h = tt
pass_line-LastIs line (c ∷ cs) h = LastIs-tail line c cs h

remove_leading_whitespace-LastIs :
    (line : ℕ) (text : List ℕ) → LastIs line text → LastIs line (remove_leading_whitespace text)
unfolding remove_leading_whitespace
remove_leading_whitespace-LastIs line [] h = tt
remove_leading_whitespace-LastIs line (c ∷ cs) h = elim (Bool-cases (c == b' ' || c == b'\t')) [
  | inl e ↦ rw e (remove_leading_whitespace-LastIs line cs (LastIs-tail line c cs h))
  | inr e ↦ rw e h
]

module _ (dialect : Dialect) (line_delimiter junk : ℕ) where
  -- A round passes at least one byte.
  pub parse_instruction_shrinks :
      (c : ℕ) (cs pos : List ℕ) (i : Instruction)
      → parse_instruction dialect line_delimiter junk (c ∷ cs) ≡ returned (i, pos)
      → length pos ≤ length cs
  unfolding parse_instruction
  parse_instruction_shrinks c cs pos i e =
      let (size, end) = advance (λ a. a == dialect.opcode_delimiter) (c ∷ cs) in
      let (d, p, q) = bind-eq-returned (find_idef dialect.instruction_defs (c ∷ cs) size) _ e in
      let ((ops, after), p', q') =
        bind-eq-returned
          (parse_operands d.operand_count dialect.operand_delimiter line_delimiter end) _ q in
      ground (
        arith,
        length-advance (λ a. a == dialect.opcode_delimiter) (c ∷ cs),
        length-parse_operands dialect.operand_delimiter line_delimiter d.operand_count end ops after
            p',
        length-pass_line c after cs,
      )

module _ (dialect : Dialect) (line_delimiter junk : ℕ)
    (line_wise : AreLineWise line_delimiter dialect.instruction_defs)
    (apart : dialect.opcode_delimiter ≢ line_delimiter) where
  -- The opcode stops at its delimiter, since no mnemonic has the last byte of the text in it.
  operands-Halts :
      (c : ℕ) (cs : List ℕ)
      → LastIs line_delimiter (c ∷ cs)
      → (d : InstructionDefinition)
      → find_idef dialect.instruction_defs
          (c ∷ cs)
          (advance (λ a. a == dialect.opcode_delimiter) (c ∷ cs)).0
        ≡ returned d
      → (end : List ℕ) → (advance (λ a. a == dialect.opcode_delimiter) (c ∷ cs)).1 ≡ end
      → Halts (parse_operands d.operand_count dialect.operand_delimiter line_delimiter end)
  operands-Halts c cs last d e [] at_end = absurd (
      find_idef-ne-whole line_delimiter dialect.instruction_defs c cs d line_wise last (
        ap (find_idef dialect.instruction_defs (c ∷ cs)) (sym (advance-passed _ (c ∷ cs) at_end))
        ∙ e))
  operands-Halts c cs last d e (x ∷ xs) at_end =
      let stopped = advance-stops (λ a. a == dialect.opcode_delimiter) (c ∷ cs) x xs at_end in
      let delimiter : x ≡ dialect.opcode_delimiter = ground (arith, stopped) in
      parse_operands-Halts dialect.operand_delimiter line_delimiter d.operand_count x xs
        (count-find_idef line_delimiter dialect.instruction_defs (c ∷ cs) _ d line_wise e)
        (λ same. apart (sym delimiter ∙ same))
        (subst (LastIs line_delimiter) at_end
          (advance-LastIs (λ a. a == dialect.opcode_delimiter) line_delimiter (c ∷ cs) last))

  parse_instruction-Halts :
      (c : ℕ) (cs : List ℕ)
      → LastIs line_delimiter (c ∷ cs)
      → Halts (parse_instruction dialect line_delimiter junk (c ∷ cs))
  unfolding parse_instruction
  parse_instruction-Halts c cs last =
      let stops = λ (a : ℕ). a == dialect.opcode_delimiter in
      bind-Halts (find_idef dialect.instruction_defs (c ∷ cs) (advance stops (c ∷ cs)).0) _
        (find_idef-Halts dialect.instruction_defs (c ∷ cs) _)
        λ d e.
          bind-Halts
            (parse_operands d.operand_count dialect.operand_delimiter line_delimiter
              (advance stops (c ∷ cs)).1)
            _ (operands-Halts c cs last d e (advance stops (c ∷ cs)).1 refl) (λ a p. tt)

  parse_instruction-LastIs :
      (c : ℕ) (cs pos : List ℕ) (i : Instruction)
      → LastIs line_delimiter (c ∷ cs)
      → parse_instruction dialect line_delimiter junk (c ∷ cs) ≡ returned (i, pos)
      → LastIs line_delimiter pos
  unfolding parse_instruction
  parse_instruction-LastIs c cs pos i last e =
      let (size, end) = advance (λ a. a == dialect.opcode_delimiter) (c ∷ cs) in
      let (d, p, q) = bind-eq-returned (find_idef dialect.instruction_defs (c ∷ cs) size) _ e in
      let ((ops, after), p', q') =
        bind-eq-returned
          (parse_operands d.operand_count dialect.operand_delimiter line_delimiter end) _ q in
      let same : pass_line after ≡ pos = ground (arith, q') in
      subst (LastIs line_delimiter) same (
        pass_line-LastIs line_delimiter after (
          parse_operands-LastIs dialect.operand_delimiter line_delimiter d.operand_count end ops
            after (advance-LastIs (λ a. a == dialect.opcode_delimiter) line_delimiter (c ∷ cs) last)
            p'))

  parse_instructions-Halts :
      (fuel : ℕ) (pos : List ℕ)
      → length pos ≤ fuel
      → LastIs line_delimiter pos
      → Halts (parse_instructions fuel dialect line_delimiter junk pos)
  unfolding parse_instructions
  parse_instructions-Halts fuel [] h last = tt
  parse_instructions-Halts zero (c ∷ cs) h last = absurd (omega arith)
  parse_instructions-Halts (suc fuel) (c ∷ cs) h last =
      bind-Halts (parse_instruction dialect line_delimiter junk (c ∷ cs)) _
        (parse_instruction-Halts c cs last)
        λ (i, pos) e.
          bind-Halts (parse_instructions fuel dialect line_delimiter junk pos) _
            (parse_instructions-Halts fuel pos
              (omega (arith, parse_instruction_shrinks dialect line_delimiter junk c cs pos i e))
              (parse_instruction-LastIs c cs pos i last e))
            (λ a p. tt)

  -- In a dialect whose instructions have at most two operands, and mnemonics that do not end in the
  -- delimiter of lines, which is not the delimiter of opcodes: on a text that is empty or ends with
  -- the delimiter of lines, `parse_program` returns or throws. It reads nothing after the terminator.
  pub parse_program-Halts :
      (text : List ℕ)
      → LastIs line_delimiter (c_string text)
      → Halts (parse_program dialect line_delimiter junk text)
  unfolding parse_program
  parse_program-Halts text last =
      parse_instructions-Halts _ (remove_leading_whitespace (c_string text)) (omega arith)
        (remove_leading_whitespace-LastIs line_delimiter (c_string text) last)
