-- ===== src/Language/Interpreter/RoundTrip.antt =====
-- Programs written in the dialect chpext are read back.
use sabot.Prelude.{
  ℕ, zero, suc, ◌<◌, ◌≤◌, ◌≡◌, refl, sym, ap, arith, ◌==◌, ◌||◌, if◌then◌else◌, Bool, true, false,
  inl, inr, ◌⊎◌, List, [], ◌∷◌, ◌++◌, length,
}
use sabot.Outcome.{returned}
use sabot.Utility.{word_mod}
use sabot.Utility.Decimal.{decimal, stuif-decimal, IsDecimal, decimal-IsDecimal}
use sabot.Language.Machine.{Operation, Instruction, operand_count}
use sabot.Language.Dialect.{find_idef}
use sabot.Language.Chpext.{mnemonic_of, chpext, instruction_defs, definition}
use sabot.CString.{c_string_text}
use sabot.Language.Interpreter.Print.{
  print_before, print_program, AllWritten, IsWritten, print_program-IsText,
}
use sabot.Language.Interpreter.Total.{parse_instruction_shrinks}
use sabot.Language.Interpreter.{
  remove_leading_whitespace, advance, step_over, parse_operands, parse_instruction,
  parse_instructions, parse_program,
}

-- Decimal digits are passed, up to a byte that stops.
advance-IsDecimal :
    (stops : ℕ → Bool) (ds : List ℕ) (c : ℕ) (rest : List ℕ)
    → IsDecimal ds
    → ((d : ℕ) → b'0' ≤ d → d ≤ b'9' → stops d ≡ false)
    → stops c ≡ true
    → advance stops (ds ++ c ∷ rest) ≡ (length ds, c ∷ rest)
unfolding advance
advance-IsDecimal stops [] c rest h goes s = rw s
advance-IsDecimal stops (d ∷ ds) c rest h goes s =
    rw (goes d h.0 h.1, advance-IsDecimal stops ds c rest h.2 goes s)

module _ (line : ℕ) (not_digit : (line < b'0') ⊎ (b'9' < line)) where
  abbrev ends : ℕ → Bool
  ends c = c == b',' || c == line

  digit_goes : (d : ℕ) → b'0' ≤ d → d ≤ b'9' → ends d ≡ false
  digit_goes d lo hi = ground arith

  parse_one :
      (n : ℕ) (rest : List ℕ)
      → n < word_mod
      → parse_operands 1 b',' line (b' ' ∷ (decimal n ++ line ∷ rest))
        ≡ returned (n ∷ [], line ∷ rest)
  unfolding parse_operands step_over
  parse_one n rest h = rw (
    advance-IsDecimal ends (decimal n) line rest (decimal-IsDecimal n) digit_goes (ground arith),
    stuif-decimal n (line ∷ rest) h,
  )

  parse_two :
      (a b : ℕ) (rest : List ℕ)
      → a < word_mod
      → b < word_mod
      → parse_operands 2 b',' line (b' ' ∷ (decimal a ++ b',' ∷ (decimal b ++ line ∷ rest)))
        ≡ returned (a ∷ b ∷ [], line ∷ rest)
  unfolding parse_operands step_over
  parse_two a b rest h k = rw (
    advance-IsDecimal ends (decimal a) b',' (decimal b ++ line ∷ rest) (decimal-IsDecimal a)
        digit_goes (ground arith),
    advance-IsDecimal ends (decimal b) line rest (decimal-IsDecimal b) digit_goes (ground arith),
    stuif-decimal a (b',' ∷ (decimal b ++ line ∷ rest)) h,
    stuif-decimal b (line ∷ rest) k,
  )

abbrev Found : Operation → List ℕ → Type 0
Found op rest =
    (advance (λ c. c == b' ') (mnemonic_of op ++ b' ' ∷ rest)
      ≡ (length (mnemonic_of op), b' ' ∷ rest))
    × (find_idef instruction_defs (mnemonic_of op ++ b' ' ∷ rest) (length (mnemonic_of op))
        ≡ returned (definition (mnemonic_of op) op))

-- Each mnemonic is found, and is that of its own operation.
opcode-Found : (op : Operation) (rest : List ℕ) → Found op rest
unfolding mnemonic_of advance find_idef instruction_defs operand_count
opcode-Found Operation.macro rest = (refl, refl)
opcode-Found Operation.initialize rest = (refl, refl)
opcode-Found Operation.identity rest = (refl, refl)
opcode-Found Operation.hadamard rest = (refl, refl)
opcode-Found Operation.phase rest = (refl, refl)
opcode-Found Operation.measure rest = (refl, refl)
opcode-Found Operation.cnot rest = (refl, refl)
opcode-Found Operation.paulix rest = (refl, refl)
opcode-Found Operation.pauliy rest = (refl, refl)
opcode-Found Operation.pauliz rest = (refl, refl)

-- How many operands an operation has.
count-cases : (op : Operation) → (operand_count op ≡ 1) ⊎ (operand_count op ≡ 2)
unfolding operand_count
count-cases Operation.macro = inr refl
count-cases Operation.initialize = inl refl
count-cases Operation.identity = inl refl
count-cases Operation.hadamard = inl refl
count-cases Operation.phase = inl refl
count-cases Operation.measure = inl refl
count-cases Operation.cnot = inr refl
count-cases Operation.paulix = inl refl
count-cases Operation.pauliy = inl refl
count-cases Operation.pauliz = inl refl

-- A mnemonic begins with a letter.
mnemonic-shape : (op : Operation) → (c : ℕ) × (cs : List ℕ) × (mnemonic_of op ≡ c ∷ cs) × (b'a' ≤ c)
unfolding mnemonic_of
mnemonic-shape Operation.macro = (b'm', b'a' ∷ b'c' ∷ b'r' ∷ b'o' ∷ [], refl, omega arith)
mnemonic-shape Operation.initialize = (b'i', b'n' ∷ b'i' ∷ b't' ∷ [], refl, omega arith)
mnemonic-shape Operation.identity = (b'i', [], refl, omega arith)
mnemonic-shape Operation.hadamard = (b'h', [], refl, omega arith)
mnemonic-shape Operation.phase = (b'p', [], refl, omega arith)
mnemonic-shape Operation.measure = (b'm', [], refl, omega arith)
mnemonic-shape Operation.cnot = (b'c', [], refl, omega arith)
mnemonic-shape Operation.paulix = (b'x', [], refl, omega arith)
mnemonic-shape Operation.pauliy = (b'y', [], refl, omega arith)
mnemonic-shape Operation.pauliz = (b'z', [], refl, omega arith)

print_before-shape :
    (line : ℕ) (i : Instruction) (rest : List ℕ)
    → (c : ℕ) × (cs : List ℕ) × (print_before line i rest ≡ c ∷ cs) × (b'a' ≤ c)
unfolding print_before
print_before-shape line i rest =
    let (c, cs, e, letter) = mnemonic-shape i.bytecode in
    let tail =
      b' '
      ∷ (decimal i.first
          ++ (if operand_count i.bytecode == 2
              then b',' ∷ (decimal i.second ++ line ∷ rest)
              else line ∷ rest)) in
    (c, cs ++ tail, ap (λ m. m ++ tail) e, letter)

module _ (line junk : ℕ) (not_digit : (line < b'0') ⊎ (b'9' < line)) where
  parse-print_before :
      (i : Instruction) (rest : List ℕ)
      → IsWritten junk i
      → parse_instruction chpext line junk (print_before line i rest) ≡ returned (i, rest)
  unfolding parse_instruction chpext print_before
  parse-print_before i rest w = elim (count-cases i.bytecode) [
    | inl one ↦
        let f = opcode-Found i.bytecode (decimal i.first ++ line ∷ rest) in
        rw (one, f.0, f.1, one, parse_one line not_digit i.first rest w.first_lt)
          (ap (λ b. returned (record { bytecode = i.bytecode; first = i.first; second = b }, rest))
            (sym (w.unwritten one)))
    | inr two ↦
        let f =
          opcode-Found i.bytecode (decimal i.first ++ b',' ∷ (decimal i.second ++ line ∷ rest)) in
        rw (
          two,
          f.0,
          f.1,
          two,
          parse_two line not_digit i.first i.second rest w.first_lt w.second_lt,
        )
  ]

  parse-print_all :
      (fuel : ℕ) (is : List Instruction)
      → length (print_program line is) ≤ fuel
      → AllWritten junk is
      → parse_instructions fuel chpext line junk (print_program line is) ≡ returned is
  unfolding parse_instructions print_program
  parse-print_all fuel [] h w = refl
  parse-print_all zero (i ∷ is) h w =
      let (c, cs, e, letter) = print_before-shape line i (print_program line is) in
      absurd (omega (arith, ap (length {0}) e))
  parse-print_all (suc fuel) (i ∷ is) h w =
      let (c, cs, e, letter) = print_before-shape line i (print_program line is) in
      let p : parse_instruction chpext line junk (c ∷ cs) ≡ returned (i, print_program line is) =
        rw e at (parse-print_before i (print_program line is) w.0) in
      let shorter = parse_instruction_shrinks chpext line junk c cs (print_program line is) i p in
      rw (e, p, parse-print_all fuel is (omega (arith, shorter, ap (length {0}) e)) w.1)

no_whitespace :
    (line : ℕ) (is : List Instruction)
    → remove_leading_whitespace (print_program line is) ≡ print_program line is
unfolding remove_leading_whitespace print_program
no_whitespace line [] = refl
no_whitespace line (i ∷ is) =
    let (c, cs, e, letter) = print_before-shape line i (print_program line is) in
    rw (e, not_blank c letter)
  where
    not_blank : (c : ℕ) → b'a' ≤ c → (c == b' ' || c == b'\t') ≡ false
    not_blank c h = ground arith

-- A program of 64-bit operands that is written in the dialect chpext, its lines ended by a byte that
-- is neither a digit nor zero, is read back as it was.
pub parse-print_program :
    (line junk : ℕ) (program : List Instruction)
    → 0 < line
    → (line < b'0') ⊎ (b'9' < line)
    → AllWritten junk program
    → parse_program chpext line junk (print_program line program) ≡ returned program
unfolding parse_program
parse-print_program line junk program positive not_digit w =
    rw (c_string_text _ (print_program-IsText line program positive), no_whitespace line program)
      (parse-print_all line junk not_digit _ program (omega arith) w)
