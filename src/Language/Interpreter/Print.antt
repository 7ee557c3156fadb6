-- ===== src/Language/Interpreter/Print.antt =====
-- Programs written in the dialect chpext, which are C strings.
use sabot.Prelude.{
  ℕ, zero, suc, ◌/◌, ◌<◌, ◌≡◌, arith, ltb, ◌==◌, if◌then◌else◌, Bool-cases, inl, inr, List, [], ◌∷◌,
  ◌++◌,
}
use sabot.CString.{IsText, IsText-append}
use sabot.Utility.{word_mod}
use sabot.Utility.Decimal.{decimal, digits_of}
use sabot.Language.Machine.{Operation, Instruction, operand_count}
use sabot.Language.Chpext.{mnemonic_of}

-- An instruction, the delimiter of the line, and the text after it.
unfoldable pub print_before : ℕ → Instruction → List ℕ → List ℕ
unfolding operand_count mnemonic_of
print_before line i rest =
    mnemonic_of i.bytecode
    ++ b' '
      ∷ (decimal i.first
          ++ (if operand_count i.bytecode == 2
              then b',' ∷ (decimal i.second ++ line ∷ rest)
              else line ∷ rest))

unfoldable pub print_program : ℕ → List Instruction → List ℕ
print_program line [] = []
print_program line (i ∷ is) = print_before line i (print_program line is)

-- An instruction that the parser can return: 64-bit operands, and what is not written is `junk`.
pub record IsWritten (junk : ℕ) (i : Instruction) : Type 0 where
  pub first_lt : i.first < word_mod
  pub second_lt : i.second < word_mod
  pub unwritten : operand_count i.bytecode ≡ 1 → i.second ≡ junk

abbrev pub AllWritten : ℕ → List Instruction → Type 0
AllWritten junk [] = Unit {0}
AllWritten junk (i ∷ is) = IsWritten junk i × AllWritten junk is

digits_of-IsText : (f n : ℕ) → IsText (digits_of f n)
unfolding digits_of
digits_of-IsText zero n = (omega arith, tt)
digits_of-IsText (suc f) n = elim (Bool-cases (ltb n 10)) [
  | inl e ↦ rw e (omega arith, tt)
  | inr e ↦
      rw e (IsText-append (digits_of f (n / 10)) _ (digits_of-IsText f (n / 10)) (omega arith, tt))
]

decimal-IsText : (n : ℕ) → IsText (decimal n)
unfolding decimal
decimal-IsText n = digits_of-IsText n n

mnemonic_of-IsText : (op : Operation) → IsText (mnemonic_of op)
unfolding mnemonic_of
mnemonic_of-IsText op = ground arith

print_before-IsText :
    (line : ℕ) (i : Instruction) (rest : List ℕ)
    → 0 < line
    → IsText rest
    → IsText (print_before line i rest)
unfolding print_before
print_before-IsText line i rest pos h =
    IsText-append (mnemonic_of i.bytecode) _ (mnemonic_of-IsText i.bytecode) (
      omega arith,
      IsText-append (decimal i.first) _ (decimal-IsText i.first)
          (elim (Bool-cases (operand_count i.bytecode == 2)) [
            | inl e ↦
                rw e (
                  omega arith,
                  IsText-append (decimal i.second) _ (decimal-IsText i.second) (pos, h),
                )
            | inr e ↦ rw e (pos, h)
          ]),
    )

-- A program whose lines end in another byte than the terminator is written as a text.
pub print_program-IsText :
    (line : ℕ) (program : List Instruction) → 0 < line → IsText (print_program line program)
unfolding print_program
print_program-IsText line [] pos = tt
print_program-IsText line (i ∷ is) pos =
    print_before-IsText line i (print_program line is) pos (print_program-IsText line is pos)
