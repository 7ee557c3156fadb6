-- ===== src/Language/Dialect.antt =====
-- language/dialect.hpp and language/instruction_definition.hpp. A C string is the list of its bytes
-- before the terminator, which reads as 0.
use sabot.Prelude.{
  ℕ, zero, suc, Bool, true, false, ◌&&◌, ◌==◌, if◌then◌else◌, List, [], ◌∷◌, get_or, drop,
}
use sabot.Outcome.{Outcome, Exception, returned, threw}
use sabot.Language.Machine.{Operation}

pub record InstructionDefinition : Type 0 where
  pub mnemonic : List ℕ
  pub mnemonic_length : ℕ
  pub operand_count : ℕ
  pub bytecode : Operation

pub record Dialect : Type 0 where
  pub opcode_delimiter : ℕ
  pub operand_delimiter : ℕ
  pub instruction_defs : List InstructionDefinition

-- memcmp(a, b, len) == 0
unfoldable pub same_bytes : ℕ → List ℕ → List ℕ → Bool
same_bytes zero a b = true
same_bytes (suc len) a b = get_or a 0 0 == get_or b 0 0 && same_bytes len (drop 1 a) (drop 1 b)

unfoldable pub find_idef : List InstructionDefinition → List ℕ → ℕ → Outcome InstructionDefinition
unfolding same_bytes
find_idef [] str len = threw Exception.plain_exception
find_idef (d ∷ ds) str len =
    if d.mnemonic_length == len && same_bytes len d.mnemonic str
    then returned d
    else find_idef ds str len

-- strcmp(a, b) == 0
unfoldable pub same_string : List ℕ → List ℕ → Bool
same_string [] [] = true
same_string (a ∷ cs) (b ∷ bs) = a == b && same_string cs bs
same_string _ _ = false

-- `dialect_factory::instantiate` on the registered dialects, by name.
unfoldable pub instantiate {ℓ} : {D : Type ℓ} → List (List ℕ × D) → List ℕ → Outcome D
instantiate [] name = threw Exception.plain_exception
instantiate ((key, create) ∷ rest) name =
    if same_string key name then returned create else instantiate rest name
