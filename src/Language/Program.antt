-- ===== src/Language/Program.antt =====
-- language/program.hpp: a program, which keeps its instructions in a managed_container. An instruction
-- takes 24 bytes, and 16 of them fit the array of the object itself.
pub mod Stored
use sabot.Prelude.{ℕ, Option, none, some, List, get_elem?}
use sabot.Outcome.{Outcome, returned, fault, ◌>>=◌}
use sabot.Language.Machine.{Instruction}
use sabot.Container.{Container, empty_container, mdata, add, moved}

abbrev pub instruction_bytes : ℕ
instruction_bytes = 24

pub record Program : Type 0 where
  pub instructions : Container Instruction

-- `fresh n` is what `new instruction[n]` holds, and `zeroed` the array of the object.
unfoldable pub make_program :
    (ℕ → List Instruction) → List Instruction → List Instruction → Outcome Program
make_program fresh zeroed instruction =
    add instruction_bytes fresh (empty_container zeroed) instruction >>= λ c.
    returned (record { instructions = c })

unfoldable pub size : Program → ℕ
size p = p.instructions.count

-- data()[addr], without a test of the address.
unfoldable pub instruction : Program → ℕ → Outcome Instruction
instruction p addr = of_cell (get_elem? (mdata p.instructions) addr)
  where
    of_cell : Option Instruction → Outcome Instruction
    of_cell none = fault
    of_cell (some i) = returned i

-- The move constructor: the new object, whose array held `junk`, and the old one.
unfoldable pub moved_program : List Instruction → Program → Program × Program
moved_program junk old =
    let (new, left) = moved instruction_bytes junk old.instructions in
    (record { instructions = new }, record { instructions = left })
