-- ===== src/Chp/Init.antt =====
-- `init_state` of state/chp_state.hpp.
pub mod Zero
use sabot.Prelude.{
  ℕ, ◌+◌, ◌-◌, ◌*◌, ◌/◌, ◌%◌, ◌==◌, ltb, if◌then◌else◌, Bool, true, false, ◌≡◌, ◌<◌, arith, refl,
}
use sabot.Word.{pt}
use sabot.Loop.{update}
use sabot.Chp.{Row, ChpState}

-- Row i, after the memory has been cleared: X_i for a destabilizer, Z_(i-n) for a stabilizer and
-- for the scratch row, whose phase is not cleared.
unfoldable pub initial_row : ℕ → ℕ → ℕ → Row
initial_row uninitialised n i =
    if ltb i n
    then record { x = update (λ j. 0) (i / 32) (pt (i % 32)); z = λ j. 0; r = 0 }
    else record {
      x = λ j. 0;
      z = update (λ j. 0) ((i - n) / 32) (pt ((i - n) % 32));
      r = if ltb i (2 * n) then 0 else uninitialised;
    }

-- The arrays for n qubits, all allocated and written.
unfoldable pub initialised : ℕ → ChpState → ℕ → ChpState
initialised uninitialised s n = record {
  n = n;
  over32 = n / 32 + 1;
  allocated = true;
  row = λ i. if ltb i (2 * n + 1) then initial_row uninitialised n i else s.row i;
}

-- `allocates n` says that the arrays for n qubits can be allocated, and `uninitialised` is what
-- the new memory of the scratch row's phase holds. The result says whether no `bad_alloc` was
-- thrown; otherwise the arrays have been freed.
unfoldable pub init_state : (ℕ → Bool) → ℕ → ChpState → ℕ → Bool × ChpState
init_state allocates uninitialised s n =
    if allocates n
    then (true, initialised uninitialised s n)
    else (false, record s { n = n; over32 = n / 32 + 1; allocated = false })
