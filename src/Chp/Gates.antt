-- ===== src/Chp/Gates.antt =====
-- The gates of state/chp_state.hpp on a tableau. `none` is an access outside the rows' memory.
pub mod Columns
pub mod Conjugation
pub mod Refinement
pub mod Sequence
use sabot.Prelude.{
  ℕ, ◌+◌, ◌*◌, ◌/◌, ◌%◌, if◌then◌else◌, bit_and, bit_xor, Bool, not, ◌&&◌, Option, none, some,
  ◌>>=◌,
}
use sabot.Word.{pt}
use sabot.Loop.{for_below, update}
use sabot.Chp.{Row, ChpState, column, xor_word, negate, reachable}

pub cnot_row : ℕ → ℕ → Row → Row
cnot_row control target w =
    let w1 =
      if column w.x control
      then record w { x = xor_word w.x (target / 32) (pt (target % 32)) }
      else w in
    let w2 =
      if column w1.z target
      then record w1 { z = xor_word w1.z (control / 32) (pt (control % 32)) }
      else w1 in
    let w3 =
      if column w2.x control && column w2.z target && column w2.x target && column w2.z control
      then negate w2
      else w2 in
    if column w3.x control
      && column w3.z target
      && not (column w3.x target)
      && not (column w3.z control)
    then negate w3
    else w3

unfoldable pub hadamard_row : ℕ → Row → Row
hadamard_row qubit w =
    let j = qubit / 32 in
    let mask = pt (qubit % 32) in
    let tmp = w.x j in
    let w1 = record w { x = xor_word w.x j (bit_and (bit_xor (w.x j) (w.z j)) mask) } in
    let w2 = record w1 { z = xor_word w1.z j (bit_and (bit_xor (w1.z j) tmp) mask) } in
    if column w2.x qubit && column w2.z qubit then negate w2 else w2

pub phase_row : ℕ → Row → Row
phase_row qubit w =
    let w1 = if column w.x qubit && column w.z qubit then negate w else w in
    record w1 { z = xor_word w1.z (qubit / 32) (bit_and (w1.x (qubit / 32)) (pt (qubit % 32))) }

-- for(i = 0; i < 2*n; i++) on row i
unfoldable pub each_row : (Row → Row) → ChpState → ChpState
each_row f s = record s { row = for_below (2 * s.n) (λ i rows. update rows i (f (rows i))) s.row }

pub cnot : ChpState → ℕ → ℕ → Option ChpState
cnot s control target =
    if reachable s control && reachable s target
    then some (each_row (cnot_row control target) s)
    else none

pub hadamard : ChpState → ℕ → Option ChpState
hadamard s qubit = if reachable s qubit then some (each_row (hadamard_row qubit) s) else none

pub phase : ChpState → ℕ → Option ChpState
phase s qubit = if reachable s qubit then some (each_row (phase_row qubit) s) else none

-- The cases `paulix`, `pauliy` and `pauliz` of run_program.
pub paulix : ChpState → ℕ → Option ChpState
paulix s q = do a ← hadamard s q; b ← phase a q; c ← phase b q; hadamard c q

pub pauliy : ChpState → ℕ → Option ChpState
pauliy s q = do
  a ← phase s q
  b ← hadamard a q
  c ← phase b q
  d ← phase c q
  e ← hadamard d q
  f ← phase e q
  g ← phase f q
  phase g q

pub pauliz : ChpState → ℕ → Option ChpState
pauliz s q = do a ← phase s q; phase a q
