-- ===== src/Chp/Measure.antt =====
-- The measurement of state/chp_state.hpp. `none` is an access outside the rows' memory.
pub mod Pivot
pub mod Sweep
pub mod Collapse
pub mod Repeat
use sabot.Prelude.{
  ℕ, suc, ◌+◌, ◌-◌, ◌*◌, ◌/◌, ◌%◌, ◌==◌, ltb, if◌then◌else◌, Bool, not, ◌&&◌, ◌||◌, Option, none,
  some,
}
use sabot.Randnum.{Generator, Draw, get_uniform_integer}
use sabot.Loop.{for_below, scan, update}
use sabot.Chp.{ChpState, column}
use sabot.Chp.Rows.{rowcopy, rowset, rowmult}

-- r[i] = phase
abbrev pub set_phase : ChpState → ℕ → ℕ → ChpState
set_phase s i phase = record s {
  row = update s.row i (record { x = (s.row i).x; z = (s.row i).z; r = phase });
}

-- The search of the pivot: the first stabilizer with an X on the qubit, or n.
unfoldable pub pivot : ChpState → ℕ → ℕ
pivot s qubit = scan s.n 0 (λ p. column (s.row (p + s.n)).x qubit)

-- One round of the loop that updates the rows that do not commute with the measured operator.
unfoldable pub update_row : ℕ → ℕ → ℕ → ChpState → ChpState
update_row p qubit i s = if not (i == p) && column (s.row i).x qubit then rowmult s i p else s

-- Xbar_p := Zbar_p, and Zbar_p := Z_b with the sign of the bit drawn.
unfoldable pub replace_pivot : ChpState → ℕ → ℕ → ℕ → ChpState
replace_pivot s qubit p bit =
    let s1 = rowcopy s p (p + s.n) in
    let s2 = rowset s1 (p + s.n) (qubit + s.n) in set_phase s2 (p + s.n) (2 * bit)

-- The branch of a random outcome, at pivot p, for the bit drawn.
unfoldable pub measure_random : ChpState → ℕ → ℕ → ℕ → ChpState
measure_random s qubit p bit =
    for_below (2 * s.n) (update_row p qubit) (replace_pivot s qubit p bit)

-- The first destabilizer with an X on the qubit, or n.
unfoldable pub destabilizer_pivot : ChpState → ℕ → ℕ
destabilizer_pivot s qubit = scan s.n 0 (λ m. column (s.row m).x qubit)

-- One round of the loop that collects the outcome in the scratch row.
unfoldable pub collect_row : ℕ → ℕ → ChpState → ChpState
collect_row qubit i s = if column (s.row i).x qubit then rowmult s (2 * s.n) (i + s.n) else s

-- The branch of an outcome that is determined.
unfoldable pub measure_determined : ChpState → ℕ → ChpState
measure_determined s qubit =
    let m = destabilizer_pivot s qubit in
    let s1 = rowcopy s (2 * s.n) (m + s.n) in
    for_below (s.n - suc m) (λ d. collect_row qubit (suc m + d)) s1

abbrev pub outcome : ℕ → ℕ
outcome phase = if phase == 0 then 0 else 1

-- Without rows no column is read, but the scratch row is.
unfoldable pub measurable : ChpState → ℕ → Bool
measurable s qubit = s.allocated && (s.n == 0 || ltb (qubit / 32) s.over32)

unfoldable pub measure_checked :
    {Rng : Type 0} → Draw Rng → ChpState → ℕ → Generator Rng → ℕ × ChpState × Generator Rng
measure_checked draw s qubit g =
    let p = pivot s qubit in
    let (bit, g1) = get_uniform_integer draw g 0 1 in
    let random = measure_random s qubit p bit in
    let determined = measure_determined s qubit in
    if ltb p s.n
    then (outcome (random.row (p + s.n)).r, random, g1)
    else (outcome (determined.row (2 * s.n)).r, determined, g)

pub measure :
    {Rng : Type 0} → Draw Rng → ChpState → ℕ → Generator Rng → Option (ℕ × ChpState × Generator Rng)
measure draw s qubit g = if measurable s qubit then some (measure_checked draw s qubit g) else none
