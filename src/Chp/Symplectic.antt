-- ===== src/Chp/Symplectic.antt =====
-- Which rows of a tableau of state/chp_state.hpp commute: the relations that make the rows below n the
-- destabilizers of the rows from n on.
pub mod Form
pub mod Gates
pub mod Init
pub mod Measure
pub mod Complete
pub mod Collapse
pub mod Determined
pub mod Operations
pub mod Run
use sabot.Prelude.{ℕ, zero, suc, ◌+◌, ◌*◌, ◌<◌, ◌≡◌, ◌==◌, ◌||◌, Bool, false, xor}
use sabot.Pauli.{Pauli, unit, anticommute}
use sabot.Chp.{Row}
use sabot.Chp.Gates.Conjugation.{letter}

-- Is the number of places below `count` that pass odd?
unfoldable pub parity : ℕ → (ℕ → Bool) → Bool
parity zero f = false
parity (suc k) f = xor (f k) (parity k f)

-- The operators of two rows on the first `count` qubits anticommute.
unfoldable pub clash : ℕ → Row → Row → Bool
clash count u v = parity count (λ k. anticommute (letter u k) (letter v k))

-- A destabilizer and the stabilizer of the same qubit.
unfoldable pub paired : ℕ → ℕ → ℕ → Bool
paired n i j = j == i + n || i == j + n

-- All generators of n qubits commute, but each destabilizer with its own stabilizer.
pub record IsSymplectic (n : ℕ) (row : ℕ → Row) : Type 0 where
  pub relation : (i j : ℕ) → i < 2 * n → j < 2 * n → clash n (row i) (row j) ≡ paired n i j

-- Two operators on the first `count` qubits anticommute.
unfoldable pub commutator : ℕ → (ℕ → Pauli) → (ℕ → Pauli) → Bool
commutator count f g = parity count (λ k. anticommute (f k) (g k))

-- An operator on n qubits that commutes with all generators is the unit.
pub record IsComplete (n : ℕ) (row : ℕ → Row) : Type 0 where
  pub complete :
      (f : ℕ → Pauli)
      → ((j : ℕ) → j < 2 * n → commutator n f (letter (row j)) ≡ false)
      → (k : ℕ) → k < n
      → f k ≡ unit
