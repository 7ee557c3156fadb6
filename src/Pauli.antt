-- ===== src/Pauli.antt =====
-- The Pauli operators on qubits, as the tableau of state/chp_state.hpp is to be read: how they
-- multiply, and how the gates conjugate them. Nothing here is taken from the code.
use sabot.Prelude.{ℕ, ◌+◌, ◌%◌, ◌==◌, Bool, true, false, not}

pub data Pauli : Type 0 where
  unit sigma_x sigma_y sigma_z : Pauli

-- A product of Pauli operators on one qubit: a power of i, and an operator.
pub record Phased : Type 0 where
  pub power : ℕ
  pub operator : Pauli

abbrev plus : Pauli → Phased
plus p = record { power = 0; operator = p }

abbrev minus : Pauli → Phased
minus p = record { power = 2; operator = p }

-- H P H
abbrev pub hadamard_image : Pauli → Phased
hadamard_image unit = plus unit
hadamard_image sigma_x = plus sigma_z
hadamard_image sigma_y = minus sigma_y
hadamard_image sigma_z = plus sigma_x

-- S P S* for the phase gate S.
abbrev pub phase_image : Pauli → Phased
phase_image unit = plus unit
phase_image sigma_x = plus sigma_y
phase_image sigma_y = minus sigma_x
phase_image sigma_z = plus sigma_z

-- P Q P for Pauli operators P and Q on one qubit: a sign where they anticommute.
abbrev pub pauli_image : Pauli → Pauli → Phased
pauli_image unit p = plus p
pauli_image sigma_x sigma_y = minus sigma_y
pauli_image sigma_x sigma_z = minus sigma_z
pauli_image sigma_x p = plus p
pauli_image sigma_y sigma_x = minus sigma_x
pauli_image sigma_y sigma_z = minus sigma_z
pauli_image sigma_y p = plus p
pauli_image sigma_z sigma_x = minus sigma_x
pauli_image sigma_z sigma_y = minus sigma_y
pauli_image sigma_z p = plus p

-- The product P Q.
abbrev pub product : Pauli → Pauli → Phased
product unit q = plus q
product p unit = plus p
product sigma_x sigma_x = plus unit
product sigma_x sigma_y = record { power = 1; operator = sigma_z }
product sigma_x sigma_z = record { power = 3; operator = sigma_y }
product sigma_y sigma_x = record { power = 3; operator = sigma_z }
product sigma_y sigma_y = plus unit
product sigma_y sigma_z = record { power = 1; operator = sigma_x }
product sigma_z sigma_x = record { power = 1; operator = sigma_y }
product sigma_z sigma_y = record { power = 3; operator = sigma_x }
product sigma_z sigma_z = plus unit

-- An operator on a control and on a target qubit, with a power of i.
pub record Pair : Type 0 where
  pub power : ℕ
  pub control : Pauli
  pub target : Pauli

-- CNOT (P on the control) CNOT and CNOT (P on the target) CNOT.
abbrev pub control_image : Pauli → Pair
control_image unit = record { power = 0; control = unit; target = unit }
control_image sigma_x = record { power = 0; control = sigma_x; target = sigma_x }
control_image sigma_y = record { power = 0; control = sigma_y; target = sigma_x }
control_image sigma_z = record { power = 0; control = sigma_z; target = unit }

abbrev pub target_image : Pauli → Pair
target_image unit = record { power = 0; control = unit; target = unit }
target_image sigma_x = record { power = 0; control = unit; target = sigma_x }
target_image sigma_y = record { power = 0; control = sigma_z; target = sigma_y }
target_image sigma_z = record { power = 0; control = sigma_z; target = sigma_z }

-- Conjugation is multiplicative: the image of P on the control and Q on the target.
abbrev pub cnot_image : Pauli → Pauli → Pair
cnot_image p q =
    let a = control_image p in
    let b = target_image q in
    let c = product a.control b.control in
    let t = product a.target b.target in
    record { power = (c.power + t.power) % 4; control = c.operator; target = t.operator }

-- One image after the other.
abbrev pub after : (Pauli → Phased) → (Pauli → Phased) → Pauli → Phased
after g f p =
    let a = f p in
    let b = g a.operator in record { power = a.power + b.power; operator = b.operator }

-- The operator with these bits in the x and z matrices.
abbrev pub of_bits : Bool → Bool → Pauli
of_bits false false = unit
of_bits true false = sigma_x
of_bits true true = sigma_y
of_bits false true = sigma_z

-- P Q = - Q P
abbrev pub anticommute : Pauli → Pauli → Bool
anticommute p q = not ((product p q).power == (product q p).power)
