-- ===== src/Universe/Operations.antt =====
-- The operations of the class universe, universe.cpp.
use sabot.Prelude.{ℕ, Bool, true, false, ◌==◌, if◌then◌else◌, List}
use sabot.Outcome.{Outcome, Exception, returned, threw, fault, spin}
use sabot.Language.Machine.{Instruction}
use sabot.Chp.Run.{Env}
use sabot.MsContainer.{MsContainer, insert, insert_made, erase, edit_item, empty}
use sabot.Universe.{
  Universe, World, Kernel, QuantumSystem, Interpreters, state_types, instantiate_state_type,
  initialize_interpreter, compile_program, with_program, program_insert_state, program_modify_state,
  rescue, program_measure_state, program_compute_result, delete_state_element,
}

module _ {Rng : Type 0} where
  unfoldable pub create_kernel : Universe Rng → Universe Rng × ℕ
  create_kernel u = let (key, ks) = insert empty u.kernels in (record u { kernels = ks }, key)

  unfoldable pub delete_kernel : ℕ → Universe Rng → Universe Rng × Outcome Bool
  delete_kernel id u = of_erased (erase ◌==◌ id u.kernels)
    where
      of_erased : Outcome (ℕ × MsContainer ℕ Kernel) → Universe Rng × Outcome Bool
      of_erased (returned (n, ks)) =
          (record u { kernels = ks }, returned (if n == 0 then false else true))
      of_erased (threw e) = (u, threw e)
      of_erased fault = (u, fault)
      of_erased spin = (u, spin)

  unfoldable pub create_system : List ℕ → Universe Rng → Universe Rng × Outcome ℕ
  create_system state_type u =
      let (ss, id) = insert_made (instantiate_state_type state_types state_type) u.systems in
      (record u { systems = ss }, id)

  unfoldable pub delete_system : ℕ → Universe Rng → Universe Rng × Outcome Bool
  delete_system id u = of_erased (erase ◌==◌ id u.systems)
    where
      of_erased : Outcome (ℕ × MsContainer ℕ QuantumSystem) → Universe Rng × Outcome Bool
      of_erased (returned (n, ss)) =
          (record u { systems = ss }, returned (if n == 0 then false else true))
      of_erased (threw e) = (u, threw e)
      of_erased fault = (u, fault)
      of_erased spin = (u, spin)

  -- `quantumSystems.edit_item(id, f)`
  unfoldable pub edit_system {ℓ} :
      {B : Type ℓ}
      → ℕ
      → (QuantumSystem → World Rng → QuantumSystem × World Rng × Outcome B)
      → Universe Rng
      → Universe Rng × Outcome B
  edit_system id f u =
      let (ss, w, result) =
        edit_item ◌==◌ id f u.systems
          (record { interpreters = u.interpreters; generator = u.generator }) in
      (
        record {
          interpreters = w.interpreters;
          kernels = u.kernels;
          systems = ss;
          generator = w.generator;
        },
        result,
      )

module _ {Rng : Type 0} (env : Env Rng) (junk : ℕ) where
  unfoldable pub create_state : ℕ → List ℕ → List ℕ → ℕ → Universe Rng → Universe Rng × Outcome ℕ
  create_state id dialect text line u =
      let (v, result) =
        edit_system id (with_program env junk dialect text line (program_insert_state env junk))
          u in
      (v, rescue env junk (threw Exception.plain_exception) result)

  unfoldable pub modify_state :
      ℕ → ℕ → List ℕ → List ℕ → ℕ → Universe Rng → Universe Rng × Outcome Bool
  modify_state id state_id dialect text line u =
      let (v, result) =
        edit_system id
          (with_program env junk dialect text line (program_modify_state env junk state_id)) u in
      (v, rescue env junk (returned false) result)

  unfoldable pub measure_state :
      ℕ → ℕ → List ℕ → List ℕ → ℕ → List ℕ → Universe Rng → Universe Rng × Outcome (Bool × List ℕ)
  measure_state id state_id dialect text line buffer u =
      let (v, result) =
        edit_system id
          (with_program env junk dialect text line (program_measure_state env junk state_id buffer))
          u in
      (v, rescue env junk (returned (false, buffer)) result)

  unfoldable pub delete_state : ℕ → ℕ → Universe Rng → Universe Rng × Outcome Bool
  delete_state id state_id u =
      let (v, result) = edit_system id (delete_state_element env junk state_id) u in
      (v, rescue env junk (returned false) result)

  unfoldable pub compute_result :
      ℕ → List ℕ → List ℕ → ℕ → List ℕ → Universe Rng → Universe Rng × Outcome (Bool × List ℕ)
  compute_result id dialect text line buffer u =
      let (v, result) =
        edit_system id
          (with_program env junk dialect text line (program_compute_result env junk buffer)) u in
      (v, rescue env junk (returned (false, buffer)) result)

  -- The program goes to the macros of a kernel. The interpreter is made first.
  unfoldable pub compile_macro : ℕ → List ℕ → List ℕ → ℕ → Universe Rng → Universe Rng × Outcome ℕ
  compile_macro id dialect text line u = started (initialize_interpreter dialect u.interpreters)
    where
      insert_macro :
          Kernel → Interpreters × Outcome (List Instruction) → Kernel × Interpreters × Outcome ℕ
      insert_macro k (is, returned program) =
          let (key, k') = insert program k in (k', is, returned key)
      insert_macro k (is, threw e) = (k, is, threw e)
      insert_macro k (is, fault) = (k, is, fault)
      insert_macro k (is, spin) = (k, is, spin)

      started : Interpreters × Outcome Bool → Universe Rng × Outcome ℕ
      started (is, returned b) =
          let (ks, is', result) =
            edit_item ◌==◌ id
              (λ k js. insert_macro k (compile_program env junk dialect text line js)) u.kernels
              is in
          (
            record {
              interpreters = is';
              kernels = ks;
              systems = u.systems;
              generator = u.generator;
            },
            result,
          )
      started (is, threw e) = (record u { interpreters = is }, threw e)
      started (is, fault) = (record u { interpreters = is }, fault)
      started (is, spin) = (record u { interpreters = is }, spin)
