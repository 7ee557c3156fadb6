-- ===== src/Chp/Run/Safety.antt =====
-- Programs whose operands fit the tableau run to their end.
use sabot.Prelude.{
  ℕ, ◌+◌, ◌<◌, ◌≡◌, ◌≢◌, refl, arith, Bool, true, Option, some, List, [], ◌∷◌, ◌++◌, length,
  length-append,
}
use sabot.Randnum.{Generator, IsUniform}
use sabot.Language.Machine.{Operation, Instruction}
use sabot.Chp.{ChpState, empty_state}
use sabot.Chp.Gates.Refinement.{hadamard-Returns, phase-Returns, cnot-Returns}
use sabot.Chp.Gates.Sequence.{paulix-Returns, pauliy-Returns, pauliz-Returns}
use sabot.Chp.Run.{Env, Machine, on_state, step, run_program, compute_result}
use sabot.Chp.Run.Ready.{
  IsReady, reachable_of_ready, Returns-IsReady, init_state-IsReady, empty_state-IsTableau,
  measure-IsReady,
}

module _ {Rng : Type 0} (env : Env Rng) where
  -- The instruction can run on n qubits: it names qubits of the tableau, two distinct ones for a
  -- CNOT, and a tableau that it asks for can be allocated.
  abbrev pub Fits : ℕ → Operation → Instruction → Type 0
  Fits n Operation.macro i = Unit {0}
  Fits n Operation.initialize i = env.allocates i.first ≡ true
  Fits n Operation.identity i = Unit {0}
  Fits n Operation.cnot i = (i.first < n) × (i.second < n) × (i.first ≢ i.second)
  Fits n Operation.hadamard i = i.first < n
  Fits n Operation.phase i = i.first < n
  Fits n Operation.measure i = i.first < n
  Fits n Operation.paulix i = i.first < n
  Fits n Operation.pauliy i = i.first < n
  Fits n Operation.pauliz i = i.first < n

  -- The number of qubits after an instruction.
  abbrev pub qubits_after : ℕ → Operation → Instruction → ℕ
  qubits_after n Operation.initialize i = i.first
  qubits_after n Operation.macro i = n
  qubits_after n Operation.identity i = n
  qubits_after n Operation.cnot i = n
  qubits_after n Operation.hadamard i = n
  qubits_after n Operation.phase i = n
  qubits_after n Operation.measure i = n
  qubits_after n Operation.paulix i = n
  qubits_after n Operation.pauliy i = n
  qubits_after n Operation.pauliz i = n

  -- The results that an instruction adds.
  abbrev pub results : Operation → ℕ
  results Operation.measure = 1
  results Operation.macro = 0
  results Operation.initialize = 0
  results Operation.identity = 0
  results Operation.cnot = 0
  results Operation.hadamard = 0
  results Operation.phase = 0
  results Operation.paulix = 0
  results Operation.pauliy = 0
  results Operation.pauliz = 0

  abbrev pub FitsAll : ℕ → List Instruction → Type 0
  FitsAll n [] = Unit {0}
  FitsAll n (i ∷ is) = Fits n i.bytecode i × FitsAll (qubits_after n i.bytecode i) is

  abbrev pub results_of : List Instruction → ℕ
  results_of [] = 0
  results_of (i ∷ is) = results i.bytecode + results_of is

  abbrev pub qubits_of : ℕ → List Instruction → ℕ
  qubits_of n [] = n
  qubits_of n (i ∷ is) = qubits_of (qubits_after n i.bytecode i) is

  -- An instruction that goes on, in a state for n qubits and with `count` more results.
  abbrev Goes : ℕ → ℕ → Machine Rng → Option (Bool × Machine Rng) → Type 0
  Goes n count m result =
      (m' : Machine Rng) × (result ≡ some (true, m'))
      × IsReady n m'.state
      × (length m'.buffer ≡ length m.buffer + count)

  gate-Goes :
      (n : ℕ) (m : Machine Rng) (result : Option ChpState)
      → (t : ChpState) × (result ≡ some t) × IsReady n t
      → Goes n 0 m (on_state env m result)
  gate-Goes n m result (t, e, r) = (record m { state = t }, rw e, r, omega arith)

  step-Goes :
      (op : Operation) (i : Instruction) (n : ℕ) (m : Machine Rng)
      → IsUniform env.draw
      → IsReady n m.state
      → Fits n op i
      → Goes (qubits_after n op i) (results op) m (step env op i m)
  unfolding step
  step-Goes Operation.macro i n m u r f = (m, refl, r, omega arith)
  step-Goes Operation.identity i n m u r f = (m, refl, r, omega arith)
  step-Goes Operation.initialize i n m u r f =
      let (t, e, ready) =
        init_state-IsReady env.allocates env.uninitialised i.first m.state r.tableau f in
      (record m { state = t }, rw e, ready, omega arith)
  step-Goes Operation.hadamard i n m u r f = gate-Goes n m _ (
      Returns-IsReady _ n m.state _ r
        (hadamard-Returns m.state i.first r.tableau (reachable_of_ready n i.first m.state r f)))
  step-Goes Operation.phase i n m u r f = gate-Goes n m _ (
      Returns-IsReady _ n m.state _ r
        (phase-Returns m.state i.first r.tableau (reachable_of_ready n i.first m.state r f)))
  step-Goes Operation.paulix i n m u r f = gate-Goes n m _ (
      Returns-IsReady _ n m.state _ r
        (paulix-Returns m.state i.first r.tableau (reachable_of_ready n i.first m.state r f)))
  step-Goes Operation.pauliy i n m u r f = gate-Goes n m _ (
      Returns-IsReady _ n m.state _ r
        (pauliy-Returns m.state i.first r.tableau (reachable_of_ready n i.first m.state r f)))
  step-Goes Operation.pauliz i n m u r f = gate-Goes n m _ (
      Returns-IsReady _ n m.state _ r
        (pauliz-Returns m.state i.first r.tableau (reachable_of_ready n i.first m.state r f)))
  step-Goes Operation.cnot i n m u r f = gate-Goes n m _ (
      Returns-IsReady _ n m.state _ r (
        cnot-Returns m.state i.first i.second r.tableau (reachable_of_ready n i.first m.state r f.0)
          (reachable_of_ready n i.second m.state r f.1) f.2))
  step-Goes Operation.measure i n m u r f =
      let (bit, t, g, e, small, ready) =
        measure-IsReady env.draw n i.first m.state m.generator u r f in
      (
        record { state = t; buffer = m.buffer ++ (bit + b'0') ∷ []; generator = g },
        rw e,
        ready,
        length-append m.buffer _,
      )

-- A program whose instructions fit the tableau, from one `initialize` to the next, runs to its
-- end: it reads no memory outside the rows, returns true, leaves a tableau of sign-extended words
-- for the qubits last asked for, and adds one byte to the buffer for each measurement.
pub run_program_total :
    {Rng : Type 0} (env : Env Rng) (program : List Instruction) (n : ℕ) (m : Machine Rng)
    → IsUniform env.draw
    → IsReady n m.state
    → FitsAll env n program
    → (m' : Machine Rng) × (run_program env m program ≡ some (true, m'))
      × IsReady (qubits_of env n program) m'.state
      × (length m'.buffer ≡ length m.buffer + results_of env program)
unfolding run_program
run_program_total env [] n m u r f = (m, refl, r, omega arith)
run_program_total env (i ∷ is) n m u r (f, fs) =
    let (m1, e, r1, len1) = step-Goes env i.bytecode i n m u r f in
    let (m2, e2, r2, len2) =
      run_program_total env is (qubits_after env n i.bytecode i) m1 u r1 fs in
    (m2, rw (e, e2), r2, omega (arith, len1, len2))

-- A program that begins by asking for n qubits, which can be allocated, and then fits them gives its
-- result with no state: `compute_result` returns true, with one byte for each measurement.
pub compute_result_total :
    {Rng : Type 0} (env : Env Rng) (n second : ℕ) (program : List Instruction) (buffer : List ℕ)
    (g : Generator Rng)
    → IsUniform env.draw
    → env.allocates n ≡ true
    → FitsAll env n program
    → (buffer' : List ℕ) × (g' : Generator Rng) × (compute_result env
          (record { bytecode = Operation.initialize; first = n; second = second } ∷ program)
          buffer
          g
        ≡ some (true, buffer', g'))
      × (length buffer' ≡ length buffer + results_of env program)
unfolding compute_result run_program step
compute_result_total env n second program buffer g u a f =
    let (t, e, r) =
      init_state-IsReady env.allocates env.uninitialised n empty_state empty_state-IsTableau a in
    let (m, e', r', len) =
      run_program_total env program n (record { state = t; buffer = buffer; generator = g }) u r
        f in
    (m.buffer, m.generator, rw (e, e'), len)
