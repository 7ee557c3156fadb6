-- ===== src/Actions/Process.antt =====
-- The processing functions of actions.cpp: they read the parameters of a request, call the universe, and
-- make a response of the result.
use sabot.Prelude.{ℕ, zero, suc, ◌%◌, Bool, true, false, if◌then◌else◌, List, [], ◌∷◌}
use sabot.Outcome.{Outcome, Exception, returned, threw, fault, spin, ◌>>=◌}
use sabot.Randnum.{
  Generator, RealDraw, Floating, get_uniform_integer, get_uniform_real, get_weighted_integer,
}
use sabot.Chp.Run.{Env}
use sabot.Net.Json.{RapidJson}
use sabot.Net.Request.{
  Request, parameter_unsigned_long, parameter_double, parameter_doubles, parameter_cstring,
}
use sabot.Net.Response.{
  Response, of_bool, of_unsigned_long, of_unsigned_longs, of_doubles, of_buffer,
}
use sabot.Universe.{Universe}
use sabot.Universe.Operations
use sabot.Actions.Calls.{Action}

-- How a processing function ends. `failed` is a runtime_error with its message.
pub data Reply : Type 0 where
  answered : Response → Reply
  failed : List ℕ → Reply
  escaped : Exception → Reply
  crashed spins : Reply

abbrev pub reply : Outcome Response → Reply
reply (returned r) = answered r
reply (threw e) = escaped e
reply fault = crashed
reply spin = spins

abbrev pub measure_failed : List ℕ
measure_failed =
    b'm' ∷ b'e' ∷ b'a' ∷ b's' ∷ b'u' ∷ b'r' ∷ b'e' ∷ b' ' ∷ b's' ∷ b't' ∷ b'a' ∷ b't' ∷ b'e' ∷ b' '
    ∷ b'r' ∷ b'e' ∷ b't' ∷ b'u' ∷ b'r' ∷ b'n' ∷ b'e' ∷ b'd' ∷ b' ' ∷ b'f' ∷ b'a' ∷ b'l' ∷ b's'
    ∷ b'e' ∷ []

abbrev pub compute_failed : List ℕ
compute_failed =
    b'c' ∷ b'o' ∷ b'm' ∷ b'p' ∷ b'u' ∷ b't' ∷ b'e' ∷ b' ' ∷ b'r' ∷ b'e' ∷ b's' ∷ b'u' ∷ b'l' ∷ b't'
    ∷ b' ' ∷ b'r' ∷ b'e' ∷ b't' ∷ b'u' ∷ b'r' ∷ b'n' ∷ b'e' ∷ b'd' ∷ b' ' ∷ b'f' ∷ b'a' ∷ b'l'
    ∷ b's' ∷ b'e' ∷ []

-- The result of a call, with what it leaves of the state, goes to a response.
abbrev pub respond {ℓ} : {A : Type ℓ} {S : Type 0} → (A → Response) → S × Outcome A → S × Reply
respond make (s, result) = (s, reply (result >>= λ a. returned (make a)))

-- The same for a result that is false where the call failed.
abbrev pub respond_checked :
    {A S : Type 0} → List ℕ → (A → Response) → S × Outcome (Bool × A) → S × Reply
respond_checked message make (s, returned (true, a)) = (s, answered (make a))
respond_checked message make (s, returned (false, a)) = (s, failed message)
respond_checked message make (s, threw e) = (s, escaped e)
respond_checked message make (s, fault) = (s, crashed)
respond_checked message make (s, spin) = (s, spins)

-- Parameters are read before the call, and leave the state as it is if they cannot be.
abbrev pub reading {ℓ} : {A : Type ℓ} {S : Type 0} → Outcome A → S → (A → S × Reply) → S × Reply
reading (returned a) s f = f a
reading (threw e) s f = (s, escaped e)
reading fault s f = (s, crashed)
reading spin s f = (s, spins)

-- A char parameter that is given as a number.
abbrev pub as_char : ℕ → ℕ
as_char n = n % 256

-- The results of a loop of `count` rounds that draw from the generator.
unfoldable pub collect :
    {A Rng : Type 0}
    → (Generator Rng → Outcome A × Generator Rng)
    → ℕ
    → Generator Rng
    → Outcome (List A) × Generator Rng
collect round zero g = (returned [], g)
collect round (suc count) g =
    let (x, g1) = round g in
    let (xs, g2) = collect round count g1 in
    let drawn = x >>= λ a. xs >>= λ rest. returned (a ∷ rest) in
    elim x [
      | returned a ↦ (drawn, g2)
      | threw e ↦ (threw e, g1)
      | fault ↦ (fault, g1)
      | spin ↦ (spin, g1)
    ]

-- A round that reads two bounds of the request and draws between them.
abbrev pub draw_between :
    {A Rng : Type 0}
    → (Generator Rng → A → A → A × Generator Rng)
    → Outcome A
    → Outcome A
    → Generator Rng
    → Outcome A × Generator Rng
draw_between draw (returned lower) (returned upper) g =
    let (x, g1) = draw g lower upper in (returned x, g1)
draw_between draw (returned lower) (threw e) g = (threw e, g)
draw_between draw (returned lower) fault g = (fault, g)
draw_between draw (returned lower) spin g = (spin, g)
draw_between draw (threw e) upper g = (threw e, g)
draw_between draw fault upper g = (fault, g)
draw_between draw spin upper g = (spin, g)

module _ {Value Real Rng : Type 0} (J : RapidJson Value Real) (env : Env Rng) (junk : ℕ)
    (arithmetic : Floating Real) (draw_real : RealDraw Real Rng) (new_array : ℕ → Bool) where
  -- `new` of an array of that length, by which the function goes on, or throws bad_alloc.
  abbrev drawing :
      {A : Type 0}
      → (List A → Response)
      → (Generator Rng → Outcome A × Generator Rng)
      → ℕ
      → Universe Rng
      → Universe Rng × Reply
  drawing make round count u =
      let (result, g) = collect round count u.generator in
      if new_array count
      then respond make (record u { generator = g }, result)
      else (u, escaped Exception.plain_exception)

  unfoldable pub process_get_uniform_integer : Request Value → Universe Rng → Universe Rng × Reply
  process_get_uniform_integer r u = reading (parameter_unsigned_long J r 0) u λ count.
      drawing (λ xs. of_unsigned_longs J xs false)
        (draw_between (get_uniform_integer env.draw) (parameter_unsigned_long J r 1)
          (parameter_unsigned_long J r 2))
        count u

  unfoldable pub process_get_uniform_real : Request Value → Universe Rng → Universe Rng × Reply
  process_get_uniform_real r u = reading (parameter_unsigned_long J r 0) u λ count.
      drawing (λ xs. of_doubles J xs false)
        (draw_between (get_uniform_real draw_real) (parameter_double J r 1)
          (parameter_double J r 2))
        count u

  unfoldable pub process_get_weighted_integer : Request Value → Universe Rng → Universe Rng × Reply
  process_get_weighted_integer r u = reading (parameter_unsigned_long J r 0) u λ count.
      reading (parameter_unsigned_long J r 1) u λ size.
        reading (parameter_doubles J r 2) u λ weights.
          drawing (λ xs. of_unsigned_longs J xs false)
            (λ g. get_weighted_integer arithmetic draw_real g weights size) count u

  unfoldable pub process_create_kernel : Request Value → Universe Rng → Universe Rng × Reply
  process_create_kernel r u =
      let (u', key) = Operations.create_kernel u in (u', answered (of_unsigned_long J key false))

  unfoldable pub process_delete_kernel : Request Value → Universe Rng → Universe Rng × Reply
  process_delete_kernel r u =
      reading (parameter_unsigned_long J r 0) u
        λ id. respond (λ b. of_bool J b false) (Operations.delete_kernel id u)

  unfoldable pub process_compile_macro : Request Value → Universe Rng → Universe Rng × Reply
  process_compile_macro r u = reading (parameter_unsigned_long J r 0) u λ id.
      reading (parameter_cstring J r 1) u λ dialect. reading (parameter_cstring J r 2) u λ text.
        reading (parameter_unsigned_long J r 3) u λ line.
          respond (λ key. of_unsigned_long J key false)
            (Operations.compile_macro env junk id dialect text (as_char line) u)

  unfoldable pub process_create_system : Request Value → Universe Rng → Universe Rng × Reply
  process_create_system r u = reading (parameter_cstring J r 0) u λ state_type.
      respond (λ key. of_unsigned_long J key false) (Operations.create_system state_type u)

  unfoldable pub process_delete_system : Request Value → Universe Rng → Universe Rng × Reply
  process_delete_system r u =
      reading (parameter_unsigned_long J r 0) u
        λ id. respond (λ b. of_bool J b false) (Operations.delete_system id u)

  unfoldable pub process_create_state : Request Value → Universe Rng → Universe Rng × Reply
  process_create_state r u = reading (parameter_unsigned_long J r 0) u λ id.
      reading (parameter_cstring J r 1) u λ dialect. reading (parameter_cstring J r 2) u λ text.
        reading (parameter_unsigned_long J r 3) u λ line.
          respond (λ key. of_unsigned_long J key false)
            (Operations.create_state env junk id dialect text (as_char line) u)

  unfoldable pub process_delete_state : Request Value → Universe Rng → Universe Rng × Reply
  process_delete_state r u = reading (parameter_unsigned_long J r 0) u λ id.
      reading (parameter_unsigned_long J r 1) u λ state_id.
        respond (λ b. of_bool J b false) (Operations.delete_state env junk id state_id u)

  unfoldable pub process_modify_state : Request Value → Universe Rng → Universe Rng × Reply
  process_modify_state r u = reading (parameter_unsigned_long J r 0) u λ id.
      reading (parameter_unsigned_long J r 1) u λ state_id.
        reading (parameter_cstring J r 2) u λ dialect. reading (parameter_cstring J r 3) u λ text.
          reading (parameter_unsigned_long J r 4) u λ line.
            respond (λ b. of_bool J b false)
              (Operations.modify_state env junk id state_id dialect text (as_char line) u)

  unfoldable pub process_measure_state : Request Value → Universe Rng → Universe Rng × Reply
  process_measure_state r u = reading (parameter_unsigned_long J r 0) u λ id.
      reading (parameter_unsigned_long J r 1) u λ state_id.
        reading (parameter_cstring J r 2) u λ dialect. reading (parameter_cstring J r 3) u λ text.
          reading (parameter_unsigned_long J r 4) u λ line.
            respond_checked measure_failed (λ buffer. of_buffer J buffer false)
              (Operations.measure_state env junk id state_id dialect text (as_char line) [] u)

  unfoldable pub process_compute_result : Request Value → Universe Rng → Universe Rng × Reply
  process_compute_result r u = reading (parameter_unsigned_long J r 0) u λ id.
      reading (parameter_cstring J r 1) u λ dialect. reading (parameter_cstring J r 2) u λ text.
        reading (parameter_unsigned_long J r 3) u λ line.
          respond_checked compute_failed (λ buffer. of_buffer J buffer false)
            (Operations.compute_result env junk id dialect text (as_char line) [] u)

  -- The function that a call's pointer names.
  unfoldable pub process : Action → Request Value → Universe Rng → Universe Rng × Reply
  process Action.get_uniform_integer = process_get_uniform_integer
  process Action.get_uniform_real = process_get_uniform_real
  process Action.get_weighted_integer = process_get_weighted_integer
  process Action.create_kernel = process_create_kernel
  process Action.delete_kernel = process_delete_kernel
  process Action.compile_macro = process_compile_macro
  process Action.create_system = process_create_system
  process Action.delete_system = process_delete_system
  process Action.create_state = process_create_state
  process Action.delete_state = process_delete_state
  process Action.modify_state = process_modify_state
  process Action.measure_state = process_measure_state
  process Action.compute_result = process_compute_result
