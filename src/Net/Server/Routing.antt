-- ===== src/Net/Server/Routing.antt =====
-- How the server of net/server.cpp answers the message of a client's request.
use sabot.Prelude.{
  ℕ, ◌<◌, ◌≡◌, ◌≢◌, refl, ◌∙◌, arith, ◌==◌, Bool, true, false, some, List, [], ◌∷◌, ◌++◌, length,
}
use sabot.Outcome.{Outcome, returned}
use sabot.Randnum.{Floating, RealDraw}
use sabot.Chp.Run.{Env}
use sabot.Net.Json.{RapidJson, IsJson, HasScalars}
use sabot.Net.Request.{make_request}
use sabot.Net.Request.Client.{
  request_document, request_message, IsWritten, method-request, parameter_count-request,
}
use sabot.Net.Response.{of_cstring}
use sabot.Universe.{Universe}
use sabot.Actions.{RegisteredCalls, no_calls, register_calls, find_call}
use sabot.Actions.Calls.{Action, method_of, parameter_count_of, start_calls, start_calls-found}
use sabot.Actions.Process.{crashed, reply, process}
use sabot.Net.Server.Refused.{unknown-find_call}
use sabot.Net.Server.{
  type_not_found, missing_terminator, last_byte, call_of, caught, route_request, answer_message,
}

same_table : {A : Type 0} {o : Outcome A} {t t' : A} → o ≡ returned t → o ≡ returned t' → t ≡ t'
same_table e e' = cc

-- The calls of the table that the program starts with.
start_table-found :
    (t : RegisteredCalls Action)
    → register_calls no_calls start_calls ≡ returned t
    → (a : Action) → find_call t (method_of a) (parameter_count_of a) ≡ returned (some a)
start_table-found t started a =
    let (t', made, found) = start_calls-found in rw (same_table started made) (found a)

last_byte-append : (bs : List ℕ) (b : ℕ) → last_byte (bs ++ b ∷ []) ≡ some b
last_byte-append [] b = refl
last_byte-append (c ∷ []) b = refl
last_byte-append (c ∷ d ∷ bs) b = last_byte-append (d ∷ bs) b

module _ {Value Real Rng : Type 0} (J : RapidJson Value Real) (env : Env Rng) (junk : ℕ)
    (arithmetic : Floating Real) (draw_real : RealDraw Real Rng) (new_array : ℕ → Bool) where
  answer-route :
      (t : RegisteredCalls Action) (text : List ℕ) (u : Universe Rng)
      → answer_message J env junk arithmetic draw_real new_array t (text ++ 0 ∷ []) u
        ≡ route_request J env junk arithmetic draw_real new_array t
            (make_request J (text ++ 0 ∷ []))
            u
  unfolding answer_message
  answer-route t text u = rw (last_byte-append text 0) refl

  -- The message of a request for one of the calls, with as many parameters as it takes, is answered by
  -- that call's function; only a runtime_error becomes a response.
  pub answer_message-process :
      (t : RegisteredCalls Action) (a : Action) (values : List Value) (u : Universe Rng)
      → register_calls no_calls start_calls ≡ returned t
      → length values ≡ parameter_count_of a
      → IsJson J
      → HasScalars J
      → IsWritten J (request_document J (method_of a) values)
      → let message = request_message J (method_of a) values in
        answer_message J env junk arithmetic draw_real new_array t message u
        ≡ caught J env junk arithmetic draw_real new_array
            (process J env junk arithmetic draw_real new_array a (make_request J message) u)
  unfolding route_request call_of
  answer_message-process t a values u started count law scalars written =
      answer-route t (J.write (request_document J (method_of a) values)) u
      ∙ rw
          (
            method-request J law scalars (method_of a) values written,
            parameter_count-request J law scalars (method_of a) values written,
            count,
            start_table-found t started a,
          )
          refl

  -- Messages that no call answers leave the universe as it is. One that ends in another byte than the
  -- terminator is answered by the error "missing null terminator". A request is answered by the error
  -- "type not found by name" if its name has less than 32 bytes, it has less than 8 parameters, and no
  -- call with that name takes as many: one of them is get_weighted_integer with the two parameters that
  -- README.md gives it. For an empty message the byte before its data is read.
  pub answer_message-refused :
      (t : RegisteredCalls Action) (text : List ℕ) (b : ℕ) (name : List ℕ) (values : List Value)
      (u : Universe Rng)
      → register_calls no_calls start_calls ≡ returned t
      → 0 < b
      → length name < 32
      → length values < 8
      → ((a : Action) → name ≡ method_of a → length values ≢ parameter_count_of a)
      → IsJson J
      → HasScalars J
      → IsWritten J (request_document J name values)
      → let answer = answer_message J env junk arithmetic draw_real new_array t in
        (answer [] u ≡ (u, crashed))
        × (answer (text ++ b ∷ []) u ≡ (u, reply (of_cstring J (some missing_terminator) true)))
        × (answer (request_message J name values) u
            ≡ (u, reply (of_cstring J (some type_not_found) true)))
  unfolding answer_message route_request call_of
  answer_message-refused t text b name values u started pos short few other law scalars written =
      let open_end : (b == 0) ≡ false = ground arith in
      (
        refl,
        rw (last_byte-append text b, open_end) refl,
        rw
            (
              last_byte-append (J.write (request_document J name values)) 0,
              method-request J law scalars name values written,
              parameter_count-request J law scalars name values written,
              unknown-find_call t name (length values) started short few other,
            )
            refl,
      )
