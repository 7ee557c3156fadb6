-- ===== src/Net/Server.antt =====
-- net/server.hpp and the body of the loop of `work` in net/server.cpp: how a message is answered. The
-- listening and the threads are Lifecycle.
pub mod Routing
pub mod Refused
pub mod Compute
mod Tests
mod MessageTests
pub mod Lifecycle
use sabot.Prelude.{ℕ, ◌==◌, Bool, true, false, if◌then◌else◌, Option, none, some, List, [], ◌∷◌}
use sabot.Outcome.{Outcome, Exception, returned, threw, fault, spin, ◌>>=◌}
use sabot.Randnum.{Floating, RealDraw}
use sabot.Chp.Run.{Env}
use sabot.Net.Json.{RapidJson}
use sabot.Net.Request.{Request, make_request, method, parameter_count}
use sabot.Net.Response.{of_cstring}
use sabot.Universe.{Universe}
use sabot.Actions.{RegisteredCalls, find_call}
use sabot.Actions.Calls.{Action}
use sabot.Actions.Process.{Reply, answered, failed, escaped, crashed, spins, reply, process}

-- err_msg::_tpntfnd
abbrev pub type_not_found : List ℕ
type_not_found =
    b't' ∷ b'y' ∷ b'p' ∷ b'e' ∷ b' ' ∷ b'n' ∷ b'o' ∷ b't' ∷ b' ' ∷ b'f' ∷ b'o' ∷ b'u' ∷ b'n' ∷ b'd'
    ∷ b' ' ∷ b'b' ∷ b'y' ∷ b' ' ∷ b'n' ∷ b'a' ∷ b'm' ∷ b'e' ∷ []

-- err_msg::_mnltrmr
abbrev pub missing_terminator : List ℕ
missing_terminator =
    b'm' ∷ b'i' ∷ b's' ∷ b's' ∷ b'i' ∷ b'n' ∷ b'g' ∷ b' ' ∷ b'n' ∷ b'u' ∷ b'l' ∷ b'l' ∷ b' ' ∷ b't'
    ∷ b'e' ∷ b'r' ∷ b'm' ∷ b'i' ∷ b'n' ∷ b'a' ∷ b't' ∷ b'o' ∷ b'r' ∷ []

abbrev pub last_byte : List ℕ → Option ℕ
last_byte [] = none
last_byte (b ∷ []) = some b
last_byte (b ∷ c ∷ bs) = last_byte (c ∷ bs)

-- The call that a request is routed to: `find_call` up to the call of the function.
unfoldable pub call_of :
    {Value Real : Type 0}
    → RapidJson Value Real
    → RegisteredCalls Action
    → Request Value
    → Outcome (Option Action)
call_of J t r = method J r >>= λ name. parameter_count J r >>= λ count. find_call t name count

module _ {Value Real Rng : Type 0} (J : RapidJson Value Real) (env : Env Rng) (junk : ℕ)
    (arithmetic : Floating Real) (draw_real : RealDraw Real Rng) (new_array : ℕ → Bool) where
  -- catch(const std::runtime_error& e)
  abbrev pub caught : Universe Rng × Reply → Universe Rng × Reply
  caught (u, failed what) = (u, reply (of_cstring J (some what) true))
  caught (u, answered r) = (u, answered r)
  caught (u, escaped e) = (u, escaped e)
  caught (u, crashed) = (u, crashed)
  caught (u, spins) = (u, spins)

  -- A null pointer for the function is a crash; the one runtime_error of the search is `_tpntfnd`.
  abbrev pub called : Request Value → Universe Rng → Outcome (Option Action) → Universe Rng × Reply
  called r u (returned (some a)) = process J env junk arithmetic draw_real new_array a r u
  called r u (returned none) = (u, crashed)
  called r u (threw Exception.runtime_error) = (u, failed type_not_found)
  called r u (threw e) = (u, escaped e)
  called r u fault = (u, crashed)
  called r u spin = (u, spins)

  unfoldable pub route_request :
      RegisteredCalls Action → Request Value → Universe Rng → Universe Rng × Reply
  route_request t r u = caught (called r u (call_of J t r))

  -- The answer to a message. Of an empty one the byte before its data is read.
  unfoldable pub answer_message :
      RegisteredCalls Action → List ℕ → Universe Rng → Universe Rng × Reply
  answer_message t message u = of_last (last_byte message)
    where
      of_last : Option ℕ → Universe Rng × Reply
      of_last none = (u, crashed)
      of_last (some b) =
          if b == 0
          then route_request t (make_request J message) u
          else (u, reply (of_cstring J (some missing_terminator) true))
