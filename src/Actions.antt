-- ===== src/Actions.antt =====
-- actions.cpp: the table of the calls that can be made, 16 at most, and how a request finds its call.
-- `F` is the type of the functions that are called. Without SABOT_THROW.
pub mod Words
pub mod Find
pub mod Table
pub mod Register
pub mod Calls
pub mod Process
mod Tests
use sabot.Prelude.{
  ℕ, zero, suc, ◌+◌, ◌-◌, ◌*◌, ◌/◌, ◌%◌, ◌^◌, ltb, leb, ◌==◌, not, ◌&&◌, Bool, true, false,
  if◌then◌else◌, Option, none, some, List, [], ◌∷◌, ◌++◌, take, drop, get_or, get_elem?, length,
  replicate, set,
}
use sabot.Outcome.{Outcome, Exception, returned, threw, ◌>>=◌}
use sabot.Loop.{scan, update}
use sabot.Language.Dialect.{same_bytes}

abbrev pub actions_maximum : ℕ
actions_maximum = 16

abbrev pub actions_method_maximum : ℕ
actions_method_maximum = 30

pub record Call {ℓ} (F : Type ℓ) : Type ℓ where
  pub method : List ℕ
  pub method_size : ℕ
  pub parameter_count : ℕ
  pub function : F

-- The three arrays; a function that has not been written is a null pointer.
pub record RegisteredCalls {ℓ} (F : Type ℓ) : Type ℓ where
  pub functions : ℕ → Option F
  pub methods_attr : ℕ → ℕ
  pub methods : ℕ → ℕ

-- item.methodSize + (item.parameterCount << 5), as a byte.
unfoldable pub attr_of : ℕ → ℕ → ℕ
attr_of method_size parameter_count = (method_size + parameter_count * 32) % 256

-- `count` bytes of the attributes from `i` on, read as a little-endian word.
unfoldable pub attr_word : (ℕ → ℕ) → ℕ → ℕ → ℕ
attr_word attr i zero = 0
attr_word attr i (suc count) = attr i + 256 * attr_word attr (i + 1) count

-- `count` bytes of the methods from `offset` on.
unfoldable pub method_bytes : (ℕ → ℕ) → ℕ → ℕ → List ℕ
method_bytes methods offset zero = []
method_bytes methods offset (suc count) = methods offset ∷ method_bytes methods (offset + 1) count

module _ {ℓ} {F : Type ℓ} where
  unfoldable pub no_calls : RegisteredCalls F
  no_calls = record { functions = λ id. none; methods_attr = λ id. 0; methods = λ p. 0 }

  -- The table with a call written at `id`.
  unfoldable pub with_call : RegisteredCalls F → ℕ → Call F → RegisteredCalls F
  with_call t id item = record {
    functions = update t.functions id (some item.function);
    methods_attr = update t.methods_attr id (attr_of item.method_size item.parameter_count);
    methods = λ p.
        if leb (id * actions_method_maximum) p
          && ltb p (id * actions_method_maximum + item.method_size)
        then get_or item.method (p - id * actions_method_maximum) 0
        else t.methods p;
  }

  unfoldable pub register_call : RegisteredCalls F → Call F → Outcome (RegisteredCalls F)
  register_call t item =
      let id = scan actions_maximum 0 (λ i. t.methods (i * actions_method_maximum) == 0) in
      if leb actions_maximum id
      then threw Exception.logic_error
      else if item.method_size == 0
      then threw Exception.logic_error
      else if ltb actions_method_maximum item.method_size
      then threw Exception.logic_error
      else returned (with_call t id item)

  -- The calls that are registered when the program starts.
  unfoldable pub register_calls : RegisteredCalls F → List (Call F) → Outcome (RegisteredCalls F)
  register_calls t [] = returned t
  register_calls t (c ∷ cs) = register_call t c >>= λ t'. register_calls t' cs

  -- The loop over the calls i+j of a word that holds 8 attributes; `none` goes on to the next word.
  unfoldable pub find_in_word :
      RegisteredCalls F → ℕ → List ℕ → ℕ → ℕ → ℕ → ℕ → Option (Outcome (Option F))
  find_in_word t attr method word i j zero = none
  find_in_word t attr method word i j (suc left) =
      let shifted = word / 2 ^ (8 * j) in
      let next = find_in_word t attr method word i (j + 1) left in
      if shifted == 0
      then some (threw Exception.runtime_error)
      else if shifted % 256 == attr
          && same_bytes (attr % 32) method
              (method_bytes t.methods ((i + j) * actions_method_maximum) (attr % 32))
      then some (returned (t.functions (i + j)))
      else next

  abbrev pub found_or : Option (Outcome (Option F)) → Outcome (Option F) → Outcome (Option F)
  found_or none later = later
  found_or (some result) later = result

  -- The loop over the words.
  unfoldable pub find_from : RegisteredCalls F → ℕ → List ℕ → ℕ → ℕ → Outcome (Option F)
  find_from t attr method i zero = threw Exception.runtime_error
  find_from t attr method i (suc words) =
      found_or (find_in_word t attr method (attr_word t.methods_attr i 8) i 0 8)
        (find_from t attr method (i + 8) words)

  -- The function of the call that the request is routed to. A request is its method and the number
  -- of its parameters; `attr_of` is also `request::method_attr`.
  unfoldable pub find_call : RegisteredCalls F → List ℕ → ℕ → Outcome (Option F)
  find_call t method parameter_count =
      find_from t (attr_of (length method) parameter_count) method 0 2
