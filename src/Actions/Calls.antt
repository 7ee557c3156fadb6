-- ===== src/Actions/Calls.antt =====
-- The calls that actions.cpp registers when the program starts.
use mathlib.Core.Path.{subst}
use sabot.Prelude.{
  ℕ, ◌≤◌, ◌+◌, ◌≡◌, refl, sym, ap, ◌∙◌, length-append, ◌++◌, List, [], ◌∷◌, length, some, arith,
}
use sabot.Outcome.{returned}
use sabot.Actions.{Call, RegisteredCalls, no_calls, attr_of, register_calls, find_call}
use sabot.Actions.Find.{first_match, find_call-first_match}
use sabot.Actions.Table.{IsCall, IsTable}
use sabot.Actions.Register.{register_call-fits}
use sabot.Language.Dialect.{same_bytes}

-- The processing functions, by the namespaces that they stand in.
pub data Action : Type 0 where
  get_uniform_integer get_uniform_real get_weighted_integer create_kernel delete_kernel
        compile_macro create_system delete_system create_state delete_state modify_state
        measure_state compute_result :
      Action

unfoldable pub method_of : Action → List ℕ
method_of Action.get_uniform_integer =
    b'g' ∷ b'e' ∷ b't' ∷ b'_' ∷ b'u' ∷ b'n' ∷ b'i' ∷ b'f' ∷ b'o' ∷ b'r' ∷ b'm' ∷ b'_' ∷ b'i' ∷ b'n'
    ∷ b't' ∷ b'e' ∷ b'g' ∷ b'e' ∷ b'r' ∷ []
method_of Action.get_uniform_real =
    b'g' ∷ b'e' ∷ b't' ∷ b'_' ∷ b'u' ∷ b'n' ∷ b'i' ∷ b'f' ∷ b'o' ∷ b'r' ∷ b'm' ∷ b'_' ∷ b'r' ∷ b'e'
    ∷ b'a' ∷ b'l' ∷ []
method_of Action.get_weighted_integer =
    b'g' ∷ b'e' ∷ b't' ∷ b'_' ∷ b'w' ∷ b'e' ∷ b'i' ∷ b'g' ∷ b'h' ∷ b't' ∷ b'e' ∷ b'd' ∷ b'_' ∷ b'i'
    ∷ b'n' ∷ b't' ∷ b'e' ∷ b'g' ∷ b'e' ∷ b'r' ∷ []
method_of Action.create_kernel =
    b'c' ∷ b'r' ∷ b'e' ∷ b'a' ∷ b't' ∷ b'e' ∷ b'_' ∷ b'k' ∷ b'e' ∷ b'r' ∷ b'n' ∷ b'e' ∷ b'l' ∷ []
method_of Action.delete_kernel =
    b'd' ∷ b'e' ∷ b'l' ∷ b'e' ∷ b't' ∷ b'e' ∷ b'_' ∷ b'k' ∷ b'e' ∷ b'r' ∷ b'n' ∷ b'e' ∷ b'l' ∷ []
method_of Action.compile_macro =
    b'c' ∷ b'o' ∷ b'm' ∷ b'p' ∷ b'i' ∷ b'l' ∷ b'e' ∷ b'_' ∷ b'm' ∷ b'a' ∷ b'c' ∷ b'r' ∷ b'o' ∷ []
method_of Action.create_system =
    b'c' ∷ b'r' ∷ b'e' ∷ b'a' ∷ b't' ∷ b'e' ∷ b'_' ∷ b's' ∷ b'y' ∷ b's' ∷ b't' ∷ b'e' ∷ b'm' ∷ []
method_of Action.delete_system =
    b'd' ∷ b'e' ∷ b'l' ∷ b'e' ∷ b't' ∷ b'e' ∷ b'_' ∷ b's' ∷ b'y' ∷ b's' ∷ b't' ∷ b'e' ∷ b'm' ∷ []
method_of Action.create_state =
    b'c' ∷ b'r' ∷ b'e' ∷ b'a' ∷ b't' ∷ b'e' ∷ b'_' ∷ b's' ∷ b't' ∷ b'a' ∷ b't' ∷ b'e' ∷ []
method_of Action.delete_state =
    b'd' ∷ b'e' ∷ b'l' ∷ b'e' ∷ b't' ∷ b'e' ∷ b'_' ∷ b's' ∷ b't' ∷ b'a' ∷ b't' ∷ b'e' ∷ []
method_of Action.modify_state =
    b'm' ∷ b'o' ∷ b'd' ∷ b'i' ∷ b'f' ∷ b'y' ∷ b'_' ∷ b's' ∷ b't' ∷ b'a' ∷ b't' ∷ b'e' ∷ []
method_of Action.measure_state =
    b'm' ∷ b'e' ∷ b'a' ∷ b's' ∷ b'u' ∷ b'r' ∷ b'e' ∷ b'_' ∷ b's' ∷ b't' ∷ b'a' ∷ b't' ∷ b'e' ∷ []
method_of Action.compute_result =
    b'c' ∷ b'o' ∷ b'm' ∷ b'p' ∷ b'u' ∷ b't' ∷ b'e' ∷ b'_' ∷ b'r' ∷ b'e' ∷ b's' ∷ b'u' ∷ b'l' ∷ b't'
    ∷ []

unfoldable pub method_size_of : Action → ℕ
method_size_of Action.get_uniform_integer = 19
method_size_of Action.get_uniform_real = 16
method_size_of Action.get_weighted_integer = 20
method_size_of Action.create_kernel = 13
method_size_of Action.delete_kernel = 13
method_size_of Action.compile_macro = 13
method_size_of Action.create_system = 13
method_size_of Action.delete_system = 13
method_size_of Action.create_state = 12
method_size_of Action.delete_state = 12
method_size_of Action.modify_state = 12
method_size_of Action.measure_state = 13
method_size_of Action.compute_result = 14

unfoldable pub parameter_count_of : Action → ℕ
parameter_count_of Action.get_uniform_integer = 3
parameter_count_of Action.get_uniform_real = 3
parameter_count_of Action.get_weighted_integer = 3
parameter_count_of Action.create_kernel = 0
parameter_count_of Action.delete_kernel = 1
parameter_count_of Action.compile_macro = 4
parameter_count_of Action.create_system = 1
parameter_count_of Action.delete_system = 1
parameter_count_of Action.create_state = 4
parameter_count_of Action.delete_state = 2
parameter_count_of Action.modify_state = 5
parameter_count_of Action.measure_state = 5
parameter_count_of Action.compute_result = 4

unfoldable pub self_register : Action → Call Action
self_register a = record {
  method = method_of a;
  method_size = method_size_of a;
  parameter_count = parameter_count_of a;
  function = a;
}

-- In the order of their definitions.
unfoldable pub start_calls : List (Call Action)
start_calls =
    self_register Action.get_uniform_integer
    ∷ self_register Action.get_uniform_real
    ∷ self_register Action.get_weighted_integer
    ∷ self_register Action.create_kernel
    ∷ self_register Action.delete_kernel
    ∷ self_register Action.compile_macro
    ∷ self_register Action.create_system
    ∷ self_register Action.delete_system
    ∷ self_register Action.create_state
    ∷ self_register Action.delete_state
    ∷ self_register Action.modify_state
    ∷ self_register Action.measure_state
    ∷ self_register Action.compute_result
    ∷ []

self_register-IsCall : (a : Action) → IsCall (self_register a)
unfolding self_register method_of method_size_of parameter_count_of
self_register-IsCall a = record {
  size_pos = ground arith;
  size_le = ground arith;
  few = ground arith;
  starts = ground arith;
}

abbrev pub AllCalls : {F : Type 0} → List (Call F) → Type 0
AllCalls [] = Unit {0}
AllCalls (c ∷ cs) = IsCall c × AllCalls cs

append_one :
    {F : Type 0} (xs : List (Call F)) (c : Call F) (cs : List (Call F))
    → (xs ++ c ∷ []) ++ cs ≡ xs ++ c ∷ cs
append_one [] c cs = refl
append_one (x ∷ xs) c cs = ap (λ r. x ∷ r) (append_one xs c cs)

-- Calls that can be registered, 16 at most with those that the table holds, are all registered, in
-- their order.
pub register_calls-IsTable :
    {F : Type 0} (t : RegisteredCalls F) (calls new : List (Call F))
    → IsTable t calls
    → AllCalls new
    → length calls + length new ≤ 16
    → (u : RegisteredCalls F) × (register_calls t new ≡ returned u) × IsTable u (calls ++ new)
unfolding register_calls
register_calls-IsTable t calls [] table ok few =
    (t, refl, subst (λ l. IsTable t l) (sym (append_nil calls)) table)
  where
    append_nil : {F : Type 0} (xs : List (Call F)) → xs ++ [] ≡ xs
    append_nil [] = refl
    append_nil (x ∷ xs) = ap (λ r. x ∷ r) (append_nil xs)
register_calls-IsTable t calls (c ∷ cs) table (ok, oks) few =
    let (u, e, table') = register_call-fits t calls c table ok (omega arith) in
    let (v, e', table'') =
      register_calls-IsTable u (calls ++ c ∷ []) cs table' oks
        (omega (arith, length-append calls (c ∷ []))) in
    (v, rw (e, e') refl, subst (λ l. IsTable v l) (append_one calls c cs) table'')

pub no_calls-IsTable : {F : Type 0} → IsTable (no_calls {F = F}) []
unfolding no_calls
no_calls-IsTable = record { rows = λ i le. refl; unnamed = λ id le. refl }

first_match_self :
    (a : Action)
    → first_match start_calls (method_of a) (attr_of (length (method_of a)) (parameter_count_of a))
      ≡ returned (some a)
unfolding first_match start_calls self_register method_of method_size_of parameter_count_of attr_of
    same_bytes
first_match_self Action.get_uniform_integer = refl
first_match_self Action.get_uniform_real = refl
first_match_self Action.get_weighted_integer = refl
first_match_self Action.create_kernel = refl
first_match_self Action.delete_kernel = refl
first_match_self Action.compile_macro = refl
first_match_self Action.create_system = refl
first_match_self Action.delete_system = refl
first_match_self Action.create_state = refl
first_match_self Action.delete_state = refl
first_match_self Action.modify_state = refl
first_match_self Action.measure_state = refl
first_match_self Action.compute_result = refl

start_calls-AllCalls : AllCalls start_calls
unfolding start_calls
start_calls-AllCalls = (
  self_register-IsCall _,
  (
    self_register-IsCall _,
    (
      self_register-IsCall _,
      (
        self_register-IsCall _,
        (
          self_register-IsCall _,
          (
            self_register-IsCall _,
            (
              self_register-IsCall _,
              (
                self_register-IsCall _,
                (
                  self_register-IsCall _,
                  (
                    self_register-IsCall _,
                    (
                      self_register-IsCall _,
                      (self_register-IsCall _, (self_register-IsCall _, tt)),
                    ),
                  ),
                ),
              ),
            ),
          ),
        ),
      ),
    ),
  ),
)

-- When the program starts, the 13 calls are all registered, and a request with the name of one of
-- them and as many parameters as it takes is routed to that call's function.
pub start_calls-found :
    (t : RegisteredCalls Action) × (register_calls no_calls start_calls ≡ returned t)
    × ((a : Action) → find_call t (method_of a) (parameter_count_of a) ≡ returned (some a))
unfolding start_calls
start_calls-found =
    let (t, e, table) =
      register_calls-IsTable no_calls [] start_calls no_calls-IsTable start_calls-AllCalls
        (omega arith) in
    (
      t,
      e,
      λ a.
          find_call-first_match t start_calls (method_of a) (parameter_count_of a) table.rows
            (omega arith)
          ∙ first_match_self a,
    )

-- The table that the program starts with is searched for its 13 calls in order.
pub start_calls-first_match :
    (t : RegisteredCalls Action) × (register_calls no_calls start_calls ≡ returned t)
    × ((name : List ℕ) (count : ℕ)
        → find_call t name count ≡ first_match start_calls name (attr_of (length name) count))
unfolding start_calls
start_calls-first_match =
    let (t, e, table) =
      register_calls-IsTable no_calls [] start_calls no_calls-IsTable start_calls-AllCalls
        (omega arith) in
    (t, e, λ name count. find_call-first_match t start_calls name count table.rows (omega arith))
