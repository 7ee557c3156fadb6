-- ===== src/Actions/Tests.antt =====
-- The theorems on the table of calls at concrete tables.
use sabot.Prelude.{ℕ, ◌<◌, ◌≤◌, ◌≡◌, ◌⊎◌, inr, refl, ◌++◌, [], ◌∷◌, length, arith}
use sabot.Outcome.{returned, threw, Exception}
use sabot.Actions.{
  actions_method_maximum, Call, RegisteredCalls, no_calls, attr_of, with_call, register_call,
  find_call,
}
use sabot.Actions.Find.{AreRows, first_match, find_call-first_match}
use sabot.Actions.Table.{IsCall, IsTable, rows_extended}
use sabot.Actions.Register.{register_call-IsTable}
use sabot.Actions.Calls.{no_calls-IsTable}

-- A call of two bytes with one parameter.
abbrev hi : Call ℕ
hi = record { method = b'h' ∷ b'i' ∷ []; method_size = 2; parameter_count = 1; function = 7 }

hi-IsCall : IsCall hi
hi-IsCall = record {
  size_pos = omega arith;
  size_le = omega arith;
  few = omega arith;
  starts = omega arith;
}

abbrev one_call : RegisteredCalls ℕ
one_call = with_call no_calls 0 hi

one_call-AreRows : AreRows one_call 0 (hi ∷ [])
one_call-AreRows = rows_extended no_calls 0 0 [] hi hi-IsCall refl no_calls-IsTable.rows

find_call-first_match_example :
    find_call one_call (b'h' ∷ b'o' ∷ []) 1 ≡ first_match (hi ∷ []) (b'h' ∷ b'o' ∷ []) (attr_of 2 1)
find_call-first_match_example =
    find_call-first_match one_call (hi ∷ []) (b'h' ∷ b'o' ∷ []) 1 one_call-AreRows (omega arith)

register_call-IsTable_example :
    (((length {A = Call ℕ} [] ≡ 16)
        ⊎ (hi.method_size ≡ 0)
        ⊎ (actions_method_maximum < hi.method_size))
      × (register_call no_calls hi ≡ threw Exception.logic_error))
    ⊎ ((length {A = Call ℕ} [] < 16)
        × (0 < hi.method_size)
        × (hi.method_size ≤ actions_method_maximum)
        × (u : RegisteredCalls ℕ) × (register_call no_calls hi ≡ returned u)
        × IsTable u ([] ++ hi ∷ []))
register_call-IsTable_example =
    register_call-IsTable no_calls [] hi no_calls-IsTable (omega arith) (omega arith)
      (inr (omega arith))
