-- ===== src/Actions/Register.antt =====
-- `register_call` of actions.cpp fills the table from the front.
use sabot.Prelude.{
  ◌+◌, ◌*◌, ◌<◌, ◌≤◌, ◌≡◌, ◌⊎◌, refl, ltb, leb, ◌==◌, if◌then◌else◌, true, false, Bool-cases, inl,
  inr, List, [], ◌∷◌, ◌++◌, get_or, length, length-append, arith,
}
use sabot.Outcome.{Exception, returned, threw}
use sabot.Actions.{Call, RegisteredCalls, with_call, register_call, actions_method_maximum}
use sabot.Actions.Table.{IsTable, IsCall, free_place, rows_extended}

module _ {F : Type 0} where
  -- A call that can be registered is put after the calls.
  pub register_call-fits :
      (t : RegisteredCalls F) (calls : List (Call F)) (new : Call F)
      → IsTable t calls
      → IsCall new
      → length calls < 16
      → (u : RegisteredCalls F) × (register_call t new ≡ returned u) × IsTable u (calls ++ new ∷ [])
  unfolding register_call with_call
  register_call-fits t calls new table ok few =
      let positive = ok.size_pos in
      let bound = ok.size_le in
      let sized : (new.method_size == 0) ≡ false = ground arith in
      let fits : ltb actions_method_maximum new.method_size ≡ false = ground arith in
      let room : leb 16 (length calls) ≡ false = ground arith in
      (
        with_call t (length calls) new,
        rw (free_place t calls table (omega arith), room, sized, fits) refl,
        record {
          rows = rows_extended t 0 (length calls) calls new ok (omega arith) table.rows;
          unnamed = λ id le.
              let count = length-append calls (new ∷ []) in
              let out : ltb (id * actions_method_maximum)
                    (length calls * actions_method_maximum + new.method_size)
                  ≡ false =
                ground arith in
              rw out
                (elim (Bool-cases
                  (leb (length calls * actions_method_maximum) (id * actions_method_maximum))) [
                    | inl later ↦ rw later (table.unnamed id (omega arith))
                    | inr before ↦ rw before (table.unnamed id (omega arith))
                  ]);
        },
      )

  register_call_full :
      (t : RegisteredCalls F) (calls : List (Call F)) (new : Call F)
      → IsTable t calls
      → length calls ≡ 16
      → register_call t new ≡ threw Exception.logic_error
  unfolding register_call
  register_call_full t calls new table full =
      let none_left : leb 16 (length calls) ≡ true = ground arith in
      rw (free_place t calls table (omega arith), none_left) refl

  register_call_unfit :
      (t : RegisteredCalls F) (calls : List (Call F)) (new : Call F)
      → IsTable t calls
      → length calls < 16
      → (new.method_size ≡ 0) ⊎ (actions_method_maximum < new.method_size)
      → register_call t new ≡ threw Exception.logic_error
  unfolding register_call
  register_call_unfit t calls new table few unfit =
      let room : leb 16 (length calls) ≡ false = ground arith in
      rw (free_place t calls table (omega arith), room) (refused unfit)
    where
      refused :
          (new.method_size ≡ 0) ⊎ (actions_method_maximum < new.method_size)
          → (if new.method_size == 0
              then threw Exception.logic_error
              else if ltb actions_method_maximum new.method_size
              then threw Exception.logic_error
              else returned (with_call t (length calls) new))
            ≡ threw Exception.logic_error
      refused (inl e) = rw e refl
      refused (inr large) =
          let out : ltb actions_method_maximum new.method_size ≡ true = ground arith in
          let sized : (new.method_size == 0) ≡ false = ground arith in rw (sized, out) refl

  -- On a table of at most 16 calls, for a call of at most 7 parameters whose name is empty or starts with
  -- another byte than zero: if the table is full, or the name has no byte or more than 30, a logic_error
  -- is thrown; else the call goes after the calls that the table holds, and changes none of them.
  pub register_call-IsTable :
      (t : RegisteredCalls F) (calls : List (Call F)) (new : Call F)
      → IsTable t calls
      → length calls ≤ 16
      → new.parameter_count < 8
      → (new.method_size ≡ 0) ⊎ (0 < get_or new.method 0 0)
      → (((length calls ≡ 16) ⊎ (new.method_size ≡ 0) ⊎ (actions_method_maximum < new.method_size))
          × (register_call t new ≡ threw Exception.logic_error))
        ⊎ ((length calls < 16)
            × (0 < new.method_size)
            × (new.method_size ≤ actions_method_maximum)
            × (u : RegisteredCalls F) × (register_call t new ≡ returned u)
            × IsTable u (calls ++ new ∷ []))
  register_call-IsTable t calls new table most few starts =
      elim (Bool-cases (leb 16 (length calls))) [
        | inl full ↦
            let all : length calls ≡ 16 = ground arith in
            inl (inl all, register_call_full t calls new table all)
        | inr room ↦
            let free : length calls < 16 = ground arith in
            elim (Bool-cases (new.method_size == 0)) [
              | inl empty ↦
                  let none_there : new.method_size ≡ 0 = ground arith in
                  inl (
                    inr (inl none_there),
                    register_call_unfit t calls new table free (inl none_there),
                  )
              | inr sized ↦ elim (Bool-cases (ltb actions_method_maximum new.method_size)) [
                | inl large ↦
                    let over : actions_method_maximum < new.method_size = ground arith in
                    inl (inr (inr over), register_call_unfit t calls new table free (inr over))
                | inr fits ↦
                    let ok = fitting sized fits starts in
                    let (u, done, extended) = register_call-fits t calls new table ok free in
                    inr (free, ok.size_pos, ok.size_le, u, done, extended)
              ]
            ]
      ]
    where
      fitting :
          (new.method_size == 0) ≡ false
          → ltb actions_method_maximum new.method_size ≡ false
          → (new.method_size ≡ 0) ⊎ (0 < get_or new.method 0 0)
          → IsCall new
      fitting sized fits (inl empty) = cc (rw empty at sized)
      fitting sized fits (inr named) = record {
        size_pos = ground arith;
        size_le = ground arith;
        few = few;
        starts = named;
      }
