-- ===== src/Actions/Table.antt =====
-- The table of the calls of actions.cpp, filled from the front.
use mathlib.Core.Path.{subst}
use sabot.Prelude.{
  ℕ, ◌+◌, ◌-◌, ◌*◌, ◌<◌, ◌≤◌, ◌≡◌, refl, ◌∙◌, ltb, leb, ◌==◌, true, false, Bool-cases, inl, inr,
  List, [], ◌∷◌, ◌++◌, get_or, length, arith,
}
use sabot.Loop.{scan, update_self, update_ne, scan-IsFirst}
use sabot.Actions.{Call, RegisteredCalls, with_call, actions_method_maximum}
use sabot.Actions.Find.{IsRow, AreRows}

module _ {F : Type 0} where
  -- The table holds these calls, and no name starts at a place after them.
  pub record IsTable (t : RegisteredCalls F) (calls : List (Call F)) : Type 0 where
    pub rows : AreRows t 0 calls
    pub unnamed : (id : ℕ) → length calls ≤ id → t.methods (id * actions_method_maximum) ≡ 0

  -- A call that can be registered: its name is in its field, does not start with a zero byte, and has
  -- at most 30 bytes, and there are at most 7 parameters.
  pub record IsCall (c : Call F) : Type 0 where
    pub size_pos : 0 < c.method_size
    pub size_le : c.method_size ≤ actions_method_maximum
    pub few : c.parameter_count < 8
    pub starts : 0 < get_or c.method 0 0

  rows_named :
      (t : RegisteredCalls F) (id : ℕ) (cs : List (Call F))
      → AreRows t id cs
      → (k : ℕ) → id ≤ k
      → k < id + length cs
      → 0 < t.methods (k * actions_method_maximum)
  rows_named t id [] h k le lt = absurd (omega arith)
  rows_named t id (c ∷ cs) (row, rows) k le lt = elim (Bool-cases (k == id)) [
    | inl here ↦
        let e : k ≡ id = ground arith in
        let named : 0 < t.methods (id * actions_method_maximum + 0) =
          omega (arith, row.bytes_eq 0 row.size_pos, row.starts) in
        let z : id * actions_method_maximum + 0 ≡ k * actions_method_maximum = omega arith in
        subst (λ p. 0 < t.methods p) z named
    | inr later ↦ rows_named t (id + 1) cs rows k (ground arith) (omega arith)
  ]

  -- The first free place is the one after the calls.
  pub free_place :
      (t : RegisteredCalls F) (calls : List (Call F))
      → IsTable t calls
      → length calls ≤ 16
      → scan 16 0 (λ i. t.methods (i * actions_method_maximum) == 0) ≡ length calls
  free_place t calls table few =
      let place = scan-IsFirst 16 0 (λ i. t.methods (i * actions_method_maximum) == 0) in
      let p = scan 16 0 (λ i. t.methods (i * actions_method_maximum) == 0) in
      let not_after : p ≤ length calls = elim (Bool-cases (ltb (length calls) p)) [
        | inl after ↦
            let busy = place.none_before (length calls) (omega arith) (ground arith) in
            let unnamed = table.unnamed (length calls) (omega arith) in absurd (ground arith)
        | inr fits ↦ ground arith
      ] in
      let not_before : length calls ≤ p = elim (Bool-cases (ltb p (length calls))) [
        | inl before ↦
            let free = place.passes (ground arith) in
            let named = rows_named t 0 calls table.rows p (omega arith) (ground arith) in
            absurd (ground arith)
        | inr fits ↦ ground arith
      ] in
      omega arith

  -- A row is not touched by a call that is written at a later place.
  IsRow-kept :
      (t : RegisteredCalls F) (id place : ℕ) (c new : Call F)
      → id < place
      → IsRow t id c
      → IsRow (with_call t place new) id c
  unfolding with_call
  IsRow-kept t id place c new lt row =
      let bound = row.size_le in
      record {
        size_pos = row.size_pos;
        size_le = row.size_le;
        few = row.few;
        starts = row.starts;
        attr_eq = update_ne t.methods_attr place id _ (λ e. absurd (omega arith)) ∙ row.attr_eq;
        bytes_eq = λ k h.
            let out : leb (place * actions_method_maximum) (id * actions_method_maximum + k)
                ≡ false =
              ground arith in
            rw out (row.bytes_eq k h);
        function_eq =
            update_ne t.functions place id _ (λ e. absurd (omega arith)) ∙ row.function_eq;
      }

  IsRow-written :
      (t : RegisteredCalls F) (place : ℕ) (new : Call F)
      → IsCall new
      → IsRow (with_call t place new) place new
  unfolding with_call
  IsRow-written t place new ok = record {
    size_pos = ok.size_pos;
    size_le = ok.size_le;
    few = ok.few;
    starts = ok.starts;
    attr_eq = update_self t.methods_attr place _;
    bytes_eq = λ k h.
        let from : leb (place * actions_method_maximum) (place * actions_method_maximum + k)
            ≡ true =
          ground arith in
        let to : ltb (place * actions_method_maximum + k)
              (place * actions_method_maximum + new.method_size)
            ≡ true =
          ground arith in
        let at : place * actions_method_maximum + k - place * actions_method_maximum ≡ k =
          omega arith in
        rw (from, to, at) refl;
    function_eq = update_self t.functions place _;
  }

  pub rows_extended :
      (t : RegisteredCalls F) (id place : ℕ) (cs : List (Call F)) (new : Call F)
      → IsCall new
      → id + length cs ≡ place
      → AreRows t id cs
      → AreRows (with_call t place new) id (cs ++ new ∷ [])
  unfolding with_call
  rows_extended t id place [] new ok e h =
      let here : place ≡ id = omega arith in
      (
        subst (λ i. IsRow (with_call t place new) i new) here (IsRow-written t place new ok),
        λ i le.
            update_ne t.methods_attr place i _ (λ same. absurd (omega arith)) ∙ h i (omega arith),
      )
  rows_extended t id place (c ∷ cs) new ok e (row, rows) = (
    IsRow-kept t id place c new (omega arith) row,
    rows_extended t (id + 1) place cs new ok (omega arith) rows,
  )
