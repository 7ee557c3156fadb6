-- ===== src/Actions/Find.antt =====
-- `find_call` of actions.cpp is a search of the registered calls in order, though it reads eight
-- attributes at a time and stops at a word that has no more of them.
use mathlib.Core.Path.{subst}
use sabot.Prelude.{
  ℕ, zero, suc, ◌+◌, ◌-◌, ◌*◌, ◌/◌, ◌%◌, ◌^◌, ◌<◌, ◌≤◌, ◌≡◌, refl, sym, ap, ◌∙◌, ◌==◌, ◌&&◌,
  Bool-cases, inl, inr, if◌then◌else◌, Option, some, List, [], ◌∷◌, drop, get_or, length,
  length-drop, arith,
}
use sabot.Outcome.{Outcome, Exception, returned, threw}
use sabot.Language.Dialect.{same_bytes}
use sabot.Actions.{
  Call, RegisteredCalls, attr_of, attr_word, find_in_word, found_or, find_from, find_call,
  actions_method_maximum,
}
use sabot.Actions.Words.{same_method_bytes, shifts-attr_word, word_nonzero, word_zero}

module _ {F : Type 0} where
  -- The call at one place of the table. Its name fits its field and does not start with a zero byte.
  pub record IsRow (t : RegisteredCalls F) (id : ℕ) (c : Call F) : Type 0 where
    pub size_pos : 0 < c.method_size
    pub size_le : c.method_size ≤ actions_method_maximum
    pub few : c.parameter_count < 8
    pub starts : 0 < get_or c.method 0 0
    pub attr_eq : t.methods_attr id ≡ attr_of c.method_size c.parameter_count
    pub bytes_eq :
        (k : ℕ)
        → k < c.method_size
        → t.methods (id * actions_method_maximum + k) ≡ get_or c.method k 0
    pub function_eq : t.functions id ≡ some c.function

  -- The calls from the place `id` on; no attribute follows them.
  abbrev pub AreRows : RegisteredCalls F → ℕ → List (Call F) → Type 0
  AreRows t id [] = (i : ℕ) → id ≤ i → t.methods_attr i ≡ 0
  AreRows t id (c ∷ cs) = IsRow t id c × AreRows t (id + 1) cs

  -- Search in order.
  unfoldable pub first_match : List (Call F) → List ℕ → ℕ → Outcome (Option F)
  first_match [] method attr = threw Exception.runtime_error
  first_match (c ∷ cs) method attr =
      if attr_of c.method_size c.parameter_count == attr && same_bytes (attr % 32) method c.method
      then returned (some c.function)
      else first_match cs method attr

  small_attr :
      (t : RegisteredCalls F) (id : ℕ) (c : Call F)
      → IsRow t id c
      → (t.methods_attr id ≡ c.method_size + c.parameter_count * 32)
        × (0 < t.methods_attr id)
        × (t.methods_attr id < 256)
        × (t.methods_attr id % 32 ≡ c.method_size)
  unfolding attr_of
  small_attr t id c row =
      let e = row.attr_eq in
      let a = row.size_pos in
      let b = row.size_le in let d = row.few in (omega arith, omega arith, omega arith, omega arith)

  find_in_word_lem :
      (t : RegisteredCalls F) (attr : ℕ) (method : List ℕ) (i : ℕ) (word j left : ℕ)
      (cs : List (Call F))
      → ((k : ℕ) → t.methods_attr k < 256)
      → j + left ≡ 8
      → AreRows t (i + j) cs
      → found_or
          (find_in_word t attr method (attr_word t.methods_attr i 8) i j left)
          (first_match (drop left cs) method attr)
        ≡ first_match cs method attr
  unfolding find_in_word first_match
  find_in_word_lem t attr method i word j zero cs small sum rows = refl
  find_in_word_lem t attr method i word j (suc left) [] small sum rows =
      let shifted : attr_word t.methods_attr i 8 / 2 ^ (8 * j) ≡ 0 =
        ap (λ c. attr_word t.methods_attr i c / 2 ^ (8 * j)) (sym sum)
        ∙ shifts-attr_word t.methods_attr i j (suc left) small
        ∙ word_zero t.methods_attr (i + j) (suc left) rows in
      rw shifted refl
  find_in_word_lem t attr method i word j (suc left) (c ∷ cs) small sum (row, rows) =
      let shifted : attr_word t.methods_attr i 8 / 2 ^ (8 * j)
          ≡ attr_word t.methods_attr (i + j) (suc left) =
        ap (λ n. attr_word t.methods_attr i n / 2 ^ (8 * j)) (sym sum)
        ∙ shifts-attr_word t.methods_attr i j (suc left) small in
      let (exact, pos, below, size) = small_attr t (i + j) c row in
      let (nonzero, low) = word_nonzero t.methods_attr (i + j) left pos below in
      let next_id : i + j + 1 ≡ i + (j + 1) = omega arith in
      let next =
        find_in_word_lem t attr method i word (j + 1) left cs small (omega arith)
          (subst (λ k. AreRows t k cs) next_id rows) in
      rw (shifted, nonzero, low, row.attr_eq)
        (elim (Bool-cases (attr_of c.method_size c.parameter_count == attr)) [
          | inl same ↦
              let size_eq : attr % 32 ≡ c.method_size = (let e = row.attr_eq in ground arith) in
              let bytes =
                same_method_bytes t.methods ((i + j) * actions_method_maximum) (attr % 32) method
                  c.method (λ k lt. row.bytes_eq k (omega arith)) in
              rw (same, bytes)
                (elim (Bool-cases (same_bytes (attr % 32) method c.method)) [
                  | inl hit ↦ rw (hit, row.function_eq) refl
                  | inr miss ↦ rw miss next
                ])
          | inr differs ↦ rw differs next
        ])

  rows_small :
      (t : RegisteredCalls F) (id : ℕ) (cs : List (Call F))
      → AreRows t id cs
      → (k : ℕ) → id ≤ k
      → t.methods_attr k < 256
  rows_small t id [] h k le = omega (arith, h k le)
  rows_small t id (c ∷ cs) (row, rows) k le = elim (Bool-cases (k == id)) [
    | inl here ↦
        let e : k ≡ id = ground arith in
        subst (λ i. t.methods_attr i < 256) (sym e) (small_attr t id c row).2
    | inr later ↦ rows_small t (id + 1) cs rows k (ground arith)
  ]

  drop-AreRows :
      (t : RegisteredCalls F) (n id : ℕ) (cs : List (Call F))
      → AreRows t id cs
      → AreRows t (id + n) (drop n cs)
  drop-AreRows t zero id cs h = subst (λ i. AreRows t i cs) (omega arith) h
  drop-AreRows t (suc n) id [] h = λ i le. h i (omega arith)
  drop-AreRows t (suc n) id (c ∷ cs) (row, rows) =
      subst (λ i. AreRows t i (drop n cs)) (omega arith) (drop-AreRows t n (id + 1) cs rows)

  drop_all : (n : ℕ) (cs : List (Call F)) → length cs ≤ n → drop n cs ≡ []
  drop_all zero [] h = refl
  drop_all zero (c ∷ cs) h = elim h [ ]
  drop_all (suc n) [] h = refl
  drop_all (suc n) (c ∷ cs) h = drop_all n cs (omega arith)

  length-drop_calls : (n : ℕ) (cs : List (Call F)) → length (drop n cs) ≡ length cs - n
  length-drop_calls n cs = length-drop n cs

  nothing_left :
      (method : List ℕ) (attr : ℕ) (left : List (Call F))
      → left ≡ []
      → first_match left method attr ≡ threw Exception.runtime_error
  unfolding first_match
  nothing_left method attr left e = rw e refl

  -- With at most 16 calls in the table, finding a call is a search of the calls in order for the
  -- first with the request's attribute and with the name that the attribute's length says; if there
  -- is none, a runtime_error is thrown.
  pub find_call-first_match :
      (t : RegisteredCalls F) (calls : List (Call F)) (method : List ℕ) (parameter_count : ℕ)
      → AreRows t 0 calls
      → length calls ≤ 16
      → find_call t method parameter_count
        ≡ first_match calls method (attr_of (length method) parameter_count)
  unfolding find_call find_from
  find_call-first_match t calls method parameter_count rows few =
      let attr = attr_of (length method) parameter_count in
      let small : (k : ℕ) → t.methods_attr k < 256 =
        λ k. rows_small t 0 calls rows k (omega arith) in
      let e8 : 0 + 8 ≡ 8 + 0 = omega arith in
      let rows8 : AreRows t (0 + 8 + 0) (drop 8 calls) =
        subst (λ i. AreRows t i (drop 8 calls)) (omega arith) (drop-AreRows t 8 0 calls rows) in
      let rows0 : AreRows t (0 + 0) calls = subst (λ i. AreRows t i calls) (omega arith) rows in
      let none_left : drop 8 (drop 8 calls) ≡ [] =
        drop_all 8 (drop 8 calls) (omega (arith, length-drop_calls 8 calls)) in
      let second =
        find_in_word_lem t attr method (0 + 8) 0 0 8 (drop 8 calls) small (omega arith) rows8 in
      let first = find_in_word_lem t attr method 0 0 0 8 calls small (omega arith) rows0 in
      ap (λ later. found_or (find_in_word t attr method (attr_word t.methods_attr 0 8) 0 0 8) later)
        (ap
            (λ last.
              found_or (find_in_word t attr method (attr_word t.methods_attr (0 + 8) 8) (0 + 8) 0 8)
                last)
            (sym (nothing_left method attr _ none_left))
          ∙ second)
      ∙ first
