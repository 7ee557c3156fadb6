-- ===== src/Net/Server/Refused.antt =====
-- Messages that the server of net/server.cpp answers with an error.
use sabot.Prelude.{
  ℕ, ◌%◌, ◌<◌, ◌≡◌, ◌≢◌, refl, sym, ap, ◌∙◌, arith, ◌==◌, ◌&&◌, true, false, Bool-cases, inl, inr,
  List, [], ◌∷◌, length, map,
}
use sabot.Outcome.{Exception, returned, threw}
use sabot.Language.Dialect.{same_bytes}
use sabot.Actions.{RegisteredCalls, no_calls, attr_of, register_calls, find_call}
use sabot.Actions.Find.{first_match}
use sabot.Actions.Calls.{
  Action, method_of, method_size_of, parameter_count_of, self_register, start_calls,
  start_calls-first_match,
}

-- What the table holds of a call: the length of its name, which fits five bits, and few parameters.
action_sizes :
    (a : Action)
    → (length (method_of a) ≡ method_size_of a)
      × (method_size_of a < 32)
      × (parameter_count_of a < 8)
unfolding method_of method_size_of parameter_count_of
action_sizes a = ground arith

same_bytes-eq :
    (xs ys : List ℕ) → length xs ≡ length ys → same_bytes (length ys) xs ys ≡ true → xs ≡ ys
unfolding same_bytes
same_bytes-eq [] [] size h = refl
same_bytes-eq [] (y ∷ ys) size h = absurd (omega arith)
same_bytes-eq (x ∷ xs) [] size h = absurd (omega arith)
same_bytes-eq (x ∷ xs) (y ∷ ys) size h = elim (Bool-cases (x == y)) [
  | inl e ↦
      let first : x ≡ y = ground arith in
      let rest : same_bytes (length ys) xs ys ≡ true = rw e at h in
      rw (first, same_bytes-eq xs ys (omega arith) rest) refl
  | inr e ↦ absurd (ground arith)
]

-- Attributes of short names with few parameters tell both apart.
attr_of-eq :
    (m c n d : ℕ)
    → m < 32
    → c < 8
    → n < 32
    → d < 8
    → attr_of m c ≡ attr_of n d
    → (m ≡ n) × (c ≡ d) × (attr_of n d % 32 ≡ n)
unfolding attr_of
attr_of-eq m c n d hm hc hn hd e = omega arith

no_match :
    (a : Action) (name : List ℕ) (count : ℕ)
    → length name < 32
    → count < 8
    → (name ≡ method_of a → count ≢ parameter_count_of a)
    → (attr_of (method_size_of a) (parameter_count_of a) == attr_of (length name) count
        && same_bytes (attr_of (length name) count % 32) name (method_of a))
      ≡ false
no_match a name count short few other =
    let (size, small, few_a) = action_sizes a in
    elim (Bool-cases
      (attr_of (method_size_of a) (parameter_count_of a) == attr_of (length name) count)) [
        | inr e ↦ rw e refl
        | inl e ↦
            let attrs : attr_of (method_size_of a) (parameter_count_of a)
                ≡ attr_of (length name) count =
              ground arith in
            let (m, c, low) = attr_of-eq _ _ _ _ small few_a short few attrs in
            elim (Bool-cases (same_bytes (attr_of (length name) count % 32) name (method_of a))) [
              | inr d ↦ rw (e, d) refl
              | inl d ↦
                  let width : attr_of (length name) count % 32 ≡ length (method_of a) =
                    omega arith in
                  let same = same_bytes-eq name (method_of a) (omega arith) (rw width at d) in
                  absurd (other same (sym c))
            ]
      ]

none_matches :
    (rest : List Action) (name : List ℕ) (count : ℕ)
    → length name < 32
    → count < 8
    → ((a : Action) → name ≡ method_of a → count ≢ parameter_count_of a)
    → first_match (map self_register rest) name (attr_of (length name) count)
      ≡ threw Exception.runtime_error
unfolding first_match self_register
none_matches [] name count short few other = refl
none_matches (a ∷ rest) name count short few other =
    rw (no_match a name count short few (other a)) (none_matches rest name count short few other)

abbrev actions : List Action
actions =
    Action.get_uniform_integer ∷ Action.get_uniform_real ∷ Action.get_weighted_integer
    ∷ Action.create_kernel ∷ Action.delete_kernel ∷ Action.compile_macro ∷ Action.create_system
    ∷ Action.delete_system ∷ Action.create_state ∷ Action.delete_state ∷ Action.modify_state
    ∷ Action.measure_state ∷ Action.compute_result ∷ []

start_calls-map : start_calls ≡ map self_register actions
unfolding start_calls
start_calls-map = refl

-- A request that fits none of the calls.
pub unknown-find_call :
    (t : RegisteredCalls Action) (name : List ℕ) (count : ℕ)
    → register_calls no_calls start_calls ≡ returned t
    → length name < 32
    → count < 8
    → ((a : Action) → name ≡ method_of a → count ≢ parameter_count_of a)
    → find_call t name count ≡ threw Exception.runtime_error
unknown-find_call t name count started short few other =
    let (t', made, search) = start_calls-first_match in
    let same : t ≡ t' = cc in
    rw same (search name count)
    ∙ ap (λ cs. first_match cs name (attr_of (length name) count)) start_calls-map
    ∙ none_matches actions name count short few other
