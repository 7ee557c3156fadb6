-- ===== src/Net/Response/Laws.antt =====
-- What a client reads from a response of net/response.hpp.
use mathlib.Core.Path.{subst}
use sabot.Prelude.{
  ℕ, zero, suc, ◌+◌, ◌≡◌, ◌≢◌, refl, sym, ap, ◌∙◌, arith, if◌then◌else◌, Bool, true, false, Option,
  none, some, List, [], ◌∷◌, ◌++◌, length, map, get_elem?, length-append,
}
use sabot.Outcome.{returned}
use sabot.Net.Json.{RapidJson, IsJson}
use sabot.Net.Request.{read_elements, read_array}
use sabot.Net.Response.{result_name, error_name, initialize, push_all, rapid_json_array, document}

abbrev pub AllOf : {A : Type 0} → (A → Type 0) → List A → Type 0
AllOf P [] = Unit {0}
AllOf P (x ∷ xs) = P x × AllOf P xs

module _ {Value Real : Type 0} (J : RapidJson Value Real) (law : IsJson J) where
  names_differ : result_name ≢ error_name
  names_differ e = cc

  no_result : (error : Bool) → J.member result_name (initialize J error) ≡ none
  unfolding initialize
  no_result true =
      law.other_member result_name error_name _ _ names_differ ∙ law.no_member result_name
  no_result false = law.no_member result_name

  error_member :
      (error : Bool)
      → J.member error_name (initialize J error) ≡ (if error then some (J.from_bool true) else none)
  unfolding initialize
  error_member true = law.added_member error_name _ _ (law.no_member error_name)
  error_member false = law.no_member error_name

  -- The document of a response has its result, and an error member if and only if the flag is set.
  pub document-member :
      (error : Bool) (result : Value)
      → (J.member result_name (document J error result) ≡ some result)
        × (J.member error_name (document J error result)
            ≡ (if error then some (J.from_bool true) else none))
  unfolding document
  document-member error result = (
    law.added_member result_name result _ (no_result error),
    law.other_member error_name result_name _ _ (λ e. names_differ (sym e)) ∙ error_member error,
  )

  -- The values stand in the array from place i on.
  abbrev StandsAt : Value → ℕ → List Value → Type 0
  StandsAt array i [] = Unit {0}
  StandsAt array i (v ∷ vs) = (J.element array i ≡ some v) × StandsAt array (i + 1) vs

  StandsAt-push_back :
      (array x : Value) (i : ℕ) (vs : List Value)
      → J.elements array ≡ some (i + length vs)
      → StandsAt array i vs
      → StandsAt (J.push_back x array) i (vs ++ x ∷ [])
  StandsAt-push_back array x i [] size at =
      let end : i + 0 ≡ i = omega arith in (law.last_element x array i (size ∙ ap some end), tt)
  StandsAt-push_back array x i (v ∷ vs) size (first, rest) =
      let next : i + suc (length vs) ≡ i + 1 + length vs = omega arith in
      (
        law.earlier_element x array _ i size (omega arith) ∙ first,
        StandsAt-push_back array x (i + 1) vs (size ∙ ap some next) rest,
      )

  append_one : (vs : List Value) (x : Value) (ws : List Value) → (vs ++ x ∷ []) ++ ws ≡ vs ++ x ∷ ws
  append_one [] x ws = refl
  append_one (v ∷ vs) x ws = ap (λ r. v ∷ r) (append_one vs x ws)

  append_nil : (vs : List Value) → vs ++ [] ≡ vs
  append_nil [] = refl
  append_nil (v ∷ vs) = ap (λ r. v ∷ r) (append_nil vs)

  push_all-StandsAt :
      {A : Type 0} (make : A → Value) (array : Value) (vs : List Value) (items : List A)
      → J.elements array ≡ some (length vs)
      → StandsAt array 0 vs
      → (J.elements (push_all J make items array) ≡ some (length vs + length items))
        × StandsAt (push_all J make items array) 0 (vs ++ map make items)
  unfolding push_all
  push_all-StandsAt make array vs [] size at =
      let all : length vs ≡ length vs + 0 = omega arith in
      (size ∙ ap some all, subst (λ l. StandsAt array 0 l) (sym (append_nil vs)) at)
  push_all-StandsAt make array vs (x ∷ xs) size at =
      let v = make x in
      let more : suc (length vs) ≡ length (vs ++ v ∷ []) =
        omega (arith, length-append vs (v ∷ [])) in
      let zeroed : length vs ≡ 0 + length vs = omega arith in
      let (size', at') =
        push_all-StandsAt make (J.push_back v array) (vs ++ v ∷ []) xs
          (law.more_elements v array (length vs) size ∙ ap some more)
          (StandsAt-push_back array v 0 vs (size ∙ ap some zeroed) at) in
      let total : length (vs ++ v ∷ []) + length xs ≡ length vs + suc (length xs) =
        omega (arith, more) in
      (
        size' ∙ ap some total,
        subst (λ l. StandsAt (push_all J make xs (J.push_back v array)) 0 l)
            (append_one vs v (map make xs)) at',
      )

  StandsAt-element :
      {A : Type 0} (make : A → Value) (array : Value) (i k : ℕ) (items : List A) {x : A}
      → StandsAt array i (map make items)
      → get_elem? items k ≡ some x
      → J.element array (i + k) ≡ some (make x)
  StandsAt-element make array i k [] at h = cc
  StandsAt-element make array i zero (y ∷ ys) {x = x} (first, rest) h =
      let same : y ≡ x = ground arith in
      let here : i + 0 ≡ i = omega arith in
      ap (J.element array) here ∙ first ∙ ap (λ a. some (make a)) same
  StandsAt-element make array i (suc k) (y ∷ ys) (first, rest) h =
      let next : i + suc k ≡ i + 1 + k = omega arith in
      ap (J.element array) next ∙ StandsAt-element make array (i + 1) k ys rest h

  -- An array that is built of items has as many elements, made of the items in their order.
  pub elements-rapid_json_array :
      {A : Type 0} (make : A → Value) (items : List A)
      → J.elements (rapid_json_array J make items) ≡ some (length items)
  unfolding rapid_json_array
  elements-rapid_json_array make items =
      let count : 0 + length items ≡ length items = omega arith in
      (push_all-StandsAt make J.empty_array [] items law.no_elements tt).0 ∙ ap some count

  pub element-rapid_json_array :
      {A : Type 0} (make : A → Value) (items : List A) (k : ℕ) {x : A}
      → get_elem? items k ≡ some x
      → J.element (rapid_json_array J make items) k ≡ some (make x)
  unfolding rapid_json_array
  element-rapid_json_array make items k h =
      let place : k ≡ 0 + k = omega arith in
      ap (J.element (push_all J make items J.empty_array)) place
      ∙ StandsAt-element make _ 0 k items
          (push_all-StandsAt make J.empty_array [] items law.no_elements tt).1 h

  read_elements-StandsAt :
      {A : Type 0} (P : A → Type 0) (make : A → Value) (get : Value → Option A) (array : Value)
      (i : ℕ) (items : List A)
      → ((a : A) → P a → get (make a) ≡ some a)
      → AllOf P items
      → StandsAt array i (map make items)
      → read_elements J get array i (length items) ≡ returned items
  unfolding read_elements
  read_elements-StandsAt P make get array i [] back all at = refl
  read_elements-StandsAt P make get array i (x ∷ xs) back (fits, all) (first, rest) =
      rw (first, back x fits, read_elements-StandsAt P make get array (i + 1) xs back all rest) refl

  -- An array that is built of items is read as these items.
  pub read_array-rapid_json_array :
      {A : Type 0} (P : A → Type 0) (make : A → Value) (get : Value → Option A) (items : List A)
      → ((a : A) → P a → get (make a) ≡ some a)
      → AllOf P items
      → read_array J get (rapid_json_array J make items) ≡ returned items
  unfolding read_array rapid_json_array
  read_array-rapid_json_array P make get items back all =
      let (size, at) = push_all-StandsAt make J.empty_array [] items law.no_elements tt in
      let count : 0 + length items ≡ length items = omega arith in
      rw (size, count) (read_elements-StandsAt P make get _ 0 items back all at)
