-- ===== src/Net/Response/Client.antt =====
-- A client that reads the text of an array response of net/response.hpp.
use sabot.Prelude.{
  ℕ, ◌<◌, ◌^◌, ◌≡◌, refl, if◌then◌else◌, Bool, true, false, Option, none, some, List, [], ◌∷◌,
}
use sabot.Prelude.Int.{ℤ}
use sabot.Outcome.{Outcome, returned, ◌>>=◌}
use sabot.Net.Json.{RapidJson, IsJson, HasScalars, IsInt, IsLong, asserted}
use sabot.Net.Request.{read_array}
use sabot.Net.Response.{
  Response, result_name, error_name, rapid_json_array, document, get_json, write, of_bools, of_ints,
  of_unsigned_ints, of_longs, of_unsigned_longs, of_doubles,
}
use sabot.Net.Response.Laws.{AllOf, document-member, read_array-rapid_json_array}

-- The arrays that a response can be made of.
pub data Items (Real : Type 0) : Type 0 where
  bools : List Bool → Items Real
  ints longs : List ℤ → Items Real
  unsigned_ints unsigned_longs : List ℕ → Items Real
  doubles : List Real → Items Real

-- The items are values of their type.
abbrev pub InRange : {Real : Type 0} → Items Real → Type 0
InRange (bools xs) = Unit {0}
InRange (ints xs) = AllOf IsInt xs
InRange (longs xs) = AllOf IsLong xs
InRange (unsigned_ints xs) = AllOf (λ n. n < 2 ^ 32) xs
InRange (unsigned_longs xs) = AllOf (λ n. n < 2 ^ 64) xs
InRange (doubles xs) = Unit {0}

abbrev is_there : {A : Type 0} → Option A → Bool
is_there none = false
is_there (some a) = true

module _ {Value Real : Type 0} (J : RapidJson Value Real) where
  -- The constructor for the items.
  abbrev pub respond : Items Real → Bool → Response
  respond (bools xs) error = of_bools J xs error
  respond (ints xs) error = of_ints J xs error
  respond (longs xs) error = of_longs J xs error
  respond (unsigned_ints xs) error = of_unsigned_ints J xs error
  respond (unsigned_longs xs) error = of_unsigned_longs J xs error
  respond (doubles xs) error = of_doubles J xs error

  -- What the response stands for.
  abbrev pub value_of : Items Real → Value
  value_of (bools xs) = rapid_json_array J J.from_bool xs
  value_of (ints xs) = rapid_json_array J J.from_int xs
  value_of (longs xs) = rapid_json_array J J.from_int64 xs
  value_of (unsigned_ints xs) = rapid_json_array J J.from_uint xs
  value_of (unsigned_longs xs) = rapid_json_array J J.from_uint64 xs
  value_of (doubles xs) = rapid_json_array J J.from_double xs

  -- The result of a response, and its error flag, as a client reads them from the text.
  unfoldable pub read_result : {A : Type 0} → (Value → Outcome A) → Response → Outcome A
  read_result read r = asserted (J.member result_name (J.parse (get_json r))) >>= read

  unfoldable pub has_error : Response → Bool
  has_error r = is_there (J.member error_name (J.parse (get_json r)))

  -- The items that the client reads.
  abbrev pub Reads : Items Real → Response → Type 0
  Reads (bools xs) r = read_result (read_array J J.get_bool) r ≡ returned xs
  Reads (ints xs) r = read_result (read_array J J.get_int) r ≡ returned xs
  Reads (longs xs) r = read_result (read_array J J.get_int64) r ≡ returned xs
  Reads (unsigned_ints xs) r = read_result (read_array J J.get_uint) r ≡ returned xs
  Reads (unsigned_longs xs) r = read_result (read_array J J.get_uint64) r ≡ returned xs
  Reads (doubles xs) r = read_result (read_array J J.get_double) r ≡ returned xs

  respond-write :
      (items : Items Real) (error : Bool)
      → respond items error ≡ write J (document J error (value_of items))
  unfolding of_bools of_ints of_longs of_unsigned_ints of_unsigned_longs of_doubles
  respond-write (bools xs) error = refl
  respond-write (ints xs) error = refl
  respond-write (longs xs) error = refl
  respond-write (unsigned_ints xs) error = refl
  respond-write (unsigned_longs xs) error = refl
  respond-write (doubles xs) error = refl

  all_true : {A : Type 0} (xs : List A) → AllOf (λ a. Unit {0}) xs
  all_true [] = tt
  all_true (x ∷ xs) = (tt, all_true xs)

  -- If RapidJSON reads back the document that the response writes: an array response gives the client
  -- the items that it was made of, in their order, and the error flag that it was made with.
  pub respond-Reads :
      (items : Items Real) (error : Bool)
      → IsJson J
      → HasScalars J
      → InRange items
      → J.parse (J.write (document J error (value_of items))) ≡ document J error (value_of items)
      → Reads items (respond items error) × (has_error (respond items error) ≡ error)
  unfolding read_result has_error write get_json of_bools of_ints of_longs of_unsigned_ints
      of_unsigned_longs of_doubles
  respond-Reads items error law scalars range text =
      let (result, flag) = document-member J law error (value_of items) in
      (reads items range text result, rw (respond-write items error, text, flag) (present error))
    where
      present : (b : Bool) → is_there (if b then some (J.from_bool true) else none) ≡ b
      present true = refl
      present false = refl

      reads :
          (xs : Items Real)
          → InRange xs
          → J.parse (J.write (document J error (value_of xs))) ≡ document J error (value_of xs)
          → J.member result_name (document J error (value_of xs)) ≡ some (value_of xs)
          → Reads xs (respond xs error)
      reads (bools xs) r e m =
          rw (e, m)
            (read_array-rapid_json_array J law _ J.from_bool J.get_bool xs
              (λ b u. scalars.bool_back b) (all_true xs))
      reads (ints xs) r e m =
          rw (e, m)
            (read_array-rapid_json_array J law IsInt J.from_int J.get_int xs scalars.int_back r)
      reads (longs xs) r e m =
          rw (e, m)
            (read_array-rapid_json_array J law IsLong J.from_int64 J.get_int64 xs scalars.int64_back
              r)
      reads (unsigned_ints xs) r e m =
          rw (e, m)
            (read_array-rapid_json_array J law _ J.from_uint J.get_uint xs scalars.uint_back r)
      reads (unsigned_longs xs) r e m =
          rw (e, m)
            (read_array-rapid_json_array J law _ J.from_uint64 J.get_uint64 xs scalars.uint64_back
              r)
      reads (doubles xs) r e m =
          rw (e, m)
            (read_array-rapid_json_array J law _ J.from_double J.get_double xs
              (λ x u. scalars.double_back x) (all_true xs))
