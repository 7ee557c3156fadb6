-- ===== src/Net/Response.antt =====
-- net/response.hpp: a response, one constructor for each type of its result. Arrays are in the plural,
-- and are lists: the pointer and the size that the source takes. A float is widened to a double.
pub mod Laws
pub mod Client
use sabot.Prelude.{
  ℕ, ◌-◌, ltb, if◌then◌else◌, Bool, true, false, Option, none, some, List, [], ◌∷◌, length,
}
use sabot.Prelude.Int.{ℤ, pos, negsuc}
use sabot.Outcome.{Outcome, returned, fault}
use sabot.Net.Json.{RapidJson}
use sabot.CString.{c_string}

abbrev pub result_name : List ℕ
result_name = b'r' ∷ b'e' ∷ b's' ∷ b'u' ∷ b'l' ∷ b't' ∷ []

abbrev pub error_name : List ℕ
error_name = b'e' ∷ b'r' ∷ b'r' ∷ b'o' ∷ b'r' ∷ []

pub record Response : Type 0 where
  pub json_buffer : List ℕ

-- A char is signed.
unfoldable pub char_value : ℕ → ℤ
char_value c = if ltb c 128 then pos c else negsuc (255 - c)

unfoldable pub get_json : Response → List ℕ
get_json r = r.json_buffer

unfoldable pub get_json_size : Response → ℕ
get_json_size r = length r.json_buffer

module _ {Value Real : Type 0} (J : RapidJson Value Real) where
  -- _initialize
  unfoldable pub initialize : Bool → Value
  initialize error =
      if error then J.add_member error_name (J.from_bool error) J.empty_object else J.empty_object

  -- _write
  unfoldable pub write : Value → Response
  write dom = record { json_buffer = J.write dom }

  -- The loop of rapid_json_array.
  unfoldable pub push_all : {A : Type 0} → (A → Value) → List A → Value → Value
  push_all make [] array = array
  push_all make (x ∷ xs) array = push_all make xs (J.push_back (make x) array)

  unfoldable pub rapid_json_array : {A : Type 0} → (A → Value) → List A → Value
  rapid_json_array make items = push_all make items J.empty_array

  -- The document of a constructor.
  unfoldable pub document : Bool → Value → Value
  document error result = J.add_member result_name result (initialize error)

  unfoldable pub of_char : ℕ → Bool → Response
  of_char result error = write (document error (J.from_int (char_value result)))

  unfoldable pub of_unsigned_char : ℕ → Bool → Response
  of_unsigned_char result error = write (document error (J.from_int (pos result)))

  unfoldable pub of_bool : Bool → Bool → Response
  of_bool result error = write (document error (J.from_bool result))

  unfoldable pub of_bools : List Bool → Bool → Response
  of_bools result error = write (document error (rapid_json_array J.from_bool result))

  -- StringRef measures a null pointer's string, too.
  unfoldable pub of_cstring : Option (List ℕ) → Bool → Outcome Response
  of_cstring none error = fault
  of_cstring (some result) error =
      returned (write (document error (J.from_string (c_string result))))

  unfoldable pub of_int : ℤ → Bool → Response
  of_int result error = write (document error (J.from_int result))

  unfoldable pub of_ints : List ℤ → Bool → Response
  of_ints result error = write (document error (rapid_json_array J.from_int result))

  unfoldable pub of_unsigned_int : ℕ → Bool → Response
  of_unsigned_int result error = write (document error (J.from_uint result))

  unfoldable pub of_unsigned_ints : List ℕ → Bool → Response
  of_unsigned_ints result error = write (document error (rapid_json_array J.from_uint result))

  unfoldable pub of_long : ℤ → Bool → Response
  of_long result error = write (document error (J.from_int64 result))

  unfoldable pub of_longs : List ℤ → Bool → Response
  of_longs result error = write (document error (rapid_json_array J.from_int64 result))

  unfoldable pub of_unsigned_long : ℕ → Bool → Response
  of_unsigned_long result error = write (document error (J.from_uint64 result))

  unfoldable pub of_unsigned_longs : List ℕ → Bool → Response
  of_unsigned_longs result error = write (document error (rapid_json_array J.from_uint64 result))

  unfoldable pub of_float : Real → Bool → Response
  of_float result error = write (document error (J.from_double result))

  unfoldable pub of_floats : List Real → Bool → Response
  of_floats result error = write (document error (rapid_json_array J.from_double result))

  unfoldable pub of_double : Real → Bool → Response
  of_double result error = write (document error (J.from_double result))

  unfoldable pub of_doubles : List Real → Bool → Response
  of_doubles result error = write (document error (rapid_json_array J.from_double result))

  -- The bytes of a string buffer, copied.
  unfoldable pub of_buffer : List ℕ → Bool → Response
  of_buffer result error = write (document error (J.from_string result))
