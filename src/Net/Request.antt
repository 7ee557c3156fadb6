-- ===== src/Net/Request.antt =====
-- net/request.hpp: a request, and its parameters by type. A reader that RapidJSON asserts against is
-- `fault`. Arrays are read element by element from the document.
pub mod Client
use sabot.Prelude.{
  ℕ, zero, suc, ◌+◌, ◌-◌, ◌%◌, ◌^◌, ltb, if◌then◌else◌, Bool, Option, map, none, some, List, [],
  ◌∷◌, get_or, length,
}
use sabot.Prelude.Int.{ℤ, pos, negsuc}
use sabot.Outcome.{Outcome, returned, fault, ◌>>=◌}
use sabot.Net.Json.{RapidJson, asserted}
use sabot.CString.{c_string}
use sabot.Actions.{attr_of}

abbrev pub method_name : List ℕ
method_name = b'm' ∷ b'e' ∷ b't' ∷ b'h' ∷ b'o' ∷ b'd' ∷ []

abbrev pub parameters_name : List ℕ
parameters_name = b'p' ∷ b'a' ∷ b'r' ∷ b'a' ∷ b'm' ∷ b'e' ∷ b't' ∷ b'e' ∷ b'r' ∷ b's' ∷ []

-- The low 16 bits, as a signed number.
abbrev pub short_of_word : ℕ → ℤ
short_of_word w = if ltb w (2 ^ 15) then pos w else negsuc (2 ^ 16 - w - 1)

unfoldable pub to_short : ℤ → ℤ
to_short (pos n) = short_of_word (n % 2 ^ 16)
to_short (negsuc n) = short_of_word (2 ^ 16 - 1 - n % 2 ^ 16)

abbrev on_some : {A B : Type 0} → (A → B) → Option A → Option B
on_some f none = none
on_some f (some a) = some (f a)

pub record Request (Value : Type 0) : Type 0 where
  pub dom : Value

module _ {Value Real : Type 0} (J : RapidJson Value Real) where
  -- The constructor, on the bytes from the pointer on.
  unfoldable pub make_request : List ℕ → Request Value
  make_request str = record { dom = J.parse (c_string str) }

  -- GetString() with GetStringLength().
  unfoldable pub method : Request Value → Outcome (List ℕ)
  method r = asserted (J.member method_name r.dom) >>= λ v. asserted (J.get_string v)

  unfoldable pub method_size : Request Value → Outcome ℕ
  method_size r = method r >>= λ name. returned (length name)

  unfoldable pub parameter_count : Request Value → Outcome ℕ
  parameter_count r = asserted (J.member parameters_name r.dom) >>= λ v. asserted (J.elements v)

  unfoldable pub method_attr : Request Value → Outcome ℕ
  method_attr r =
      method_size r >>= λ size. parameter_count r >>= λ count. returned (attr_of size count)

  -- _dom["parameters"][idx]
  unfoldable pub at_parameter : Request Value → ℕ → Outcome Value
  at_parameter r idx = asserted (J.member parameters_name r.dom) >>= λ v. asserted (J.element v idx)

  unfoldable pub get_parameter : {A : Type 0} → (Value → Option A) → Request Value → ℕ → Outcome A
  get_parameter get r idx = at_parameter r idx >>= λ v. asserted (get v)

  -- The loop over an array, from element i on.
  unfoldable pub read_elements :
      {A : Type 0} → (Value → Option A) → Value → ℕ → ℕ → Outcome (List A)
  read_elements get v i zero = returned []
  read_elements get v i (suc left) = asserted (J.element v i) >>= λ e.
      asserted (get e) >>= λ x. read_elements get v (i + 1) left >>= λ xs. returned (x ∷ xs)

  unfoldable pub read_array : {A : Type 0} → (Value → Option A) → Value → Outcome (List A)
  read_array get v = asserted (J.elements v) >>= λ size. read_elements get v 0 size

  unfoldable pub get_array_parameter :
      {A : Type 0} → (Value → Option A) → Request Value → ℕ → Outcome (List A)
  get_array_parameter get r idx = at_parameter r idx >>= λ v. read_array get v

  abbrev mapped : {A B : Type 0} → (A → B) → (Value → Option A) → Value → Option B
  mapped f get v = on_some f (get v)

  -- A reader for each type; arrays are in the plural. A C string ends at its first zero byte.
  unfoldable pub get_cstring : Value → Option (List ℕ)
  get_cstring v = mapped c_string J.get_string v

  unfoldable pub parameter_cstring : Request Value → ℕ → Outcome (List ℕ)
  parameter_cstring r idx = get_parameter get_cstring r idx

  unfoldable pub parameter_cstrings : Request Value → ℕ → Outcome (List (List ℕ))
  parameter_cstrings r idx = get_array_parameter get_cstring r idx

  unfoldable pub parameter_const_cstrings : Request Value → ℕ → Outcome (List (List ℕ))
  parameter_const_cstrings r idx = get_array_parameter get_cstring r idx

  unfoldable pub parameter_bool : Request Value → ℕ → Outcome Bool
  parameter_bool r idx = get_parameter J.get_bool r idx

  unfoldable pub parameter_bools : Request Value → ℕ → Outcome (List Bool)
  parameter_bools r idx = get_array_parameter J.get_bool r idx

  -- The first byte, which is the terminator in an empty string.
  unfoldable pub parameter_char : Request Value → ℕ → Outcome ℕ
  parameter_char r idx = get_parameter (mapped (λ s. get_or s 0 0) J.get_string) r idx

  unfoldable pub parameter_unsigned_short : Request Value → ℕ → Outcome ℕ
  parameter_unsigned_short r idx = get_parameter (mapped (λ n. n % 2 ^ 16) J.get_uint) r idx

  unfoldable pub parameter_unsigned_shorts : Request Value → ℕ → Outcome (List ℕ)
  parameter_unsigned_shorts r idx = get_array_parameter (mapped (λ n. n % 2 ^ 16) J.get_uint) r idx

  unfoldable pub parameter_short : Request Value → ℕ → Outcome ℤ
  parameter_short r idx = get_parameter (mapped to_short J.get_int) r idx

  unfoldable pub parameter_shorts : Request Value → ℕ → Outcome (List ℤ)
  parameter_shorts r idx = get_array_parameter (mapped to_short J.get_int) r idx

  unfoldable pub parameter_unsigned_int : Request Value → ℕ → Outcome ℕ
  parameter_unsigned_int r idx = get_parameter J.get_uint r idx

  unfoldable pub parameter_unsigned_ints : Request Value → ℕ → Outcome (List ℕ)
  parameter_unsigned_ints r idx = get_array_parameter J.get_uint r idx

  unfoldable pub parameter_int : Request Value → ℕ → Outcome ℤ
  parameter_int r idx = get_parameter J.get_int r idx

  unfoldable pub parameter_ints : Request Value → ℕ → Outcome (List ℤ)
  parameter_ints r idx = get_array_parameter J.get_int r idx

  unfoldable pub parameter_unsigned_long : Request Value → ℕ → Outcome ℕ
  parameter_unsigned_long r idx = get_parameter J.get_uint64 r idx

  unfoldable pub parameter_unsigned_longs : Request Value → ℕ → Outcome (List ℕ)
  parameter_unsigned_longs r idx = get_array_parameter J.get_uint64 r idx

  unfoldable pub parameter_long : Request Value → ℕ → Outcome ℤ
  parameter_long r idx = get_parameter J.get_int64 r idx

  unfoldable pub parameter_longs : Request Value → ℕ → Outcome (List ℤ)
  parameter_longs r idx = get_array_parameter J.get_int64 r idx

  unfoldable pub parameter_float : Request Value → ℕ → Outcome Real
  parameter_float r idx = get_parameter (mapped J.narrow J.get_double) r idx

  unfoldable pub parameter_floats : Request Value → ℕ → Outcome (List Real)
  parameter_floats r idx = get_array_parameter (mapped J.narrow J.get_double) r idx

  unfoldable pub parameter_double : Request Value → ℕ → Outcome Real
  parameter_double r idx = get_parameter J.get_double r idx

  unfoldable pub parameter_doubles : Request Value → ℕ → Outcome (List Real)
  parameter_doubles r idx = get_array_parameter J.get_double r idx
