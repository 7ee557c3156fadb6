-- ===== src/Net/Json.antt =====
-- The part of RapidJSON that net/ uses, as a parameter: documents and values, their readers and
-- builders. A reader is `none` where RapidJSON asserts that the value has another type, or that a
-- member or an element is there. `Real` is double.
use sabot.Prelude.{ℕ, suc, ◌<◌, ◌≤◌, ◌≡◌, ◌≢◌, ◌^◌, Bool, Option, none, some, List}
use sabot.Prelude.Int.{ℤ, pos_part, neg_part}
use sabot.Outcome.{Outcome, returned, fault}

pub record RapidJson (Value Real : Type 0) : Type 0 where
  -- The text of a document, without its terminator, and back; a text that is no JSON gives null.
  pub parse : List ℕ → Value
  pub write : Value → List ℕ
  pub member : List ℕ → Value → Option Value
  pub elements : Value → Option ℕ
  pub element : Value → ℕ → Option Value
  pub get_string : Value → Option (List ℕ)
  pub get_bool : Value → Option Bool
  pub get_uint : Value → Option ℕ
  pub get_uint64 : Value → Option ℕ
  pub get_int : Value → Option ℤ
  pub get_int64 : Value → Option ℤ
  pub get_double : Value → Option Real
  -- A double as a float.
  pub narrow : Real → Real
  pub from_string : List ℕ → Value
  pub from_bool : Bool → Value
  pub from_uint : ℕ → Value
  pub from_uint64 : ℕ → Value
  pub from_int : ℤ → Value
  pub from_int64 : ℤ → Value
  pub from_double : Real → Value
  pub empty_array : Value
  pub push_back : Value → Value → Value
  pub empty_object : Value
  pub add_member : List ℕ → Value → Value → Value

-- What RapidJSON documents of members and elements.
pub record IsJson {Value Real : Type 0} (J : RapidJson Value Real) : Type 0 where
  pub no_member : (name : List ℕ) → J.member name J.empty_object ≡ none
  pub added_member :
      (name : List ℕ) (v object : Value)
      → J.member name object ≡ none
      → J.member name (J.add_member name v object) ≡ some v
  pub other_member :
      (name other : List ℕ) (v object : Value)
      → name ≢ other
      → J.member name (J.add_member other v object) ≡ J.member name object
  pub no_elements : J.elements J.empty_array ≡ some 0
  pub more_elements :
      (v array : Value) (n : ℕ)
      → J.elements array ≡ some n
      → J.elements (J.push_back v array) ≡ some (suc n)
  pub last_element :
      (v array : Value) (n : ℕ)
      → J.elements array ≡ some n
      → J.element (J.push_back v array) n ≡ some v
  pub earlier_element :
      (v array : Value) (n i : ℕ)
      → J.elements array ≡ some n
      → i < n
      → J.element (J.push_back v array) i ≡ J.element array i

-- The numbers of int and of long.
abbrev pub IsInt : ℤ → Type 0
IsInt z = (pos_part z < 2 ^ 31) × (neg_part z ≤ 2 ^ 31)

abbrev pub IsLong : ℤ → Type 0
IsLong z = (pos_part z < 2 ^ 63) × (neg_part z ≤ 2 ^ 63)

-- What RapidJSON documents of scalars: each is read back from the value that it is made.
pub record HasScalars {Value Real : Type 0} (J : RapidJson Value Real) : Type 0 where
  pub bool_back : (b : Bool) → J.get_bool (J.from_bool b) ≡ some b
  pub uint_back : (n : ℕ) → n < 2 ^ 32 → J.get_uint (J.from_uint n) ≡ some n
  pub uint64_back : (n : ℕ) → n < 2 ^ 64 → J.get_uint64 (J.from_uint64 n) ≡ some n
  pub int_back : (z : ℤ) → IsInt z → J.get_int (J.from_int z) ≡ some z
  pub int64_back : (z : ℤ) → IsLong z → J.get_int64 (J.from_int64 z) ≡ some z
  pub double_back : (x : Real) → J.get_double (J.from_double x) ≡ some x
  pub string_back : (s : List ℕ) → J.get_string (J.from_string s) ≡ some s

abbrev pub asserted {ℓ} : {A : Type ℓ} → Option A → Outcome A
asserted none = fault
asserted (some a) = returned a
