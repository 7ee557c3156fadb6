-- ===== src/Net/Request/Client.antt =====
-- What net/request.hpp reads of a request that a client wrote.
use sabot.Prelude.{
  ℕ, ◌<◌, ◌^◌, ◌≡◌, ◌≢◌, refl, sym, ap, ◌∙◌, some, List, [], ◌∷◌, ◌++◌, length, get_elem?,
}
use sabot.Outcome.{returned}
use sabot.Net.Json.{RapidJson, IsJson, HasScalars}
use sabot.Net.Response.{rapid_json_array}
use sabot.Net.Response.Laws.{elements-rapid_json_array, element-rapid_json_array}
use sabot.CString.{IsText, c_string_terminated, c_string_text}
use sabot.Net.Request.{
  Request, method_name, parameters_name, make_request, method, parameter_count, at_parameter,
  get_parameter, get_cstring, parameter_cstring, parameter_unsigned_long,
}

module _ {Value Real : Type 0} (J : RapidJson Value Real) where
  -- The document and the message of a request for a method with these parameters.
  unfoldable pub request_document : List ℕ → List Value → Value
  request_document name values =
      J.add_member parameters_name (rapid_json_array J (λ v. v) values)
        (J.add_member method_name (J.from_string name) J.empty_object)

  abbrev pub request_message : List ℕ → List Value → List ℕ
  request_message name values = J.write (request_document name values) ++ 0 ∷ []

-- RapidJSON writes the document as a text without zero bytes, which it reads back.
pub record IsWritten {Value Real : Type 0} (J : RapidJson Value Real) (v : Value) : Type 0 where
  pub text : IsText (J.write v)
  pub reads_back : J.parse (J.write v) ≡ v

module _ {Value Real : Type 0} (J : RapidJson Value Real) (law : IsJson J) (scalars : HasScalars J)
    (name : List ℕ) (values : List Value)
    (written : IsWritten J (request_document J name values)) where
  abbrev request : Request Value
  request = make_request J (request_message J name values)

  pub request-dom : request.dom ≡ request_document J name values
  unfolding make_request
  request-dom =
      ap J.parse (c_string_terminated (J.write (request_document J name values)) written.text)
      ∙ written.reads_back

  names_differ : method_name ≢ parameters_name
  names_differ e = cc

  pub method-request : method J request ≡ returned name
  unfolding method request_document
  method-request =
      rw
        (
          request-dom,
          law.other_member method_name parameters_name (rapid_json_array J (λ v. v) values) _
              names_differ,
          law.added_member method_name (J.from_string name) J.empty_object
              (law.no_member method_name),
          scalars.string_back name,
        )
        refl

  parameters_member :
      J.member parameters_name request.dom ≡ some (rapid_json_array J (λ v. v) values)
  unfolding request_document
  parameters_member =
      ap (J.member parameters_name) request-dom
      ∙ law.added_member parameters_name _ _ (
          law.other_member parameters_name method_name _ _ (λ e. names_differ (sym e))
          ∙ law.no_member parameters_name)

  pub parameter_count-request : parameter_count J request ≡ returned (length values)
  unfolding parameter_count
  parameter_count-request =
      rw (parameters_member, elements-rapid_json_array J law (λ v. v) values) refl

  at_parameter-request :
      (i : ℕ) {v : Value} → get_elem? values i ≡ some v → at_parameter J request i ≡ returned v
  unfolding at_parameter
  at_parameter-request i h =
      rw (parameters_member, element-rapid_json_array J law (λ v. v) values i h) refl

  pub unsigned_long-request :
      (i n : ℕ)
      → get_elem? values i ≡ some (J.from_uint64 n)
      → n < 2 ^ 64
      → parameter_unsigned_long J request i ≡ returned n
  unfolding parameter_unsigned_long get_parameter
  unsigned_long-request i n h small =
      rw (at_parameter-request i h, scalars.uint64_back n small) refl

  pub cstring-request :
      (i : ℕ) (s : List ℕ)
      → get_elem? values i ≡ some (J.from_string s)
      → IsText s
      → parameter_cstring J request i ≡ returned s
  unfolding parameter_cstring get_parameter get_cstring
  cstring-request i s h text =
      rw (at_parameter-request i h, scalars.string_back s, c_string_text s text) refl
