-- ===== src/Net/Sample.antt =====
-- A JSON library at which the theorems on net/ are run: a document is the calls that build it.
use sabot.Prelude.{
  ℕ, suc, ◌≡◌, ◌≢◌, refl, sym, arith, ◌==◌, if◌then◌else◌, Bool, true, false, Option, none, some,
  List, [], ◌∷◌, Bool-cases, inl, inr,
}
use sabot.Prelude.Int.{ℤ}
use sabot.Language.Dialect.{same_string}
use sabot.Net.Json.{RapidJson, IsJson, HasScalars}

pub data Document : Type 0 where
  null empty_array empty_object : Document
  bool : Bool → Document
  natural : ℕ → Document
  integer : ℤ → Document
  real : ℕ → Document
  string : List ℕ → Document
  push_back : Document → Document → Document
  add_member : List ℕ → Document → Document → Document

abbrev earlier_or : Option Document → Option Document → Option Document
earlier_or (some w) later = some w
earlier_or none later = later

abbrev pub member : List ℕ → Document → Option Document
member name (add_member other v object) =
    earlier_or (member name object) (if same_string name other then some v else none)
member name _ = none

abbrev one_more : Option ℕ → Option ℕ
one_more none = none
one_more (some n) = some (suc n)

abbrev elements : Document → Option ℕ
elements empty_array = some 0
elements (push_back v array) = one_more (elements array)
elements _ = none

abbrev count : Document → ℕ
count (push_back v array) = suc (count array)
count _ = 0

abbrev element : Document → ℕ → Option Document
element (push_back v array) i =
    let earlier = element array i in if i == count array then some v else earlier
element _ i = none

abbrev get_bool : Document → Option Bool
get_bool (bool b) = some b
get_bool _ = none

abbrev get_natural : Document → Option ℕ
get_natural (natural n) = some n
get_natural _ = none

abbrev get_integer : Document → Option ℤ
get_integer (integer z) = some z
get_integer _ = none

abbrev get_real : Document → Option ℕ
get_real (real x) = some x
get_real _ = none

abbrev pub get_string : Document → Option (List ℕ)
get_string (string s) = some s
get_string _ = none

abbrev pub sample_of : (List ℕ → Document) → (Document → List ℕ) → RapidJson Document ℕ
sample_of parse write = record {
  parse = parse;
  write = write;
  member = member;
  elements = elements;
  element = element;
  get_string = get_string;
  get_bool = get_bool;
  get_uint = get_natural;
  get_uint64 = get_natural;
  get_int = get_integer;
  get_int64 = get_integer;
  get_double = get_real;
  narrow = λ x. x;
  from_string = string;
  from_bool = bool;
  from_uint = natural;
  from_uint64 = natural;
  from_int = integer;
  from_int64 = integer;
  from_double = real;
  empty_array = empty_array;
  push_back = push_back;
  empty_object = empty_object;
  add_member = add_member;
}

-- Every text is that of one document.
abbrev pub sample : Document → RapidJson Document ℕ
sample document = sample_of (λ text. document) (λ v. b'{' ∷ b'}' ∷ [])

same_string_self : (s : List ℕ) → same_string s s ≡ true
unfolding same_string
same_string_self [] = refl
same_string_self (b ∷ bs) = ground (arith, same_string_self bs)

same_string_ne : (s t : List ℕ) → s ≢ t → same_string s t ≡ false
unfolding same_string
same_string_ne [] [] ne = absurd (ne refl)
same_string_ne [] (b ∷ bs) ne = refl
same_string_ne (a ∷ cs) [] ne = refl
same_string_ne (a ∷ cs) (b ∷ bs) ne = elim (Bool-cases (a == b)) [
  | inr e ↦ rw e refl
  | inl e ↦
      let same : a ≡ b = ground arith in rw e (same_string_ne cs bs (λ h. ne (rw (same, h) refl)))
]

one_more-eq : (o : Option ℕ) (n : ℕ) → one_more o ≡ some n → (m : ℕ) × (o ≡ some m) × (n ≡ suc m)
one_more-eq none n h = cc
one_more-eq (some m) n h = (m, refl, ground arith)

earlier_or-none : (o : Option Document) → earlier_or o none ≡ o
earlier_or-none none = refl
earlier_or-none (some w) = refl

elements-count : (array : Document) (n : ℕ) → elements array ≡ some n → count array ≡ n
elements-count empty_array n h = ground arith
elements-count (push_back v array) n h =
    let (m, e, same) = one_more-eq (elements array) n h in rw (elements-count array m e) (sym same)
elements-count null n h = cc
elements-count empty_object n h = cc
elements-count (bool b) n h = cc
elements-count (natural k) n h = cc
elements-count (integer z) n h = cc
elements-count (real x) n h = cc
elements-count (string s) n h = cc
elements-count (add_member name v o) n h = cc

pub sample-HasScalars :
    (parse : List ℕ → Document) (write : Document → List ℕ) → HasScalars (sample_of parse write)
sample-HasScalars parse write = record {
  bool_back = λ b. refl;
  uint_back = λ n h. refl;
  uint64_back = λ n h. refl;
  int_back = λ z h. refl;
  int64_back = λ z h. refl;
  double_back = λ x. refl;
  string_back = λ s. refl;
}

pub sample-IsJson :
    (parse : List ℕ → Document) (write : Document → List ℕ) → IsJson (sample_of parse write)
sample-IsJson parse write = record {
  no_member = λ name. refl;
  added_member = λ name v object h. rw (h, same_string_self name) refl;
  other_member = λ name other v object ne.
      rw (same_string_ne name other ne) (earlier_or-none (member name object));
  no_elements = refl;
  more_elements = λ v array n h. rw h refl;
  last_element = λ v array n h. rw (elements-count array n h) (ground arith);
  earlier_element = λ v array n i h lt. rw (elements-count array n h) (ground arith);
}
