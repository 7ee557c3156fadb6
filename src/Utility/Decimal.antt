-- ===== src/Utility/Decimal.antt =====
-- `stuif` reads the decimal digits of every 64-bit number.
use native.Mathlib.Decide.{dec_lt}
use sabot.Prelude.{
  ℕ, zero, suc, ◌+◌, ◌/◌, ◌%◌, ◌<◌, ◌≤◌, ◌≡◌, ◌≢◌, refl, ap, ◌∙◌, arith, ltb, lt→ltb, ltb→lt,
  if◌then◌else◌, false, Bool-cases, inl, inr, List, [], ◌∷◌, ◌++◌, length, take,
}
use sabot.Utility.{word_mod, digit_value, push_digit, push_digits, stuif}

-- The decimal digits of a number, the highest first, with fuel for them.
unfoldable pub digits_of : ℕ → ℕ → List ℕ
digits_of zero n = (n % 10 + b'0') ∷ []
digits_of (suc f) n =
    if ltb n 10 then (n + b'0') ∷ [] else digits_of f (n / 10) ++ (n % 10 + b'0') ∷ []

-- A number has no more digits than its value.
unfoldable pub decimal : ℕ → List ℕ
decimal n = digits_of n n

-- What is read from a first byte and the bytes after it.
abbrev read : List ℕ → ℕ
read [] = 0
read (c ∷ cs) = push_digits (digit_value c) cs

push_digits-concat :
    (r : ℕ) (cs : List ℕ) (c : ℕ) → push_digits r (cs ++ c ∷ []) ≡ push_digit (push_digits r cs) c
unfolding push_digits
push_digits-concat r [] c = refl
push_digits-concat r (x ∷ cs) c = push_digits-concat (push_digit r x) cs c

read-concat : (cs : List ℕ) (c : ℕ) → cs ≢ [] → read (cs ++ c ∷ []) ≡ push_digit (read cs) c
read-concat [] c h = absurd (h refl)
read-concat (x ∷ cs) c h = push_digits-concat (digit_value x) cs c

digit_value_of_digit : (d : ℕ) → d < 10 → digit_value (d + b'0') ≡ d
unfolding digit_value
digit_value_of_digit d h = rw (lt→ltb (d + b'0') 128 (omega arith)) (omega arith)

push_digit_of_digit : (n : ℕ) → n < word_mod → push_digit (n / 10) (n % 10 + b'0') ≡ n
unfolding push_digit
push_digit_of_digit n h = rw (digit_value_of_digit (n % 10) (omega arith)) (omega arith)

append-ne-nil : (xs : List ℕ) (c : ℕ) → xs ++ c ∷ [] ≢ []
append-ne-nil [] c = λ e. cc
append-ne-nil (x ∷ xs) c = λ e. cc

digits_of-ne-nil : (f n : ℕ) → digits_of f n ≢ []
unfolding digits_of
digits_of-ne-nil zero n = λ e. cc
digits_of-ne-nil (suc f) n = ground (arith, append-ne-nil (digits_of f (n / 10)) (n % 10 + b'0'))

not-ltb : (a b : ℕ) → ¬ (a < b) → ltb a b ≡ false
not-ltb a b h = ground arith

read-digits_of : (f n : ℕ) → n ≤ f → n < word_mod → read (digits_of f n) ≡ n
unfolding digits_of push_digits
read-digits_of zero n h lt = digit_value_of_digit (n % 10) (omega arith) ∙ omega arith
read-digits_of (suc f) n h lt = elim (dec_lt n 10) [
  | yes small ↦ rw (lt→ltb n 10 small) (digit_value_of_digit n small)
  | no large ↦
      rw
        (
          not-ltb n 10 large,
          read-concat (digits_of f (n / 10)) (n % 10 + b'0') (digits_of-ne-nil f (n / 10)),
          read-digits_of f (n / 10) (omega arith) (omega arith),
        )
        (push_digit_of_digit n lt)
]

stuif-append : (xs rest : List ℕ) → xs ≢ [] → stuif (xs ++ rest) (length xs) ≡ read xs
unfolding stuif
stuif-append [] rest h = absurd (h refl)
stuif-append (x ∷ xs) rest h = ap (push_digits (digit_value x)) (take-append xs rest)
  where
    take-append : (xs rest : List ℕ) → take (length xs) (xs ++ rest) ≡ xs
    take-append [] rest = refl
    take-append (x ∷ xs) rest = ap (◌∷◌ x) (take-append xs rest)

-- `stuif` gives back every 64-bit number from its decimal digits, whatever follows them.
pub stuif-decimal :
    (n : ℕ) (rest : List ℕ) → n < word_mod → stuif (decimal n ++ rest) (length (decimal n)) ≡ n
unfolding decimal
stuif-decimal n rest h =
    stuif-append (digits_of n n) rest (digits_of-ne-nil n n) ∙ read-digits_of n n (omega arith) h

-- Bytes '0' to '9'.
abbrev pub IsDecimal : List ℕ → Type 0
IsDecimal [] = Unit {0}
IsDecimal (c ∷ cs) = (b'0' ≤ c) × (c ≤ b'9') × IsDecimal cs

IsDecimal-concat :
    (cs : List ℕ) (c : ℕ) → IsDecimal cs → b'0' ≤ c → c ≤ b'9' → IsDecimal (cs ++ c ∷ [])
IsDecimal-concat [] c h lo hi = (lo, hi, tt)
IsDecimal-concat (x ∷ cs) c h lo hi = (h.0, h.1, IsDecimal-concat cs c h.2 lo hi)

digits_of-IsDecimal : (f n : ℕ) → IsDecimal (digits_of f n)
unfolding digits_of
digits_of-IsDecimal zero n = omega arith
digits_of-IsDecimal (suc f) n = elim (Bool-cases (ltb n 10)) [
  | inl e ↦ rw e (omega (arith, ltb→lt n 10 e))
  | inr e ↦ rw e (IsDecimal-concat _ _ (digits_of-IsDecimal f (n / 10)) (omega arith) (omega arith))
]

pub decimal-IsDecimal : (n : ℕ) → IsDecimal (decimal n)
unfolding decimal
decimal-IsDecimal n = digits_of-IsDecimal n n
