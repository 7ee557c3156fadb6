-- ===== src/Utility.antt =====
-- utility.hpp, in the build without SABOT_THROW, which is how common.hpp leaves it.
pub mod Decimal
pub mod Rounding
mod Tests
use sabot.Prelude.{
  ℕ, suc, ◌+◌, ◌-◌, ◌*◌, ◌/◌, ◌%◌, ◌^◌, ltb, leb, if◌then◌else◌, Bool, ◌&&◌, ◌||◌, List, [], ◌∷◌,
  get_or, take, drop,
}

abbrev pub word_mod : ℕ
word_mod = 2 ^ 64

-- `round_to_multiple(number, multiple)`, both overloads, on 64-bit words.
unfoldable pub round_to_multiple : ℕ → ℕ → ℕ
round_to_multiple number multiple =
    (number + multiple + word_mod - 1) % word_mod / multiple * multiple % word_mod

-- `memory_overlap` on the addresses of the first items and the sizes in bytes of the items.
unfoldable pub memory_overlap : ℕ → ℕ → ℕ → ℕ → ℕ → Bool
memory_overlap a a_size b b_size item =
    (leb a b && leb b ((a + (a_size + word_mod - 1) * item) % word_mod))
    || (leb b a && leb a ((b + (b_size + word_mod - 1) * item) % word_mod))

-- `data[i] - '0'` in the 64-bit type of the result: a `char` is signed.
unfoldable pub digit_value : ℕ → ℕ
digit_value c = (if ltb c 128 then c + word_mod - b'0' else c + word_mod - 256 - b'0') % word_mod

-- result *= 10; result += data[i] - '0'
unfoldable pub push_digit : ℕ → ℕ → ℕ
push_digit result c = (result * 10 % word_mod + digit_value c) % word_mod

unfoldable pub push_digits : ℕ → List ℕ → ℕ
push_digits result [] = result
push_digits result (c ∷ cs) = push_digits (push_digit result c) cs

-- `text` is the data up to its terminator, which reads as 0. The first byte is read even if the
-- size is 0.
unfoldable pub stuif : List ℕ → ℕ → ℕ
stuif text size = push_digits (digit_value (get_or text 0 0)) (drop 1 (take size text))
