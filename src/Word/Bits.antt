-- ===== src/Word/Bits.antt =====
-- The bits of a word: laws of `bit_and` and `bit_xor` at every place, from their digit recursion.
use Prim.Native.Nat.{digits, differ, min, bit_and-bitwise, bit_xor-bitwise}
use native.Mathlib.Nat.{le_refl, mul_assoc, pow-suc, mul-one}
use sabot.Prelude.{
  ℕ, zero, suc, ◌+◌, ◌*◌, ◌/◌, ◌%◌, ◌^◌, ◌≤◌, ◌<◌, ◌≡◌, refl, arith, bit_and, bit_xor, ap, sym, ◌∙◌,
}

digits_fuel :
    (z : ℕ → ℕ) (f : ℕ → ℕ → ℕ) (n m a b : ℕ) → a ≤ n → a ≤ m → digits z f n a b ≡ digits z f m a b
digits_fuel z f zero zero zero b p q = refl
digits_fuel z f zero (suc m) zero b p q = refl
digits_fuel z f (suc n) zero zero b p q = refl
digits_fuel z f (suc n) (suc m) zero b p q = refl
digits_fuel z f zero m (suc a) b p q = absurd (omega arith)
digits_fuel z f (suc n) zero (suc a) b p q = absurd (omega arith)
digits_fuel z f (suc n) (suc m) (suc a) b p q =
    omega (arith, digits_fuel z f n m (suc a / 2) (b / 2) (omega arith) (omega arith))

pub bit_and_step : (a b : ℕ) → bit_and a b ≡ bit_and (a / 2) (b / 2) * 2 + min (a % 2) (b % 2)
bit_and_step zero b =
    let whole = bit_and-bitwise 0 b in let half = bit_and-bitwise 0 (b / 2) in omega arith
bit_and_step (suc a) b =
    let enough =
      digits_fuel (λ y. 0) min a (suc a / 2) (suc a / 2) (b / 2) (omega arith) (le_refl _) in
    let whole = bit_and-bitwise (suc a) b in
    let half = bit_and-bitwise (suc a / 2) (b / 2) in omega arith

differ_digits : (a b : ℕ) → a < 2 → b < 2 → differ a b ≡ (a + b) % 2
differ_digits zero b p q = omega arith
differ_digits (suc zero) zero p q = omega arith
differ_digits (suc zero) (suc zero) p q = omega arith
differ_digits (suc zero) (suc (suc b)) p q = absurd (omega arith)
differ_digits (suc (suc a)) b p q = absurd (omega arith)

bit_xor_digits : (a b : ℕ) → bit_xor a b ≡ bit_xor (a / 2) (b / 2) * 2 + differ (a % 2) (b % 2)
bit_xor_digits zero b = omega (arith, bit_xor-bitwise 0 b, bit_xor-bitwise 0 (b / 2))
bit_xor_digits (suc a) b = omega (
  arith,
  bit_xor-bitwise (suc a) b,
  bit_xor-bitwise (suc a / 2) (b / 2),
  digits_fuel (λ y. y) differ a (suc a / 2) (suc a / 2) (b / 2) (omega arith) (le_refl _),
)

pub bit_xor_step : (a b : ℕ) → bit_xor a b ≡ bit_xor (a / 2) (b / 2) * 2 + (a + b) % 2
bit_xor_step a b =
    omega (arith, bit_xor_digits a b, differ_digits (a % 2) (b % 2) (omega arith) (omega arith))

-- `w >> k`, one place at a time.
unfoldable pub shr : ℕ → ℕ → ℕ
shr w zero = w
shr w (suc k) = shr (w / 2) k

bit_xor-half : (a b : ℕ) → bit_xor a b / 2 ≡ bit_xor (a / 2) (b / 2)
bit_xor-half a b = omega (arith, bit_xor_step a b)

bit_and-half : (a b : ℕ) → bit_and a b / 2 ≡ bit_and (a / 2) (b / 2)
bit_and-half a b = omega (arith, bit_and_step a b)

pub shr-bit_xor : (k a b : ℕ) → shr (bit_xor a b) k ≡ bit_xor (shr a k) (shr b k)
unfolding shr
shr-bit_xor zero a b = refl
shr-bit_xor (suc k) a b = rw (bit_xor-half a b) (shr-bit_xor k (a / 2) (b / 2))

pub shr-bit_and : (k a b : ℕ) → shr (bit_and a b) k ≡ bit_and (shr a k) (shr b k)
unfolding shr
shr-bit_and zero a b = refl
shr-bit_and (suc k) a b = rw (bit_and-half a b) (shr-bit_and k (a / 2) (b / 2))

zero_of_half : (n a : ℕ) → a ≤ n → bit_and a 0 ≡ 0
zero_of_half n zero h = refl
zero_of_half zero (suc a) h = absurd (omega arith)
zero_of_half (suc n) (suc a) h =
    omega (arith, bit_and_step (suc a) 0, zero_of_half n (suc a / 2) (omega arith))

pub bit_and-one : (w : ℕ) → bit_and w 1 ≡ w % 2
bit_and-one w = omega (arith, bit_and_step w 1, zero_of_half (w / 2) (w / 2) (le_refl _))

bit_and_twice : (w m : ℕ) → bit_and w (m * 2) ≡ bit_and (w / 2) m * 2
bit_and_twice w m = omega (arith, bit_and_step w (m * 2), ap (bit_and (w / 2)) (half_of_twice m))
  where
    half_of_twice : (m : ℕ) → m * 2 / 2 ≡ m
    half_of_twice m = omega arith

-- A mask that begins at place k sees the word from place k on.
pub bit_and-shl : (k w m : ℕ) → bit_and w (m * 2 ^ k) ≡ bit_and (shr w k) m * 2 ^ k
unfolding shr
bit_and-shl zero w m = simp mul-one
bit_and-shl (suc k) w m = rw (shifted m) (
    bit_and_twice w (m * 2 ^ k)
    ∙ ap (λ t. t * 2) (bit_and-shl k (w / 2) m)
    ∙ sym (shifted (bit_and (shr (w / 2) k) m)))
  where
    shifted : (t : ℕ) → t * 2 ^ suc k ≡ t * 2 ^ k * 2
    shifted t = rw (pow-suc 2 k) (sym (mul_assoc t (2 ^ k) 2))
