-- ===== src/Word/Signed.antt =====
-- Sign-extended words. Every word of the tableau repeats its bit 31 in the places above, which is
-- what makes the test of column 31, whose mask covers all those places, a test of one bit.
use Prim.Native.Nat.{bit_and-bitwise}
use native.Mathlib.Decide.{dec_lt}
use sabot.Prelude.{
  ℕ, zero, suc, ◌+◌, if◌then◌else◌, ◌-◌, ◌*◌, ◌%◌, ◌^◌, ◌≤◌, ◌<◌, ◌≡◌, refl, ap, ◌∙◌, arith, ◌==◌,
  ==_iff, ltb, ltb→lt, bit_and, bit_xor, Bool, true, false, not, ◌&&◌, ◌||◌, xor, ◌⊎◌, inl, inr,
}
use sabot.Word.{pt, has}
use sabot.Word.Bits.{
  shr, shr-bit_xor, shr-bit_and, bit_and-shl, bit_and-one, bit_xor_step, bit_and_step,
}

abbrev pub ones : ℕ
ones = 2 ^ 33 - 1

abbrev pub IsSigned : ℕ → Type 0
IsSigned w = (shr w 31 ≡ 0) ⊎ (shr w 31 ≡ ones)

-- The test passes at `left` places from `place` on; on literals this is found by evaluation.
passes : (test : ℕ → Bool) → ℕ → ℕ → Bool
passes test place zero = true
passes test place (suc left) = if test place then passes test (place + 1) left else false

passes_at :
    (test : ℕ → Bool) (left place j : ℕ)
    → place ≤ j
    → j < place + left
    → passes test place left ≡ true
    → test j ≡ true
unfolding passes
passes_at test zero place j low high e = absurd (omega arith)
passes_at test (suc left) place j low high e = ground (arith, passes_at test left (place + 1) j)

table_entry : (n : ℕ) (test : ℕ → Bool) (j : ℕ) → passes test 0 n ≡ true → j < n → test j ≡ true
table_entry n test j e h = passes_at test n 0 j (omega arith) (omega arith) e

abbrev odd : ℕ → Bool
odd n = n % 2 == 1

pt_table : passes (λ j. pt j == 1 * 2 ^ j) 0 31 ≡ true
unfolding passes pt
pt_table = refl

pt-low : (j : ℕ) → j < 31 → pt j ≡ 1 * 2 ^ j
pt-low j h = (==_iff _ _).0 (table_entry 31 (λ j. pt j == 1 * 2 ^ j) j pt_table h)

pow_table : passes (λ j. ltb 0 (2 ^ j)) 0 32 ≡ true
unfolding passes
pow_table = refl

times_zero : (x p : ℕ) → 0 < p → (x * p == 0) ≡ (x == 0)
times_zero zero p h = ground arith
times_zero (suc x) p h = ground (arith, grows)
  where
    grows : p ≤ suc x * p
    grows = grind arith

shifted_zero : (x j : ℕ) → j < 32 → (x * 2 ^ j == 0) ≡ (x == 0)
shifted_zero x j h =
    times_zero x (2 ^ j) (ltb→lt 0 (2 ^ j) (table_entry 32 (λ j. ltb 0 (2 ^ j)) j pow_table h))

bit_of_parity : (x : ℕ) → not (x % 2 == 0) ≡ odd x
bit_of_parity x = ground arith

has_shifted : (w m j : ℕ) → j < 32 → pt j ≡ m * 2 ^ j → has w j ≡ not (bit_and (shr w j) m == 0)
unfolding has
has_shifted w m j h e = rw (e, bit_and-shl j w m) (ap not (shifted_zero (bit_and (shr w j) m) j h))

pt-top : pt 31 ≡ ones * 2 ^ 31
unfolding pt
pt-top = refl

top_bit : (h : ℕ) → (h ≡ 0) ⊎ (h ≡ ones) → not (bit_and h ones == 0) ≡ odd h
top_bit h (inl e) = rw e
top_bit h (inr e) = rw e

-- The test reads one bit.
pub has_bit : (w j : ℕ) → IsSigned w → j < 32 → has w j ≡ odd (shr w j)
has_bit w j s h = elim (dec_lt j 31) [
  | yes low ↦
      has_shifted w 1 j h (pt-low j low)
      ∙ ap (λ t. not (t == 0)) (bit_and-one (shr w j))
      ∙ bit_of_parity (shr w j)
  | no top ↦
      let e : j ≡ 31 = omega arith in
      rw e (has_shifted w ones 31 (omega arith) pt-top ∙ top_bit (shr w 31) s)
]

pub zero-IsSigned : IsSigned 0
unfolding shr
zero-IsSigned = inl refl

signed_table : passes (λ j. shr (pt j) 31 == 0 || shr (pt j) 31 == ones) 0 32 ≡ true
unfolding passes pt shr
signed_table = refl

pub pt-IsSigned : (j : ℕ) → j < 32 → IsSigned (pt j)
pt-IsSigned j h =
    ground
      (arith, table_entry 32 (λ j. shr (pt j) 31 == 0 || shr (pt j) 31 == ones) j signed_table h)

both_extended :
    (a b : ℕ)
    → (a ≡ 0) ⊎ (a ≡ ones)
    → (b ≡ 0) ⊎ (b ≡ ones)
    → ((bit_xor a b ≡ 0) ⊎ (bit_xor a b ≡ ones)) × ((bit_and a b ≡ 0) ⊎ (bit_and a b ≡ ones))
both_extended a b (inl p) (inl q) = rw (p, q) (inl refl, inl refl)
both_extended a b (inl p) (inr q) = rw (p, q) (inr refl, inl refl)
both_extended a b (inr p) (inl q) = rw (p, q) (inr refl, inl refl)
both_extended a b (inr p) (inr q) = rw (p, q) (inl refl, inr refl)

pub xor-IsSigned : (a b : ℕ) → IsSigned a → IsSigned b → IsSigned (bit_xor a b)
xor-IsSigned a b p q = rw (shr-bit_xor 31 a b) (both_extended _ _ p q).0

pub and-IsSigned : (a b : ℕ) → IsSigned a → IsSigned b → IsSigned (bit_and a b)
and-IsSigned a b p q = rw (shr-bit_and 31 a b) (both_extended _ _ p q).1

odd-xor : (a b : ℕ) → odd (bit_xor a b) ≡ xor (odd a) (odd b)
odd-xor a b = ground (arith, bit_xor_step a b)

odd-and : (a b : ℕ) → odd (bit_and a b) ≡ (odd a && odd b)
odd-and a b = ground (arith, bit_and_step a b)

module _ (a b j : ℕ) (sa : IsSigned a) (sb : IsSigned b) (h : j < 32) where
  -- An exclusive or of words is one of columns.
  pub has-xor : has (bit_xor a b) j ≡ xor (has a j) (has b j)
  has-xor =
      rw
        (
          has_bit (bit_xor a b) j (xor-IsSigned a b sa sb) h,
          has_bit a j sa h,
          has_bit b j sb h,
          shr-bit_xor j a b,
        )
        (odd-xor (shr a j) (shr b j))

  pub has-and : has (bit_and a b) j ≡ (has a j && has b j)
  has-and =
      rw
        (
          has_bit (bit_and a b) j (and-IsSigned a b sa sb) h,
          has_bit a j sa h,
          has_bit b j sb h,
          shr-bit_and j a b,
        )
        (odd-and (shr a j) (shr b j))

column_table : passes (λ j. passes (λ k. not (xor (has (pt j) k) (j == k))) 0 32) 0 32 ≡ true
unfolding passes has pt
column_table = refl

-- The mask of a column has that column and no other.
pub has-pt : (j k : ℕ) → j < 32 → k < 32 → has (pt j) k ≡ (j == k)
has-pt j k hj hk = ground (
  arith,
  table_entry 32 _ k
      (table_entry 32 (λ j. passes (λ k. not (xor (has (pt j) k) (j == k))) 0 32) j column_table hj)
      hk,
)

pub has_zero : (k : ℕ) → has 0 k ≡ false
unfolding has
has_zero k = rw (bit_and-bitwise 0 (pt k))
