-- ===== src/Chp/Rows/Words.antt =====
-- What the loops over the words of a row leave in each word.
use sabot.Prelude.{
  ℕ, zero, suc, ◌*◌, ◌/◌, ◌%◌, ◌<◌, ◌≡◌, arith, ltb, lt→ltb, if◌then◌else◌, bit_xor, xor, false,
  inl, inr, Bool-cases,
}
use sabot.Word.Signed.{IsSigned, has-xor, xor-IsSigned, zero-IsSigned, has_zero}
use sabot.Loop.{for_below}
use sabot.Chp.{column}
use sabot.Chp.Rows.{copy_words, clear_words, xor_words}

copy_words_lem :
    (count : ℕ) (to from : ℕ → ℕ) (j : ℕ)
    → copy_words count to from j ≡ (if ltb j count then from j else to j)
unfolding copy_words for_below
copy_words_lem zero to from j = ground arith
copy_words_lem (suc k) to from j = ground (arith, copy_words_lem k to from j)

clear_words_lem :
    (count : ℕ) (v : ℕ → ℕ) (j : ℕ) → clear_words count v j ≡ (if ltb j count then 0 else v j)
unfolding clear_words for_below
clear_words_lem zero v j = ground arith
clear_words_lem (suc k) v j = ground (arith, clear_words_lem k v j)

xor_words_lem :
    (count : ℕ) (a b : ℕ → ℕ) (j : ℕ)
    → xor_words count a b j ≡ (if ltb j count then bit_xor (a j) (b j) else a j)
unfolding xor_words for_below
xor_words_lem zero a b j = ground arith
xor_words_lem (suc k) a b j = ground (arith, xor_words_lem k a b j, xor_words_lem k a b k)

module _ (count : ℕ) (a b : ℕ → ℕ) (sa : (j : ℕ) → IsSigned (a j))
    (sb : (j : ℕ) → IsSigned (b j)) where
  pub copy_words-IsSigned : (j : ℕ) → IsSigned (copy_words count a b j)
  copy_words-IsSigned j = elim (Bool-cases (ltb j count)) [
    | inl e ↦ rw (copy_words_lem count a b j, e) (sb j)
    | inr e ↦ rw (copy_words_lem count a b j, e) (sa j)
  ]

  pub xor_words-IsSigned : (j : ℕ) → IsSigned (xor_words count a b j)
  xor_words-IsSigned j = elim (Bool-cases (ltb j count)) [
    | inl e ↦ rw (xor_words_lem count a b j, e) (xor-IsSigned _ _ (sa j) (sb j))
    | inr e ↦ rw (xor_words_lem count a b j, e) (sa j)
  ]

  pub column-xor_words :
      (k : ℕ) → k < 32 * count → column (xor_words count a b) k ≡ xor (column a k) (column b k)
  unfolding column
  column-xor_words k lt =
      rw (xor_words_lem count a b (k / 32), lt→ltb (k / 32) count (omega arith))
        (has-xor _ _ (k % 32) (sa (k / 32)) (sb (k / 32)) (omega arith))

pub column-copy_words :
    (count : ℕ) (a b : ℕ → ℕ) (k : ℕ)
    → k < 32 * count
    → column (copy_words count a b) k ≡ column b k
unfolding column
column-copy_words count a b k lt =
    rw (copy_words_lem count a b (k / 32), lt→ltb (k / 32) count (omega arith))

pub clear_words-IsSigned :
    (count : ℕ) (a : ℕ → ℕ)
    → ((j : ℕ) → IsSigned (a j))
    → (j : ℕ) → IsSigned (clear_words count a j)
clear_words-IsSigned count a sa j = elim (Bool-cases (ltb j count)) [
  | inl e ↦ rw (clear_words_lem count a j, e) zero-IsSigned
  | inr e ↦ rw (clear_words_lem count a j, e) (sa j)
]

pub column-clear_words :
    (count : ℕ) (a : ℕ → ℕ) (k : ℕ) → k < 32 * count → column (clear_words count a) k ≡ false
unfolding column
column-clear_words count a k lt =
    rw (clear_words_lem count a (k / 32), lt→ltb (k / 32) count (omega arith)) (has_zero (k % 32))
