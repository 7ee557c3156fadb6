-- ===== src/Chp/Gates/Columns.antt =====
-- How the masked writes of the gates change the columns of a row.
use sabot.Prelude.{
  ℕ, ◌/◌, ◌%◌, ◌<◌, ◌≡◌, ◌∙◌, arith, ◌==◌, if◌then◌else◌, bit_and, bit_xor, Bool, true, ◌&&◌, xor,
  Bool-cases, inl, inr,
}
use sabot.Word.{pt, has}
use sabot.Word.Signed.{IsSigned, has-xor, has-and, has-pt, xor-IsSigned, and-IsSigned, pt-IsSigned}
use sabot.Chp.{column, xor_word}

pub xor_word-IsSigned :
    (v : ℕ → ℕ) (j m : ℕ)
    → ((i : ℕ) → IsSigned (v i))
    → IsSigned m
    → (i : ℕ) → IsSigned (xor_word v j m i)
unfolding xor_word
xor_word-IsSigned v j m h s i = elim (Bool-cases (i == j)) [
  | inl e ↦ rw e (xor-IsSigned (v j) m (h j) s)
  | inr e ↦ rw e (h i)
]

==_comm : (a b : ℕ) → (a == b) ≡ (b == a)
==_comm a b = ground arith

-- A masked write changes the column of its mask, by the column of the value written.
pub column-xor_word :
    (v : ℕ → ℕ) (q m k : ℕ) (b : Bool)
    → ((i : ℕ) → IsSigned (v i))
    → IsSigned m
    → ((c : ℕ) → c < 32 → has m c ≡ (b && (c == q % 32)))
    → column (xor_word v (q / 32) m) k ≡ xor (b && (k == q)) (column v k)
unfolding column xor_word
column-xor_word v q m k b h s only = elim (Bool-cases (k / 32 == q / 32)) [
  | inl e ↦
      rw
        (
          e,
          has-xor (v (q / 32)) m (k % 32) (h (q / 32)) s (omega arith),
          only (k % 32) (omega arith),
        )
        (ground arith)
  | inr e ↦ rw e (ground arith)
]

module _ (q : ℕ) where
  pub place-lt : q % 32 < 32
  place-lt = omega arith

  -- x[i][q>>5] ^= pt(q&0x1F) flips column q.
  pub column_flip :
      (v : ℕ → ℕ) (k : ℕ)
      → ((i : ℕ) → IsSigned (v i))
      → column (xor_word v (q / 32) (pt (q % 32))) k ≡ xor (k == q) (column v k)
  column_flip v k h =
      column-xor_word v q (pt (q % 32)) k true h (pt-IsSigned (q % 32) place-lt)
        (λ c lt. has-pt (q % 32) c place-lt lt ∙ ==_comm (q % 32) c)

  -- x[i][q>>5] ^= w & pt(q&0x1F) adds column q of w to column q.
  pub column_mask :
      (v : ℕ → ℕ) (w k : ℕ)
      → ((i : ℕ) → IsSigned (v i))
      → IsSigned w
      → column (xor_word v (q / 32) (bit_and w (pt (q % 32)))) k
        ≡ xor (has w (q % 32) && (k == q)) (column v k)
  column_mask v w k h s =
      column-xor_word v q _ k (has w (q % 32)) h
        (and-IsSigned w (pt (q % 32)) s (pt-IsSigned (q % 32) place-lt)) masked
    where
      masked :
          (c : ℕ) → c < 32 → has (bit_and w (pt (q % 32))) c ≡ (has w (q % 32) && (c == q % 32))
      masked c lt =
          rw
            (
              has-and w (pt (q % 32)) c s (pt-IsSigned (q % 32) place-lt) lt,
              has-pt (q % 32) c place-lt lt,
            )
            (ground arith)

-- u[q>>5] ^= (u[q>>5] ^ v[q>>5]) & pt(q&0x1F), which gives u the column q of v.
unfoldable pub take_column : (ℕ → ℕ) → (ℕ → ℕ) → ℕ → ℕ → ℕ
take_column u v q = xor_word u (q / 32) (bit_and (bit_xor (u (q / 32)) (v (q / 32))) (pt (q % 32)))

-- u[q>>5] ^= v[q>>5] & pt(q&0x1F), which adds the column q of v to that of u.
unfoldable pub add_column : (ℕ → ℕ) → (ℕ → ℕ) → ℕ → ℕ → ℕ
add_column u v q = xor_word u (q / 32) (bit_and (v (q / 32)) (pt (q % 32)))

module _ (u v : ℕ → ℕ) (q : ℕ) (su : (i : ℕ) → IsSigned (u i)) (sv : (i : ℕ) → IsSigned (v i)) where
  has_mixed : has (bit_xor (u (q / 32)) (v (q / 32))) (q % 32) ≡ xor (column u q) (column v q)
  unfolding column
  has_mixed = has-xor _ _ (q % 32) (su (q / 32)) (sv (q / 32)) (place-lt q)

  pub column-take_column :
      (k : ℕ) → column (take_column u v q) k ≡ (if k == q then column v q else column u k)
  unfolding take_column
  column-take_column k =
      rw
        (
          column_mask q u (bit_xor (u (q / 32)) (v (q / 32))) k su
              (xor-IsSigned _ _ (su (q / 32)) (sv (q / 32))),
          has_mixed,
        )
        (ground arith)

  pub take_column-IsSigned : (i : ℕ) → IsSigned (take_column u v q i)
  unfolding take_column
  take_column-IsSigned = xor_word-IsSigned u _ _ su (
      and-IsSigned _ _ (xor-IsSigned _ _ (su (q / 32)) (sv (q / 32)))
        (pt-IsSigned (q % 32) (place-lt q)))

  pub column-add_column :
      (k : ℕ) → column (add_column u v q) k ≡ xor (column v q && (k == q)) (column u k)
  unfolding add_column column
  column-add_column k = column_mask q u (v (q / 32)) k su (sv (q / 32))

  pub add_column-IsSigned : (i : ℕ) → IsSigned (add_column u v q i)
  unfolding add_column
  add_column-IsSigned =
      xor_word-IsSigned u _ _ su
        (and-IsSigned _ _ (sv (q / 32)) (pt-IsSigned (q % 32) (place-lt q)))

pub flip-IsSigned :
    (u : ℕ → ℕ) (q : ℕ)
    → ((i : ℕ) → IsSigned (u i))
    → (i : ℕ) → IsSigned (xor_word u (q / 32) (pt (q % 32)) i)
flip-IsSigned u q h = xor_word-IsSigned u _ _ h (pt-IsSigned (q % 32) (place-lt q))
