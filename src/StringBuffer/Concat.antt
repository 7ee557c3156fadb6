-- ===== src/StringBuffer/Concat.antt =====
-- `+=` on a string_buffer is the concatenation of C strings.
use sabot.Prelude.{
  ℕ, zero, suc, ◌+◌, ◌-◌, ◌≤◌, ◌≡◌, sym, ap, ◌∙◌, ◌==◌, true, false, List, [], ◌∷◌, ◌++◌, take,
  drop, get_or, length, length-append, length-take, arith,
}
use sabot.Outcome.{returned}
use sabot.Utility.{word_mod}
use sabot.Container.{Container, mdata, contents, trim}
use sabot.Container.Laws.{IsContainer, take-append, append_assoc, trim-contents}
use sabot.Container.Grow.{add-contents}
use sabot.StringBuffer.{ends_in_zero, append}

length-contents : (c : Container ℕ) → IsContainer c → length (contents c) ≡ c.count
unfolding contents
length-contents c ok = omega (arith, length-take c.count (mdata c), ok.count_le)

last-take :
    (xs : List ℕ) (n : ℕ) (s : List ℕ) → take n xs ≡ s ++ 0 ∷ [] → get_or xs (length s) 1 ≡ 0
last-take xs zero [] e = cc
last-take xs zero (a ∷ s) e = cc
last-take [] (suc n) [] e = cc
last-take [] (suc n) (a ∷ s) e = cc
last-take (x ∷ xs) (suc n) [] e = ap (λ l. get_or l 0 1) e
last-take (x ∷ xs) (suc n) (a ∷ s) e = last-take xs n s (ap (drop 1) e)

-- The terminator is seen where there is one.
terminated :
    (c : Container ℕ) (s : List ℕ)
    → IsContainer c
    → contents c ≡ s ++ 0 ∷ []
    → (ends_in_zero c ≡ true) × (c.count ≡ length s + 1)
unfolding ends_in_zero contents
terminated c s ok e =
    let n : c.count ≡ length s + 1 =
      omega (arith, length-contents c ok, ap (length {0}) e, length-append s (0 ∷ [])) in
    let last = last-take (mdata c) c.count s e in
    let pos : (c.count == 0) ≡ false = ground arith in
    let before : c.count - 1 ≡ length s = omega arith in (rw (pos, before, last), n)

-- Appending to a buffer that holds a terminated C string gives the concatenation, terminated once.
pub append-terminated :
    (fresh : ℕ → List ℕ) (c : Container ℕ) (s t : List ℕ)
    → ((k : ℕ) → length (fresh k) ≡ k)
    → IsContainer c
    → contents c ≡ s ++ 0 ∷ []
    → length s + length t + 9 ≤ word_mod
    → (d : Container ℕ) × (append fresh c t ≡ returned d)
      × IsContainer d
      × (contents d ≡ (s ++ t) ++ 0 ∷ [])
unfolding append
append-terminated fresh c s t sized ok e small =
    let (seen, n) = terminated c s ok e in
    let (count, is, holds) = trim-contents c 1 ok (omega arith) in
    let before : c.count - 1 ≡ length s = omega arith in
    let text : contents (trim 1 c) ≡ s =
      holds ∙ ap (λ k. take k (contents c)) before ∙ ap (take (length s)) e ∙ take-append s _ in
    let (d, r, whole, all) =
      add-contents 1 fresh (trim 1 c) (t ++ 0 ∷ []) sized is (omega arith)
        (omega (arith, length-append t (0 ∷ []))) in
    (d, rw seen r, whole, all ∙ ap (λ m. m ++ (t ++ 0 ∷ [])) text ∙ sym (append_assoc s t (0 ∷ [])))
