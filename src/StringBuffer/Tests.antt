-- ===== src/StringBuffer/Tests.antt =====
-- The concatenation of C strings at a concrete buffer.
use sabot.Prelude.{
  ℕ, ◌+◌, ◌%◌, ◌≤◌, ◌<◌, some, ◌≡◌, refl, none, [], ◌∷◌, ◌++◌, replicate, length-replicate, arith,
}
use sabot.Outcome.{returned}
use sabot.Container.{Container, stack_capacity, capacity, capacity_of, mdata, data_of, contents}
use sabot.Container.Laws.{IsContainer}
use sabot.StringBuffer.{append, of_string}
use sabot.StringBuffer.Create.{stack_capacity_lem, of_string-contents}
use sabot.StringBuffer.Concat.{append-terminated}

abbrev ab : Container ℕ
ab = record { count = 3; heap = none; stack = b'a' ∷ b'b' ∷ 0 ∷ 0 ∷ 0 ∷ 0 ∷ 0 ∷ 0 ∷ [] }

ab-IsContainer : IsContainer ab
unfolding capacity capacity_of mdata data_of
ab-IsContainer = record { capacity_length = refl; count_le = omega arith; small = omega arith }

ab_text : contents ab ≡ (b'a' ∷ b'b' ∷ []) ++ 0 ∷ []
unfolding contents mdata data_of
ab_text = refl

append-terminated_example :
    (d : Container ℕ) × (append (λ k. replicate k 9) ab (b'c' ∷ []) ≡ returned d)
    × IsContainer d
    × (contents d ≡ ((b'a' ∷ b'b' ∷ []) ++ b'c' ∷ []) ++ 0 ∷ [])
append-terminated_example =
    append-terminated (λ k. replicate k 9) ab (b'a' ∷ b'b' ∷ []) (b'c' ∷ [])
      (λ k. length-replicate k 9) ab-IsContainer ab_text (omega arith)

stack_capacity_lem_example :
    (8 ≤ stack_capacity 5)
    × (5 ≤ stack_capacity 5)
    × (stack_capacity 5 % 5 ≡ 0)
    × (stack_capacity 5 < 8 + 5)
stack_capacity_lem_example = stack_capacity_lem 5 (omega arith) (omega arith)

of_string-contents_example :
    (d : Container ℕ) × (of_string (λ k. replicate k 9) 40 (some (b'o' ∷ b'k' ∷ [])) ≡ returned d)
    × IsContainer d
    × (contents d ≡ (b'o' ∷ b'k' ∷ []) ++ 0 ∷ [])
of_string-contents_example =
    of_string-contents (λ k. replicate k 9) 40 (b'o' ∷ b'k' ∷ []) (λ k. length-replicate k 9)
      (omega arith) (omega arith) (omega arith)
