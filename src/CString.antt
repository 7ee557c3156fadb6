-- ===== src/CString.antt =====
-- C strings, as lists of bytes.
use sabot.Prelude.{ℕ, ◌<◌, ◌≡◌, refl, arith, ◌==◌, if◌then◌else◌, List, [], ◌∷◌, ◌++◌}

-- The bytes of a C string before its terminator.
unfoldable pub c_string : List ℕ → List ℕ
c_string [] = []
c_string (b ∷ bs) = let rest = c_string bs in if b == 0 then [] else b ∷ rest

-- No byte is the terminator.
abbrev pub IsText : List ℕ → Type 0
IsText [] = Unit {0}
IsText (b ∷ bs) = (0 < b) × IsText bs

pub c_string_terminated : (s : List ℕ) → IsText s → c_string (s ++ 0 ∷ []) ≡ s
unfolding c_string
c_string_terminated [] h = refl
c_string_terminated (b ∷ bs) (pos, h) = ground (arith, c_string_terminated bs h)

pub c_string_text : (s : List ℕ) → IsText s → c_string s ≡ s
unfolding c_string
c_string_text [] h = refl
c_string_text (b ∷ bs) (pos, h) = ground (arith, c_string_text bs h)

pub IsText-append : (xs ys : List ℕ) → IsText xs → IsText ys → IsText (xs ++ ys)
IsText-append [] ys h g = g
IsText-append (x ∷ xs) ys (pos, h) g = (pos, IsText-append xs ys h g)
