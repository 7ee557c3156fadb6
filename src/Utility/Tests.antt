-- ===== src/Utility/Tests.antt =====
-- The theorems on utility.hpp at concrete numbers.
use sabot.Prelude.{ℕ, ◌+◌, ◌<◌, ◌≤◌, ◌≡◌, ◌↔◌, true, [], ◌∷◌, ◌++◌, length, arith}
use sabot.Utility.{memory_overlap, stuif}
use sabot.Utility.Decimal.{decimal, stuif-decimal}
use sabot.Utility.Rounding.{memory_overlap_iff}

stuif-decimal_example :
    stuif (decimal 9007199254740993 ++ b',' ∷ []) (length (decimal 9007199254740993))
    ≡ 9007199254740993
stuif-decimal_example = stuif-decimal 9007199254740993 (b',' ∷ []) (omega arith)

memory_overlap_iff_example :
    (memory_overlap 100 10 109 5 1 ≡ true)
    ↔ ((x : ℕ) × (100 ≤ x) × (x < 100 + 10) × (109 ≤ x) × (x < 109 + 5))
memory_overlap_iff_example =
    memory_overlap_iff 100 10 109 5 (omega arith) (omega arith) (omega arith) (omega arith)
