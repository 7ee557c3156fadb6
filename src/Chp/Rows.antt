-- ===== src/Chp/Rows.antt =====
-- The row operations of state/chp_state.hpp. They take row numbers below 2n + 1 of an allocated
-- tableau, which is what their callers pass.
pub mod Words
pub mod Multiply
pub mod Copy
use sabot.Prelude.{
  ℕ, suc, ◌+◌, ◌-◌, ◌*◌, ◌/◌, ◌%◌, ◌==◌, ltb, if◌then◌else◌, bit_xor, Bool, not, ◌&&◌,
}
use sabot.Prelude.Int.{ℤ, pos, negsuc, ◌+ℤ◌}
use sabot.Word.{pt, has}
use sabot.Loop.{for_below, scan, update}
use sabot.Chp.{Row, ChpState, column, negate}

-- for(i = 0; i < over32; i++) to[i] = from[i]
pub copy_words : ℕ → (ℕ → ℕ) → (ℕ → ℕ) → ℕ → ℕ
copy_words over32 to from = for_below over32 (λ i v. update v i (from i)) to

unfoldable pub copied_row : ℕ → Row → Row → Row
copied_row over32 to from = record {
  x = copy_words over32 to.x from.x;
  z = copy_words over32 to.z from.z;
  r = from.r;
}

unfoldable pub rowcopy : ChpState → ℕ → ℕ → ChpState
rowcopy s to from = record s { row = update s.row to (copied_row s.over32 (s.row to) (s.row from)) }

pub rowswap : ChpState → ℕ → ℕ → ChpState
rowswap s a b = let s1 = rowcopy s (2 * s.n) b in let s2 = rowcopy s1 b a in rowcopy s2 a (2 * s.n)

-- for(j = 0; j < over32; j++) v[j] = 0
pub clear_words : ℕ → (ℕ → ℕ) → ℕ → ℕ
clear_words over32 v = for_below over32 (λ j u. update u j 0) v

unfoldable pub cleared_row : ℕ → Row → Row
cleared_row over32 w = record { x = clear_words over32 w.x; z = clear_words over32 w.z; r = 0 }

-- The row of the observable X_o for o < n and Z_(o-n) for the others.
unfoldable pub observable_row : ℕ → ℕ → ℕ → Row → Row
observable_row n over32 observable w =
    let c = cleared_row over32 w in
    if ltb observable n
    then record c { x = update c.x (observable / 32) (pt (observable % 32)) }
    else record c { z = update c.z ((observable - n) / 32) (pt ((observable - n) % 32)) }

unfoldable pub rowset : ChpState → ℕ → ℕ → ChpState
rowset s to observable = record s {
  row = update s.row to (observable_row s.n s.over32 observable (s.row to));
}

-- One round of the loops of `clifford`: column j of word i of the rows a and b.
unfoldable pub clifford_step : Row → Row → ℕ → ℕ → ℤ → ℤ
clifford_step a b i j e =
    let xa = has (a.x i) j in
    let za = has (a.z i) j in
    let xb = has (b.x i) j in
    let zb = has (b.z i) j in
    let e1 = if xb && not zb && (xa && za) then e +ℤ pos 1 else e in
    let e2 = if xb && not zb && (not xa && za) then e1 +ℤ negsuc 0 else e1 in
    let e3 = if xb && zb && (not xa && za) then e2 +ℤ pos 1 else e2 in
    let e4 = if xb && zb && (xa && not za) then e3 +ℤ negsuc 0 else e3 in
    let e5 = if not xb && zb && (xa && not za) then e4 +ℤ pos 1 else e4 in
    if not xb && zb && (xa && za) then e5 +ℤ negsuc 0 else e5

-- `e%4`, brought into 0 to 3: C++ rounds the quotient to zero, so `e%4` has the sign of `e`.
unfoldable pub to_phase : ℤ → ℕ
to_phase (pos e) = e % 4
to_phase (negsuc e) = if (e + 1) % 4 == 0 then 0 else 4 - (e + 1) % 4

unfoldable pub clifford_sum : ℕ → Row → Row → ℤ
clifford_sum over32 a b =
    for_below over32 (λ i e. for_below 32 (λ j d. clifford_step a b i j d) e) (pos 0)

pub clifford : ChpState → ℕ → ℕ → ℕ
clifford s a b =
    to_phase (clifford_sum s.over32 (s.row a) (s.row b) +ℤ pos (s.row a).r +ℤ pos (s.row b).r)

-- for(i = 0; i < over32; i++) a[i] ^= b[i]
pub xor_words : ℕ → (ℕ → ℕ) → (ℕ → ℕ) → ℕ → ℕ
xor_words over32 a b = for_below over32 (λ i v. update v i (bit_xor (v i) (b i))) a

pub rowmult : ChpState → ℕ → ℕ → ChpState
rowmult s a b = record s { row = update s.row a multiplied }
  where
    multiplied : Row
    multiplied = record {
      x = xor_words s.over32 (s.row a).x (s.row b).x;
      z = xor_words s.over32 (s.row a).z (s.row b).z;
      r = clifford s a b;
    }
