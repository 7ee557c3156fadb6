-- ===== src/Randnum/Tests.antt =====
-- The theorems on the generator at concrete weights.
use sabot.Prelude.{
  ℕ, ◌+◌, ◌-◌, ◌*◌, ◌/◌, ◌^◌, ◌≤◌, ◌≡◌, refl, arith, ltb, leb, if◌then◌else◌, List, [], ◌∷◌, take,
}
use sabot.Prelude.Int.{ℤ, pos, negsuc, pos_part, ltb_ℤ, ◌+ℤ◌, ◌-ℤ◌}
use sabot.Outcome.{returned, threw, Exception}
use sabot.Randnum.{
  Generator, Floating, RealDraw, get_uniform_real, accumulate, pick, get_weighted_integer,
}
use sabot.Randnum.Weighted.{IsExact, IsHalfOpen, Covers, weight_before, get_weighted_integer-Covers}

abbrev limit : ℕ
limit = 2 ^ 53

-- The whole numbers of a double: signed, and rounded past the limit.
abbrev rounded : ℤ → ℤ
rounded (pos n) = if leb n limit then pos n else pos (n / 2 * 2)
rounded (negsuc n) = negsuc n

abbrev whole : Floating ℤ
whole = record {
  zero = pos 0;
  add = λ a b. rounded (a +ℤ b);
  sub = λ a b. rounded (a -ℤ b);
  less = ltb_ℤ;
}

-- Those that are not negative and within the limit.
abbrev IsCount : ℤ → Type 0
IsCount (pos n) = n ≤ limit
IsCount (negsuc n) = ⊥

whole-IsExact : IsExact whole pos_part IsCount limit
unfolding ◌+ℤ◌ ◌-ℤ◌
whole-IsExact = record {
  zero_exact = omega arith;
  zero_value = refl;
  add_exact = λ a b x y h. added a b x y h;
  sub_exact = λ a b x y h. subtracted a b x y h;
  less_value = λ a b x y. compared a b x y;
}
  where
    added :
        (a b : ℤ)
        → IsCount a
        → IsCount b
        → pos_part a + pos_part b ≤ limit
        → IsCount (rounded (a +ℤ b)) × (pos_part (rounded (a +ℤ b)) ≡ pos_part a + pos_part b)
    added (pos a) (pos b) x y h = ground (arith, h)
    added (pos a) (negsuc b) x y h = absurd y
    added (negsuc a) b x y h = absurd x

    subtracted :
        (a b : ℤ)
        → IsCount a
        → IsCount b
        → pos_part b ≤ pos_part a
        → IsCount (rounded (a -ℤ b)) × (pos_part (rounded (a -ℤ b)) ≡ pos_part a - pos_part b)
    subtracted (pos a) (pos b) x y h = ground (arith, h)
    subtracted (pos a) (negsuc b) x y h = absurd y
    subtracted (negsuc a) b x y h = absurd x

    compared : (a b : ℤ) → IsCount a → IsCount b → ltb_ℤ a b ≡ ltb (pos_part a) (pos_part b)
    compared (pos a) (pos b) x y = ground arith
    compared (pos a) (negsuc b) x y = absurd y
    compared (negsuc a) b x y = absurd x

-- The middle of the interval.
abbrev middle : RealDraw ℤ ℕ
middle lower upper rng = (pos ((pos_part lower + pos_part upper) / 2), rng + 1)

middle-IsHalfOpen : IsHalfOpen pos_part IsCount middle (pos 0) (pos 10)
middle-IsHalfOpen rng h = (omega arith, omega arith, omega arith)

abbrev weights : List ℤ
weights = pos 4 ∷ pos 0 ∷ pos 6 ∷ []

abbrev generator : Generator ℕ
generator = record { rng_seed = 0; position = 0; rng = 0 }

get_weighted_integer-Covers_example :
    let used = take {A = ℤ} 3 weights in
    let (sample, g1) = get_uniform_real middle generator (pos 0) (accumulate whole (pos 0) used) in
    (k : ℕ) × (get_weighted_integer whole middle generator weights 3 ≡ (returned k, g1))
    × Covers whole pos_part IsCount limit used (pos_part sample) k
unfolding accumulate weight_before ◌+ℤ◌
get_weighted_integer-Covers_example =
    get_weighted_integer-Covers whole pos_part IsCount limit middle generator weights 3
      whole-IsExact middle-IsHalfOpen (omega arith) (omega arith, (omega arith, (omega arith, tt)))
      (omega arith) (omega arith)

chosen : (get_weighted_integer whole middle generator weights 3).0 ≡ returned 2
unfolding get_weighted_integer get_uniform_real accumulate pick ◌+ℤ◌ ◌-ℤ◌
chosen = refl

-- Without weight the end of the loop is reached.
nothing_chosen :
    (get_weighted_integer whole middle generator (pos 0 ∷ pos 0 ∷ []) 2).0
    ≡ threw Exception.logic_error
unfolding get_weighted_integer get_uniform_real accumulate pick ◌+ℤ◌ ◌-ℤ◌
nothing_chosen = refl
