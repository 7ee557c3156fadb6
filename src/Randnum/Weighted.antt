-- ===== src/Randnum/Weighted.antt =====
-- The weighted choice of randnum/generator.hpp, on numbers for which the arithmetic is exact.
use sabot.Prelude.{
  ℕ, zero, suc, ◌+◌, ◌-◌, ◌≤◌, ◌<◌, ◌≡◌, refl, ◌∙◌, ap, arith, ltb, false, Bool-cases, inl, inr,
  some, List, [], ◌∷◌, length, length-take, take,
}
use sabot.Outcome.{returned}
use sabot.Randnum.{
  Generator, Floating, RealDraw, get_uniform_real, accumulate, pick, get_weighted_integer,
}

module _ {R : Type 0} (f : Floating R) (value : R → ℕ) (IsExactly : R → Type 0) (limit : ℕ) where
  -- Some numbers of R, of which zero is one, are the multiples, up to a limit, of a unit, as those up to
  -- 2 ^ 53 units are among the doubles. On these the operations are exact. Nothing is said of the others.
  pub record IsExact : Type 0 where
    pub zero_exact : IsExactly f.zero
    pub zero_value : value f.zero ≡ 0
    pub add_exact :
        (a b : R)
        → IsExactly a
        → IsExactly b
        → value a + value b ≤ limit
        → IsExactly (f.add a b) × (value (f.add a b) ≡ value a + value b)
    pub sub_exact :
        (a b : R)
        → IsExactly a
        → IsExactly b
        → value b ≤ value a
        → IsExactly (f.sub a b) × (value (f.sub a b) ≡ value a - value b)
    pub less_value : (a b : R) → IsExactly a → IsExactly b → f.less a b ≡ ltb (value a) (value b)

  abbrev pub AllExactly : List R → Type 0
  AllExactly [] = Unit {0}
  AllExactly (w ∷ ws) = IsExactly w × AllExactly ws

  -- The sum of the first weights.
  unfoldable pub weight_before : ℕ → List R → ℕ
  weight_before zero ws = 0
  weight_before (suc k) [] = 0
  weight_before (suc k) (w ∷ ws) = value w + weight_before k ws

  -- A choice whose weights up to it reach over the sample.
  abbrev pub Covers : List R → ℕ → ℕ → Type 0
  Covers ws sample i =
      (i < length ws) × (weight_before i ws ≤ sample) × (sample < weight_before (suc i) ws)

  total : List R → ℕ
  total ws = weight_before (length ws) ws

  accumulate-value :
      (e : IsExact) (start : R) (ws : List R)
      → IsExactly start
      → AllExactly ws
      → value start + total ws ≤ limit
      → IsExactly (accumulate f start ws) × (value (accumulate f start ws) ≡ value start + total ws)
  unfolding accumulate total weight_before
  accumulate-value e start [] x xs h = (x, omega arith)
  accumulate-value e start (w ∷ ws) x (y, ys) h =
      let (exact, sum) = e.add_exact start w x y (omega arith) in
      let (exact', sum') = accumulate-value e (f.add start w) ws exact ys (omega (arith, sum)) in
      (exact', omega (arith, sum, sum'))

  pick-Covers :
      (e : IsExact) (sample : R) (ws : List R) (i : ℕ)
      → IsExactly sample
      → AllExactly ws
      → value sample < total ws
      → (k : ℕ) × (pick f sample ws i ≡ some (i + k)) × Covers ws (value sample) k
  unfolding pick total weight_before
  pick-Covers e sample [] i x xs h = absurd (omega arith)
  pick-Covers e sample (w ∷ ws) i x (y, ys) h = elim (Bool-cases (f.less sample w)) [
    | inl e1 ↦
        let below : value sample < value w = ground (arith, e.less_value sample w x y) in
        let e0 : i ≡ i + 0 = omega arith in
        (0, rw e1 (ap some e0), (omega arith, omega arith, omega arith))
    | inr e1 ↦
        let above : value w ≤ value sample = ground (arith, e.less_value sample w x y) in
        let (exact, left) = e.sub_exact sample w x y above in
        let (k, found, (inside, low, high)) =
          pick-Covers e (f.sub sample w) ws (i + 1) exact ys (omega (arith, left)) in
        let shift : i + 1 + k ≡ i + suc k = omega arith in
        (
          suc k,
          rw e1 (found ∙ ap some shift),
          (omega arith, omega (arith, left), omega (arith, left)),
        )
  ]

-- Boost documents that a sample of the reals lies between the bounds, the upper one left out. Here it is
-- also one of the numbers on which the arithmetic is exact.
abbrev pub IsHalfOpen : {R Rng : Type 0} → (R → ℕ) → (R → Type 0) → RealDraw R Rng → R → R → Type 0
IsHalfOpen {R} {Rng} value IsExactly draw lower upper =
    (rng : Rng)
    → value lower < value upper
    → IsExactly (draw lower upper rng).0
      × (value lower ≤ value (draw lower upper rng).0)
      × (value (draw lower upper rng).0 < value upper)

-- If the weights used, their sum, which is not zero, and the sample drawn below it are among the numbers
-- on which the arithmetic is exact, get_weighted_integer does not throw: it answers the number k at which the weights up to k first
-- reach over the sample, so each number is chosen by as many samples as its weight says. It draws once.
pub get_weighted_integer-Covers :
    {R Rng : Type 0} (f : Floating R) (value : R → ℕ) (IsExactly : R → Type 0) (limit : ℕ)
    (draw : RealDraw R Rng) (g : Generator Rng) (weights : List R) (size : ℕ)
    → IsExact f value IsExactly limit
    → IsHalfOpen value IsExactly draw f.zero (accumulate f f.zero (take size weights))
    → size ≤ length weights
    → AllExactly f value IsExactly limit (take size weights)
    → 0 < weight_before f value IsExactly limit size (take size weights)
    → weight_before f value IsExactly limit size (take size weights) ≤ limit
    → let used = take size weights in
      let (sample, g1) = get_uniform_real draw g f.zero (accumulate f f.zero used) in
      (k : ℕ) × (get_weighted_integer f draw g weights size ≡ (returned k, g1))
      × Covers f value IsExactly limit used (value sample) k
unfolding get_weighted_integer get_uniform_real total
get_weighted_integer-Covers f value IsExactly limit draw g weights size e half fits exact
      some_weight bounded =
    let used = take size weights in
    let upper = accumulate f f.zero used in
    let same : length used ≡ size = omega (arith, length-take size weights) in
    let whole : total f value IsExactly limit used
        ≡ weight_before f value IsExactly limit size used =
      ap (λ k. weight_before f value IsExactly limit k used) same in
    let (upper_exact, sum) =
      accumulate-value f value IsExactly limit e f.zero used e.zero_exact exact
        (omega (arith, e.zero_value)) in
    let (sample_exact, _, below) = half g.rng (omega (arith, e.zero_value, sum)) in
    let (k, found, covers) =
      pick-Covers f value IsExactly limit e (draw f.zero upper g.rng).0 used 0 sample_exact exact
        (omega (arith, e.zero_value, sum)) in
    let zeroed : 0 + k ≡ k = omega arith in
    let room : ltb (length weights) size ≡ false = ground arith in
    (k, rw (room, found, zeroed) refl, covers)
