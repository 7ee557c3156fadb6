-- ===== src/Randnum.antt =====
-- randnum/generator.hpp: the generator, whose engine and distributions are Boost's. `Rng` is the
-- type of the engine's states, and `draw lower upper` a sample of Boost's uniform distribution on
-- integers with the engine's next state. `R` is the floating point type, and `draw` on it a sample of
-- the uniform distribution on reals.
pub mod Weighted
mod Tests
use sabot.Prelude.{
  ℕ, ◌+◌, ◌%◌, ◌^◌, ◌≤◌, ltb, Bool, if◌then◌else◌, Option, none, some, List, [], ◌∷◌, length, take,
}
use sabot.Outcome.{Outcome, Exception, returned, threw, fault}

pub record Generator (Rng : Type 0) : Type 0 where
  pub rng_seed : ℕ
  pub position : ℕ
  pub rng : Rng

abbrev pub Draw : Type 0 → Type 0
Draw Rng = ℕ → ℕ → Rng → ℕ × Rng

-- Boost documents that a sample lies between the bounds, which are included.
abbrev pub IsUniform : {Rng : Type 0} → Draw Rng → Type 0
IsUniform {Rng} draw =
    (lower upper : ℕ) (rng : Rng)
    → lower ≤ upper
    → (lower ≤ (draw lower upper rng).0) × ((draw lower upper rng).0 ≤ upper)

unfoldable pub get_uniform_integer :
    {Rng : Type 0} → Draw Rng → Generator Rng → ℕ → ℕ → ℕ × Generator Rng
get_uniform_integer draw g lower upper =
    let (sample, rng) = draw lower upper g.rng in
    (sample, record g { position = (g.position + 1) % 2 ^ 64; rng = rng })

pub discard : {Rng : Type 0} → (ℕ → Rng → Rng) → Generator Rng → ℕ → Generator Rng
discard skip g n = record g { position = (g.position + n) % 2 ^ 64; rng = skip n g.rng }

-- The arithmetic of a floating point type.
pub record Floating (R : Type 0) : Type 0 where
  pub zero : R
  pub add : R → R → R
  pub sub : R → R → R
  pub less : R → R → Bool

abbrev pub RealDraw : Type 0 → Type 0 → Type 0
RealDraw R Rng = R → R → Rng → R × Rng

unfoldable pub get_uniform_real :
    {R Rng : Type 0} → RealDraw R Rng → Generator Rng → R → R → R × Generator Rng
get_uniform_real draw g lower upper =
    let (sample, rng) = draw lower upper g.rng in
    (sample, record g { position = (g.position + 1) % 2 ^ 64; rng = rng })

module _ {R : Type 0} (f : Floating R) where
  -- std::accumulate
  unfoldable pub accumulate : R → List R → R
  accumulate total [] = total
  accumulate total (w ∷ ws) = accumulate (f.add total w) ws

  -- The loop over the weights from number i on; `none` leaves it at its end.
  unfoldable pub pick : R → List R → ℕ → Option ℕ
  pick sample [] i = none
  pick sample (w ∷ ws) i =
      let later = pick (f.sub sample w) ws (i + 1) in if f.less sample w then some i else later

  abbrev pub picked : Option ℕ → Outcome ℕ
  picked none = threw Exception.logic_error
  picked (some i) = returned i

  -- `weights` is all that the array holds; with a larger size the source reads past it.
  unfoldable pub get_weighted_integer :
      {Rng : Type 0} → RealDraw R Rng → Generator Rng → List R → ℕ → Outcome ℕ × Generator Rng
  get_weighted_integer draw g weights size =
      let used = take size weights in
      let (sample, g1) = get_uniform_real draw g f.zero (accumulate f.zero used) in
      if ltb (length weights) size then (fault, g) else (picked (pick sample used 0), g1)
