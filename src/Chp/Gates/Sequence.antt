-- ===== src/Chp/Gates/Sequence.antt =====
-- The Pauli gates, which the program runs as sequences of Hadamard and phase gates.
use sabot.Prelude.{ℕ, ◌%◌, ◌≡◌, refl, arith, true, Option, ◌>>=◌, ◌∙◌}
use sabot.Pauli.{
  Pauli, unit, sigma_x, sigma_y, sigma_z, Phased, hadamard_image, phase_image, pauli_image, after,
}
use sabot.Chp.{Row, ChpState, reachable}
use sabot.Chp.Gates.{hadamard, phase, paulix, pauliy, pauliz}
use sabot.Chp.Gates.Conjugation.{letter, Conjugates}
use sabot.Chp.Gates.Refinement.{IsTableau, Returns, Acts-reachable, hadamard-Returns, phase-Returns}

Conjugates-after :
    (f g : Pauli → Phased) (q : ℕ) (u v w : Row)
    → Conjugates f q u v
    → Conjugates g q v w
    → Conjugates (after g f) q u w
Conjugates-after f g q u v w a b = record {
  letters = λ k. ground (arith, a.letters k, b.letters k, a.letters q);
  phase = ground (arith, a.letters q, a.phase, b.phase);
}

-- Two images are one if they differ by a multiple of the fourth power of i.
abbrev SameImage : (Pauli → Phased) → (Pauli → Phased) → Type 0
SameImage f g =
    (p : Pauli) → ((f p).operator ≡ (g p).operator) × ((f p).power % 4 ≡ (g p).power % 4)

Conjugates-same :
    (f g : Pauli → Phased) (q : ℕ) (u v : Row)
    → SameImage f g
    → Conjugates f q u v
    → Conjugates g q u v
Conjugates-same f g q u v e a = record {
  letters = λ k. ground (arith, a.letters k, e (letter u q));
  phase = ground (arith, a.phase, e (letter u q));
}

-- `k` returns on every tableau whose rows hold column q, and conjugates by the image f.
abbrev Always : ℕ → (Pauli → Phased) → (ChpState → Option ChpState) → Type 0
Always q f k =
    (t : ChpState) → IsTableau t → reachable t q ≡ true → Returns (Conjugates f q) t (k t)

module _ (q : ℕ) (f g : Pauli → Phased) (m k : ChpState → Option ChpState) where
  Always-then : Always q f m → Always q g k → Always q (after g f) (λ t. m t >>= k)
  Always-then first next s h e =
      let (t, p, a, h') = first s h e in
      let (u, p', b, h'') = next t h' (Acts-reachable q a e) in
      (
        u,
        rw p p',
        record {
          same_n = b.same_n ∙ a.same_n;
          same_over32 = b.same_over32 ∙ a.same_over32;
          same_allocated = b.same_allocated ∙ a.same_allocated;
          inside =
              λ i lt. Conjugates-after f g q _ _ _ (a.inside i lt) (b.inside i (rw a.same_n lt));
          outside = λ i le. b.outside i (rw a.same_n le) ∙ a.outside i le;
        },
        h'',
      )

Always-same :
    (q : ℕ) (f g : Pauli → Phased) (k : ChpState → Option ChpState)
    → SameImage f g
    → Always q f k
    → Always q g k
Always-same q f g k e always s h r =
    let (t, p, a, h') = always s h r in
    (
      t,
      p,
      record {
        same_n = a.same_n;
        same_over32 = a.same_over32;
        same_allocated = a.same_allocated;
        inside = λ i lt. Conjugates-same f g q _ _ e (a.inside i lt);
        outside = a.outside;
      },
      h',
    )

module _ (q : ℕ) where
  after-hadamard :
      (g : Pauli → Phased) (k : ChpState → Option ChpState)
      → Always q g k
      → Always q (after g hadamard_image) (λ t. hadamard t q >>= k)
  after-hadamard g k =
      Always-then q hadamard_image g (λ t. hadamard t q) k (λ t. hadamard-Returns t q)

  after_phase :
      (g : Pauli → Phased) (k : ChpState → Option ChpState)
      → Always q g k
      → Always q (after g phase_image) (λ t. phase t q >>= k)
  after_phase g k = Always-then q phase_image g (λ t. phase t q) k (λ t. phase-Returns t q)

x_same :
    SameImage
      (after (after (after hadamard_image phase_image) phase_image) hadamard_image)
      (pauli_image sigma_x)
x_same unit = (refl, refl)
x_same sigma_x = (refl, refl)
x_same sigma_y = (refl, refl)
x_same sigma_z = (refl, refl)

-- `paulix` returns on a column that the rows hold, and conjugates each generator by X.
pub paulix-Returns :
    (s : ChpState) (q : ℕ)
    → IsTableau s
    → reachable s q ≡ true
    → Returns (Conjugates (pauli_image sigma_x) q) s (paulix s q)
unfolding paulix
paulix-Returns s q =
    Always-same q _ (pauli_image sigma_x) _ x_same
      (after-hadamard q _ _ (after_phase q _ _ (after_phase q _ _ (λ t. hadamard-Returns t q)))) s

z_same : SameImage (after phase_image phase_image) (pauli_image sigma_z)
z_same unit = (refl, refl)
z_same sigma_x = (refl, refl)
z_same sigma_y = (refl, refl)
z_same sigma_z = (refl, refl)

-- `pauliz` returns on a column that the rows hold, and conjugates each generator by Z.
pub pauliz-Returns :
    (s : ChpState) (q : ℕ)
    → IsTableau s
    → reachable s q ≡ true
    → Returns (Conjugates (pauli_image sigma_z) q) s (pauliz s q)
unfolding pauliz
pauliz-Returns s q =
    Always-same q _ (pauli_image sigma_z) _ z_same (after_phase q _ _ (λ t. phase-Returns t q)) s

-- The image after the phase gates and the Hadamard gates of `pauliy`, from the last to the first.
abbrev y_sequence : Pauli → Phased
y_sequence =
    let ppp = after (after phase_image phase_image) phase_image in
    let hppp = after ppp hadamard_image in
    let phppp = after (after hppp phase_image) phase_image in
    after (after phppp hadamard_image) phase_image

y_same : SameImage y_sequence (pauli_image sigma_y)
y_same unit = (refl, refl)
y_same sigma_x = (refl, refl)
y_same sigma_y = (refl, refl)
y_same sigma_z = (refl, refl)

-- `pauliy` returns on a column that the rows hold, and conjugates each generator by Y.
pub pauliy-Returns :
    (s : ChpState) (q : ℕ)
    → IsTableau s
    → reachable s q ≡ true
    → Returns (Conjugates (pauli_image sigma_y) q) s (pauliy s q)
unfolding pauliy
pauliy-Returns s q =
    Always-same q y_sequence (pauli_image sigma_y) _ y_same
      (after_phase q _ _ (
        after-hadamard q _ _ (
          after_phase q _ _ (
            after_phase q _ _ (
              after-hadamard q _ _
                (after_phase q _ _ (after_phase q _ _ (λ t. phase-Returns t q))))))))
      s

-- The gate sequences of `paulix`, `pauliy` and `pauliz` return on a column that the rows of a tableau
-- hold, and conjugate each generator by X, by Y and by Z.
pub pauli_gates-Returns :
    (s : ChpState) (q : ℕ)
    → IsTableau s
    → reachable s q ≡ true
    → Returns (Conjugates (pauli_image sigma_x) q) s (paulix s q)
      × Returns (Conjugates (pauli_image sigma_y) q) s (pauliy s q)
      × Returns (Conjugates (pauli_image sigma_z) q) s (pauliz s q)
pauli_gates-Returns s q h e =
    (paulix-Returns s q h e, pauliy-Returns s q h e, pauliz-Returns s q h e)
