-- ===== src/Chp/Symplectic/Complete.antt =====
-- The generators determine an operator by what it commutes with: initialisation and the gates.
use mathlib.Core.Path.{subst}
use native.Mathlib.Decide.{ℕ_discrete}
use sabot.Prelude.{
  ℕ, ◌+◌, ◌*◌, ◌-◌, ◌<◌, ◌≡◌, ◌≢◌, refl, sym, ap, ◌∙◌, arith, ◌==◌, ◌&&◌, false, xor, ltb, lt→ltb,
  if◌then◌else◌,
}
use sabot.Pauli.{
  Pauli, Phased, unit, sigma_x, sigma_y, sigma_z, product, anticommute, hadamard_image, phase_image,
  pauli_image, cnot_image,
}
use sabot.Chp.{Row, ChpState}
use sabot.Chp.Init.{initialised, initial_row}
use sabot.Chp.Init.Zero.{initial_row-letter}
use sabot.Chp.Gates.Conjugation.{letter, Conjugates, ConjugatesPair}
use sabot.Chp.Gates.Refinement.{Acts}
use sabot.Chp.Symplectic.{commutator, IsComplete}
use sabot.Chp.Symplectic.Form.{parity_ext, parity-xor, parity_one, parity_two}

module _ (n : ℕ) where
  pub commutator_ext :
      (f f' g g' : ℕ → Pauli)
      → ((k : ℕ) → k < n → f k ≡ f' k)
      → ((k : ℕ) → k < n → g k ≡ g' k)
      → commutator n f g ≡ commutator n f' g'
  unfolding commutator
  commutator_ext f f' g g' hf hg = parity_ext n _ _ (λ k lt. rw (hf k lt, hg k lt) refl)

  -- With an operator on one qubit.
  pub commutator_one :
      (f : ℕ → Pauli) (q : ℕ) (p : Pauli)
      → q < n
      → commutator n f (λ k. if k == q then p else unit) ≡ anticommute (f q) p
  unfolding commutator
  commutator_one f q p lt =
      parity_ext n _ (λ k. anticommute (f q) p && k == q) (λ k below. at_place k)
      ∙ ground (arith, parity_one n q (anticommute (f q) p))
    where
      at_place :
          (k : ℕ) → anticommute (f k) (if k == q then p else unit) ≡ (anticommute (f q) p && k == q)
      at_place k = elim (ℕ_discrete k q) [ yes e ↦ rw e (ground arith) | no o ↦ ground arith ]

  pub commutator-product :
      (f g h : ℕ → Pauli)
      → commutator n (λ k. (product (f k) (g k)).operator) h
        ≡ xor (commutator n f h) (commutator n g h)
  unfolding commutator
  commutator-product f g h = parity_ext n _ _ (λ k lt. split (f k) (g k) (h k)) ∙ parity-xor n _ _
    where
      split :
          (p q r : Pauli)
          → anticommute (product p q).operator r ≡ xor (anticommute p r) (anticommute q r)
      split p q r = ground arith

-- What commutes with X and Z is the unit.
unit_of_commuting :
    (p : Pauli) → anticommute p sigma_x ≡ false → anticommute p sigma_z ≡ false → p ≡ unit
unit_of_commuting unit a b = refl
unit_of_commuting sigma_x a b = cc
unit_of_commuting sigma_y a b = cc
unit_of_commuting sigma_z a b = cc

module _ (fresh n : ℕ) where
  initial-IsComplete : IsComplete n (initial_row fresh n)
  initial-IsComplete = record {
    complete = λ f h k lt.
        unit_of_commuting (f k)
          (sym (commutator_one n f k sigma_x lt)
            ∙ commutator_ext n f f _ _ (λ j below. refl) (λ j below. sym (x_letter k j lt below))
            ∙ h k (omega arith))
          (sym (commutator_one n f k sigma_z lt)
            ∙ commutator_ext n f f _ _ (λ j below. refl) (λ j below. sym (z_letter k j lt below))
            ∙ h (k + n) (omega arith));
  }
    where
      x_letter :
          (k j : ℕ)
          → k < n
          → j < n
          → letter (initial_row fresh n k) j ≡ (if j == k then sigma_x else unit)
      x_letter k j lt below =
          (initial_row-letter fresh n k j (omega arith)).0 ∙ rw (lt→ltb k n lt) refl

      z_letter :
          (k j : ℕ)
          → k < n
          → j < n
          → letter (initial_row fresh n (k + n)) j ≡ (if j == k then sigma_z else unit)
      z_letter k j lt below =
          let second : ltb (k + n) n ≡ false = ground arith in
          let place : k + n - n ≡ k = omega arith in
          (initial_row-letter fresh n (k + n) j (omega arith)).0 ∙ rw (second, place) refl

  pub initialised-IsComplete : (s : ChpState) → IsComplete n (initialised fresh s n).row
  unfolding initialised
  initialised-IsComplete s = record {
    complete = λ f h k lt.
        initial-IsComplete.complete f
          (λ j below. rw (lt→ltb j (2 * n + 1) (omega arith)) at (h j below)) k lt;
  }

-- What commutes with the rows after an action comes from what commutes with those before it.
abbrev pub Reflects : ℕ → (Row → Row → Type 0) → Type 0
Reflects n P =
    (f : ℕ → Pauli)
    → (g : ℕ → Pauli) × ((u u' : Row)
        → P u u'
        → commutator n g (letter u) ≡ commutator n f (letter u'))
      × (((k : ℕ) → k < n → g k ≡ unit) → (k : ℕ) → k < n → f k ≡ unit)

pub Acts-IsComplete :
    (P : Row → Row → Type 0) (s s' : ChpState)
    → Reflects s.n P
    → Acts P s s'
    → IsComplete s.n s.row
    → IsComplete s'.n s'.row
Acts-IsComplete P s s' reflects a h =
    subst (λ m. IsComplete m s'.row) (sym a.same_n)
      (record {
        complete = λ f commutes k lt.
            let (g, same, back) = reflects f in
            back
              (h.complete g
                (λ j below. same (s.row j) (s'.row j) (a.inside j below) ∙ commutes j below))
              k lt;
      })

-- Conjugation moves from one side to the other, and only the unit goes to the unit.
pub record IsAdjoint (image : Pauli → Phased) : Type 0 where
  moves : (p q : Pauli) → anticommute (image p).operator q ≡ anticommute p (image q).operator
  reflects : (p : Pauli) → (image p).operator ≡ unit → p ≡ unit

pub hadamard-IsAdjoint : IsAdjoint hadamard_image
hadamard-IsAdjoint = record { moves = λ p q. ground arith; reflects = λ p e. ground arith }

pub phase-IsAdjoint : IsAdjoint phase_image
phase-IsAdjoint = record { moves = λ p q. ground arith; reflects = λ p e. ground arith }

pub pauli-IsAdjoint : (s : Pauli) → IsAdjoint (pauli_image s)
pauli-IsAdjoint s = record { moves = λ p q. ground arith; reflects = λ p e. ground arith }

pub Conjugates-Reflects :
    (n q : ℕ) (image : Pauli → Phased) → IsAdjoint image → Reflects n (Conjugates image q)
unfolding commutator
Conjugates-Reflects n q image adjoint f = (
  λ k. if k == q then (image (f q)).operator else f k,
  λ u u' c. parity_ext n _ _ (λ k lt. place u u' c k),
  λ units k lt. units_back units k lt,
)
  where
    place :
        (u u' : Row)
        → Conjugates image q u u'
        → (k : ℕ)
        → anticommute (if k == q then (image (f q)).operator else f k) (letter u k)
          ≡ anticommute (f k) (letter u' k)
    place u u' c k = elim (ℕ_discrete k q) [
      | yes e ↦ rw (c.letters k, e) (ground (arith, adjoint.moves (f q) (letter u q)))
      | no o ↦ rw (c.letters k) (ground arith)
    ]

    units_back :
        ((k : ℕ) → k < n → (if k == q then (image (f q)).operator else f k) ≡ unit)
        → (k : ℕ) → k < n
        → f k ≡ unit
    units_back units k lt = elim (ℕ_discrete k q) [
      | yes e ↦ ap f e ∙ adjoint.reflects (f q) (ground (arith, units k lt))
      | no o ↦ ground (arith, units k lt)
    ]

cnot_moves :
    (a b a' b' : Pauli)
    → xor (anticommute (cnot_image a b).control a') (anticommute (cnot_image a b).target b')
      ≡ xor (anticommute a (cnot_image a' b').control) (anticommute b (cnot_image a' b').target)
cnot_moves a b a' b' = ground arith

cnot_reflects :
    (a b : Pauli)
    → (cnot_image a b).control ≡ unit
    → (cnot_image a b).target ≡ unit
    → (a ≡ unit) × (b ≡ unit)
cnot_reflects a b e e' = ground arith

module _ (n c t : ℕ) (hc : c < n) (ht : t < n) (apart : c ≢ t) where
  -- The preimage of an operator.
  before : (ℕ → Pauli) → ℕ → Pauli
  before f k =
      if k == c
      then (cnot_image (f c) (f t)).control
      else if k == t
      then (cnot_image (f c) (f t)).target
      else f k

  before_control : (f : ℕ → Pauli) → before f c ≡ (cnot_image (f c) (f t)).control
  unfolding before
  before_control f = ground arith

  before_target : (f : ℕ → Pauli) → before f t ≡ (cnot_image (f c) (f t)).target
  unfolding before
  before_target f = ground arith

  before_other : (f : ℕ → Pauli) (k : ℕ) → k ≢ c → k ≢ t → before f k ≡ f k
  unfolding before
  before_other f k a b = ground arith

  pub ConjugatesPair-Reflects : Reflects n (ConjugatesPair c t)
  unfolding commutator
  ConjugatesPair-Reflects f = (before f, λ u u' a. both_places u u' a, units_back)
    where
      both_places :
          (u u' : Row)
          → ConjugatesPair c t u u'
          → commutator n (before f) (letter u) ≡ commutator n f (letter u')
      both_places u u' a = parity_two n c t _ _ hc ht apart elsewhere both
        where
          elsewhere :
              (k : ℕ)
              → k ≢ c
              → k ≢ t
              → anticommute (before f k) (letter u k) ≡ anticommute (f k) (letter u' k)
          elsewhere k nc nt = rw (before_other f k nc nt, a.letters k) (ground arith)

          at_c : letter u' c ≡ (cnot_image (letter u c) (letter u t)).control
          at_c = a.letters c ∙ ground arith

          at_t : letter u' t ≡ (cnot_image (letter u c) (letter u t)).target
          at_t = a.letters t ∙ ground arith

          both :
              xor (anticommute (before f c) (letter u c)) (anticommute (before f t) (letter u t))
              ≡ xor (anticommute (f c) (letter u' c)) (anticommute (f t) (letter u' t))
          both =
              rw (before_control f, before_target f, at_c, at_t)
                (cnot_moves (f c) (f t) (letter u c) (letter u t))

      units_back : ((k : ℕ) → k < n → before f k ≡ unit) → (k : ℕ) → k < n → f k ≡ unit
      units_back units k lt =
          let (first, second) =
            cnot_reflects (f c) (f t) (sym (before_control f) ∙ units c hc)
              (sym (before_target f) ∙ units t ht) in
          elim (ℕ_discrete k c) [
            | yes e ↦ ap f e ∙ first
            | no nc ↦ elim (ℕ_discrete k t) [
              | yes e ↦ ap f e ∙ second
              | no nt ↦ sym (before_other f k nc nt) ∙ units k lt
            ]
          ]
