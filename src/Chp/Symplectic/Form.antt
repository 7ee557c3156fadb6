-- ===== src/Chp/Symplectic/Form.antt =====
-- Parities, and the commutation of rows as a parity of the places where they clash.
use native.Mathlib.Decide.{ℕ_discrete}
use sabot.Prelude.{
  ℕ, zero, suc, ◌<◌, ◌≡◌, ◌≢◌, refl, ap, ◌∙◌, arith, ◌==◌, Bool, false, ◌&&◌, xor, ltb,
  if◌then◌else◌,
}
use sabot.Pauli.{Pauli, unit, sigma_x, sigma_z, product, anticommute}
use sabot.Chp.{Row, column}
use sabot.Chp.Gates.Conjugation.{letter}
use sabot.Chp.Symplectic.{parity, clash}

pub parity_ext :
    (count : ℕ) (f g : ℕ → Bool)
    → ((k : ℕ) → k < count → f k ≡ g k)
    → parity count f ≡ parity count g
unfolding parity
parity_ext zero f g h = refl
parity_ext (suc k) f g h = rw (h k (omega arith), parity_ext k f g (λ j lt. h j (omega arith)))

pub parity-xor :
    (count : ℕ) (f g : ℕ → Bool)
    → parity count (λ k. xor (f k) (g k)) ≡ xor (parity count f) (parity count g)
unfolding parity
parity-xor zero f g = refl
parity-xor (suc k) f g = ground (arith, parity-xor k f g)

pub parity_none : (count : ℕ) → parity count (λ k. false) ≡ false
unfolding parity
parity_none zero = refl
parity_none (suc k) = parity_none k

-- Only place c may pass.
pub parity_one : (count c : ℕ) (b : Bool) → parity count (λ k. b && k == c) ≡ (b && ltb c count)
unfolding parity
parity_one zero c b = ground arith
parity_one (suc k) c b = ground (arith, parity_one k c b)

-- Two families that differ at two places at most, and in the same way there.
pub parity_two :
    (count c t : ℕ) (f g : ℕ → Bool)
    → c < count
    → t < count
    → c ≢ t
    → ((k : ℕ) → k ≢ c → k ≢ t → f k ≡ g k)
    → xor (f c) (f t) ≡ xor (g c) (g t)
    → parity count f ≡ parity count g
parity_two count c t f g hc ht ne same both =
    let b = xor (f c) (g c) in
    let split : parity count f ≡ parity count (λ k. xor (g k) (xor (b && k == c) (b && k == t))) =
      parity_ext count f _ (λ k lt. place k) in
    ground (
      arith,
      split,
      parity-xor count g (λ k. xor (b && k == c) (b && k == t)),
      parity-xor count (λ k. b && k == c) (λ k. b && k == t),
      parity_one count c b,
      parity_one count t b,
    )
  where
    place : (k : ℕ) → f k ≡ xor (g k) (xor (xor (f c) (g c) && k == c) (xor (f c) (g c) && k == t))
    place k = elim (ℕ_discrete k c) [
      | yes e ↦ rw e (ground arith)
      | no other ↦ elim (ℕ_discrete k t) [
        | yes e ↦ rw e (ground arith)
        | no o ↦ ground (arith, same k other o)
      ]
    ]

module _ (count : ℕ) where
  pub clash_sym : (u v : Row) → clash count u v ≡ clash count v u
  unfolding clash
  clash_sym u v = parity_ext count _ _ (λ k lt. anticommute_sym (letter u k) (letter v k))
    where
      anticommute_sym : (p q : Pauli) → anticommute p q ≡ anticommute q p
      anticommute_sym p q = ground arith

  pub clash_self : (u : Row) → clash count u u ≡ false
  unfolding clash
  clash_self u =
      parity_ext count _ (λ k. false) (λ k lt. anticommute_self (letter u k)) ∙ parity_none count
    where
      anticommute_self : (p : Pauli) → anticommute p p ≡ false
      anticommute_self p = ground arith

  -- Only the letters matter.
  pub clash_letters :
      (u u' v : Row)
      → ((k : ℕ) → k < count → letter u' k ≡ letter u k)
      → clash count u' v ≡ clash count u v
  unfolding clash
  clash_letters u u' v h =
      parity_ext count _ _ (λ k lt. ap (λ p. anticommute p (letter v k)) (h k lt))

  -- A product anticommutes with what exactly one of its factors anticommutes with.
  pub clash-product :
      (b a w v : Row)
      → ((k : ℕ) → k < count → letter w k ≡ (product (letter b k) (letter a k)).operator)
      → clash count w v ≡ xor (clash count b v) (clash count a v)
  unfolding clash
  clash-product b a w v h =
      parity_ext count _ _ (λ k lt.
        ap (λ p. anticommute p (letter v k)) (h k lt)
        ∙ anticommute_product (letter b k) (letter a k) (letter v k))
      ∙ parity-xor count _ _
    where
      anticommute_product :
          (p q r : Pauli)
          → anticommute (product p q).operator r ≡ xor (anticommute p r) (anticommute q r)
      anticommute_product p q r = ground arith

  -- A row anticommutes with Z on a qubit if it has X or Y there.
  pub clash_z :
      (w v : Row) (q : ℕ)
      → q < count
      → ((k : ℕ) → k < count → letter w k ≡ (if k == q then sigma_z else unit))
      → clash count w v ≡ column v.x q
  unfolding clash
  clash_z w v q lt h =
      parity_ext count _ (λ k. column v.x q && k == q)
        (λ k below. ap (λ p. anticommute p (letter v k)) (h k below) ∙ at_place k)
      ∙ ground (arith, parity_one count q (column v.x q))
    where
      at_place :
          (k : ℕ)
          → anticommute (if k == q then sigma_z else unit) (letter v k) ≡ (column v.x q && k == q)
      at_place k = elim (ℕ_discrete k q) [ yes e ↦ rw e (ground arith) | no o ↦ ground arith ]

  -- A row anticommutes with X on a qubit if it has Z or Y there.
  pub clash_x :
      (w v : Row) (q : ℕ)
      → q < count
      → ((k : ℕ) → k < count → letter w k ≡ (if k == q then sigma_x else unit))
      → clash count w v ≡ column v.z q
  unfolding clash
  clash_x w v q lt h =
      parity_ext count _ (λ k. column v.z q && k == q)
        (λ k below. ap (λ p. anticommute p (letter v k)) (h k below) ∙ at_place k)
      ∙ ground (arith, parity_one count q (column v.z q))
    where
      at_place :
          (k : ℕ)
          → anticommute (if k == q then sigma_x else unit) (letter v k) ≡ (column v.z q && k == q)
      at_place k = elim (ℕ_discrete k q) [ yes e ↦ rw e (ground arith) | no o ↦ ground arith ]
