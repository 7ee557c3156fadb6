-- ===== src/Chp/Symplectic/Gates.antt =====
-- The gates keep the commutation relations.
use mathlib.Core.Path.{subst}
use native.Mathlib.Decide.{ℕ_discrete}
use sabot.Prelude.{ℕ, ◌<◌, ◌≡◌, ◌≢◌, refl, sym, ◌∙◌, arith, ◌==◌, xor, if◌then◌else◌}
use sabot.Pauli.{Pauli, Phased, anticommute, hadamard_image, phase_image, pauli_image, cnot_image}
use sabot.Chp.{Row, ChpState}
use sabot.Chp.Gates.Conjugation.{letter, Conjugates, ConjugatesPair}
use sabot.Chp.Gates.Refinement.{Acts}
use sabot.Chp.Symplectic.{clash, IsSymplectic}
use sabot.Chp.Symplectic.Form.{parity_ext, parity_two}

-- Conjugation by a unitary operator keeps what commutes.
abbrev pub Faithful : (Pauli → Phased) → Type 0
Faithful image = (p q : Pauli) → anticommute (image p).operator (image q).operator ≡ anticommute p q

pub hadamard-Faithful : Faithful hadamard_image
hadamard-Faithful p q = ground arith

pub phase-Faithful : Faithful phase_image
phase-Faithful p q = ground arith

pub pauli-Faithful : (s : Pauli) → Faithful (pauli_image s)
pauli-Faithful s p q = ground arith

cnot-Faithful :
    (a b a' b' : Pauli)
    → xor
        (anticommute (cnot_image a b).control (cnot_image a' b').control)
        (anticommute (cnot_image a b).target (cnot_image a' b').target)
      ≡ xor (anticommute a a') (anticommute b b')
cnot-Faithful a b a' b' = ground arith

-- An action on rows that keeps what commutes.
abbrev pub Keeps : ℕ → (Row → Row → Type 0) → Type 0
Keeps n P = (u v u' v' : Row) → P u u' → P v v' → clash n u' v' ≡ clash n u v

pub Conjugates-Keeps :
    (n q : ℕ) (image : Pauli → Phased) → Faithful image → Keeps n (Conjugates image q)
unfolding clash
Conjugates-Keeps n q image faithful u v u' v' cu cv = parity_ext n _ _ (λ k lt. place k)
  where
    place :
        (k : ℕ) → anticommute (letter u' k) (letter v' k) ≡ anticommute (letter u k) (letter v k)
    place k = elim (ℕ_discrete k q) [
      | yes e ↦
          rw (cu.letters k, cv.letters k, e) (ground (arith, faithful (letter u q) (letter v q)))
      | no o ↦ rw (cu.letters k, cv.letters k) (ground arith)
    ]

pick_first : (c t : ℕ) (a b d : Pauli) → (if c == c then a else if c == t then b else d) ≡ a
pick_first c t a b d = ground arith

pick_second :
    (c t : ℕ) (a b d : Pauli) → c ≢ t → (if t == c then a else if t == t then b else d) ≡ b
pick_second c t a b d ne = ground arith

pick_other :
    (c t k : ℕ) (a b d : Pauli)
    → k ≢ c
    → k ≢ t
    → (if k == c then a else if k == t then b else d) ≡ d
pick_other c t k a b d nc nt = ground arith

pub ConjugatesPair-Keeps : (n c t : ℕ) → c < n → t < n → c ≢ t → Keeps n (ConjugatesPair c t)
unfolding clash
ConjugatesPair-Keeps n c t hc ht apart u v u' v' cu cv =
    parity_two n c t _ _ hc ht apart elsewhere both
  where
    elsewhere :
        (k : ℕ)
        → k ≢ c
        → k ≢ t
        → anticommute (letter u' k) (letter v' k) ≡ anticommute (letter u k) (letter v k)
    elsewhere k nc nt =
        rw
          (cu.letters k ∙ pick_other c t k _ _ _ nc nt, cv.letters k ∙ pick_other c t k _ _ _ nc nt)
          refl

    at_c :
        (w w' : Row)
        → ConjugatesPair c t w w'
        → letter w' c ≡ (cnot_image (letter w c) (letter w t)).control
    at_c w w' cw = cw.letters c ∙ pick_first c t _ _ _

    at_t :
        (w w' : Row)
        → ConjugatesPair c t w w'
        → letter w' t ≡ (cnot_image (letter w c) (letter w t)).target
    at_t w w' cw = cw.letters t ∙ pick_second c t _ _ _ apart

    both :
        xor (anticommute (letter u' c) (letter v' c)) (anticommute (letter u' t) (letter v' t))
        ≡ xor (anticommute (letter u c) (letter v c)) (anticommute (letter u t) (letter v t))
    both =
        rw (at_c u u' cu, at_c v v' cv, at_t u u' cu, at_t v v' cv)
          (cnot-Faithful (letter u c) (letter u t) (letter v c) (letter v t))

pub Acts-IsSymplectic :
    (P : Row → Row → Type 0) (s s' : ChpState)
    → Keeps s.n P
    → Acts P s s'
    → IsSymplectic s.n s.row
    → IsSymplectic s'.n s'.row
Acts-IsSymplectic P s s' keeps a h =
    subst (λ m. IsSymplectic m s'.row) (sym a.same_n)
      (record {
        relation = λ i j li lj.
            keeps (s.row i) (s.row j) (s'.row i) (s'.row j) (a.inside i li) (a.inside j lj)
            ∙ h.relation i j li lj;
      })
