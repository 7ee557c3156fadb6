-- ===== src/Actions/Words.antt =====
-- The bytes and words that `find_call` of actions.cpp reads.
use native.Mathlib.Nat.{div-div-eq-div-mul, pow-suc}
use sabot.Prelude.{
  ℕ, zero, suc, ◌+◌, ◌*◌, ◌/◌, ◌%◌, ◌^◌, ◌<◌, ◌≤◌, ◌≡◌, refl, sym, ap, ◌∙◌, ◌==◌, false, List, [],
  ◌∷◌, drop, get_or, arith,
}
use sabot.Language.Dialect.{same_bytes}
use sabot.Actions.{attr_word, method_bytes}

pub same_method_bytes :
    (methods : ℕ → ℕ) (offset count : ℕ) (request method : List ℕ)
    → ((k : ℕ) → k < count → methods (offset + k) ≡ get_or method k 0)
    → same_bytes count request (method_bytes methods offset count) ≡ same_bytes count request method
unfolding same_bytes method_bytes
same_method_bytes methods offset zero request method h = refl
same_method_bytes methods offset (suc count) request method h =
    let here : methods offset ≡ get_or method 0 0 =
      (let e : offset ≡ offset + 0 = omega arith in ap methods e ∙ h 0 (omega arith)) in
    rw (
      here,
      same_method_bytes methods (offset + 1) count (drop 1 request) (drop 1 method) (λ k lt.
          let e : offset + 1 + k ≡ offset + suc k = omega arith in
          ap methods e ∙ h (suc k) (omega arith) ∙ get_or-drop method k),
    )
  where
    get_or-drop : (m : List ℕ) (k : ℕ) → get_or m (suc k) 0 ≡ get_or (drop 1 m) k 0
    get_or-drop [] k = refl
    get_or-drop (x ∷ m) k = refl

-- Dropping the low bytes of a word of attributes.
shift-attr_word :
    (attr : ℕ → ℕ) (i count : ℕ)
    → attr i < 256
    → attr_word attr i (suc count) / 256 ≡ attr_word attr (i + 1) count
unfolding attr_word
shift-attr_word attr i count small = omega arith

-- One byte more of shift.
pow_byte : (k : ℕ) → 2 ^ (k + 8) ≡ 2 ^ k * 256
pow_byte k =
    let e : k + 8 ≡ suc (suc (suc (suc (suc (suc (suc (suc k))))))) = omega arith in
    ap (λ m. 2 ^ m) e ∙ eight
  where
    eight : 2 ^ suc (suc (suc (suc (suc (suc (suc (suc k))))))) ≡ 2 ^ k * 256
    eight =
        rw
          (
            pow-suc 2 (suc (suc (suc (suc (suc (suc (suc k))))))),
            pow-suc 2 (suc (suc (suc (suc (suc (suc k)))))),
            pow-suc 2 (suc (suc (suc (suc (suc k))))),
            pow-suc 2 (suc (suc (suc (suc k)))),
            pow-suc 2 (suc (suc (suc k))),
            pow-suc 2 (suc (suc k)),
            pow-suc 2 (suc k),
            pow-suc 2 k,
          )
          (omega arith)

-- The low byte of what is left of a word, and the end of the attributes.
pub word_nonzero :
    (attr : ℕ → ℕ) (i left : ℕ)
    → 0 < attr i
    → attr i < 256
    → ((attr_word attr i (suc left) == 0) ≡ false) × (attr_word attr i (suc left) % 256 ≡ attr i)
unfolding attr_word
word_nonzero attr i left pos small = (ground arith, omega arith)

pub word_zero :
    (attr : ℕ → ℕ) (i left : ℕ) → ((k : ℕ) → i ≤ k → attr k ≡ 0) → attr_word attr i left ≡ 0
unfolding attr_word
word_zero attr i zero h = refl
word_zero attr i (suc left) h =
    omega (arith, h i (omega arith), word_zero attr (i + 1) left (λ k le. h k (omega arith)))

pub shifts-attr_word :
    (attr : ℕ → ℕ) (i j left : ℕ)
    → ((k : ℕ) → attr k < 256)
    → attr_word attr i (j + left) / 2 ^ (8 * j) ≡ attr_word attr (i + j) left
shifts-attr_word attr i zero left small =
    let a : 0 + left ≡ left = omega arith in
    let b : i + 0 ≡ i = omega arith in rw (a, b) (omega arith)
shifts-attr_word attr i (suc j) left small =
    let a : suc j + left ≡ j + suc left = omega arith in
    let b : i + suc j ≡ i + j + 1 = omega arith in
    let q : 8 * suc j ≡ 8 * j + 8 = omega arith in
    let p : 2 ^ (8 * suc j) ≡ 2 ^ (8 * j) * 256 = ap (λ m. 2 ^ m) q ∙ pow_byte (8 * j) in
    rw (a, b, p)
      (sym (div-div-eq-div-mul (attr_word attr i (j + suc left)) (2 ^ (8 * j)) 256)
        ∙ ap (λ w. w / 256) (shifts-attr_word attr i j (suc left) small)
        ∙ shift-attr_word attr (i + j) left (small (i + j)))
