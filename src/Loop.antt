-- ===== src/Loop.antt =====
-- The loops of the sources as combinators: `for` over an index, and the search of a first index.
use mathlib.Core.Path.{subst}
use native.Mathlib.Nat.{zero-add}
use sabot.Prelude.{
  ℕ, zero, suc, ◌+◌, ◌≤◌, ◌<◌, ◌≡◌, ◌≢◌, arith, Bool, true, false, if◌then◌else◌, ◌==◌, Bool-cases,
  inl, inr,
}

-- for(i = 0; i < count; i++) body(i)
unfoldable pub for_below {ℓ} : {S : Type ℓ} → ℕ → (ℕ → S → S) → S → S
for_below zero body s = s
for_below (suc k) body s = body k (for_below k body s)

-- A property that every round keeps holds after the loop.
pub for_below_inv {ℓ κ} :
    {S : Type ℓ} (P : ℕ → S → Type κ) (body : ℕ → S → S) (count : ℕ)
    → ((i : ℕ) (s : S) → i < count → P i s → P (suc i) (body i s))
    → (s : S) → P 0 s
    → P count (for_below count body s)
unfolding for_below
for_below_inv P body zero keep s h = h
for_below_inv P body (suc k) keep s h =
    keep k _ (omega arith) (for_below_inv P body k (λ i t lt. keep i t (omega arith)) s h)

-- while(p < end) { if(test(p)) break; p++; }, with `left` rounds left until the end.
unfoldable pub scan : ℕ → ℕ → (ℕ → Bool) → ℕ
scan zero p test = p
scan (suc left) p test = if test p then p else scan left (suc p) test

-- One location of a memory is written.
abbrev pub update {ℓ} : {A : Type ℓ} → (ℕ → A) → ℕ → A → ℕ → A
update f i v j = if j == i then v else f j

-- The search ends at the first place of the range that passes, or at its end.
pub record IsFirst (from end p : ℕ) (test : ℕ → Bool) : Type 0 where
  pub from_le : from ≤ p
  pub le_end : p ≤ end
  pub passes : p < end → test p ≡ true
  pub none_before : (i : ℕ) → from ≤ i → i < p → test i ≡ false

pub scan-IsFirst :
    (left from : ℕ) (test : ℕ → Bool) → IsFirst from (from + left) (scan left from test) test
unfolding scan
scan-IsFirst zero from test = record {
  from_le = omega arith;
  le_end = omega arith;
  passes = λ h. absurd (omega arith);
  none_before = λ i a b. absurd (omega arith);
}
scan-IsFirst (suc left) from test = elim (Bool-cases (test from)) [
  | inl hit ↦ rw hit (record {
    from_le = omega arith;
    le_end = omega arith;
    passes = λ h. hit;
    none_before = λ i a b. absurd (omega arith);
  })
  | inr miss ↦
      let rest = scan-IsFirst left (suc from) test in
      rw miss (record {
        from_le = omega (arith, rest.from_le);
        le_end = omega (arith, rest.le_end);
        passes = λ h. rest.passes (omega arith);
        none_before = λ i a b. ground (arith, rest.none_before i);
      })
]

pub update_self {ℓ} : {A : Type ℓ} (f : ℕ → A) (i : ℕ) (v : A) → update f i v i ≡ v
update_self f i v = rw (==_self i)
  where
    ==_self : (i : ℕ) → (i == i) ≡ true
    ==_self i = ground arith

pub update_ne {ℓ} : {A : Type ℓ} (f : ℕ → A) (i j : ℕ) (v : A) → j ≢ i → update f i v j ≡ f j
update_ne f i j v h = rw (differs h)
  where
    differs : j ≢ i → (j == i) ≡ false
    differs h = ground arith

pub scan_all : (count : ℕ) (test : ℕ → Bool) → IsFirst 0 count (scan count 0 test) test
scan_all count test =
    subst (λ e. IsFirst 0 e (scan count 0 test) test) (zero-add count) (scan-IsFirst count 0 test)
