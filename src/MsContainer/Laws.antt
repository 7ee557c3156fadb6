-- ===== src/MsContainer/Laws.antt =====
-- How the operations of ms_container.hpp look up, add, change and remove.
use sabot.Prelude.{◌≡◌, refl, Bool, true, false, Bool-cases, inl, inr, some, List, [], ◌∷◌}
use sabot.Outcome.{Outcome, Exception, threw, spin}
use sabot.MsContainer.{Item, Entry, MsContainer, find, put, edit_item}

module _ {ℓ κ} {K : Type ℓ} {A : Type κ} (same : K → K → Bool) where
  pub find-put_self :
      (key : K) (i j : Item A) (es : List (Entry K A))
      → find same key es ≡ some i
      → find same key (put same key j es) ≡ some j
  unfolding find put
  find-put_self key i j [] h = cc
  find-put_self key i j (e ∷ es) h = elim (Bool-cases (same e.key key)) [
    | inl here ↦ rw (here, here)
    | inr there ↦ rw (there, there) (find-put_self key i j es (rw there at h))
  ]

  -- Once the function given to `edit_item` has thrown, the item's flag is set for good: the next call
  -- for that key never returns, whatever it was to do.
  pub edit_item-threw_spins {μ ν ξ} :
      {W : Type μ} {B : Type ν} {D : Type ξ} (key : K) (f : A → W → A × W × Outcome B)
      (g : A → W → A × W × Outcome D) (c : MsContainer K A) (w w' : W) (i : Item A) (a : A)
      (x : Exception)
      → find same key c.entries ≡ some i
      → i.busy ≡ false
      → f i.value w ≡ (a, w', threw x)
      → ((edit_item same key f c w).2 ≡ threw x)
        × ((edit_item same key g (edit_item same key f c w).0 (edit_item same key f c w).1).2
            ≡ spin)
  unfolding edit_item
  edit_item-threw_spins key f g c w w' i a x found free e =
      let set_flag = find-put_self key i (record { busy = true; value = a }) c.entries found in
      rw (found, free, e) (refl, rw set_flag refl)
