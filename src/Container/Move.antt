-- ===== src/Container/Move.antt =====
-- The move constructor of managed_container.
use sabot.Prelude.{
  ℕ, zero, suc, ◌/◌, ◌≤◌, ◌<◌, ◌≡◌, refl, ap, Option, none, some, List, [], ◌∷◌, ◌++◌, take, drop,
  length, length-append, length-take, length-drop, arith,
}
use sabot.Utility.{word_mod}
use sabot.Container.{Heap, Container, capacity, capacity_of, mdata, data_of, moved, contents}
use sabot.Container.Laws.{IsContainer}

module _ {ℓ} {A : Type ℓ} where
  take-copied :
      (n m : ℕ) (xs ys : List A) → n ≤ m → n ≤ length xs → take n (take m xs ++ ys) ≡ take n xs
  take-copied zero m xs ys h l = refl
  take-copied (suc n) zero xs ys h l = elim h [ ]
  take-copied (suc n) (suc m) [] ys h l = elim l [ ]
  take-copied (suc n) (suc m) (x ∷ xs) ys h l =
      ap (λ r. x ∷ r) (take-copied n m xs ys (omega arith) (omega arith))

  moved_storage :
      (item n : ℕ) (heap : Option (Heap A)) (stack junk : List A)
      → let c : Container A = record { count = n; heap = heap; stack = stack } in
        IsContainer c
        → length junk ≡ length stack
        → length stack < word_mod
        → (heap ≡ none → n ≤ length stack / item)
        → (contents (moved item junk c).0 ≡ contents c)
          × IsContainer (moved item junk c).0
          × (contents (moved item junk c).1 ≡ [])
          × IsContainer (moved item junk c).1
  unfolding moved contents mdata data_of capacity capacity_of
  moved_storage item n none s junk ok same small fits =
      let copied = length s / item in
      let bound = fits refl in
      let kept = ok.count_le in
      let first = length-take copied s in
      let second = length-drop copied junk in
      let all = length-append (take copied s) (drop copied junk) in
      (
        take-copied n copied s (drop copied junk) bound kept,
        record { capacity_length = refl; count_le = omega arith; small = omega arith },
        refl,
        record { capacity_length = refl; count_le = omega arith; small = small },
      )
  moved_storage item n (some g) s junk ok same small fits = (
    refl,
    record { capacity_length = ok.capacity_length; count_le = ok.count_le; small = ok.small },
    refl,
    record { capacity_length = refl; count_le = omega arith; small = small },
  )

  -- Moving keeps what the container holds, if it stands on the heap or its items fit in as many bytes
  -- as its array has items, and leaves the old container empty; both are whole.
  pub moved-contents :
      (item : ℕ) (junk : List A) (c : Container A)
      → IsContainer c
      → length junk ≡ length c.stack
      → length c.stack < word_mod
      → (c.heap ≡ none → c.count ≤ length c.stack / item)
      → (contents (moved item junk c).0 ≡ contents c)
        × IsContainer (moved item junk c).0
        × (contents (moved item junk c).1 ≡ [])
        × IsContainer (moved item junk c).1
  moved-contents item junk c = moved_storage item c.count c.heap c.stack junk
