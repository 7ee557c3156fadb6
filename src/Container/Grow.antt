-- ===== src/Container/Grow.antt =====
-- managed_container::add, in place and on to the heap.
use sabot.Prelude.{
  ℕ, ◌+◌, ◌*◌, ◌%◌, ◌≤◌, ◌<◌, ◌≡◌, refl, sym, ap, ◌∙◌, ltb, Bool-cases, inl, inr, ltb→lt, Option,
  none, some, List, ◌++◌, take, drop, length, length-take, arith,
}
use sabot.Outcome.{returned}
use sabot.Utility.{word_mod, round_to_multiple}
use sabot.Utility.Rounding.{round_to_multiple_lem}
use sabot.Container.{
  Heap, Container, capacity, capacity_of, mdata, data_of, with_data, add_count, move_to_heap, add,
  contents,
}
use sabot.Container.Laws.{
  IsContainer, take-append, take-take_append, overwrite_fits, length-overwritten,
}

module _ {ℓ} {A : Type ℓ} where
  -- Filling the array in use, which has the room.
  fill_storage :
      (n : ℕ) (heap : Option (Heap A)) (stack buf : List A)
      → let c : Container A = record { count = n; heap = heap; stack = stack } in
        let cells = take n (mdata c) ++ (buf ++ drop (n + length buf) (mdata c)) in
        let grown = add_count (length buf) (with_data c cells) in
        IsContainer c
        → n + length buf ≤ length (mdata c)
        → IsContainer grown × (contents grown ≡ contents c ++ buf) × (grown.count ≡ n + length buf)
  unfolding add_count with_data contents mdata data_of capacity capacity_of
  fill_storage n none s buf ok h =
      let same = length-overwritten s n buf h in
      let wrap : (n + length buf) % word_mod ≡ n + length buf = omega (arith, ok.small) in
      rw wrap (
        record {
          capacity_length = refl;
          count_le = omega (arith, same);
          small = omega (arith, same, ok.small);
        },
        take-take_append n s buf (drop (n + length buf) s) ok.count_le,
        refl,
      )
  fill_storage n (some g) s buf ok h =
      let same = length-overwritten g.cells n buf h in
      let wrap : (n + length buf) % word_mod ≡ n + length buf = omega (arith, ok.small) in
      rw wrap (
        record {
          capacity_length = omega (arith, same, ok.capacity_length);
          count_le = omega (arith, same);
          small = omega (arith, same, ok.small);
        },
        take-take_append n g.cells buf (drop (n + length buf) g.cells) ok.count_le,
        refl,
      )

  -- The new array on the heap, which has the room.
  move_fits :
      (fresh : ℕ → List A) (new_size n : ℕ) (heap : Option (Heap A)) (stack buf : List A)
      → let c : Container A = record { count = n; heap = heap; stack = stack } in
        ((k : ℕ) → length (fresh k) ≡ k)
        → IsContainer c
        → n + length buf ≤ new_size
        → new_size + 8 ≤ word_mod
        → (g : Container A) × (move_to_heap fresh new_size c buf ≡ returned g)
          × IsContainer (add_count (length buf) g)
          × (contents (add_count (length buf) g) ≡ contents c ++ buf)
  unfolding move_to_heap add_count contents mdata data_of capacity capacity_of
  move_fits fresh new_size n heap s buf sized ok room bound =
      let cap = round_to_multiple new_size 8 in
      let old = data_of heap s in
      let (multiple, at_least, below) = round_to_multiple_lem new_size 8 (omega arith) bound in
      let long : length (take n old) ≡ n = omega (arith, length-take n old, ok.count_le) in
      let fresh_long = sized cap in
      let first = overwrite_fits (fresh cap) 0 (take n old) (omega arith) in
      let first_long = length-overwritten (fresh cap) 0 (take n old) (omega arith) in
      let filled = take n old ++ drop (0 + length (take n old)) (fresh cap) in
      let second = overwrite_fits filled n buf (omega arith) in
      let second_long = length-overwritten filled n buf (omega arith) in
      let wrap : (n + length buf) % word_mod ≡ n + length buf = omega arith in
      let kept : take n filled ≡ take n old =
        ap (λ k. take k filled) (sym long) ∙ take-append (take n old) _ in
      let cells = take n filled ++ (buf ++ drop (n + length buf) filled) in
      (
        record { count = n; heap = some (record { size = cap; cells = cells }); stack = s },
        rw (first, second),
        record { capacity_length = omega arith; count_le = omega arith; small = omega arith },
        rw wrap (take-take_append n filled buf _ (omega arith) ∙ ap (λ m. m ++ buf) kept),
      )

  fits_or_moves :
      (item : ℕ) (c : Container A) (buf : List A)
      → IsContainer c
      → 0 < item
      → (c.count + length buf) * item + 8 ≤ word_mod
      → ((c.count + length buf) % word_mod * item % word_mod ≡ (c.count + length buf) * item)
        × (c.count + length buf ≤ (c.count + length buf) * item)
  fits_or_moves item c buf ok some_size bound = grind arith

  -- Items whose size is small enough for 64 bits are added at the end of what a container holds,
  -- wherever the array stands and whether or not it has to grow; the result is again a container.
  pub add-contents :
      (item : ℕ) (fresh : ℕ → List A) (c : Container A) (buf : List A)
      → ((k : ℕ) → length (fresh k) ≡ k)
      → IsContainer c
      → 0 < item
      → (c.count + length buf) * item + 8 ≤ word_mod
      → (d : Container A) × (add item fresh c buf ≡ returned d)
        × IsContainer d
        × (contents d ≡ contents c ++ buf)
  unfolding add
  add-contents item fresh c buf sized ok some_size bound =
      let (exact, large) = fits_or_moves item c buf ok some_size bound in
      elim (Bool-cases (ltb ((c.count + length buf) * item) (capacity c))) [
        | inl fits ↦
            let room : c.count + length buf ≤ length (mdata c) =
              omega (arith, ltb→lt _ _ fits, large, ok.capacity_length) in
            let (is, holds, n) = fill_storage c.count c.heap c.stack buf ok room in
            (_, rw (exact, fits, overwrite_fits (mdata c) c.count buf room) refl, is, holds)
        | inr full ↦
            let (g, e, is, holds) =
              move_fits fresh ((c.count + length buf) * item) c.count c.heap c.stack buf sized ok
                large bound in
            (add_count (length buf) g, rw (exact, full, e) refl, is, holds)
      ]
