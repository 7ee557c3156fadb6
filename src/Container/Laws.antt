-- ===== src/Container/Laws.antt =====
-- managed_container.hpp as a sequence: what each operation does to the items that it holds.
use sabot.Prelude.{
  ℕ, zero, suc, ◌+◌, ◌-◌, ◌%◌, ◌≤◌, ◌<◌, ◌≡◌, refl, sym, ap, ◌∙◌, Option, List, [], ◌∷◌, ◌++◌, take,
  drop, length, length-append, length-take, length-drop, arith,
}
use sabot.Outcome.{returned}
use sabot.Utility.{word_mod}
use sabot.Container.{
  Heap, Container, overwrite, capacity, capacity_of, mdata, data_of, trim, contents,
}

module _ {ℓ} {A : Type ℓ} where
  -- The array in use is as long as the capacity that is kept for it, and holds the items.
  pub record IsContainer (c : Container A) : Type 0 where
    pub capacity_length : capacity c ≡ length (mdata c)
    pub count_le : c.count ≤ length (mdata c)
    pub small : length (mdata c) < word_mod

  pub take-append : (xs ys : List A) → take (length xs) (xs ++ ys) ≡ xs
  take-append [] ys = refl
  take-append (x ∷ xs) ys = rw (take-append xs ys)

  pub append_assoc : (xs ys zs : List A) → (xs ++ ys) ++ zs ≡ xs ++ (ys ++ zs)
  append_assoc [] ys zs = refl
  append_assoc (x ∷ xs) ys zs = ap (λ r. x ∷ r) (append_assoc xs ys zs)

  pub take-take_append :
      (n : ℕ) (xs ys zs : List A)
      → n ≤ length xs
      → take (n + length ys) (take n xs ++ (ys ++ zs)) ≡ take n xs ++ ys
  take-take_append zero xs ys zs h =
      let e : 0 + length ys ≡ length ys = omega arith in
      ap (λ k. take k (ys ++ zs)) e ∙ take-append ys zs
  take-take_append (suc n) [] ys zs h = elim h [ ]
  take-take_append (suc n) (x ∷ xs) ys zs h =
      let e : suc n + length ys ≡ suc (n + length ys) = omega arith in
      ap (λ k. take k (x ∷ (take n xs ++ (ys ++ zs)))) e
      ∙ ap (λ r. x ∷ r) (take-take_append n xs ys zs (omega arith))

  pub overwrite_fits :
      (cells : List A) (offset : ℕ) (from : List A)
      → offset + length from ≤ length cells
      → overwrite cells offset from
        ≡ returned (take offset cells ++ (from ++ drop (offset + length from) cells))
  unfolding overwrite
  overwrite_fits cells offset from h = ground arith

  pub length-overwritten :
      (cells : List A) (offset : ℕ) (from : List A)
      → offset + length from ≤ length cells
      → length (take offset cells ++ (from ++ drop (offset + length from) cells)) ≡ length cells
  length-overwritten cells offset from h = omega (
    arith,
    length-append (take offset cells) (from ++ drop (offset + length from) cells),
    length-append from (drop (offset + length from) cells),
    length-take offset cells,
    length-drop (offset + length from) cells,
  )

  pub take-take_le : (n m : ℕ) (xs : List A) → n ≤ m → take n (take m xs) ≡ take n xs
  take-take_le zero m xs h = refl
  take-take_le (suc n) zero xs h = elim h [ ]
  take-take_le (suc n) (suc m) [] h = refl
  take-take_le (suc n) (suc m) (x ∷ xs) h = ap (λ r. x ∷ r) (take-take_le n m xs (omega arith))

  trim_storage :
      (n : ℕ) (heap : Option (Heap A)) (s : List A) (k : ℕ)
      → let c : Container A = record { count = n; heap = heap; stack = s } in
        IsContainer c
        → k ≤ n
        → ((trim k c).count ≡ n - k)
          × IsContainer (trim k c)
          × (contents (trim k c) ≡ take (n - k) (contents c))
  unfolding trim contents mdata data_of capacity capacity_of
  trim_storage n heap s k ok h =
      let wrap : (n + word_mod - k) % word_mod ≡ n - k = omega (arith, ok.small, ok.count_le) in
      rw wrap (
        refl,
        record {
          capacity_length = ok.capacity_length;
          count_le = omega (arith, ok.count_le);
          small = ok.small;
        },
        sym (take-take_le (n - k) n (data_of heap s) (omega arith)),
      )

  -- Trimming drops items at the end, as many as asked for, and keeps the container whole.
  pub trim-contents :
      (c : Container A) (k : ℕ)
      → IsContainer c
      → k ≤ c.count
      → ((trim k c).count ≡ c.count - k)
        × IsContainer (trim k c)
        × (contents (trim k c) ≡ take (c.count - k) (contents c))
  trim-contents c k ok h = trim_storage c.count c.heap c.stack k ok h
