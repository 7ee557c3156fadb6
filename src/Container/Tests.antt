-- ===== src/Container/Tests.antt =====
-- The theorems on managed_container at a concrete container.
use sabot.Prelude.{ℕ, ◌≡◌, refl, none, [], ◌∷◌, ◌++◌, replicate, length-replicate, arith}
use sabot.Outcome.{returned}
use sabot.Container.{Container, capacity, capacity_of, mdata, data_of, contents, add, moved}
use sabot.Container.Laws.{IsContainer}
use sabot.Container.Move.{moved-contents}
use sabot.Container.Grow.{add-contents}

abbrev three_items : Container ℕ
three_items = record { count = 3; heap = none; stack = 1 ∷ 2 ∷ 3 ∷ 0 ∷ 0 ∷ 0 ∷ 0 ∷ 0 ∷ [] }

three_items-IsContainer : IsContainer three_items
unfolding capacity capacity_of mdata data_of
three_items-IsContainer = record {
  capacity_length = refl;
  count_le = omega arith;
  small = omega arith;
}

-- The items move to the heap.
add-contents_example :
    (d : Container ℕ) × (add 8 (λ k. replicate k 0) three_items (4 ∷ 5 ∷ []) ≡ returned d)
    × IsContainer d
    × (contents d ≡ contents three_items ++ 4 ∷ 5 ∷ [])
add-contents_example =
    add-contents 8 (λ k. replicate k 0) three_items (4 ∷ 5 ∷ []) (λ k. length-replicate k 0)
      three_items-IsContainer (omega arith) (omega arith)

moved-contents_example :
    let m = moved 2 (replicate 8 9) three_items in
    (contents m.0 ≡ contents three_items) × IsContainer m.0 × (contents m.1 ≡ []) × IsContainer m.1
moved-contents_example =
    moved-contents 2 (replicate 8 9) three_items three_items-IsContainer refl (omega arith)
      (λ e. omega arith)
