-- ===== src/MsContainer/Tests.antt =====
-- The theorems on the containers of items at concrete containers.
use sabot.Prelude.{ℕ, ◌+◌, ◌≡◌, ◌≢◌, ◌==◌, refl, Bool, false, none, some, [], ◌∷◌, arith}
use sabot.Outcome.{Outcome, Exception, returned, threw, fault, spin}
use sabot.MsContainer.{Item, MsContainer, find, insert, erase, edit_item, size}
use sabot.MsContainer.Laws.{edit_item-threw_spins}
use sabot.MsContainer.Keys.{AreKeys, insert-find, erase-find}

abbrev free_item : ℕ → Item ℕ
free_item v = record { busy = false; value = v }

abbrev two_items : MsContainer ℕ ℕ
two_items = record {
  key_generator = 5;
  entries = record { key = 1; item = free_item 10 } ∷ record { key = 4; item = free_item 40 } ∷ [];
}

two_items-AreKeys : AreKeys 5 two_items.entries
unfolding find
two_items-AreKeys = (omega arith, refl, (omega arith, refl, tt))

found_four : find ◌==◌ 4 two_items.entries ≡ some (free_item 40)
unfolding find
found_four = refl

insert-find_example :
    let (key, d) = insert 50 two_items in
    (find ◌==◌ key two_items.entries ≡ none)
    × (find ◌==◌ key d.entries ≡ some (free_item 50))
    × ((other : ℕ) → key ≢ other → find ◌==◌ other d.entries ≡ find ◌==◌ other two_items.entries)
    × AreKeys d.key_generator d.entries
insert-find_example = insert-find 50 two_items two_items-AreKeys (omega arith)

erase-find_example :
    ((i : Item ℕ)
      → find ◌==◌ 4 two_items.entries ≡ some i
      → (d : MsContainer ℕ ℕ) × (erase ◌==◌ 4 two_items ≡ returned (1, d))
        × (find ◌==◌ 4 d.entries ≡ none)
        × ((other : ℕ) → 4 ≢ other → find ◌==◌ other d.entries ≡ find ◌==◌ other two_items.entries)
        × (size d + 1 ≡ size two_items)
        × AreKeys d.key_generator d.entries)
    × (find ◌==◌ 4 two_items.entries ≡ none → erase ◌==◌ 4 two_items ≡ fault)
erase-find_example = erase-find 4 two_items two_items-AreKeys

abbrev throws : ℕ → ℕ → ℕ × ℕ × Outcome Bool
throws v w = (v + 1, w, threw Exception.runtime_error)

abbrev reads : ℕ → ℕ → ℕ × ℕ × Outcome ℕ
reads v w = (v, w, returned v)

edit_item-threw_spins_example :
    ((edit_item ◌==◌ 4 throws two_items 0).2 ≡ threw Exception.runtime_error)
    × ((edit_item ◌==◌ 4 reads
          (edit_item ◌==◌ 4 throws two_items 0).0
          (edit_item ◌==◌ 4 throws two_items 0).1).2
        ≡ spin)
edit_item-threw_spins_example =
    edit_item-threw_spins ◌==◌ 4 throws reads two_items 0 0 (free_item 40) 41
      Exception.runtime_error found_four refl refl
