-- ===== src/Container.antt =====
-- managed_container.hpp without SABOT_THROW, over a 64-bit U: a sequence that is kept in an array of
-- the object itself and moves to the heap once it has grown. `item` is sizeof(T), and `fresh n` what
-- `new T[n]` holds. The capacity of the heap array, which the source keeps in the first bytes of the
-- array that is then out of use, is a field here, so those bytes keep their value: nothing reads
-- them before they are written again. Pointers that the container owns are values.
pub mod Laws
pub mod Grow
pub mod Move
mod Tests
use sabot.Prelude.{
  ℕ, ◌+◌, ◌-◌, ◌*◌, ◌/◌, ◌%◌, ltb, leb, if◌then◌else◌, Bool, true, false, Option, none, some, List,
  [], ◌++◌, take, drop, length,
}
use sabot.Outcome.{Outcome, returned, fault, ◌>>=◌}
use sabot.Utility.{word_mod, round_to_multiple}

pub record Heap {ℓ} (A : Type ℓ) : Type ℓ where
  pub size : ℕ
  pub cells : List A

pub record Container {ℓ} (A : Type ℓ) : Type ℓ where
  pub count : ℕ
  pub heap : Option (Heap A)
  pub stack : List A

-- The size of the array in the object for the template argument `initial`.
unfoldable pub stack_capacity : ℕ → ℕ
stack_capacity initial = round_to_multiple 8 initial

-- `memcpy` to the cells from `offset` on.
unfoldable pub overwrite {ℓ} : {A : Type ℓ} → List A → ℕ → List A → Outcome (List A)
overwrite cells offset from =
    if leb (offset + length from) (length cells)
    then returned (take offset cells ++ (from ++ drop (offset + length from) cells))
    else fault

module _ {ℓ} {A : Type ℓ} where
  -- The empty container, `stack` being the zeroed array.
  unfoldable pub empty_container : List A → Container A
  empty_container stack = record { count = 0; heap = none; stack = stack }

  unfoldable pub capacity_of : Option (Heap A) → List A → ℕ
  capacity_of none stack = length stack
  capacity_of (some h) stack = h.size

  unfoldable pub capacity : Container A → ℕ
  capacity c = capacity_of c.heap c.stack

  unfoldable pub remaining : Container A → ℕ
  remaining c = (capacity c + word_mod - c.count) % word_mod

  unfoldable pub data_of : Option (Heap A) → List A → List A
  data_of none stack = stack
  data_of (some h) stack = h.cells

  unfoldable pub mdata : Container A → List A
  mdata c = data_of c.heap c.stack

  -- The container whose array in use is `cells`.
  unfoldable pub with_data : Container A → List A → Container A
  with_data c cells = at_storage c.heap
    where
      at_storage : Option (Heap A) → Container A
      at_storage none = record { count = c.count; heap = none; stack = cells }
      at_storage (some h) = record {
        count = c.count;
        heap = some (record { size = h.size; cells = cells });
        stack = c.stack;
      }

  unfoldable pub add_count : ℕ → Container A → Container A
  add_count n c = record { count = (c.count + n) % word_mod; heap = c.heap; stack = c.stack }

  -- The new heap array, with the old data and the new.
  unfoldable pub move_to_heap : (ℕ → List A) → ℕ → Container A → List A → Outcome (Container A)
  move_to_heap fresh new_size c buf =
      let new_capacity = round_to_multiple new_size 8 in
      overwrite (fresh new_capacity) 0 (take c.count (mdata c)) >>= λ old.
      overwrite old c.count buf >>= λ new_heap. returned (record {
        count = c.count;
        heap = some (record { size = new_capacity; cells = new_heap });
        stack = c.stack;
      })

  unfoldable pub add : ℕ → (ℕ → List A) → Container A → List A → Outcome (Container A)
  add item fresh c buf =
      let new_size = (c.count + length buf) % word_mod * item % word_mod in
      (if ltb new_size (capacity c)
        then (overwrite (mdata c) c.count buf >>= λ cells. returned (with_data c cells))
        else move_to_heap fresh new_size c buf)
      >>= λ grown. returned (add_count (length buf) grown)

  unfoldable pub trim : ℕ → Container A → Container A
  trim n c = record { count = (c.count + word_mod - n) % word_mod; heap = c.heap; stack = c.stack }

  -- The move constructor: the new object and what is left in the old one. As many bytes of the array
  -- are copied as it has items, so that of the new array, which held `junk`, only the first items are
  -- written if an item is larger than a byte. An item that is copied in part counts as not copied.
  unfoldable pub moved : ℕ → List A → Container A → Container A × Container A
  moved item junk old =
      let copied = length old.stack / item in
      (
        record {
          count = old.count;
          heap = old.heap;
          stack = take copied old.stack ++ drop copied junk;
        },
        record { count = 0; heap = none; stack = old.stack },
      )

  -- Move assignment; the heap array that `target` had, if any, is dropped and not freed.
  unfoldable pub move_assigned : ℕ → Container A → Container A → Container A × Container A
  move_assigned item target old = moved item target.stack old

  -- What a reader of `data()` and `count()` sees.
  unfoldable pub contents : Container A → List A
  contents c = take c.count (mdata c)
