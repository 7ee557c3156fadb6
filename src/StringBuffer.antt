-- ===== src/StringBuffer.antt =====
-- string_buffer.hpp: the container of bytes, to which C strings are appended. A C string is given
-- without its terminator.
pub mod Concat
pub mod Create
mod Tests
use sabot.Prelude.{
  ℕ, ◌-◌, ◌==◌, if◌then◌else◌, Bool, ◌&&◌, not, Option, none, some, List, [], ◌∷◌, ◌++◌, get_or,
  replicate,
}
use sabot.Outcome.{Outcome, returned}
use sabot.Container.{Container, empty_container, stack_capacity, mdata, add, trim}

-- `string_buffer()`
unfoldable pub empty_buffer : ℕ → Container ℕ
empty_buffer initial = empty_container (replicate (stack_capacity initial) 0)

-- `string_buffer(str)`, a null pointer being `none`.
unfoldable pub of_string : (ℕ → List ℕ) → ℕ → Option (List ℕ) → Outcome (Container ℕ)
of_string fresh initial none = returned (empty_buffer initial)
of_string fresh initial (some str) = add 1 fresh (empty_buffer initial) (str ++ 0 ∷ [])

-- `string_buffer(data, size)`
unfoldable pub of_data : (ℕ → List ℕ) → ℕ → List ℕ → Outcome (Container ℕ)
of_data fresh initial bytes = add 1 fresh (empty_buffer initial) bytes

-- Is there data, and is its last byte '\0'?
unfoldable pub ends_in_zero : Container ℕ → Bool
ends_in_zero c = not (c.count == 0) && get_or (mdata c) (c.count - 1) 1 == 0

unfoldable pub append : (ℕ → List ℕ) → Container ℕ → List ℕ → Outcome (Container ℕ)
append fresh c str = add 1 fresh (if ends_in_zero c then trim 1 c else c) (str ++ 0 ∷ [])
