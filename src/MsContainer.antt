-- ===== src/MsContainer.antt =====
-- ms_container.hpp. The map is the list of its entries, each under a key that occurs once, with the
-- flag of the spin lock. Each call runs alone, as the lock on the list makes it; a call that meets a
-- set flag never returns, since whoever set it is gone. `same` is the equality of keys.
pub mod Laws
pub mod Keys
mod Tests
use sabot.Prelude.{
  ℕ, suc, ◌+◌, ◌%◌, ◌^◌, Bool, true, false, ◌==◌, if◌then◌else◌, not, Option, none, some, List, [],
  ◌∷◌, ◌++◌,
}
use sabot.Outcome.{Outcome, Exception, returned, threw, fault, spin}

pub record Item {ℓ} (A : Type ℓ) : Type ℓ where
  pub busy : Bool
  pub value : A

pub record Entry {ℓ κ} (K : Type ℓ) (A : Type κ) : Type (ℓ ⊔ κ) where
  pub key : K
  pub item : Item A

pub record MsContainer {ℓ κ} (K : Type ℓ) (A : Type κ) : Type (ℓ ⊔ κ) where
  pub key_generator : ℕ
  pub entries : List (Entry K A)

module _ {ℓ κ} {K : Type ℓ} {A : Type κ} where
  unfoldable pub empty : MsContainer K A
  empty = record { key_generator = 0; entries = [] }

  -- `flag->clear()`, `pair(flag, item)`
  unfoldable pub free_entry : K → A → Entry K A
  free_entry key a = record { key = key; item = record { busy = false; value = a } }

  unfoldable pub size_of : List (Entry K A) → ℕ
  size_of [] = 0
  size_of (e ∷ es) = suc (size_of es)

  unfoldable pub size : MsContainer K A → ℕ
  size c = size_of c.entries

module _ {ℓ κ} {K : Type ℓ} {A : Type κ} (same : K → K → Bool) where
  unfoldable pub find : K → List (Entry K A) → Option (Item A)
  find key [] = none
  find key (e ∷ es) = if same e.key key then some e.item else find key es

  unfoldable pub put : K → Item A → List (Entry K A) → List (Entry K A)
  put key item [] = []
  put key item (e ∷ es) =
      if same e.key key then record { key = e.key; item = item } ∷ es else e ∷ put key item es

  unfoldable pub remove : K → List (Entry K A) → List (Entry K A)
  remove key [] = []
  remove key (e ∷ es) = if same e.key key then es else e ∷ remove key es

  unfoldable pub count : K → MsContainer K A → ℕ
  count key c = of_found (find key c.entries)
    where
      of_found : Option (Item A) → ℕ
      of_found none = 0
      of_found (some i) = 1

  -- `std::map::insert`: an entry that is there stays, and the result is false.
  unfoldable pub map_insert : K → A → List (Entry K A) → Bool × List (Entry K A)
  map_insert key a es = of_found (find key es)
    where
      of_found : Option (Item A) → Bool × List (Entry K A)
      of_found none = (true, es ++ free_entry key a ∷ [])
      of_found (some i) = (false, es)

  -- `insert(key, item)`, for keys that are strings.
  unfoldable pub insert_at : K → A → MsContainer K A → Bool × MsContainer K A
  insert_at key a c =
      let (added, es) = map_insert key a c.entries in
      (added, record { key_generator = c.key_generator; entries = es })

  -- The item of a key that is missing is read through the end iterator.
  unfoldable pub erase : K → MsContainer K A → Outcome (ℕ × MsContainer K A)
  erase key c = of_found (find key c.entries)
    where
      of_found : Option (Item A) → Outcome (ℕ × MsContainer K A)
      of_found none = fault
      of_found (some i) =
          returned (1, record { key_generator = c.key_generator; entries = remove key c.entries })

  abbrev pub with_item : K → Item A → MsContainer K A → MsContainer K A
  with_item key item c = record {
    key_generator = c.key_generator;
    entries = put key item c.entries;
  }

  -- After f: the flag is cleared only if f returned.
  abbrev pub edited {μ ν} :
      {W : Type μ} {B : Type ν}
      → K
      → MsContainer K A
      → A × W × Outcome B
      → MsContainer K A × W × Outcome B
  edited key c (a, w, returned b) =
      (with_item key (record { busy = false; value = a }) c, w, returned b)
  edited key c (a, w, threw e) = (with_item key (record { busy = true; value = a }) c, w, threw e)
  edited key c (a, w, fault) = (with_item key (record { busy = true; value = a }) c, w, fault)
  edited key c (a, w, spin) = (with_item key (record { busy = true; value = a }) c, w, spin)

  -- `f` gets the item and what else it can change, `w`.
  unfoldable pub edit_item {μ ν} :
      {W : Type μ} {B : Type ν}
      → K
      → (A → W → A × W × Outcome B)
      → MsContainer K A
      → W
      → MsContainer K A × W × Outcome B
  edit_item {W = W} {B = B} key f c w = of_found (find key c.entries)
    where
      of_found : Option (Item A) → MsContainer K A × W × Outcome B
      of_found none = (c, w, threw Exception.invalid_argument)
      of_found (some i) = if i.busy then (c, w, spin) else edited key c (f i.value w)

-- Keys that are integers are generated.
module _ {κ} {A : Type κ} where
  unfoldable pub get_key : MsContainer ℕ A → ℕ × MsContainer ℕ A
  get_key c = (
    c.key_generator,
    record { key_generator = (c.key_generator + 1) % 2 ^ 64; entries = c.entries },
  )

  -- `insert(item)`
  unfoldable pub insert : A → MsContainer ℕ A → ℕ × MsContainer ℕ A
  insert a c =
      let (key, c') = get_key c in
      (
        key,
        record { key_generator = c'.key_generator; entries = (map_insert ◌==◌ key a c'.entries).1 },
      )

  -- `insert(f)`, where f() ends with `made`: the key is used up even if f throws.
  unfoldable pub insert_made : Outcome A → MsContainer ℕ A → MsContainer ℕ A × Outcome ℕ
  insert_made made c = let (key, c') = get_key c in of_made key c' made
    where
      of_made : ℕ → MsContainer ℕ A → Outcome A → MsContainer ℕ A × Outcome ℕ
      of_made key c' (returned a) = (
        record { key_generator = c'.key_generator; entries = (map_insert ◌==◌ key a c'.entries).1 },
        returned key,
      )
      of_made key c' (threw e) = (c', threw e)
      of_made key c' fault = (c', fault)
      of_made key c' spin = (c', spin)
