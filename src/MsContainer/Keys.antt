-- ===== src/MsContainer/Keys.antt =====
-- The generated keys of ms_container.hpp: what insert and erase do to a lookup.
use sabot.Prelude.{
  ℕ, ◌+◌, ◌%◌, ◌^◌, ◌<◌, ◌≤◌, ◌≡◌, ◌≢◌, refl, sym, ap, ◌∙◌, true, false, ◌==◌, Bool-cases, inl, inr,
  Option, none, some, List, [], ◌∷◌, ◌++◌, arith,
}
use sabot.Outcome.{returned, fault}
use sabot.MsContainer.{
  Item, Entry, MsContainer, find, remove, insert, erase, map_insert, free_entry, size, size_of,
  get_key,
}

module _ {κ} {A : Type κ} where
  abbrev lookup : ℕ → List (Entry ℕ A) → Option (Item A)
  lookup key es = find ◌==◌ key es

  -- Every key has been generated, and occurs once.
  abbrev pub AreKeys : ℕ → List (Entry ℕ A) → Type κ
  AreKeys generator [] = Unit {κ}
  AreKeys generator (e ∷ es) =
      (e.key < generator) × (find ◌==◌ e.key es ≡ none) × AreKeys generator es

  pub find_fresh :
      (g key : ℕ) (es : List (Entry ℕ A)) → AreKeys g es → g ≤ key → lookup key es ≡ none
  unfolding find
  find_fresh g key [] h l = refl
  find_fresh g key (e ∷ es) (below, once, h) l =
      let other : (e.key == key) ≡ false = ground arith in rw other (find_fresh g key es h l)

  pub find-append_free :
      (key other : ℕ) (a : A) (es : List (Entry ℕ A))
      → lookup key es ≡ none
      → (lookup key (es ++ free_entry key a ∷ []) ≡ some (record { busy = false; value = a }))
        × (key ≢ other → lookup other (es ++ free_entry key a ∷ []) ≡ lookup other es)
  unfolding find free_entry
  find-append_free key other a [] h =
      let same : (key == key) ≡ true = ground arith in
      (rw same refl, λ ne. let differs : (key == other) ≡ false = ground arith in rw differs refl)
  find-append_free key other a (e ∷ es) h = elim (Bool-cases (e.key == key)) [
    | inl here ↦ let found = rw here at h in cc
    | inr there ↦
        let (new, rest) = find-append_free key other a es (rw there at h) in
        (
          rw there new,
          λ ne. elim (Bool-cases (e.key == other)) [
            | inl at_other ↦ rw at_other refl
            | inr on ↦ rw on (rest ne)
          ],
        )
  ]

  pub append-AreKeys :
      (g : ℕ) (a : A) (es : List (Entry ℕ A))
      → AreKeys g es
      → AreKeys (g + 1) (es ++ free_entry g a ∷ [])
  unfolding find free_entry
  append-AreKeys g a [] h = (omega arith, refl, tt)
  append-AreKeys g a (e ∷ es) (below, once, h) =
      let fresh = find_fresh g g es h (omega arith) in
      (
        omega arith,
        (find-append_free g e.key a es fresh).1 (λ eq. absurd (omega arith)) ∙ once,
        append-AreKeys g a es h,
      )

  -- While the generator does not wrap around, inserting an item gives a key that was not there, under
  -- which the item is found with its flag clear; all other lookups are as before, and the keys stay
  -- distinct.
  pub insert-find :
      (a : A) (c : MsContainer ℕ A)
      → AreKeys c.key_generator c.entries
      → c.key_generator + 1 < 2 ^ 64
      → let (key, d) = insert a c in
        (lookup key c.entries ≡ none)
        × (lookup key d.entries ≡ some (record { busy = false; value = a }))
        × ((other : ℕ) → key ≢ other → lookup other d.entries ≡ lookup other c.entries)
        × AreKeys d.key_generator d.entries
  unfolding insert get_key map_insert
  insert-find a c h small =
      let g = c.key_generator in
      let fresh = find_fresh g g c.entries h (omega arith) in
      let wrap : (g + 1) % 2 ^ 64 ≡ g + 1 = omega arith in
      rw (fresh, wrap)
        (
          refl,
          (find-append_free g 0 a c.entries fresh).0,
          λ other ne. (find-append_free g other a c.entries fresh).1 ne,
          append-AreKeys g a c.entries h,
        )

  remove_laws :
      (g key : ℕ) (es : List (Entry ℕ A)) (i : Item A)
      → AreKeys g es
      → lookup key es ≡ some i
      → (lookup key (remove ◌==◌ key es) ≡ none)
        × ((other : ℕ) → key ≢ other → lookup other (remove ◌==◌ key es) ≡ lookup other es)
        × (size_of (remove ◌==◌ key es) + 1 ≡ size_of es)
        × AreKeys g (remove ◌==◌ key es)
  unfolding find remove size_of
  remove_laws g key [] i h found = cc
  remove_laws g key (e ∷ es) i (below, once, h) found = elim (Bool-cases (e.key == key)) [
    | inl here ↦
        let e_key : e.key ≡ key = ground arith in
        rw here (
          ap (λ k. lookup k es) (sym e_key) ∙ once,
          λ other ne. let differs : (e.key == other) ≡ false = ground arith in rw differs refl,
          omega arith,
          h,
        )
    | inr there ↦
        let (gone, rest, fewer, keys) = remove_laws g key es i h (rw there at found) in
        let ne : key ≢ e.key = λ eq. ground arith in
        rw there (
          rw there gone,
          λ other differs. elim (Bool-cases (e.key == other)) [
            | inl at_other ↦ rw at_other refl
            | inr on ↦ rw on (rest other differs)
          ],
          omega (arith, fewer),
          (below, rest e.key ne ∙ once, keys),
        )
  ]

  -- Erasing a key that is there removes its item and no other, and says that one item was erased; with
  -- no such key the source uses the end iterator as if it pointed at an item.
  pub erase-find :
      (key : ℕ) (c : MsContainer ℕ A)
      → AreKeys c.key_generator c.entries
      → ((i : Item A)
          → lookup key c.entries ≡ some i
          → (d : MsContainer ℕ A) × (erase ◌==◌ key c ≡ returned (1, d))
            × (lookup key d.entries ≡ none)
            × ((other : ℕ) → key ≢ other → lookup other d.entries ≡ lookup other c.entries)
            × (size d + 1 ≡ size c)
            × AreKeys d.key_generator d.entries)
        × (lookup key c.entries ≡ none → erase ◌==◌ key c ≡ fault)
  unfolding erase size
  erase-find key c h = (
    λ i found.
        let (gone, rest, fewer, keys) = remove_laws c.key_generator key c.entries i h found in
        (
          record { key_generator = c.key_generator; entries = remove ◌==◌ key c.entries },
          rw found refl,
          gone,
          rest,
          fewer,
          keys,
        ),
    λ missing. rw missing refl,
  )
