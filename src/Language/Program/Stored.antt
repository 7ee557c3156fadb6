-- ===== src/Language/Program/Stored.antt =====
-- The instructions that a program of language/program.hpp was made of can be read from it, also once it
-- has been moved.
use sabot.Prelude.{
  ℕ, zero, suc, ◌+◌, ◌*◌, ◌%◌, ◌≤◌, ◌<◌, ◌≡◌, refl, sym, ap, ◌∙◌, arith, ltb, false, true, none,
  some, List, [], ◌∷◌, length, take, get_elem?, length-take,
}
use sabot.Outcome.{Outcome, returned, threw, fault, spin, ◌>>=◌, bind-eq-returned}
use sabot.Utility.{word_mod, round_to_multiple}
use sabot.Language.Machine.{Instruction}
use sabot.Language.Program.{
  Program, instruction_bytes, make_program, size, instruction, moved_program,
}
use sabot.Container.{
  Container, Heap, empty_container, capacity, capacity_of, mdata, data_of, overwrite, move_to_heap,
  add_count, with_data, add, contents,
}
use sabot.Container.Laws.{IsContainer, overwrite_fits, length-overwritten}
use sabot.Container.Grow.{add-contents}
use sabot.Container.Move.{moved-contents}

-- The program holds these instructions, each at its address.
record Holds (p : Program) (is : List Instruction) : Type 0 where
  whole : IsContainer p.instructions
  held : contents p.instructions ≡ is

get_elem?-take :
    {A : Type 0} (k n : ℕ) (xs : List A) → k < n → get_elem? (take n xs) k ≡ get_elem? xs k
get_elem?-take k zero xs h = absurd (omega arith)
get_elem?-take k (suc n) [] h = refl
get_elem?-take zero (suc n) (x ∷ xs) h = refl
get_elem?-take (suc k) (suc n) (x ∷ xs) h = get_elem?-take k n xs (omega arith)

lt_of_elem : {A : Type 0} (xs : List A) (k : ℕ) {x : A} → get_elem? xs k ≡ some x → k < length xs
lt_of_elem [] k h = cc
lt_of_elem (x ∷ xs) zero h = omega arith
lt_of_elem (x ∷ xs) (suc k) h = omega (arith, lt_of_elem xs k h)

-- What a reader of the program's interface sees: these instructions, each at its address.
abbrev pub ReadsAs : Program → List Instruction → Type 0
ReadsAs p is =
    (size p ≡ length is)
    × ((addr : ℕ) (i : Instruction) → get_elem? is addr ≡ some i → instruction p addr ≡ returned i)

Holds-ReadsAs : (p : Program) (is : List Instruction) → Holds p is → ReadsAs p is
unfolding size instruction contents
Holds-ReadsAs p is h =
    let same : length is ≡ p.instructions.count =
      ap length (sym h.held)
      ∙ omega (arith, length-take p.instructions.count (mdata p.instructions), h.whole.count_le) in
    (
      sym same,
      λ addr i e.
          let found : get_elem? (mdata p.instructions) addr ≡ some i =
            sym (
              get_elem?-take addr p.instructions.count (mdata p.instructions)
                (omega (arith, same, lt_of_elem is addr e)))
            ∙ ap (λ l. get_elem? l addr) h.held
            ∙ e in
          rw found refl,
    )

-- Whatever is moved to the heap is not in the array of the object.
heap_made :
    (cap n : ℕ) (stack : List Instruction) (first : Outcome (List Instruction))
    (second : List Instruction → Outcome (List Instruction)) (d : Container Instruction)
    → (first >>= λ old. second old >>= λ cells.
        returned
          (record { count = n; heap = some (record { size = cap; cells = cells }); stack = stack }))
      ≡ returned d
    → (h : Heap Instruction) × (d.heap ≡ some h) × (d.stack ≡ stack)
heap_made cap n stack (returned old) second d e = last (second old) e
  where
    last :
        (m : Outcome (List Instruction))
        → (m >>= λ cells. returned (record {
          count = n;
          heap = some (record { size = cap; cells = cells });
          stack = stack;
        }))
          ≡ returned d
        → (h : Heap Instruction) × (d.heap ≡ some h) × (d.stack ≡ stack)
    last (returned cells) f = (record { size = cap; cells = cells }, ground arith, ground arith)
    last (threw x) f = cc
    last fault f = cc
    last spin f = cc
heap_made cap n stack (threw x) second d e = cc
heap_made cap n stack fault second d e = cc
heap_made cap n stack spin second d e = cc

-- The array of the object is kept as long as it was, and no instruction is kept there: none fits.
empty_object :
    (fresh : ℕ → List Instruction) (zeroed : List Instruction) (d : Container Instruction)
    → length zeroed ≡ 16
    → add instruction_bytes fresh (empty_container zeroed) [] ≡ returned d
    → length d.stack ≡ length zeroed
unfolding add add_count empty_container capacity capacity_of mdata data_of with_data
empty_object fresh zeroed d sixteen e =
    let room : ltb ((0 + 0) % word_mod * 24 % word_mod) (length zeroed) ≡ true = ground arith in
    let fits = overwrite_fits zeroed 0 [] (omega arith) in
    let same = length-overwritten zeroed 0 [] (omega arith) in
    let made = rw (room, fits) at e in ground (arith, same)

heap_object :
    (fresh : ℕ → List Instruction) (zeroed : List Instruction) (i : Instruction)
    (is : List Instruction) (d : Container Instruction)
    → length zeroed ≡ 16
    → length (i ∷ is) * 24 + 8 ≤ word_mod
    → add instruction_bytes fresh (empty_container zeroed) (i ∷ is) ≡ returned d
    → (h : Heap Instruction) × (d.heap ≡ some h) × (d.stack ≡ zeroed)
unfolding add move_to_heap add_count empty_container capacity capacity_of
heap_object fresh zeroed i is d sixteen small e =
    let full : ltb ((0 + length (i ∷ is)) % word_mod * 24 % word_mod) (length zeroed) ≡ false =
      ground arith in
    let new_size = (0 + length (i ∷ is)) % word_mod * 24 % word_mod in
    let c : Container Instruction = empty_container zeroed in
    let (g, made, counted) =
      bind-eq-returned (move_to_heap fresh new_size c (i ∷ is))
        (λ grown. returned (add_count (length (i ∷ is)) grown)) (rw full at e) in
    let (h, is_heap, same) =
      heap_made (round_to_multiple new_size 8) 0 zeroed
        (overwrite (fresh (round_to_multiple new_size 8)) 0 (take 0 (mdata c)))
        (λ old. overwrite old 0 (i ∷ is)) g made in
    (h, ground arith, ground arith)

kept_object :
    (fresh : ℕ → List Instruction) (zeroed : List Instruction) (is : List Instruction)
    (d : Container Instruction)
    → length zeroed ≡ 16
    → length is * 24 + 8 ≤ word_mod
    → add instruction_bytes fresh (empty_container zeroed) is ≡ returned d
    → (length d.stack ≡ 16) × (d.heap ≡ none → length is ≡ 0)
kept_object fresh zeroed [] d sixteen small e =
    (empty_object fresh zeroed d sixteen e ∙ sixteen, λ stays. refl)
kept_object fresh zeroed (i ∷ is) d sixteen small e =
    let (h, is_heap, same) = heap_object fresh zeroed i is d sixteen small e in
    (ap length same ∙ sixteen, λ stays. absurd (ground arith))

make_program-Holds :
    (fresh : ℕ → List Instruction) (zeroed junk is : List Instruction)
    → ((k : ℕ) → length (fresh k) ≡ k)
    → length zeroed ≡ 16
    → length junk ≡ 16
    → length is * 24 + 8 ≤ word_mod
    → (p : Program) × (make_program fresh zeroed is ≡ returned p)
      × Holds p is
      × Holds (moved_program junk p).0 is
      × Holds (moved_program junk p).1 []
unfolding make_program moved_program empty_container capacity capacity_of mdata data_of contents
    size
make_program-Holds fresh zeroed junk is sized sixteen junk_sixteen small =
    let empty : IsContainer (empty_container zeroed) = record {
      capacity_length = refl;
      count_le = omega arith;
      small = omega arith;
    } in
    let (d, e, whole, holds) =
      add-contents 24 fresh (empty_container zeroed) is sized empty (omega arith) (omega arith) in
    let (long, stays) = kept_object fresh zeroed is d sixteen small e in
    let p : Program = record { instructions = d } in
    let count : d.count ≡ length is =
      (Holds-ReadsAs p is (record { whole = whole; held = holds })).0 in
    let (same, whole1, empty1, whole2) =
      moved-contents 24 junk d whole (omega arith) (omega arith) (λ n. omega (arith, stays n)) in
    (
      p,
      rw e refl,
      record { whole = whole; held = holds },
      record { whole = whole1; held = same ∙ holds },
      record { whole = whole2; held = empty1 },
    )

-- If new arrays have the length asked for, the arrays of the two objects hold 16 instructions each, and
-- the instructions take fewer bytes than 64 bits count: a program can be made of any number of
-- instructions, 0 included, its size is their number, and `instruction` gives each at its address. After
-- a move the new program gives the same and the old one has the size 0.
pub make_program-ReadsAs :
    (fresh : ℕ → List Instruction) (zeroed junk is : List Instruction)
    → ((k : ℕ) → length (fresh k) ≡ k)
    → length zeroed ≡ 16
    → length junk ≡ 16
    → length is * 24 + 8 ≤ word_mod
    → (p : Program) × (make_program fresh zeroed is ≡ returned p)
      × ReadsAs p is
      × ReadsAs (moved_program junk p).0 is
      × (size (moved_program junk p).1 ≡ 0)
make_program-ReadsAs fresh zeroed junk is sized sixteen junk_sixteen small =
    let (p, e, h, h1, h2) =
      make_program-Holds fresh zeroed junk is sized sixteen junk_sixteen small in
    (p, e, Holds-ReadsAs _ _ h, Holds-ReadsAs _ _ h1, (Holds-ReadsAs _ _ h2).0)
