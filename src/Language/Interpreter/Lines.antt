-- ===== src/Language/Interpreter/Lines.antt =====
-- Texts of which each line is ended by the delimiter, and what the parser's loops leave of them.
use sabot.Prelude.{
  ℕ, zero, suc, ◌-◌, ◌≤◌, ◌≡◌, ◌≢◌, refl, sym, ap, ◌∙◌, arith, ◌==◌, ◌&&◌, Bool, true, Bool-cases,
  inl, inr, List, [], ◌∷◌, length, get_or, drop,
}
use sabot.Outcome.{returned}
use sabot.Language.Dialect.{InstructionDefinition, find_idef, same_bytes}
use sabot.Language.Interpreter.{advance}

-- A text that is empty or ends with the byte.
abbrev pub LastIs : ℕ → List ℕ → Type 0
LastIs line [] = Unit {0}
LastIs line (c ∷ []) = c ≡ line
LastIs line (c ∷ d ∷ cs) = LastIs line (d ∷ cs)

pub LastIs-tail : (line c : ℕ) (cs : List ℕ) → LastIs line (c ∷ cs) → LastIs line cs
LastIs-tail line c [] h = tt
LastIs-tail line c (d ∷ cs) h = h

pub advance-LastIs :
    (stops : ℕ → Bool) (line : ℕ) (text : List ℕ)
    → LastIs line text
    → LastIs line (advance stops text).1
unfolding advance
advance-LastIs stops line [] h = tt
advance-LastIs stops line (c ∷ cs) h = elim (Bool-cases (stops c)) [
  | inl e ↦ rw e h
  | inr e ↦ rw e (advance-LastIs stops line cs (LastIs-tail line c cs h))
]

-- A loop that stops at the delimiter stops before the end.
pub advance-ne-end :
    (stops : ℕ → Bool) (line c : ℕ) (cs : List ℕ)
    → stops line ≡ true
    → LastIs line (c ∷ cs)
    → (advance stops (c ∷ cs)).1 ≢ []
unfolding advance
advance-ne-end stops line c [] s h e =
    let stopped : stops c ≡ true = ap stops h ∙ s in cc (rw stopped at e)
advance-ne-end stops line c (d ∷ ds) s h e = elim (Bool-cases (stops c)) [
  | inl stopped ↦ cc (rw stopped at e)
  | inr goes ↦ advance-ne-end stops line d ds s h (rw goes at e)
]

-- Where the loop has stopped, its condition is met.
pub advance-stops :
    (stops : ℕ → Bool) (text : List ℕ) (c : ℕ) (rest : List ℕ)
    → (advance stops text).1 ≡ c ∷ rest
    → stops c ≡ true
unfolding advance
advance-stops stops [] c rest e = cc
advance-stops stops (d ∷ ds) c rest e = elim (Bool-cases (stops d)) [
  | inl s ↦ let head : d ≡ c = ap (λ l. get_or l 0 0) (rw s at e) in sym (ap stops head) ∙ s
  | inr s ↦ advance-stops stops ds c rest (rw s at e)
]

pub advance-passed :
    (stops : ℕ → Bool) (text : List ℕ)
    → (advance stops text).1 ≡ []
    → (advance stops text).0 ≡ length text
unfolding advance
advance-passed stops [] e = refl
advance-passed stops (d ∷ ds) e = elim (Bool-cases (stops d)) [
  | inl s ↦ cc (rw s at e)
  | inr s ↦ rw s (ap suc (advance-passed stops ds (rw s at e)))
]

get_or-LastIs :
    (line c : ℕ) (cs : List ℕ) → LastIs line (c ∷ cs) → get_or (c ∷ cs) (length cs) 0 ≡ line
get_or-LastIs line c [] h = h
get_or-LastIs line c (d ∷ ds) h = get_or-LastIs line d ds h

get_or-drop : (a : List ℕ) (n : ℕ) → get_or (drop 1 a) n 0 ≡ get_or a (suc n) 0
get_or-drop [] n = refl
get_or-drop (x ∷ xs) n = refl

same_bytes-last :
    (n : ℕ) (a b : List ℕ) → same_bytes (suc n) a b ≡ true → get_or a n 0 ≡ get_or b n 0
unfolding same_bytes
same_bytes-last zero a b e = ground arith
same_bytes-last (suc n) a b e =
    let later : same_bytes (suc n) (drop 1 a) (drop 1 b) ≡ true = ground (arith, e) in
    sym (get_or-drop a n) ∙ same_bytes-last n (drop 1 a) (drop 1 b) later ∙ get_or-drop b n

-- Definitions of at most as many operands as an instruction has, whose mnemonics do not end in the
-- delimiter of lines.
abbrev pub AreLineWise : ℕ → List InstructionDefinition → Type 0
AreLineWise line [] = Unit {0}
AreLineWise line (d ∷ ds) =
    (d.operand_count ≤ 2)
    × (get_or d.mnemonic (d.mnemonic_length - 1) 0 ≢ line)
    × AreLineWise line ds

pub count-find_idef :
    (line : ℕ) (ds : List InstructionDefinition) (str : List ℕ) (len : ℕ)
    (d : InstructionDefinition)
    → AreLineWise line ds
    → find_idef ds str len ≡ returned d
    → d.operand_count ≤ 2
unfolding find_idef
count-find_idef line [] str len d h e = cc
count-find_idef line (x ∷ ds) str len d (few, apart, rest) e =
    elim (Bool-cases (x.mnemonic_length == len && same_bytes len x.mnemonic str)) [
      | inl s ↦ ground (arith, few, rw s at e)
      | inr s ↦ count-find_idef line ds str len d rest (rw s at e)
    ]

both : (a b : Bool) → (a && b) ≡ true → (a ≡ true) × (b ≡ true)
both a b h = ground (arith, h)

-- No mnemonic goes on to the end of the text.
pub find_idef-ne-whole :
    (line : ℕ) (ds : List InstructionDefinition) (c : ℕ) (cs : List ℕ) (d : InstructionDefinition)
    → AreLineWise line ds
    → LastIs line (c ∷ cs)
    → find_idef ds (c ∷ cs) (suc (length cs)) ≢ returned d
unfolding find_idef
find_idef-ne-whole line [] c cs d h last e = cc
find_idef-ne-whole line (x ∷ ds) c cs d (few, apart, rest) last e =
    elim (Bool-cases
      (x.mnemonic_length == suc (length cs) && same_bytes (suc (length cs)) x.mnemonic (c ∷ cs))) [
        | inl s ↦
            let (sized, same) = both (x.mnemonic_length == suc (length cs)) _ s in
            let place : x.mnemonic_length - 1 ≡ length cs = ground (arith, sized) in
            apart (
              ap (λ k. get_or x.mnemonic k 0) place
              ∙ same_bytes-last (length cs) x.mnemonic (c ∷ cs) same
              ∙ get_or-LastIs line c cs last)
        | inr s ↦ find_idef-ne-whole line ds c cs d rest last (rw s at e)
      ]
