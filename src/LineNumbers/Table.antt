-- ===== src/LineNumbers/Table.antt =====
-- The table that src/las.c writes for the instructions of a program.
use lpc.Base.{
  ℕ, ◌^◌, ◌==◌, ◌≤◌, ◌<◌, ◌≡◌, refl, sym, ap, ◌∙◌, true, List, [], ◌∷◌, ◌++◌, ℤ, pos, ◌-ℤ◌, ltb,
  if◌then◌else◌, length, All, arith, inl, inr, Bool-cases,
}
use mathlib.Core.List.{append_assoc, append-nil}
use lpc.Text.{Bytes}
use lpc.LineNumbers.{Model, ilp32, lp64, insert_small_number, Numbering, number_line, number_lines}
use lpc.LineNumbers.Numbers.{IsSmall}

-- The line of the last instruction that stands at `offset` or before it, else `line`.
unfoldable pub line_at : List (ℕ × ℕ) → ℕ → ℕ → ℕ
line_at [] offset line = line
line_at (x ∷ l) offset line =
    let rest = line_at l offset x.1 in if ltb offset x.0 then line else rest

-- Instructions in the order of their places, from `pc` on.
abbrev pub IsAscending : ℕ → List (ℕ × ℕ) → Type 0
IsAscending pc [] = Unit {0}
IsAscending pc (x ∷ l) = (pc ≤ x.0) × IsAscending x.0 l

-- Places and lines are below this bound.
abbrev pub limit : Model → ℕ
limit ilp32 = 2 ^ 31
limit lp64 = 2 ^ 15

abbrev pub AreLow : Model → List (ℕ × ℕ) → Type 0
AreLow m l = All (λ x. (x.0 < limit m) × (x.1 < limit m)) l

pub difference-IsSmall :
    (m : Model) (a b : ℕ) → a < limit m → b < limit m → IsSmall m (pos a -ℤ pos b)
difference-IsSmall ilp32 a b h k = ground arith
difference-IsSmall lp64 a b h k = ground arith

-- What is added to the table.
unfoldable pub encode : Model → List (ℕ × ℕ) → ℕ → ℕ → Bytes
encode m [] line pc = []
encode m (x ∷ l) line pc =
    let same = encode m l line pc in
    let other = encode m l x.1 x.0 in
    if line == x.1
    then same
    else insert_small_number m (pos x.0 -ℤ pos pc)
      ++ (insert_small_number m (pos x.1 -ℤ pos line) ++ other)

number_line_same :
    (m : Model) (pc line : ℕ) (s : Numbering)
    → (s.last_line == line) ≡ true
    → number_line m pc line s ≡ s
unfolding number_line
number_line_same m pc line s e = rw e refl

pub number_lines-encode :
    (m : Model) (l : List (ℕ × ℕ)) (s : Numbering)
    → (number_lines m l s).line_numbers ≡ s.line_numbers ++ encode m l s.last_line s.last_pc
unfolding number_lines encode number_line
number_lines-encode m [] s = sym (append-nil s.line_numbers)
number_lines-encode m (x ∷ l) s = elim (Bool-cases (s.last_line == x.1)) [
  | inl e ↦
      ap (λ s'. (number_lines m l s').line_numbers) (number_line_same m x.0 x.1 s e)
      ∙ rw e (number_lines-encode m l s)
  | inr e ↦
      number_lines-encode m l (number_line m x.0 x.1 s)
      ∙ (let a = insert_small_number m (pos x.0 -ℤ pos s.last_pc) in
          let b = insert_small_number m (pos x.1 -ℤ pos s.last_line) in
          let c = encode m l x.1 x.0 in
          rw e (
            append_assoc s.line_numbers (a ++ b) c ∙ ap (◌++◌ s.line_numbers) (append_assoc a b c)))
]

pub line_at_early :
    (l : List (ℕ × ℕ)) (pc offset line : ℕ)
    → IsAscending pc l
    → offset < pc
    → line_at l offset line ≡ line
unfolding line_at
line_at_early [] pc offset line a h = refl
line_at_early (x ∷ l) pc offset line a h = ground (arith, a.0)

pub some_bytes : (m : Model) (a : ℤ) → 0 < length (insert_small_number m a)
unfolding insert_small_number
some_bytes m a = ground arith
