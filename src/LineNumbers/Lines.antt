-- ===== src/LineNumbers/Lines.antt =====
-- The table that src/las.c writes, read by `get_line_number` of src/interpret.c.
use lpc.Base.{
  ℕ, zero, suc, ◌==◌, ◌≤◌, ◌<◌, ◌≡◌, refl, ap, ◌∙◌, true, false, List, [], ◌∷◌, ◌++◌, ℤ, pos, ◌+ℤ◌,
  ◌-ℤ◌, ◌-◌, ◌^◌, leb, ltb_ℤ, ltb, length, length-append, arith, inl, inr, Bool-cases,
}
use lpc.Text.{Bytes}
use lpc.LineNumbers.{
  Model, ilp32, lp64, insert_small_number, start_line_numbering, number_lines, get_small_number,
  line_loop, get_line_number, num_line_numbers,
}
use lpc.LineNumbers.Numbers.{IsSmall, get_small-insert_small}
use lpc.LineNumbers.Table.{
  line_at, IsAscending, limit, AreLow, difference-IsSmall, encode, number_lines-encode,
  line_at_early, some_bytes,
}

-- What a round of the loop does with the two numbers that it reads.
module _ (fuel : ℕ) (off line : ℤ) (offset : ℕ) where
  with_line : ℤ → ℤ → Bytes → ℤ
  with_line off' line' t = elim (ltb_ℤ (pos offset) off') [
    | true ↦ line
    | false ↦ line_loop 0 fuel t off' line' offset
  ]

  with_offset : ℤ × Bytes → ℤ
  with_offset d = let e = get_small_number d.1 in with_line (off +ℤ d.0) (line +ℤ e.0) e.1

  loop_round :
      (m : Model) (a b : ℤ) (t : Bytes)
      → IsSmall m a
      → IsSmall m b
      → line_loop 0
          (suc fuel)
          (insert_small_number m a ++ (insert_small_number m b ++ t))
          off
          line
          offset
        ≡ with_line (off +ℤ a) (line +ℤ b) t
  unfolding line_loop with_offset with_line
  loop_round m a b t h k =
      let rest = insert_small_number m b ++ t in
      let cnt = insert_small_number m a ++ rest in
      let filled : leb (length cnt) 0 ≡ false =
        ground (arith, some_bytes m a, length-append (insert_small_number m a) rest) in
      let one_round : line_loop 0 (suc fuel) cnt off line offset
          ≡ with_offset (get_small_number cnt) =
        rw (filled, line_loop) refl in
      one_round
      ∙ ap with_offset (get_small-insert_small m a rest h)
      ∙ ap (λ e. with_line (off +ℤ a) (line +ℤ e.0) e.1) (get_small-insert_small m b t k)

loop_empty : (fuel : ℕ) (off line : ℤ) (offset : ℕ) → line_loop 0 fuel [] off line offset ≡ line
unfolding line_loop
loop_empty zero off line offset = refl
loop_empty (suc fuel) off line offset = refl

IsAscending-weaken : (l : List (ℕ × ℕ)) (a b : ℕ) → a ≤ b → IsAscending b l → IsAscending a l
IsAscending-weaken [] a b h k = tt
IsAscending-weaken (x ∷ l) a b h k = (omega (arith, k.0), k.1)

some_limit : (m : Model) → 0 < limit m
some_limit ilp32 = omega arith
some_limit lp64 = omega arith

module _ (m : Model) (offset : ℕ) where
  same_line :
      (x : ℕ × ℕ) (l : List (ℕ × ℕ)) (line : ℕ)
      → IsAscending x.0 l
      → (line == x.1) ≡ true
      → line_at l offset line ≡ line_at (x ∷ l) offset line
  unfolding line_at
  same_line x l line a e =
      let same : x.1 ≡ line = ground arith in
      elim (Bool-cases (ltb offset x.0)) [
        | inl h ↦ rw h (line_at_early l x.0 offset line a (ground arith))
        | inr h ↦ rw (h, same) refl
      ]

  other_line :
      (fuel : ℕ) (x : ℕ × ℕ) (l : List (ℕ × ℕ)) (pc line : ℕ) (t : Bytes)
      → line_loop 0 fuel t (pos x.0) (pos x.1) offset ≡ pos (line_at l offset x.1)
      → with_line fuel
          (pos pc)
          (pos line)
          offset
          (pos pc +ℤ (pos x.0 -ℤ pos pc))
          (pos line +ℤ (pos x.1 -ℤ pos line))
          t
        ≡ pos (line_at (x ∷ l) offset line)
  unfolding with_line line_at
  other_line fuel x l pc line t h =
      let go = with_line fuel (pos pc) (pos line) offset in
      let off : pos pc +ℤ (pos x.0 -ℤ pos pc) ≡ pos x.0 = ground arith in
      let now : pos line +ℤ (pos x.1 -ℤ pos line) ≡ pos x.1 = ground arith in
      ap (λ z. go z (pos line +ℤ (pos x.1 -ℤ pos line)) t) off
      ∙ ap (λ z. go (pos x.0) z t) now
      ∙ elim (Bool-cases (ltb offset x.0)) [
        | inl e ↦
            let past : ltb_ℤ (pos offset) (pos x.0) ≡ true = ground arith in
            rw (past, with_line, e) refl
        | inr e ↦
            let past : ltb_ℤ (pos offset) (pos x.0) ≡ false = ground arith in
            rw (past, with_line, e) h
      ]

  new_line :
      (fuel : ℕ) (x : ℕ × ℕ) (l : List (ℕ × ℕ)) (pc line : ℕ) (t : Bytes)
      → IsSmall m (pos x.0 -ℤ pos pc)
      → IsSmall m (pos x.1 -ℤ pos line)
      → ((f : ℕ)
          → length t ≤ f
          → line_loop 0 f t (pos x.0) (pos x.1) offset ≡ pos (line_at l offset x.1))
      → length (
          insert_small_number m (pos x.0 -ℤ pos pc)
          ++ (insert_small_number m (pos x.1 -ℤ pos line) ++ t))
        ≤ fuel
      → line_loop 0 fuel
          (insert_small_number m (pos x.0 -ℤ pos pc)
            ++ (insert_small_number m (pos x.1 -ℤ pos line) ++ t))
          (pos pc)
          (pos line)
          offset
        ≡ pos (line_at (x ∷ l) offset line)
  new_line zero x l pc line t h k rest f =
      let a = pos x.0 -ℤ pos pc in
      let b = pos x.1 -ℤ pos line in
      absurd (
        omega (
          arith,
          length-append (insert_small_number m a) (insert_small_number m b ++ t),
          some_bytes m a,
        ))
  new_line (suc n) x l pc line t h k rest f =
      let a = pos x.0 -ℤ pos pc in
      let b = pos x.1 -ℤ pos line in
      let shorter : length t ≤ n = omega (
        arith,
        length-append (insert_small_number m a) (insert_small_number m b ++ t),
        length-append (insert_small_number m b) t,
        some_bytes m a,
      ) in
      loop_round n (pos pc) (pos line) offset m a b t h k
      ∙ other_line n x l pc line t (rest n shorter)

  loop-line_at :
      (l : List (ℕ × ℕ)) (fuel pc line : ℕ)
      → IsAscending pc l
      → AreLow m l
      → pc < limit m
      → line < limit m
      → length (encode m l line pc) ≤ fuel
      → line_loop 0 fuel (encode m l line pc) (pos pc) (pos line) offset
        ≡ pos (line_at l offset line)
  unfolding encode line_at
  loop-line_at [] fuel pc line a w hp hl f = loop_empty fuel (pos pc) (pos line) offset
  loop-line_at (x ∷ l) fuel pc line a w hp hl f = elim (Bool-cases (line == x.1)) [
    | inl e ↦ rw e (
        loop-line_at l fuel pc line (IsAscending-weaken l pc x.0 a.0 a.1) w.1 hp hl (rw e at f)
        ∙ ap pos (same_line x l line a.1 e))
    | inr e ↦ rw e (
        new_line fuel x l pc line (encode m l x.1 x.0) (difference-IsSmall m x.0 pc w.0.0 hp)
          (difference-IsSmall m x.1 line w.0.1 hl)
          (λ n h. loop-line_at l n x.0 x.1 a.1 w.1 w.0.0 w.0.1 h) (rw e at f))
  ]

-- The table that the compiler makes for instructions in the order of their places gives every offset
-- the line of the last instruction that stands there or before, or 0 before the first one, if the
-- table has less than 2^16 bytes. Places and lines are below 2^31, or below 2^15 where a `long` has 8
-- bytes.
pub get_line_number-number_lines :
    (m : Model) (l : List (ℕ × ℕ)) (offset : ℕ)
    → IsAscending 0 l
    → AreLow m l
    → length (number_lines m l start_line_numbering).line_numbers < 2 ^ 16
    → get_line_number (number_lines m l start_line_numbering).line_numbers offset
      ≡ pos (line_at l offset 0)
unfolding get_line_number
get_line_number-number_lines m l offset a w short =
    let t = (number_lines m l start_line_numbering).line_numbers in
    let all : length t - num_line_numbers t ≡ 0 = omega (arith, short) in
    rw all (
      ap (λ t. line_loop 0 (length t) t (pos 0) (pos 0) offset)
        (number_lines-encode m l start_line_numbering)
      ∙ loop-line_at m offset l (length (encode m l 0 0)) 0 0 a w (some_limit m) (some_limit m)
          (omega arith))
