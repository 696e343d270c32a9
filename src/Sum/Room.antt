-- ===== src/Sum/Room.antt =====
-- The buffer of `f_sum` of src/operators.c for strings and numbers.
use lpc.Base.{
  ℕ, zero, suc, ◌+◌, ◌*◌, ◌/◌, ◌%◌, ◌^◌, ◌<◌, ◌≤◌, List, [], ◌∷◌, ℤ, pos, negsuc, IsInt,
  length-append, All, ltb, length, arith, inl, inr, Bool-cases,
}
use lpc.Saving.{Value, number, string, vector, list, mapping, decimal_loop, decimal, print_int}
use lpc.Sum.{write_text, count_room, text_of, room_of}

IsShort : ℕ → ℕ → Type 0
IsShort bound d = (fuel n : ℕ) → n < bound → length (decimal_loop fuel n) ≤ d

one_digit : IsShort 10 1
unfolding IsShort decimal_loop
one_digit zero n h = omega arith
one_digit (suc fuel) n h = elim (Bool-cases (ltb n 10)) [
  | inl e ↦ rw e (omega arith)
  | inr e ↦ absurd (ground (arith, e, h))
]

one_more : (bound d : ℕ) → IsShort bound d → IsShort (10 * bound) (suc d)
unfolding IsShort decimal_loop
one_more bound d s zero n h = omega arith
one_more bound d s (suc fuel) n h = elim (Bool-cases (ltb n 10)) [
  | inl e ↦ rw e (omega arith)
  | inr e ↦
      rw (e, length-append (decimal_loop fuel (n / 10)) ((48 + n % 10) ∷ []))
        (omega (arith, s fuel (n / 10) (omega (arith, h))))
]

ten_digits : IsShort (10 ^ 10) 10
ten_digits = one_more (10 ^ 9) 9 (
    one_more (10 ^ 8) 8 (
      one_more (10 ^ 7) 7 (
        one_more (10 ^ 6) 6 (
          one_more (10 ^ 5) 5 (
            one_more (10 ^ 4) 4
              (one_more (10 ^ 3) 3 (one_more (10 ^ 2) 2 (one_more 10 1 one_digit))))))))

length-print_int : (z : ℤ) → IsInt z → length (print_int z) ≤ 11
unfolding print_int decimal IsShort
length-print_int (pos n) h = omega (arith, h.0, ten_digits (suc n) n (omega (arith, h.0)))
length-print_int (negsuc n) h =
    omega (arith, h.1, ten_digits (suc (suc n)) (suc n) (omega (arith, h.1)))

-- The numbers are `int`s.
abbrev pub HasInts : Value → Type 0
HasInts (number subtype n) = IsInt n
HasInts _ = Unit {0}

text_of-room_of : (v : Value) → HasInts v → length (text_of v) ≤ room_of v
text_of-room_of (number subtype n) h = omega (arith, length-print_int n h)
text_of-room_of (string s) h = omega arith
text_of-room_of (vector vs) h = omega arith
text_of-room_of (list vs) h = omega arith
text_of-room_of (mapping es d) h = omega arith

-- What the sum of strings and numbers writes into its buffer fits into the room that it counted for
-- it, when the numbers are `int`s.
pub length-write_text :
    (argp : List Value) → All HasInts argp → length (write_text argp) ≤ count_room argp
unfolding write_text count_room
length-write_text [] h = omega arith
length-write_text (v ∷ vs) h =
    rw (length-append (text_of v) (write_text vs))
      (omega (arith, length-write_text vs h.1, text_of-room_of v h.0))
