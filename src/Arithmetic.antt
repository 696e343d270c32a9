-- ===== src/Arithmetic.antt =====
-- The operators on numbers of src/operators.c, on the stack with its last value first. What they do with
-- other types is the work of other functions, and the arithmetic of floats is not modelled: `other`.
-- An `int` wraps round, and a right shift keeps the sign.
pub mod Division
pub mod Typing
use lpc.Base.{
  ℕ, zero, suc, ◌+◌, ◌-◌, ◌*◌, ◌/◌, ◌%◌, ◌^◌, ◌==◌, Bool, true, false, not, ◌&&◌, ◌||◌, List, [],
  ◌∷◌, ℤ, pos, negsuc, pos_part, neg_part, sub_ℕ, ◌-ℤ◌, eqb_ℤ, negative, wrap_int, int_of_word, ltb,
  leb, if◌then◌else◌,
}
use Prim.Native.Nat.{bit_and, bit_or, bit_xor}
use lpc.Value.{Svalue, t_number, t_float, t_string, t_pointer, t_list, t_mapping}
use lpc.LineNumbers.{word32}

pub data Error : Type 0 where
  different_types : Error
  bad_arg : ℕ → Error
  division_by_zero modulus_by_zero : Error

-- How an operator ends: with a stack, with `error`, with the signal of a division that overflows, or in
-- a shift that C does not define.
pub data Outcome : Type 0 where
  pushed : List Svalue → Outcome
  failed : Error → Outcome
  trap undefined_shift : Outcome
  other : Outcome

-- The product and the quotient of C, which is rounded towards zero, with its remainder.
abbrev pub magnitude : ℤ → ℕ
magnitude (pos n) = n
magnitude (negsuc n) = suc n

abbrev pub with_sign : Bool → ℕ → ℤ
with_sign false n = pos n
with_sign true zero = pos 0
with_sign true (suc n) = negsuc n

abbrev pub opposite : Bool → Bool → Bool
opposite true b = not b
opposite false b = b

abbrev pub product : ℤ → ℤ → ℤ
product a b = with_sign (opposite (negative a) (negative b)) (magnitude a * magnitude b)

unfoldable pub quotient : ℤ → ℤ → ℤ
quotient a b = with_sign (opposite (negative a) (negative b)) (magnitude a / magnitude b)

unfoldable pub remainder : ℤ → ℤ → ℤ
remainder a b = with_sign (negative a) (magnitude a % magnitude b)

-- `<<` and `>>`
abbrev pub shifted_left : ℤ → ℕ → ℤ
shifted_left a k = with_sign (negative a) (magnitude a * 2 ^ k)

abbrev pub shifted_right : ℤ → ℕ → ℤ
shifted_right (pos n) k = pos (n / 2 ^ k)
shifted_right (negsuc n) k = negsuc (n / 2 ^ k)

abbrev pub bits : (ℕ → ℕ → ℕ) → ℤ → ℤ → ℤ
bits f a b = int_of_word (f (word32 a) (word32 b) % 2 ^ 32)

pub data Operator : Type 0 where
  op_subtract op_and op_or op_xor op_lsh op_rsh op_multiply op_divide op_mod : Operator

-- `IS_TYPE(*sp,BT_POINTER | BT_LIST | BT_MAPPING)`
abbrev pub is_collection : Svalue → Bool
is_collection a = a.type == t_pointer || (a.type == t_list || a.type == t_mapping)

-- The result takes the place of the first argument, whose subtype stays.
abbrev pub result : Svalue → List Svalue → ℤ → Outcome
result a sp n = pushed (record a { u = n } ∷ sp)

-- `f_and`, `f_or` and `f_xor`, by the operator on words
unfoldable pub bit_numbers : (ℕ → ℕ → ℕ) → Svalue → Svalue → List Svalue → Outcome
bit_numbers f a b sp =
    if a.type == b.type && is_collection b
    then other
    else if not (a.type == t_number)
    then failed (bad_arg 1)
    else if not (b.type == t_number)
    then failed (bad_arg 2)
    else result a sp (bits f a.u b.u)

-- `f_lsh` and `f_rsh`, by the shift of a number
unfoldable pub shift_numbers : (ℤ → ℕ → ℤ) → Svalue → Svalue → List Svalue → Outcome
shift_numbers f a b sp =
    if not (a.type == t_number)
    then failed (bad_arg 1)
    else if not (b.type == t_number)
    then failed (bad_arg 2)
    else if negative b.u || leb 32 (pos_part b.u)
    then undefined_shift
    else result a sp (f a.u (pos_part b.u))

unfoldable pub f_subtract : Svalue → Svalue → List Svalue → Outcome
f_subtract a b sp =
    if not (a.type == b.type)
    then failed different_types
    else if b.type == t_number
    then result a sp (wrap_int (a.u -ℤ b.u))
    else if is_collection b || (b.type == t_float || b.type == t_string)
    then other
    else failed (bad_arg 1)

unfoldable pub f_multiply : Svalue → Svalue → List Svalue → Outcome
f_multiply a b sp =
    if a.type == t_pointer
    then (if b.type == t_string then other else failed (bad_arg 2))
    else if a.type == t_float
    then (if b.type == t_float then other else failed (bad_arg 2))
    else if a.type == t_number
    then (if b.type == t_number
        then result a sp (wrap_int (product a.u b.u))
        else failed (bad_arg 2))
    else failed (bad_arg 1)

-- The least `int` through -1 is no `int`.
abbrev pub overflows : ℤ → ℤ → Bool
overflows a b = eqb_ℤ a (negsuc (2 ^ 31 - 1)) && eqb_ℤ b (negsuc 0)

unfoldable pub f_divide : Svalue → Svalue → List Svalue → Outcome
unfolding quotient
f_divide a b sp =
    if not (a.type == b.type)
    then failed (bad_arg 2)
    else if b.type == t_string || b.type == t_float
    then other
    else if not (b.type == t_number)
    then failed (bad_arg 1)
    else if eqb_ℤ b.u (pos 0)
    then failed division_by_zero
    else if overflows a.u b.u
    then trap
    else result a sp (quotient a.u b.u)

unfoldable pub f_mod : Svalue → Svalue → List Svalue → Outcome
unfolding remainder
f_mod a b sp =
    if not (a.type == b.type)
    then failed (bad_arg 2)
    else if b.type == t_float
    then other
    else if not (b.type == t_number)
    then failed (bad_arg 1)
    else if eqb_ℤ b.u (pos 0)
    then failed modulus_by_zero
    else if overflows a.u b.u
    then trap
    else result a sp (remainder a.u b.u)

unfoldable pub f_and : Svalue → Svalue → List Svalue → Outcome
unfolding bit_numbers
f_and a b sp = bit_numbers bit_and a b sp

unfoldable pub f_or : Svalue → Svalue → List Svalue → Outcome
unfolding bit_numbers
f_or a b sp = bit_numbers bit_or a b sp

unfoldable pub f_xor : Svalue → Svalue → List Svalue → Outcome
unfolding bit_numbers
f_xor a b sp = bit_numbers bit_xor a b sp

unfoldable pub f_lsh : Svalue → Svalue → List Svalue → Outcome
unfolding shift_numbers
f_lsh a b sp = shift_numbers (λ u k. wrap_int (shifted_left u k)) a b sp

unfoldable pub f_rsh : Svalue → Svalue → List Svalue → Outcome
unfolding shift_numbers
f_rsh a b sp = shift_numbers shifted_right a b sp

unfoldable pub operate : Operator → Svalue → Svalue → List Svalue → Outcome
unfolding f_subtract f_and f_or f_xor f_lsh f_rsh f_multiply f_divide f_mod
operate op_subtract a b sp = f_subtract a b sp
operate op_and a b sp = f_and a b sp
operate op_or a b sp = f_or a b sp
operate op_xor a b sp = f_xor a b sp
operate op_lsh a b sp = f_lsh a b sp
operate op_rsh a b sp = f_rsh a b sp
operate op_multiply a b sp = f_multiply a b sp
operate op_divide a b sp = f_divide a b sp
operate op_mod a b sp = f_mod a b sp
