-- ===== src/Tests/Arithmetic.antt =====
-- The operators on numbers.
use lpc.Base.{◌-◌, ◌^◌, ◌≡◌, refl, [], ◌∷◌, ℤ, pos, negsuc, arith}
use lpc.Value.{Svalue, t_number}
use lpc.Arithmetic.{
  pushed, trap, op_lsh, op_divide, operate, f_subtract, f_and, f_or, f_xor, f_lsh, f_rsh,
  f_multiply, f_divide, f_mod, bit_numbers, shift_numbers, quotient, remainder,
}
use lpc.Arithmetic.Typing.{IsNumberOn, operate-number}
use lpc.Arithmetic.Division.{Division, f_divide-f_mod}

abbrev program : Unit {0}
unfolding operate f_subtract f_and f_or f_xor f_lsh f_rsh f_multiply f_divide f_mod bit_numbers
    shift_numbers quotient remainder
program = tt

abbrev an_int : ℤ → Svalue
an_int z = record { type = t_number; subtype = 0; u = z }

minus_seven_by_two :
    f_divide (an_int (negsuc 6)) (an_int (pos 2)) [] ≡ pushed (an_int (negsuc 2) ∷ [])
unfolding program
minus_seven_by_two = refl

least_by_minus_one : f_divide (an_int (negsuc (2 ^ 31 - 1))) (an_int (negsuc 0)) [] ≡ trap
unfolding program
least_by_minus_one = refl

shifted_out :
    operate op_lsh (an_int (pos 3)) (an_int (pos 31)) []
    ≡ pushed (an_int (negsuc (2 ^ 31 - 1)) ∷ [])
unfolding program
shifted_out = refl

operate-number_example : IsNumberOn [] (operate op_divide (an_int (negsuc 6)) (an_int (pos 2)) [])
operate-number_example =
    operate-number (an_int (negsuc 6)) (an_int (pos 2)) [] refl refl (omega arith, omega arith)
      (omega arith, omega arith) op_divide

f_divide-f_mod_example : Division (an_int (negsuc 6)) (an_int (pos 2)) []
f_divide-f_mod_example =
    f_divide-f_mod (an_int (negsuc 6)) (an_int (pos 2)) [] refl refl (omega arith, omega arith)
      (omega arith, omega arith)
