-- ===== src/Arithmetic/Typing.antt =====
-- What the operators of src/operators.c leave for two numbers.
use lpc.Base.{
  ℕ, zero, suc, ◌*◌, ◌/◌, ◌%◌, ◌^◌, ◌≤◌, ◌<◌, ◌≡◌, refl, Bool, true, false, ◌||◌, List, [], ◌∷◌, ℤ,
  pos, negsuc, pos_part, eqb_ℤ, negative, ◌-ℤ◌, wrap_int, int_of_word, IsInt, leb, arith, inl, inr,
  Bool-cases,
}
use Prim.Native.Nat.{bit_and, bit_or, bit_xor}
use native.Mathlib.Nat.{div-le_self, div-mul-le_self, mul-suc, mod-lt}
use lpc.Value.{Svalue, t_number}
use lpc.Arithmetic.{
  Error, Outcome, pushed, failed, trap, undefined_shift, other, Operator, op_subtract, op_and,
  op_or, op_xor, op_lsh, op_rsh, op_multiply, op_divide, op_mod, operate, f_subtract, f_and, f_or,
  f_xor, f_lsh, f_rsh, f_multiply, f_divide, f_mod, bit_numbers, shift_numbers, quotient, remainder,
  shifted_right, shifted_left, product, magnitude, with_sign, overflows,
}

-- A number on the stack `sp`, an error of arithmetic, the signal, or a shift that is not defined.
abbrev pub IsNumberOn : List Svalue → Outcome → Type 0
IsNumberOn sp (pushed []) = ⊥
IsNumberOn sp (pushed (c ∷ rest)) = (c.type ≡ t_number) × IsInt c.u × (rest ≡ sp)
IsNumberOn sp (failed Error.division_by_zero) = Unit {0}
IsNumberOn sp (failed Error.modulus_by_zero) = Unit {0}
IsNumberOn sp (failed _) = ⊥
IsNumberOn sp trap = Unit {0}
IsNumberOn sp undefined_shift = Unit {0}
IsNumberOn sp other = ⊥

int_of_word-IsInt : (w : ℕ) → IsInt (int_of_word (w % 2 ^ 32))
int_of_word-IsInt w = ground arith

wrap_int-IsInt : (z : ℤ) → IsInt (wrap_int z)
wrap_int-IsInt (pos n) = ground arith
wrap_int-IsInt (negsuc n) = ground arith

with_sign-IsInt : (s : Bool) (n : ℕ) → n < 2 ^ 31 → IsInt (with_sign s n)
with_sign-IsInt false n h = ground arith
with_sign-IsInt true zero h = ground arith
with_sign-IsInt true (suc n) h = ground arith

shifted_right-IsInt : (z : ℤ) (k : ℕ) → IsInt z → IsInt (shifted_right z k)
shifted_right-IsInt (pos n) k h = (omega (arith, div-le_self n (2 ^ k), h.0), omega arith)
shifted_right-IsInt (negsuc n) k h = (omega arith, omega (arith, div-le_self n (2 ^ k), h.1))

with_sign-true-IsInt : (n : ℕ) → n ≤ 2 ^ 31 → IsInt (with_sign true n)
with_sign-true-IsInt zero h = ground arith
with_sign-true-IsInt (suc n) h = ground arith

half : (n m : ℕ) → n / suc (suc m) * 2 ≤ n
half n m = omega (
  arith,
  div-mul-le_self n (suc (suc m)),
  mul-suc (n / suc (suc m)) (suc m),
  mul-suc (n / suc (suc m)) m,
)

pub some_magnitude : (b : ℤ) → eqb_ℤ b (pos 0) ≡ false → 0 < magnitude b
some_magnitude (pos n) h = ground arith
some_magnitude (negsuc n) h = omega arith

magnitude_bound : (b : ℤ) → IsInt b → magnitude b ≤ 2 ^ 31
magnitude_bound (pos n) h = omega (arith, h.0)
magnitude_bound (negsuc n) h = omega (arith, h.1)

pub quotient-IsInt : (a b : ℤ) → IsInt a → IsInt b → overflows a b ≡ false → IsInt (quotient a b)
unfolding quotient
quotient-IsInt (pos n) b ha hb o =
    with_sign-IsInt (negative b) (n / magnitude b)
      (omega (arith, div-le_self n (magnitude b), ha.0))
quotient-IsInt (negsuc n) (pos m) ha hb o =
    with_sign-true-IsInt ((suc n) / m) (omega (arith, div-le_self (suc n) m, ha.1))
quotient-IsInt (negsuc n) (negsuc zero) ha hb o =
    with_sign-IsInt false (suc n / 1) (ground (arith, o, ha.1))
quotient-IsInt (negsuc n) (negsuc (suc m)) ha hb o =
    with_sign-IsInt false (suc n / suc (suc m)) (ground (arith, half (suc n) m, ha.1))

pub remainder-IsInt :
    (a b : ℤ) → IsInt a → IsInt b → eqb_ℤ b (pos 0) ≡ false → IsInt (remainder a b)
unfolding remainder
remainder-IsInt a b ha hb z =
    with_sign-IsInt (negative a) (magnitude a % magnitude b)
      (omega (arith, mod-lt (magnitude a) (some_magnitude b z), magnitude_bound b hb))

module _ (a b : Svalue) (sp : List Svalue) (ta : a.type ≡ t_number) (tb : b.type ≡ t_number)
    (ia : IsInt a.u) (ib : IsInt b.u) where
  bit_numbers-number : (f : ℕ → ℕ → ℕ) → IsNumberOn sp (bit_numbers f a b sp)
  unfolding bit_numbers
  bit_numbers-number f = rw (ta, tb) (refl, int_of_word-IsInt _, refl)

  shift_numbers-number :
      (f : ℤ → ℕ → ℤ)
      → ((z : ℤ) (k : ℕ) → IsInt z → IsInt (f z k))
      → IsNumberOn sp (shift_numbers f a b sp)
  unfolding shift_numbers
  shift_numbers-number f h = elim (Bool-cases (negative b.u || leb 32 (pos_part b.u))) [
    | inl e ↦ rw (ta, tb, e) tt
    | inr e ↦ rw (ta, tb, e) (refl, h a.u (pos_part b.u) ia, refl)
  ]

  f_divide-number : IsNumberOn sp (f_divide a b sp)
  unfolding f_divide
  f_divide-number = elim (Bool-cases (eqb_ℤ b.u (pos 0))) [
    | inl z ↦ rw (ta, tb, z) tt
    | inr z ↦ elim (Bool-cases (overflows a.u b.u)) [
      | inl o ↦ rw (ta, tb, z, o) tt
      | inr o ↦ rw (ta, tb, z, o) (refl, quotient-IsInt a.u b.u ia ib o, refl)
    ]
  ]

  f_mod-number : IsNumberOn sp (f_mod a b sp)
  unfolding f_mod
  f_mod-number = elim (Bool-cases (eqb_ℤ b.u (pos 0))) [
    | inl z ↦ rw (ta, tb, z) tt
    | inr z ↦ elim (Bool-cases (overflows a.u b.u)) [
      | inl o ↦ rw (ta, tb, z, o) tt
      | inr o ↦ rw (ta, tb, z, o) (refl, remainder-IsInt a.u b.u ia ib z, refl)
    ]
  ]

  -- For two numbers that are `int`s, each of the nine operators leaves a number that is an `int` on the
  -- rest of the stack, or it is an error of arithmetic, the signal, or a shift that is not defined; it
  -- is never an error of types.
  pub operate-number : (op : Operator) → IsNumberOn sp (operate op a b sp)
  unfolding operate f_subtract f_multiply f_and f_or f_xor f_lsh f_rsh
  operate-number op_subtract = rw (ta, tb) (refl, wrap_int-IsInt (a.u -ℤ b.u), refl)
  operate-number op_and = bit_numbers-number bit_and
  operate-number op_or = bit_numbers-number bit_or
  operate-number op_xor = bit_numbers-number bit_xor
  operate-number op_lsh =
      shift_numbers-number (λ u k. wrap_int (shifted_left u k))
        (λ z k h. wrap_int-IsInt (shifted_left z k))
  operate-number op_rsh = shift_numbers-number shifted_right shifted_right-IsInt
  operate-number op_multiply = rw (ta, tb) (refl, wrap_int-IsInt (product a.u b.u), refl)
  operate-number op_divide = f_divide-number
  operate-number op_mod = f_mod-number
