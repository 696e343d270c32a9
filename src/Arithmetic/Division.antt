-- ===== src/Arithmetic/Division.antt =====
-- `f_divide` and `f_mod` of src/operators.c together.
use lpc.Base.{
  ℕ, zero, suc, ◌+◌, ◌-◌, ◌*◌, ◌/◌, ◌%◌, ◌^◌, ◌<◌, ◌≡◌, refl, ap, Bool, true, false, List, ℤ, pos,
  negsuc, ◌+ℤ◌, eqb_ℤ, negative, IsInt, arith, inl, inr, ◌⊎◌, Bool-cases,
}
use native.Mathlib.Nat.{div-add-mod', mod-lt}
use lpc.Value.{Svalue, t_number}
use lpc.Arithmetic.{
  failed, division_by_zero, modulus_by_zero, trap, result, f_divide, f_mod, quotient, remainder,
  magnitude, with_sign, opposite, product, overflows,
}
use lpc.Arithmetic.Typing.{some_magnitude, quotient-IsInt, remainder-IsInt}

-- `q` is the quotient of `a` by `b` rounded towards zero, and `r` the rest of `a`.
pub record Divides (a b q r : ℤ) : Type 0 where
  pub whole : product q b +ℤ r ≡ a
  pub smaller : magnitude r < magnitude b
  pub sign : (magnitude r ≡ 0) ⊎ (negative r ≡ negative a)

magnitude-with_sign : (s : Bool) (n : ℕ) → magnitude (with_sign s n) ≡ n
magnitude-with_sign false n = refl
magnitude-with_sign true zero = refl
magnitude-with_sign true (suc n) = refl

sign-with_sign : (s : Bool) (n : ℕ) → (n ≡ 0) ⊎ (negative (with_sign s n) ≡ s)
sign-with_sign false n = inr refl
sign-with_sign true zero = inl refl
sign-with_sign true (suc n) = inr refl

product-with_sign :
    (s : Bool) (n : ℕ) (b : ℤ)
    → product (with_sign (opposite s (negative b)) n) b ≡ with_sign s (n * magnitude b)
product-with_sign false n (pos m) = refl
product-with_sign false zero (negsuc m) = ground arith
product-with_sign false (suc n) (negsuc m) = refl
product-with_sign true zero (pos m) = ground arith
product-with_sign true (suc n) (pos m) = refl
product-with_sign true n (negsuc m) = refl

sum-with_sign : (s : Bool) (n m : ℕ) → with_sign s n +ℤ with_sign s m ≡ with_sign s (n + m)
sum-with_sign false n m = ground arith
sum-with_sign true zero zero = ground arith
sum-with_sign true zero (suc m) = ground arith
sum-with_sign true (suc n) zero = ground arith
sum-with_sign true (suc n) (suc m) = ground arith

with_sign-magnitude : (a : ℤ) → with_sign (negative a) (magnitude a) ≡ a
with_sign-magnitude (pos n) = refl
with_sign-magnitude (negsuc n) = refl

quotient-Divides : (a b : ℤ) → eqb_ℤ b (pos 0) ≡ false → Divides a b (quotient a b) (remainder a b)
unfolding quotient remainder
quotient-Divides a b z = record {
  whole =
      rw
        (
          product-with_sign (negative a) (magnitude a / magnitude b) b,
          sum-with_sign (negative a) (magnitude a / magnitude b * magnitude b)
              (magnitude a % magnitude b),
          div-add-mod' (magnitude a) (magnitude b),
        )
        (with_sign-magnitude a);
  smaller =
      rw (magnitude-with_sign (negative a) (magnitude a % magnitude b))
        (mod-lt (magnitude a) (some_magnitude b z));
  sign =
      rw (magnitude-with_sign (negative a) (magnitude a % magnitude b))
        (sign-with_sign (negative a) (magnitude a % magnitude b));
}

pub eqb_ℤ-eq : (a b : ℤ) → eqb_ℤ a b ≡ true → a ≡ b
eqb_ℤ-eq (pos n) (pos m) h = ap pos (ground (arith, h))
eqb_ℤ-eq (pos n) (negsuc m) h = ground (arith, h)
eqb_ℤ-eq (negsuc n) (pos m) h = ground (arith, h)
eqb_ℤ-eq (negsuc n) (negsuc m) h = ap negsuc (ground (arith, h))

overflows-eq : (a b : ℤ) → overflows a b ≡ true → (a ≡ negsuc (2 ^ 31 - 1)) × (b ≡ negsuc 0)
overflows-eq a b h = elim (Bool-cases (eqb_ℤ a (negsuc (2 ^ 31 - 1)))) [
  | inl e ↦ (eqb_ℤ-eq a (negsuc (2 ^ 31 - 1)) e, eqb_ℤ-eq b (negsuc 0) (ground (arith, e, h)))
  | inr e ↦ ground (arith, e, h)
]

-- What `f_divide` and `f_mod` do with the numbers `a` and `b`.
abbrev pub Division : Svalue → Svalue → List Svalue → Type 0
Division a b sp =
    ((b.u ≡ pos 0)
      × (f_divide a b sp ≡ failed division_by_zero)
      × (f_mod a b sp ≡ failed modulus_by_zero))
    ⊎ (((a.u ≡ negsuc (2 ^ 31 - 1))
          × (b.u ≡ negsuc 0)
          × (f_divide a b sp ≡ trap)
          × (f_mod a b sp ≡ trap))
        ⊎ ((q : ℤ) × (r : ℤ) × (f_divide a b sp ≡ result a sp q)
            × (f_mod a b sp ≡ result a sp r)
            × Divides a.u b.u q r
            × IsInt q
            × IsInt r))

-- For two numbers that are `int`s: by zero, both operators are errors; for the least `int` by -1, both
-- end in the signal; else `/` leaves the quotient that is rounded towards zero, and `%` its remainder,
-- which is smaller than the divisor and is zero or has the sign of the dividend, and both are `int`s.
pub f_divide-f_mod :
    (a b : Svalue) (sp : List Svalue)
    → a.type ≡ t_number
    → b.type ≡ t_number
    → IsInt a.u
    → IsInt b.u
    → Division a b sp
unfolding f_divide f_mod
f_divide-f_mod a b sp ta tb ia ib = elim (Bool-cases (eqb_ℤ b.u (pos 0))) [
  | inl z ↦ inl (eqb_ℤ-eq b.u (pos 0) z, rw (ta, tb, z) refl, rw (ta, tb, z) refl)
  | inr z ↦ elim (Bool-cases (overflows a.u b.u)) [
    | inl o ↦
        let e = overflows-eq a.u b.u o in
        inr (inl (e.0, e.1, rw (ta, tb, z, o) refl, rw (ta, tb, z, o) refl))
    | inr o ↦ inr (
        inr (
          quotient a.u b.u,
          remainder a.u b.u,
          rw (ta, tb, z, o) refl,
          rw (ta, tb, z, o) refl,
          quotient-Divides a.u b.u z,
          quotient-IsInt a.u b.u ia ib o,
          remainder-IsInt a.u b.u ia ib z,
        ))
  ]
]
