-- ===== src/Restoring/Words.antt =====
-- Numbers in the text of src/save_objectII.c: what `sprintf` writes, `STRTOL` reads.
use lpc.Base.{
  ℕ, zero, suc, ◌+◌, ◌-◌, ◌*◌, ◌/◌, ◌%◌, ◌^◌, ◌<◌, ◌≡◌, refl, ap, ◌∙◌, ◌==◌, true, false, [], ◌∷◌,
  ◌++◌, ℤ, pos, negsuc, IsInt, wrap_int, ltb, All, All-append, arith, Bool-cases, inl, inr,
}
use mathlib.Core.List.{append_assoc}
use lpc.Text.{Bytes}
use lpc.Saving.{decimal_loop, decimal, print_int}
use lpc.Restoring.{peek, is_digit, read_digits, clamp_long, strtol}

abbrev AreDigits : Bytes → Type 0
AreDigits t = All (λ c. is_digit c ≡ true) t

-- The number `n` with digits behind it.
abbrev value : ℕ → Bytes → ℕ
value n [] = n
value n (c ∷ t) = value (n * 10 + (c - 48)) t

value-append : (n : ℕ) (s : Bytes) (c : ℕ) → value n (s ++ (c ∷ [])) ≡ value n s * 10 + (c - 48)
value-append n [] c = refl
value-append n (d ∷ s) c = value-append (n * 10 + (d - 48)) s c

decimal_loop-digits : (fuel n : ℕ) → AreDigits (decimal_loop fuel n)
unfolding decimal_loop
decimal_loop-digits zero n = tt
decimal_loop-digits (suc fuel) n = elim (Bool-cases (ltb n 10)) [
  | inl e ↦ rw e (ground arith, tt)
  | inr e ↦ rw e (
      All-append (λ c. is_digit c ≡ true) (decimal_loop fuel (n / 10)) ((48 + n % 10) ∷ [])
        (decimal_loop-digits fuel (n / 10)) (ground arith, tt))
]

value-decimal_loop : (fuel n : ℕ) → n < fuel → value 0 (decimal_loop fuel n) ≡ n
unfolding decimal_loop
value-decimal_loop zero n h = absurd (omega arith)
value-decimal_loop (suc fuel) n h = elim (Bool-cases (ltb n 10)) [
  | inl e ↦ rw e (omega arith)
  | inr e ↦ rw e (
      value-append 0 (decimal_loop fuel (n / 10)) (48 + n % 10)
      ∙ ground (arith, value-decimal_loop fuel (n / 10) (ground arith)))
]

pub read_digits-append :
    (s t : Bytes) (n : ℕ)
    → AreDigits s
    → is_digit (peek t) ≡ false
    → read_digits (s ++ t) n ≡ (value n s, t)
unfolding read_digits
read_digits-append [] [] n h k = refl
read_digits-append [] (c ∷ t) n h k = rw k refl
read_digits-append (c ∷ s) t n h k = rw (h.0) (read_digits-append s t (n * 10 + (c - 48)) h.1 k)

pub read_digits-decimal :
    (n : ℕ) (t : Bytes) → is_digit (peek t) ≡ false → read_digits (decimal n ++ t) 0 ≡ (n, t)
unfolding decimal
read_digits-decimal n t k =
    rw
      (
        read_digits-append (decimal_loop (suc n) n) t 0 (decimal_loop-digits (suc n) n) k,
        value-decimal_loop (suc n) n (omega arith),
      )
      refl

peek_loop : (fuel n : ℕ) (t : Bytes) → is_digit (peek (decimal_loop (suc fuel) n ++ t)) ≡ true
unfolding decimal_loop
peek_loop zero n t = elim (Bool-cases (ltb n 10)) [
  | inl e ↦ rw e (ground arith)
  | inr e ↦ rw e (ground arith)
]
peek_loop (suc fuel) n t = elim (Bool-cases (ltb n 10)) [
  | inl e ↦ rw e (ground arith)
  | inr e ↦
      let assoc = append_assoc (decimal_loop (suc fuel) (n / 10)) ((48 + n % 10) ∷ []) t in
      rw e (ap (λ s. is_digit (peek s)) assoc ∙ peek_loop fuel (n / 10) ((48 + n % 10) ∷ t))
]

pub peek-decimal : (n : ℕ) (t : Bytes) → is_digit (peek (decimal n ++ t)) ≡ true
unfolding decimal
peek-decimal n t = peek_loop n n t

-- A text that does not go on with a digit.
abbrev pub NoDigit : Bytes → Type 0
NoDigit t = is_digit (peek t) ≡ false

pub strtol-decimal :
    (n : ℕ) (t : Bytes) → n < 2 ^ 31 → NoDigit t → strtol (decimal n ++ t) ≡ (pos n, t)
unfolding strtol
strtol-decimal n t h k =
    let first = peek-decimal n t in
    let no_sign : (peek (decimal n ++ t) == 45) ≡ false = ground arith in
    let int : wrap_int (clamp_long (pos n)) ≡ pos n = ground arith in
    rw (no_sign, read_digits-decimal n t k, int) refl

pub strtol-print_int :
    (z : ℤ) (t : Bytes) → IsInt z → NoDigit t → strtol (print_int z ++ t) ≡ (z, t)
unfolding strtol print_int
strtol-print_int (pos n) t h k = strtol-decimal n t h.0 k
strtol-print_int (negsuc n) t h k =
    let first = peek-decimal (suc n) t in
    let int : wrap_int (clamp_long (negsuc n)) ≡ negsuc n = ground (arith, h.1) in
    rw (first, read_digits-decimal (suc n) t k, int) refl
