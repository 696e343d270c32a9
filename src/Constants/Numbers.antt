-- ===== src/Constants/Numbers.antt =====
-- The numbers that src/las.c writes into a program and src/interpret.c pushes.
use lpc.Base.{
  ℕ, ◌≡◌, refl, sym, ap, ◌∙◌, Bool, true, false, ◌&&◌, Option, none, some, [], ◌∷◌, ◌++◌, ℤ, pos,
  negsuc, eqb_ℤ, ltb_ℤ, ◌-ℤ◌, ◌+ℤ◌, IsInt, if◌then◌else◌, arith, inl, inr, Bool-cases,
}
use mathlib.Core.List.{append-nil, append_assoc}
use lpc.Text.{Bytes}
use lpc.LineNumbers.{
  Model, ilp32, lp64, ins_long, ins_short, ins_byte, word8, word16, word32, sign_byte, extract_word,
}
use lpc.LineNumbers.Numbers.{two_bytes, four_bytes, signed32}
use lpc.Arithmetic.Division.{eqb_ℤ-eq}
use lpc.Constants.{
  Instruction, f_number, f_const_1, f_byte, f_neg_byte, f_short, f_const0, f_const1, pushed_number,
  ins_f_byte, ins_int, eval_number, prefixed,
}
use lpc.Constants.Codes.{AreCodes, switch-instructions, fetch-short}

-- `ins_int` takes the numbers from -37768 to -32769 for shorts.
abbrev pub mistaken : ℤ → Bool
mistaken i = ltb_ℤ (negsuc 37768) i && ltb_ℤ i (negsuc 32767)

abbrev pub number_read : ℤ → ℤ
number_read i = if mistaken i then i +ℤ pos 65536 else i

-- What stands behind the number: a long of 8 bytes ends in its sign.
abbrev pub left_over : Model → ℤ → Bytes
left_over ilp32 i = []
left_over lp64 i =
    if ltb_ℤ (negsuc 37768) i && ltb_ℤ i (pos 32768)
    then []
    else let s = sign_byte i in s ∷ (s ∷ (s ∷ (s ∷ [])))

module _ (code : Instruction → ℕ) (codes : AreCodes code) where
  evaluated :
      (x : Instruction) (t : Bytes)
      → ((pc : Bytes) → prefixed (some x) pc ≡ none)
      → eval_number code (ins_f_byte code (code x) ++ t) ≡ pushed_number (some x) t
  unfolding eval_number
  evaluated x t p =
      rw
        (fetch-short code codes (code x) t (codes.low x)
          (ap (λ z. prefixed z t) (switch-instructions code codes x) ∙ p t))
        (ap (λ z. pushed_number z t) (switch-instructions code codes x))

  concluded :
      (m : Model) (i : ℤ) (t : Bytes) (x : Instruction) (bytes : Bytes)
      → ((pc : Bytes) → prefixed (some x) pc ≡ none)
      → ins_int code m i ≡ ins_f_byte code (code x) ++ bytes
      → eval_number code (ins_int code m i ++ t) ≡ pushed_number (some x) (bytes ++ t)
  concluded m i t x bytes p e =
      rw (e, append_assoc (ins_f_byte code (code x)) bytes t) (evaluated x (bytes ++ t) p)

byte :
    (i : ℤ) (t : Bytes)
    → ltb_ℤ (pos 1) i && ltb_ℤ i (pos 258) ≡ true
    → pushed_number (some f_byte) (ins_byte (i -ℤ pos 2) ++ t) ≡ some (i, t)
byte (pos n) t h = ap (λ z. some (pos z, t)) (ground (arith, h))
byte (negsuc n) t h = absurd (ground (arith, h))

neg_byte :
    (i : ℤ) (t : Bytes)
    → ltb_ℤ i (negsuc 0) && ltb_ℤ (negsuc 257) i ≡ true
    → pushed_number (some f_neg_byte) (word8 (pos 1022 -ℤ i) ∷ t) ≡ some (i, t)
neg_byte (pos n) t h = absurd (ground (arith, h))
neg_byte (negsuc n) t h = ap (λ z. some (negsuc z, t)) (ground (arith, h))

short :
    (i : ℤ) (t : Bytes)
    → ltb_ℤ (negsuc 37768) i && ltb_ℤ i (pos 32768) ≡ true
    → extract_word (ins_short i ++ t) ≡ number_read i
short (pos n) t h = rw (two_bytes (word16 (pos n))) (ground (arith, h))
short (negsuc n) t h = rw (two_bytes (word16 (negsuc n))) (ground (arith, h))

is_read : (i : ℤ) → ltb_ℤ (negsuc 37768) i && ltb_ℤ i (pos 32768) ≡ false → number_read i ≡ i
is_read (pos n) h = ground (arith, h)
is_read (negsuc n) h = ground (arith, h)

long :
    (m : Model) (i : ℤ) (t : Bytes)
    → ltb_ℤ (negsuc 37768) i && ltb_ℤ i (pos 32768) ≡ false
    → IsInt i
    → pushed_number (some f_number) (ins_long m i ++ t) ≡ some (number_read i, left_over m i ++ t)
unfolding ins_long
long ilp32 i t h k =
    rw (four_bytes (word32 i)) (ap (λ z. some (z, t)) (signed32 i k ∙ sym (is_read i h)))
long lp64 i t h k =
    let s = sign_byte i in
    rw (four_bytes (word32 i), h)
      (ap (λ z. some (z, s ∷ (s ∷ (s ∷ (s ∷ t))))) (signed32 i k ∙ sym (is_read i h)))

abbrev pub read_back : Model → ℤ → Bytes → Option (ℤ × Bytes)
read_back m i t = some (number_read i, left_over m i ++ t)

-- A number that is small enough is read as it is, and nothing stands behind it.
plain :
    (m : Model) (i : ℤ) (t : Bytes)
    → ltb_ℤ (negsuc 257) i && ltb_ℤ i (pos 258) ≡ true
    → ◌≡◌ {A = Option (ℤ × Bytes)} (some (i, t)) (read_back m i t)
plain m i t h = rw (exact i h, nothing m i h) refl
  where
    exact : (i : ℤ) → ltb_ℤ (negsuc 257) i && ltb_ℤ i (pos 258) ≡ true → number_read i ≡ i
    exact (pos n) h = ground (arith, h)
    exact (negsuc n) h = ground (arith, h)

    nothing :
        (m : Model) (i : ℤ) → ltb_ℤ (negsuc 257) i && ltb_ℤ i (pos 258) ≡ true → left_over m i ≡ []
    nothing ilp32 i h = refl
    nothing lp64 (pos n) h = ground (arith, h)
    nothing lp64 (negsuc n) h = ground (arith, h)

of_byte :
    (i : ℤ)
    → ltb_ℤ (pos 1) i && ltb_ℤ i (pos 258) ≡ true
    → ltb_ℤ (negsuc 257) i && ltb_ℤ i (pos 258) ≡ true
of_byte (pos n) h = ground (arith, h)
of_byte (negsuc n) h = ground (arith, h)

of_neg_byte :
    (i : ℤ)
    → ltb_ℤ i (negsuc 0) && ltb_ℤ (negsuc 257) i ≡ true
    → ltb_ℤ (negsuc 257) i && ltb_ℤ i (pos 258) ≡ true
of_neg_byte (pos n) h = ground (arith, h)
of_neg_byte (negsuc n) h = ground (arith, h)

read_short :
    (m : Model) (i : ℤ) (t : Bytes)
    → ltb_ℤ (negsuc 37768) i && ltb_ℤ i (pos 32768) ≡ true
    → pushed_number (some f_short) (ins_short i ++ t) ≡ read_back m i t
read_short ilp32 i t h = ap (λ z. some (z, t)) (short i t h)
read_short lp64 i t h = rw h (ap (λ z. some (z, t)) (short i t h))

module _ (code : Instruction → ℕ) (codes : AreCodes code) (m : Model) where
  zero_pushed : (t : Bytes) → eval_number code (ins_int code m (pos 0) ++ t) ≡ read_back m (pos 0) t
  unfolding ins_int
  zero_pushed t =
      concluded code codes m (pos 0) t f_const0 [] (λ z. refl)
        (sym (append-nil (ins_f_byte code (code f_const0))))
      ∙ plain m (pos 0) t refl

  one_pushed : (t : Bytes) → eval_number code (ins_int code m (pos 1) ++ t) ≡ read_back m (pos 1) t
  unfolding ins_int
  one_pushed t =
      concluded code codes m (pos 1) t f_const1 [] (λ z. refl)
        (sym (append-nil (ins_f_byte code (code f_const1))))
      ∙ plain m (pos 1) t refl

  minus_one_pushed :
      (t : Bytes) → eval_number code (ins_int code m (negsuc 0) ++ t) ≡ read_back m (negsuc 0) t
  unfolding ins_int
  minus_one_pushed t =
      concluded code codes m (negsuc 0) t f_const_1 [] (λ z. refl)
        (sym (append-nil (ins_f_byte code (code f_const_1))))
      ∙ plain m (negsuc 0) t refl

  written :
      (i : ℤ) (t : Bytes)
      → eqb_ℤ i (pos 0) ≡ false
      → eqb_ℤ i (pos 1) ≡ false
      → eqb_ℤ i (negsuc 0) ≡ false
      → IsInt i
      → eval_number code (ins_int code m i ++ t) ≡ read_back m i t
  unfolding ins_int
  written i t e0 e1 e2 w = elim (Bool-cases (ltb_ℤ (pos 1) i && ltb_ℤ i (pos 258))) [
    | inl h ↦
        concluded code codes m i t f_byte (ins_byte (i -ℤ pos 2)) (λ z. refl)
          (rw (e0, e1, e2, h) refl)
        ∙ byte i t h
        ∙ plain m i t (of_byte i h)
    | inr b ↦ elim (Bool-cases (ltb_ℤ i (negsuc 0) && ltb_ℤ (negsuc 257) i)) [
      | inl h ↦
          concluded code codes m i t f_neg_byte (word8 (pos 1022 -ℤ i) ∷ []) (λ z. refl)
            (rw (e0, e1, e2, b, h) refl)
          ∙ neg_byte i t h
          ∙ plain m i t (of_neg_byte i h)
      | inr c ↦ elim (Bool-cases (ltb_ℤ (negsuc 37768) i && ltb_ℤ i (pos 32768))) [
        | inl h ↦
            concluded code codes m i t f_short (ins_short i) (λ z. refl)
              (rw (e0, e1, e2, b, c, h) refl)
            ∙ read_short m i t h
        | inr h ↦
            concluded code codes m i t f_number (ins_long m i) (λ z. refl)
              (rw (e0, e1, e2, b, c, h) refl)
            ∙ long m i t h w
      ]
    ]
  ]

  -- The interpreter pushes the number that the compiler writes, for each `int`, except for the
  -- numbers from -37768 to -32769, where it pushes 65536 more. Behind the number it goes on with the
  -- next instruction; but where a `long` has 8 bytes, four bytes of the number come first if it was
  -- no short.
  pub eval_number-ins_int :
      (i : ℤ) (t : Bytes) → IsInt i → eval_number code (ins_int code m i ++ t) ≡ read_back m i t
  eval_number-ins_int i t w = elim (Bool-cases (eqb_ℤ i (pos 0))) [
    | inl e ↦ rw (eqb_ℤ-eq i (pos 0) e) (zero_pushed t)
    | inr e0 ↦ elim (Bool-cases (eqb_ℤ i (pos 1))) [
      | inl e ↦ rw (eqb_ℤ-eq i (pos 1) e) (one_pushed t)
      | inr e1 ↦ elim (Bool-cases (eqb_ℤ i (negsuc 0))) [
        | inl e ↦ rw (eqb_ℤ-eq i (negsuc 0) e) (minus_one_pushed t)
        | inr e2 ↦ written i t e0 e1 e2 w
      ]
    ]
  ]
