-- ===== src/LineNumbers/Numbers.antt =====
-- Small numbers of src/las.c, as src/interpret.c reads them.
use lpc.Base.{
  ℕ, ◌+◌, ◌-◌, ◌*◌, ◌/◌, ◌%◌, ◌^◌, ◌≡◌, ap, true, false, ◌&&◌, ◌++◌, ℤ, pos, negsuc, IsInt, ltb_ℤ,
  ltb, if◌then◌else◌, int_of_word, arith, inl, inr, Bool-cases, ◌<ℤ◌,
}
use lpc.Text.{Bytes}
use lpc.LineNumbers.{
  word16, word32, Model, ilp32, lp64, ins_long, insert_small_number, get_small_number,
}

-- Numbers that a reader of 4 bytes understands: a `short`, or any `int` if a `long` has 4 bytes.
abbrev pub IsSmall : Model → ℤ → Type 0
IsSmall ilp32 a = IsInt a
IsSmall lp64 a = (negsuc 32768 <ℤ a) × (a <ℤ pos 32768)

pub two_bytes : (w : ℕ) → w % 256 + 256 * (w / 256) ≡ w
two_bytes w = omega arith

pub four_bytes :
    (w : ℕ)
    → w % 256 + 256 * (w / 256 % 256) + 65536 * (w / 65536 % 256) + 16777216 * (w / 16777216) ≡ w
four_bytes w = omega arith

signed16 :
    (a : ℤ)
    → ltb_ℤ (negsuc 32768) a && ltb_ℤ a (pos 32768) ≡ true
    → (if ltb (word16 a) (2 ^ 15) then pos (word16 a) else negsuc (2 ^ 16 - word16 a - 1)) ≡ a
signed16 (pos n) h = ground arith
signed16 (negsuc n) h = ground arith

pub signed32 : (a : ℤ) → IsInt a → int_of_word (word32 a) ≡ a
signed32 (pos n) h = ground arith
signed32 (negsuc n) h = ground arith

module _ (m : Model) (a : ℤ) (t : Bytes) where
  byte :
      ltb_ℤ (negsuc 126) a && ltb_ℤ a (pos 128) ≡ true
      → get_small_number (insert_small_number m a ++ t) ≡ (a, t)
  unfolding get_small_number insert_small_number
  byte h = ground arith

  short :
      ltb_ℤ (negsuc 126) a && ltb_ℤ a (pos 128) ≡ false
      → ltb_ℤ (negsuc 32768) a && ltb_ℤ a (pos 32768) ≡ true
      → get_small_number (insert_small_number m a ++ t) ≡ (a, t)
  unfolding get_small_number insert_small_number
  short h k = rw (h, k) (rw (two_bytes (word16 a)) (ap (λ z. (z, t)) (signed16 a k)))

long :
    (m : Model) (a : ℤ) (t : Bytes)
    → ltb_ℤ (negsuc 126) a && ltb_ℤ a (pos 128) ≡ false
    → ltb_ℤ (negsuc 32768) a && ltb_ℤ a (pos 32768) ≡ false
    → IsSmall m a
    → get_small_number (insert_small_number m a ++ t) ≡ (a, t)
unfolding get_small_number insert_small_number ins_long
long ilp32 a t h k i = rw (h, k) (rw (four_bytes (word32 a)) (ap (λ z. (z, t)) (signed32 a i)))
long lp64 a t h k i = absurd (ground arith)

pub get_small-insert_small :
    (m : Model) (a : ℤ) (t : Bytes)
    → IsSmall m a
    → get_small_number (insert_small_number m a ++ t) ≡ (a, t)
get_small-insert_small m a t i = elim (Bool-cases (ltb_ℤ (negsuc 126) a && ltb_ℤ a (pos 128))) [
  | inl h ↦ byte m a t h
  | inr h ↦ elim (Bool-cases (ltb_ℤ (negsuc 32768) a && ltb_ℤ a (pos 32768))) [
    | inl k ↦ short m a t h k
    | inr k ↦ long m a t h k i
  ]
]
