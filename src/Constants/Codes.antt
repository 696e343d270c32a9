-- ===== src/Constants/Codes.antt =====
-- The codes of instructions of src/las.c and src/interpret.c.
use lpc.Base.{
  ℕ, zero, suc, ◌+◌, ◌*◌, ◌/◌, ◌%◌, ◌==◌, ◌<◌, ◌≡◌, refl, ap, ◌∙◌, none, some, List, [], ◌∷◌, ◌++◌,
  ltb, drop, get_or, get_elem?, length, arith, inl, inr, ◌⊎◌, Bool-cases,
}
use lpc.Text.{Bytes}
use lpc.Constants.{
  Instruction, f_add_256, f_add_512, f_add_768, f_add_1024, f_add_256x, f_number, f_const_1, f_byte,
  f_neg_byte, f_short, f_const0, f_const1, f_string, f_short_string, instructions, prefixed,
  ins_f_byte, low_ins_f_byte, switch, da_switch, fetch,
}

-- What is needed of the generated codes.
pub record AreCodes (code : Instruction → ℕ) : Type 0 where
  pub differ : (x y : Instruction) → code x ≡ code y → x ≡ y
  pub low : (x : Instruction) → code x < 256

module _ (code : Instruction → ℕ) (codes : AreCodes code) where
  switch-code :
      (x : Instruction) (l : List Instruction) (n : ℕ)
      → get_elem? l n ≡ some x
      → switch code (code x) l ≡ some x
  unfolding switch
  switch-code x [] n e = absurd (ground (arith, e))
  switch-code x (y ∷ l) zero e = elim (Bool-cases (code y == code x)) [
    | inl same ↦ rw same (ap some (codes.differ y x (ground (arith, same))))
    | inr other ↦ let same : y ≡ x = cc in absurd (ground (arith, other, ap code same))
  ]
  switch-code x (y ∷ l) (suc n) e = elim (Bool-cases (code y == code x)) [
    | inl same ↦ rw same (ap some (codes.differ y x (ground (arith, same))))
    | inr other ↦ rw other (switch-code x l n e)
  ]

  pub switch-instructions : (x : Instruction) → switch code (code x) instructions ≡ some x
  switch-instructions f_add_256 = switch-code f_add_256 instructions 0 refl
  switch-instructions f_add_512 = switch-code f_add_512 instructions 1 refl
  switch-instructions f_add_768 = switch-code f_add_768 instructions 2 refl
  switch-instructions f_add_1024 = switch-code f_add_1024 instructions 3 refl
  switch-instructions f_add_256x = switch-code f_add_256x instructions 4 refl
  switch-instructions f_number = switch-code f_number instructions 5 refl
  switch-instructions f_const_1 = switch-code f_const_1 instructions 6 refl
  switch-instructions f_byte = switch-code f_byte instructions 7 refl
  switch-instructions f_neg_byte = switch-code f_neg_byte instructions 8 refl
  switch-instructions f_short = switch-code f_short instructions 9 refl
  switch-instructions f_const0 = switch-code f_const0 instructions 10 refl
  switch-instructions f_const1 = switch-code f_const1 instructions 11 refl
  switch-instructions f_string = switch-code f_string instructions 12 refl
  switch-instructions f_short_string = switch-code f_short_string instructions 13 refl

  high : (opcode : ℕ) (l : List Instruction) → 255 < opcode → switch code opcode l ≡ none
  unfolding switch
  high opcode [] h = refl
  high opcode (x ∷ l) h = elim (Bool-cases (code x == opcode)) [
    | inl e ↦ absurd (ground (arith, e, codes.low x, h))
    | inr e ↦ rw e (high opcode l h)
  ]

  -- `da_switch` stops at what is no prefix.
  stops :
      (fuel opcode : ℕ) (pc : Bytes)
      → prefixed (switch code opcode instructions) pc ≡ none
      → da_switch code fuel opcode pc ≡ (opcode, pc)
  unfolding da_switch
  stops zero opcode pc e = refl
  stops (suc fuel) opcode pc e = rw (e, da_switch) refl

  goes_on :
      (fuel opcode : ℕ) (pc : Bytes) (r : ℕ × Bytes)
      → prefixed (switch code opcode instructions) pc ≡ some r
      → da_switch code (suc fuel) opcode pc ≡ da_switch code fuel r.0 r.1
  unfolding da_switch
  goes_on fuel opcode pc r e = rw (e, da_switch) refl

  short_code : (b : ℕ) → b < 256 → ins_f_byte code b ≡ b ∷ []
  unfolding ins_f_byte low_ins_f_byte
  short_code b h = ground (arith, h)

  -- An instruction with a code of one byte, as `fetch` finds it.
  pub fetch-short :
      (b : ℕ) (t : Bytes)
      → b < 256
      → prefixed (switch code b instructions) t ≡ none
      → fetch code (ins_f_byte code b ++ t) ≡ (b, t)
  unfolding fetch
  fetch-short b t h e = rw (short_code b h) (stops (suc (length t)) b t e)

  long_code :
      (x : Instruction) (k b : ℕ) (t : Bytes)
      → ((t : Bytes) → prefixed (some x) t ≡ some (get_or t 0 0 + k * 256, drop 1 t))
      → 255 < b
      → b / 256 ≡ k
      → ins_f_byte code b ≡ code x ∷ (b % 256 ∷ [])
      → fetch code (ins_f_byte code b ++ t) ≡ (b, t)
  unfolding fetch da_switch
  long_code x k b t p h e i = rw i (
      goes_on (suc (length t)) (code x) (b % 256 ∷ t) (b % 256 + k * 256, t)
        (ap (λ z. prefixed z (b % 256 ∷ t)) (switch-instructions x) ∙ p (b % 256 ∷ t))
      ∙ ap (λ z. da_switch code (suc (length t)) z t) whole
      ∙ stops (suc (length t)) b t (ap (λ z. prefixed z t) (high b instructions h)))
    where
      whole : b % 256 + k * 256 ≡ b
      whole = omega (arith, e)

  quarter :
      (b : ℕ)
      → 255 < b
      → b < 1280
      → (b / 256 ≡ 1) ⊎ ((b / 256 ≡ 2) ⊎ ((b / 256 ≡ 3) ⊎ (b / 256 ≡ 4)))
  quarter b h w = omega arith

  module _ (b : ℕ) (h : 255 < b) where
    bytes_1 : b / 256 ≡ 1 → ins_f_byte code b ≡ code f_add_256 ∷ (b % 256 ∷ [])
    unfolding ins_f_byte low_ins_f_byte
    bytes_1 e = ground (arith, h, e, codes.low f_add_256)

    bytes_2 : b / 256 ≡ 2 → ins_f_byte code b ≡ code f_add_512 ∷ (b % 256 ∷ [])
    unfolding ins_f_byte low_ins_f_byte
    bytes_2 e = ground (arith, h, e, codes.low f_add_512)

    bytes_3 : b / 256 ≡ 3 → ins_f_byte code b ≡ code f_add_768 ∷ (b % 256 ∷ [])
    unfolding ins_f_byte low_ins_f_byte
    bytes_3 e = ground (arith, h, e, codes.low f_add_768)

    bytes_4 : b / 256 ≡ 4 → ins_f_byte code b ≡ code f_add_1024 ∷ (b % 256 ∷ [])
    unfolding ins_f_byte low_ins_f_byte
    bytes_4 e = ground (arith, h, e, codes.low f_add_1024)

  -- The reader finds the code of each instruction below 1280 that is no prefix, and stops behind it.
  pub fetch-ins_f_byte :
      (b : ℕ) (t : Bytes)
      → b < 1280
      → prefixed (switch code b instructions) t ≡ none
      → fetch code (ins_f_byte code b ++ t) ≡ (b, t)
  fetch-ins_f_byte b t w p = elim (Bool-cases (ltb 255 b)) [
    | inr e ↦ fetch-short b t (ground (arith, e)) p
    | inl e ↦
        let h : 255 < b = ground (arith, e) in
        elim (quarter b h w) [
          | inl q ↦ long_code f_add_256 1 b t (λ t. refl) h q (bytes_1 b h q)
          | inr (inl q) ↦ long_code f_add_512 2 b t (λ t. refl) h q (bytes_2 b h q)
          | inr (inr (inl q)) ↦ long_code f_add_768 3 b t (λ t. refl) h q (bytes_3 b h q)
          | inr (inr (inr q)) ↦ long_code f_add_1024 4 b t (λ t. refl) h q (bytes_4 b h q)
        ]
  ]
