-- ===== src/Constants.antt =====
-- Instructions with their codes, and the ones that push an `int`: `low_ins_f_byte` (but for the line
-- numbers) and `ins_int` of src/las.c write them, `eval_instruction` of src/interpret.c reads them. The
-- codes themselves come from a generated file and are a parameter; T_flag is 2 at most.
pub mod Codes
pub mod Numbers
pub mod Literals
pub mod Pool
use lpc.Base.{
  ℕ, zero, suc, ◌+◌, ◌*◌, ◌/◌, ◌%◌, ◌^◌, ◌==◌, Bool, true, false, ◌&&◌, Option, none, some, List,
  [], ◌∷◌, ◌++◌, ℤ, pos, negsuc, ◌-ℤ◌, eqb_ℤ, ltb_ℤ, ltb, if◌then◌else◌, drop, get_or, length,
}
use lpc.Text.{Bytes}
use lpc.LineNumbers.{Model, word8, ins_byte, ins_short, ins_long, extract_word, extract_int}

-- The tokens of src/func_spec.c that change the instruction behind them, and those that push an `int` or a string.
pub data Instruction : Type 0 where
  f_add_256 f_add_512 f_add_768 f_add_1024 f_add_256x : Instruction
  f_number f_const_1 f_byte f_neg_byte f_short f_const0 f_const1 : Instruction
  f_string f_short_string : Instruction

abbrev pub instructions : List Instruction
instructions =
    f_add_256
    ∷ (f_add_512
        ∷ (f_add_768
            ∷ (f_add_1024
                ∷ (f_add_256x
                    ∷ (f_number
                        ∷ (f_const_1
                            ∷ (f_byte
                                ∷ (f_neg_byte
                                    ∷ (f_short
                                        ∷ (f_const0
                                            ∷ (f_const1
                                                ∷ (f_string ∷ (f_short_string ∷ [])))))))))))))

-- `EXTRACT_UWORD`
abbrev pub extract_uword : Bytes → ℕ
extract_uword pc = get_or pc 0 0 + 256 * get_or pc 1 0

-- The cases that read the rest of the code of an instruction and go back to `da_switch`.
abbrev pub prefixed : Option Instruction → Bytes → Option (ℕ × Bytes)
prefixed (some f_add_256) pc = some (get_or pc 0 0 + 256, drop 1 pc)
prefixed (some f_add_512) pc = some (get_or pc 0 0 + 512, drop 1 pc)
prefixed (some f_add_768) pc = some (get_or pc 0 0 + 768, drop 1 pc)
prefixed (some f_add_1024) pc = some (get_or pc 0 0 + 1024, drop 1 pc)
prefixed (some f_add_256x) pc = some (extract_uword pc, drop 2 pc)
prefixed _ pc = none

-- The cases that push an `int`, with the place behind them; the others are `none`.
abbrev pub pushed_number : Option Instruction → Bytes → Option (ℤ × Bytes)
pushed_number (some f_const0) pc = some (pos 0, pc)
pushed_number (some f_const1) pc = some (pos 1, pc)
pushed_number (some f_const_1) pc = some (negsuc 0, pc)
pushed_number (some f_byte) pc = some (pos (get_or pc 0 0 + 2), drop 1 pc)
pushed_number (some f_neg_byte) pc = some (negsuc (get_or pc 0 0 + 1), drop 1 pc)
pushed_number (some f_short) pc = some (extract_word pc, drop 2 pc)
pushed_number (some f_number) pc = some (extract_int pc, drop 4 pc)
pushed_number _ pc = none

module _ (code : Instruction → ℕ) where
  -- `b` is the code of an instruction without F_OFFSET. The prefixes have codes below 256, for which
  -- two calls are enough.
  unfoldable pub low_ins_f_byte : ℕ → ℕ → Bytes
  low_ins_f_byte zero b = []
  low_ins_f_byte (suc fuel) b =
      let add_256 = low_ins_f_byte fuel (code f_add_256) in
      let add_512 = low_ins_f_byte fuel (code f_add_512) in
      let add_768 = low_ins_f_byte fuel (code f_add_768) in
      let add_1024 = low_ins_f_byte fuel (code f_add_1024) in
      let add_256x = low_ins_f_byte fuel (code f_add_256x) in
      let first =
        (if b / 256 == 1
          then add_256
          else if b / 256 == 2
          then add_512
          else if b / 256 == 3
          then add_768
          else if b / 256 == 4
          then add_1024
          else add_256x ++ (b / 256 % 256 ∷ [])) in
      if ltb 255 b then first ++ (b % 256 ∷ []) else b ∷ []

  unfoldable pub ins_f_byte : ℕ → Bytes
  unfolding low_ins_f_byte
  ins_f_byte b = low_ins_f_byte 2 b

  unfoldable pub ins_int : Model → ℤ → Bytes
  unfolding ins_f_byte ins_long
  ins_int m i =
      if eqb_ℤ i (pos 0)
      then ins_f_byte (code f_const0)
      else if eqb_ℤ i (pos 1)
      then ins_f_byte (code f_const1)
      else if eqb_ℤ i (negsuc 0)
      then ins_f_byte (code f_const_1)
      else if ltb_ℤ (pos 1) i && ltb_ℤ i (pos 258)
      then ins_f_byte (code f_byte) ++ ins_byte (i -ℤ pos 2)
      else if ltb_ℤ i (negsuc 0) && ltb_ℤ (negsuc 257) i
      then ins_f_byte (code f_neg_byte) ++ (word8 (pos 1022 -ℤ i) ∷ [])
      else if ltb_ℤ (negsuc 37768) i && ltb_ℤ i (pos 32768)
      then ins_f_byte (code f_short) ++ ins_short i
      else ins_f_byte (code f_number) ++ ins_long m i

  -- `switch(opcode)`
  unfoldable pub switch : ℕ → List Instruction → Option Instruction
  switch opcode [] = none
  switch opcode (x ∷ l) = let rest = switch opcode l in if code x == opcode then some x else rest

  -- From `da_switch` on, until the code of the instruction is known.
  unfoldable pub da_switch : ℕ → ℕ → Bytes → ℕ × Bytes
  unfolding switch
  da_switch zero opcode pc = (opcode, pc)
  da_switch (suc fuel) opcode pc = elim (prefixed (switch opcode instructions) pc) [
    | none ↦ (opcode, pc)
    | some r ↦ da_switch fuel r.0 r.1
  ]

  -- `opcode=EXTRACT_UCHAR(pc); pc++;` and the switch
  unfoldable pub fetch : Bytes → ℕ × Bytes
  unfolding da_switch
  fetch pc = da_switch (length pc) (get_or pc 0 0) (drop 1 pc)

  unfoldable pub eval_number : Bytes → Option (ℤ × Bytes)
  unfolding fetch switch
  eval_number pc = let r = fetch pc in pushed_number (switch r.0 instructions) r.1
