-- ===== src/Tests/Constants.antt =====
-- Numbers in the code of a program.
use lpc.Text.{Bytes}
use lpc.Base.{
  ◌≤◌, ◌^◌, List, length, get_or, ℕ, ◌<◌, ◌≡◌, refl, sym, ap, ◌∙◌, none, some, [], ◌∷◌, ◌++◌, pos,
  negsuc, arith,
}
use lpc.LineNumbers.{lp64, ilp32, ins_long}
use lpc.Constants.{
  Instruction, f_add_256, f_add_512, f_add_768, f_add_1024, f_add_256x, f_number, f_const_1, f_byte,
  f_neg_byte, f_short, f_const0, f_const1, f_string, f_short_string, instructions, prefixed,
  low_ins_f_byte, ins_f_byte, ins_int, switch, da_switch, fetch, eval_number,
}
use lpc.Constants.Codes.{AreCodes, fetch-ins_f_byte}
use lpc.Strings.{same_bytes}
use lpc.Constants.Literals.{
  find_string, store_prog_string, ins_index, ins_strings, eval_string, eval_strings,
}
use lpc.Constants.Pool.{eval_strings-ins_strings}
use lpc.Constants.Numbers.{read_back, eval_number-ins_int}

abbrev program : Unit {0}
unfolding low_ins_f_byte ins_f_byte ins_int ins_long switch da_switch fetch eval_number
program = tt

abbrev literals : Unit {0}
unfolding same_bytes find_string store_prog_string ins_index ins_strings eval_string eval_strings
literals = tt

abbrev code : Instruction → ℕ
code f_add_256 = 0
code f_add_512 = 1
code f_add_768 = 2
code f_add_1024 = 3
code f_add_256x = 4
code f_number = 5
code f_const_1 = 6
code f_byte = 7
code f_neg_byte = 8
code f_short = 9
code f_const0 = 10
code f_const1 = 11
code f_string = 12
code f_short_string = 13

abbrev instruction : ℕ → Instruction
instruction n = get_or instructions n f_const1

instruction-code : (x : Instruction) → instruction (code x) ≡ x
instruction-code f_add_256 = refl
instruction-code f_add_512 = refl
instruction-code f_add_768 = refl
instruction-code f_add_1024 = refl
instruction-code f_add_256x = refl
instruction-code f_number = refl
instruction-code f_const_1 = refl
instruction-code f_byte = refl
instruction-code f_neg_byte = refl
instruction-code f_short = refl
instruction-code f_const0 = refl
instruction-code f_const1 = refl
instruction-code f_string = refl
instruction-code f_short_string = refl

low_code : (x : Instruction) → code x < 256
low_code f_add_256 = omega arith
low_code f_add_512 = omega arith
low_code f_add_768 = omega arith
low_code f_add_1024 = omega arith
low_code f_add_256x = omega arith
low_code f_number = omega arith
low_code f_const_1 = omega arith
low_code f_byte = omega arith
low_code f_neg_byte = omega arith
low_code f_short = omega arith
low_code f_const0 = omega arith
low_code f_const1 = omega arith
low_code f_string = omega arith
low_code f_short_string = omega arith

code-AreCodes : AreCodes code
code-AreCodes = record {
  differ = λ x y e. sym (instruction-code x) ∙ ap instruction e ∙ instruction-code y;
  low = low_code;
}

fetched : fetch code (ins_f_byte code 300 ++ (7 ∷ [])) ≡ (300, 7 ∷ [])
unfolding program
fetched = refl

-- -32769 is read as 32767.
mistaken_number : eval_number code (ins_int code ilp32 (negsuc 32768)) ≡ some (pos 32767, [])
unfolding program
mistaken_number = refl

-- Four bytes of 40000 are executed.
long_number :
    eval_number code (ins_int code lp64 (pos 40000)) ≡ some (pos 40000, 0 ∷ (0 ∷ (0 ∷ (0 ∷ []))))
unfolding program
long_number = refl

no_prefix : prefixed (switch code 300 instructions) (7 ∷ []) ≡ none
unfolding program
no_prefix = refl

fetch-ins_f_byte_example : fetch code (ins_f_byte code 300 ++ (7 ∷ [])) ≡ (300, 7 ∷ [])
fetch-ins_f_byte_example = fetch-ins_f_byte code code-AreCodes 300 (7 ∷ []) (omega arith) no_prefix

eval_number-ins_int_example :
    eval_number code (ins_int code ilp32 (negsuc 99) ++ (7 ∷ []))
    ≡ read_back ilp32 (negsuc 99) (7 ∷ [])
eval_number-ins_int_example =
    eval_number-ins_int code code-AreCodes ilp32 (negsuc 99) (7 ∷ []) (omega arith, omega arith)

-- "a", "b" and "a" again, as codes and as strings of the program
abbrev three_strings : List Bytes
three_strings = (97 ∷ []) ∷ ((98 ∷ []) ∷ ((97 ∷ []) ∷ []))

shared_literal :
    ins_strings code [] three_strings
    ≡ (13 ∷ (0 ∷ (13 ∷ (1 ∷ (13 ∷ (0 ∷ []))))), (97 ∷ []) ∷ ((98 ∷ []) ∷ []))
unfolding program literals
shared_literal = refl

few_strings : length (ins_strings code [] three_strings).1 ≤ 2 ^ 15
few_strings = rw shared_literal (omega arith)

eval_strings-ins_strings_example :
    eval_strings code (ins_strings code [] three_strings).1 3 (ins_strings code [] three_strings).0
    ≡ some three_strings
eval_strings-ins_strings_example =
    eval_strings-ins_strings code code-AreCodes [] three_strings few_strings
