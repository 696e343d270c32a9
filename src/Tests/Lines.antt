-- ===== src/Tests/Lines.antt =====
-- Tables of line numbers.
use lpc.Base.{◌^◌, ◌<◌, length, ℕ, ◌≡◌, refl, List, [], ◌∷◌, pos, negsuc, arith}
use lpc.LineNumbers.{
  ilp32, lp64, number_lines, number_line, insert_small_number, ins_long, start_line_numbering,
  get_small_number, line_loop, get_line_number,
}
use lpc.LineNumbers.Table.{line_at}
use lpc.LineNumbers.Lines.{get_line_number-number_lines}

abbrev program : Unit {0}
unfolding number_lines number_line insert_small_number ins_long get_small_number line_loop
    get_line_number line_at
program = tt

-- the places and lines of instructions
abbrev instructions : List (ℕ × ℕ)
instructions = (0, 3) ∷ ((2, 3) ∷ ((5, 200) ∷ ((700, 190) ∷ ((701, 40000) ∷ []))))

line_numbers :
    (number_lines lp64 ((0, 3) ∷ ((5, 200) ∷ [])) start_line_numbering).line_numbers
    ≡ 0 ∷ (3 ∷ (5 ∷ (129 ∷ (197 ∷ (0 ∷ [])))))
unfolding program
line_numbers = refl

line_of_600 :
    get_line_number (number_lines ilp32 instructions start_line_numbering).line_numbers 600
    ≡ pos 200
unfolding program
line_of_600 = refl

-- With a `long` of 8 bytes, the half that is not read stands for four small numbers: the line of a
-- file that is included at its line 40000 is too small by 2.
line_of_long :
    get_line_number
      (number_lines lp64 ((0, 40000) ∷ ((9, 1) ∷ [])) start_line_numbering).line_numbers
      9
    ≡ negsuc 0
unfolding program
line_of_long = refl

short_table : length (number_lines ilp32 instructions start_line_numbering).line_numbers < 2 ^ 16
unfolding program
short_table = omega arith

get_line_number-number_lines_example :
    get_line_number (number_lines ilp32 instructions start_line_numbering).line_numbers 702
    ≡ pos (line_at instructions 702 0)
get_line_number-number_lines_example =
    get_line_number-number_lines ilp32 instructions 702 (omega arith) (omega arith) short_table
