-- ===== src/LineNumbers.antt =====
-- The table of line numbers of a program: `insert_small_number` and `low_ins_f_byte` of src/las.c write
-- it, `get_small_number` and `get_line_number` of src/interpret.c read it. A byte is a number below
-- 256, and `short` and `int` have their low byte first.
pub mod Numbers
pub mod Table
pub mod Lines
use lpc.Base.{
  ℕ, zero, suc, ◌+◌, ◌-◌, ◌*◌, ◌/◌, ◌%◌, ◌^◌, ◌==◌, Bool, true, false, not, ◌&&◌, List, [], ◌∷◌,
  ◌++◌, ℤ, pos, negsuc, ◌+ℤ◌, ◌-ℤ◌, ltb_ℤ, ltb, leb, if◌then◌else◌, length, drop, get_or,
  int_of_word,
}
use lpc.Text.{Bytes}

-- `sizeof(long)`: 4 or 8
pub data Model : Type 0 where
  ilp32 lp64 : Model

abbrev pub word8 : ℤ → ℕ
word8 (pos n) = n % 2 ^ 8
word8 (negsuc n) = 2 ^ 8 - 1 - n % 2 ^ 8

abbrev pub word16 : ℤ → ℕ
word16 (pos n) = n % 2 ^ 16
word16 (negsuc n) = 2 ^ 16 - 1 - n % 2 ^ 16

abbrev pub word32 : ℤ → ℕ
word32 (pos n) = n % 2 ^ 32
word32 (negsuc n) = 2 ^ 32 - 1 - n % 2 ^ 32

-- `ins_byte`, `ins_short` and `ins_long`; the high half of a long of 8 bytes is its sign.
abbrev pub ins_byte : ℤ → Bytes
ins_byte a = word8 a ∷ []

abbrev pub ins_short : ℤ → Bytes
ins_short a = word16 a % 256 ∷ (word16 a / 256 ∷ [])

abbrev pub sign_byte : ℤ → ℕ
sign_byte (pos n) = 0
sign_byte (negsuc n) = 255

abbrev pub low_word : ℤ → Bytes
low_word a = let w = word32 a in w % 256 ∷ (w / 256 % 256 ∷ (w / 65536 % 256 ∷ (w / 16777216 ∷ [])))

unfoldable pub ins_long : Model → ℤ → Bytes
ins_long ilp32 a = low_word a
ins_long lp64 a = let s = sign_byte a in low_word a ++ (s ∷ (s ∷ (s ∷ (s ∷ []))))

-- `-127` and `-128` mark a short and a long number.
unfoldable pub insert_small_number : Model → ℤ → Bytes
unfolding ins_long
insert_small_number m a =
    if ltb_ℤ (negsuc 126) a && ltb_ℤ a (pos 128)
    then ins_byte a
    else if ltb_ℤ (negsuc 32768) a && ltb_ℤ a (pos 32768)
    then 129 ∷ ins_short a
    else 128 ∷ ins_long m a

-- What the compiler keeps while it adds to a program.
pub record Numbering : Type 0 where
  pub last_line : ℕ
  pub last_pc : ℕ
  pub line_numbers : Bytes

abbrev pub start_line_numbering : Numbering
start_line_numbering = record { last_line = 0; last_pc = 0; line_numbers = [] }

-- The front of `low_ins_f_byte`, before an instruction at `pc` of the line `current_line`.
unfoldable pub number_line : Model → ℕ → ℕ → Numbering → Numbering
unfolding insert_small_number
number_line m pc current_line s = if s.last_line == current_line then s else record {
  last_line = current_line;
  last_pc = pc;
  line_numbers =
      s.line_numbers
      ++ (insert_small_number m (pos pc -ℤ pos s.last_pc)
          ++ insert_small_number m (pos current_line -ℤ pos s.last_line));
}

-- The instructions of a program: where they stand, and from which line they are.
unfoldable pub number_lines : Model → List (ℕ × ℕ) → Numbering → Numbering
unfolding number_line
number_lines m [] s = s
number_lines m (x ∷ l) s = number_lines m l (number_line m x.0 x.1 s)

-- `EXTRACT_WORD` and `EXTRACT_INT`
abbrev pub extract_word : Bytes → ℤ
extract_word q =
    let w = get_or q 0 0 + 256 * get_or q 1 0 in
    if ltb w (2 ^ 15) then pos w else negsuc (2 ^ 16 - w - 1)

abbrev pub extract_int : Bytes → ℤ
extract_int q =
    int_of_word (get_or q 0 0 + 256 * get_or q 1 0 + 65536 * get_or q 2 0 + 16777216 * get_or q 3 0)

unfoldable pub get_small_number : Bytes → ℤ × Bytes
get_small_number q =
    let ret = get_or q 0 0 in
    if ret == 129
    then (extract_word (drop 1 q), drop 3 q)
    else if ret == 128
    then (extract_int (drop 1 q), drop 5 q)
    else (if ltb ret 128 then pos ret else negsuc (255 - ret), drop 1 q)

-- The loop of `get_line_number`, as long as more than `beyond` bytes are left; a round takes two bytes
-- at least.
unfoldable pub line_loop : ℕ → ℕ → Bytes → ℤ → ℤ → ℕ → ℤ
unfolding get_small_number
line_loop beyond zero cnt off line offset = line
line_loop beyond (suc fuel) cnt off line offset =
    let d = get_small_number cnt in
    let e = get_small_number d.1 in
    let off' = off +ℤ d.0 in
    elim (leb (length cnt) beyond) [
      | true ↦ line
      | false ↦ elim (ltb_ℤ (pos offset) off') [
        | true ↦ line
        | false ↦ line_loop beyond fuel e.1 off' (line +ℤ e.0) offset
      ]
    ]

-- `fake_prog.num_line_numbers`, an `unsigned short`
abbrev pub num_line_numbers : Bytes → ℕ
num_line_numbers line_numbers = length line_numbers % 2 ^ 16

-- The loop ends behind the first `num_line_numbers` bytes.
unfoldable pub get_line_number : Bytes → ℕ → ℤ
unfolding line_loop
get_line_number line_numbers offset =
    line_loop (length line_numbers - num_line_numbers line_numbers) (length line_numbers)
      line_numbers (pos 0) (pos 0) offset
