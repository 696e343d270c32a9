-- ===== src/Constants/Literals.antt =====
-- The strings of a program: `store_prog_string` and the case of F_STRING in src/las.c, and the cases that
-- push a string in src/interpret.c. Strings are shared, so that equal ones have one address.
use lpc.Base.{
  ℕ, zero, suc, ◌+◌, ◌-◌, ◌%◌, ◌^◌, Option, none, some, List, [], ◌∷◌, ◌++◌, ℤ, pos, negsuc, ltb_ℤ,
  ltb, if◌then◌else◌, drop, get_or, get_elem?, length,
}
use mathlib.Core.Option
use lpc.Text.{Bytes}
use lpc.Strings.{same_bytes}
use lpc.LineNumbers.{ins_byte, ins_short}
use lpc.Constants.{
  Instruction, f_string, f_short_string, instructions, extract_uword, ins_f_byte, switch, fetch,
}

-- The loop over the first strings, the last one of them first
unfoldable pub find_string : List Bytes → Bytes → ℕ → Option ℕ
unfolding same_bytes
find_string p str zero = none
find_string p str (suc i) =
    let rest = find_string p str i in if same_bytes (get_or p i []) str then some i else rest

-- How many strings the loop looks at: its first index is a `short`.
abbrev pub searched : ℕ → ℕ
searched zero = 0
searched (suc n) = if ltb (n % 2 ^ 16) (2 ^ 15) then n % 2 ^ 16 + 1 else 0

abbrev pub short_of : ℕ → ℤ
short_of n = let w = n % 2 ^ 16 in if ltb w (2 ^ 15) then pos w else negsuc (2 ^ 16 - w - 1)

unfoldable pub store_prog_string : List Bytes → Bytes → ℤ × List Bytes
unfolding find_string
store_prog_string p str = elim (find_string p str (searched (length p))) [
  | some i ↦ (pos i, p)
  | none ↦ (short_of (length p), p ++ (str ∷ []))
]

-- What pushes a string, with the place behind it.
abbrev pub pushed_string : List Bytes → Option Instruction → Bytes → Option (Bytes × Bytes)
pushed_string strings (some f_string) pc =
    Option.map (λ s. (s, drop 2 pc)) (get_elem? strings (extract_uword pc))
pushed_string strings (some f_short_string) pc =
    Option.map (λ s. (s, drop 1 pc)) (get_elem? strings (get_or pc 0 0))
pushed_string strings _ pc = none

module _ (code : Instruction → ℕ) where
  -- The case of F_STRING, after the call
  unfoldable pub ins_index : ℤ → Bytes
  unfolding ins_f_byte
  ins_index tmp1 =
      if ltb_ℤ tmp1 (pos 256)
      then ins_f_byte code (code f_short_string) ++ ins_byte tmp1
      else ins_f_byte code (code f_string) ++ ins_short tmp1

  -- The strings of a program, one after the other
  unfoldable pub ins_strings : List Bytes → List Bytes → Bytes × List Bytes
  unfolding store_prog_string ins_index
  ins_strings p [] = ([], p)
  ins_strings p (str ∷ l) =
      let r = store_prog_string p str in
      let rest = ins_strings r.1 l in (ins_index r.0 ++ rest.0, rest.1)

  unfoldable pub eval_string : List Bytes → Bytes → Option (Bytes × Bytes)
  unfolding fetch switch
  eval_string strings pc =
      let r = fetch code pc in pushed_string strings (switch code r.0 instructions) r.1

  -- So many instructions that push strings
  unfoldable pub eval_strings : List Bytes → ℕ → Bytes → Option (List Bytes)
  unfolding eval_string
  eval_strings strings zero pc = some []
  eval_strings strings (suc n) pc = elim (eval_string strings pc) [
    | none ↦ none
    | some r ↦ let rest = eval_strings strings n r.1 in Option.map (λ l. r.0 ∷ l) rest
  ]
