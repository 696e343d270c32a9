-- ===== src/Text.antt =====
-- `explode` and `implode` of src/array.c and `string_replace` of src/array_efuns.c, over the bytes of
-- a string. An index into the string is the part of it that is left.
pub mod Split
pub mod Replace
use lpc.Base.{
  ℕ, zero, suc, ◌+◌, ◌-◌, ◌*◌, ◌≤◌, Bool, true, false, ◌&&◌, Option, none, some, List, [], ◌∷◌,
  ◌++◌, map, ◌==◌, if◌then◌else◌, length, drop,
}
use lpc.Growth.{array_fits}

abbrev pub Bytes : Type 0
Bytes = List ℕ

-- `e + del_len <= str_len && !MEMCMP(s + e, d, del_len)`
unfoldable pub matches : Bytes → Bytes → Bool
matches [] s = true
matches (d ∷ del) [] = false
matches (d ∷ del) (c ∷ s) = d == c && matches del s

-- the loop that counts the delimiters
unfoldable pub count_loop : ℕ → Bytes → Bytes → ℕ
count_loop zero del s = 0
count_loop (suc fuel) del [] = 0
count_loop (suc fuel) del (c ∷ s) = elim (matches del (c ∷ s)) [
  | true ↦ suc (count_loop fuel del (drop (length del) (c ∷ s)))
  | false ↦ count_loop fuel del s
]

-- The loop that cuts the pieces; `piece` is what lies between `begin` and `e`.
unfoldable pub cut_loop : ℕ → Bytes → Bytes → Bytes → List Bytes
cut_loop zero del piece s = piece ∷ []
cut_loop (suc fuel) del piece [] = piece ∷ []
cut_loop (suc fuel) del piece (c ∷ s) = elim (matches del (c ∷ s)) [
  | true ↦ piece ∷ cut_loop fuel del [] (drop (length del) (c ∷ s))
  | false ↦ cut_loop fuel del (piece ++ c ∷ []) s
]

unfoldable pub pieces : Bytes → Bytes → List Bytes
unfolding cut_loop matches
pieces str [] = map (λ c. c ∷ []) str
pieces str (d ∷ del) = cut_loop (length str) (d ∷ del) [] str

-- The size of the array: that of the string, or one more than the count of the first loop.
unfoldable pub explode_size : Bytes → Bytes → ℕ
unfolding count_loop matches
explode_size str [] = length str
explode_size str (d ∷ del) = count_loop (length str) (d ∷ del) str + 1

-- `none` is the error about the size of the array.
unfoldable pub explode : Bool → Bytes → Bytes → Option (List Bytes)
unfolding pieces explode_size
explode batch_mode str del =
    if array_fits batch_mode (explode_size str del) then some (pieces str del) else none

-- An item of the array: a string, or `none` for a value of another type, which is passed over.
abbrev pub bytes_of : Option Bytes → Bytes
bytes_of none = []
bytes_of (some s) = s

unfoldable pub implode_rest : List (Option Bytes) → Bytes → Bytes
implode_rest [] del = []
implode_rest (x ∷ v) del = del ++ (bytes_of x ++ implode_rest v del)

unfoldable pub implode : List (Option Bytes) → Bytes → Bytes
unfolding implode_rest
implode [] del = []
implode (x ∷ v) del = bytes_of x ++ implode_rest v del

-- `len` as `implode` computes it for an array that is not empty
unfoldable pub sum_lengths : List (Option Bytes) → ℕ
sum_lengths [] = 0
sum_lengths (x ∷ v) = length (bytes_of x) + sum_lengths v

unfoldable pub implode_size : List (Option Bytes) → Bytes → ℕ
unfolding sum_lengths
implode_size v del = length del * (length v - 1) + sum_lengths v

-- The two loops of `string_replace`. An empty delimiter stands at every byte, and the loops go on by
-- one.
abbrev pub skip : Bytes → ℕ
skip del = if length del == 0 then 1 else length del

unfoldable pub replace_count : ℕ → Bytes → Bytes → ℕ
replace_count zero del s = 0
replace_count (suc fuel) del [] = 0
replace_count (suc fuel) del (c ∷ s) = elim (matches del (c ∷ s)) [
  | true ↦ suc (replace_count fuel del (drop (skip del) (c ∷ s)))
  | false ↦ replace_count fuel del s
]

unfoldable pub replace_loop : ℕ → Bytes → Bytes → Bytes → Bytes
replace_loop zero del to s = []
replace_loop (suc fuel) del to [] = []
replace_loop (suc fuel) del to (c ∷ s) = elim (matches del (c ∷ s)) [
  | true ↦ to ++ replace_loop fuel del to (drop (skip del) (c ∷ s))
  | false ↦ c ∷ replace_loop fuel del to s
]

-- What is written into the new string; without a delimiter the string stays.
unfoldable pub string_replace : Bytes → Bytes → Bytes → Bytes
unfolding replace_loop replace_count matches
string_replace str del to =
    let num = replace_count (length str) del str in
    if num == 0 then str else replace_loop (length str) del to str
