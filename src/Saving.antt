-- ===== src/Saving.antt =====
-- Values written as text by src/save_objectII.c: `low_save_svalue` and what it calls, for numbers,
-- strings, arrays, lists and mappings that do not contain themselves. The buffer that
-- `my_putchar`, `my_strcat` and `my_binary_strcat` write to is the text that is returned.
use lpc.Base.{
  ℕ, zero, suc, ◌+◌, ◌/◌, ◌%◌, ◌==◌, ◌||◌, [], ◌∷◌, ◌++◌, ℤ, pos, negsuc, ltb, if◌then◌else◌,
  length,
}
use lpc.Text.{Bytes}

mutual
  pub data Value : Type 0 where
    -- with its subtype
    number : ℕ → ℤ → Value
    string : Bytes → Value
    vector : Values → Value
    list : Values → Value
    -- with its default
    mapping : Entries → Value → Value

  pub data Values : Type 0 where
    none_left : Values
    also : Value → Values → Values

  pub data Entries : Type 0 where
    no_entry : Entries
    entry : Value → Value → Entries → Entries

abbrev pub size : Values → ℕ
size none_left = 0
size (also v vs) = suc (size vs)

abbrev pub entries : Entries → ℕ
entries no_entry = 0
entries (entry k v es) = suc (entries es)

-- `%d` of a number that is not negative; it has at most as many digits as its fuel.
unfoldable pub decimal_loop : ℕ → ℕ → Bytes
decimal_loop zero n = []
decimal_loop (suc fuel) n =
    let higher = decimal_loop fuel (n / 10) in
    if ltb n 10 then (48 + n) ∷ [] else higher ++ ((48 + n % 10) ∷ [])

unfoldable pub decimal : ℕ → Bytes
unfolding decimal_loop
decimal n = decimal_loop (suc n) n

-- `sprintf(b,"%d",n)`
unfoldable pub print_int : ℤ → Bytes
unfolding decimal
print_int (pos n) = decimal n
print_int (negsuc n) = 45 ∷ decimal (suc n)

-- `save_style`
pub data Style : Type 0 where
  save_default save_as_one_line save_old_style : Style

-- the `switch` over a character for SAVE_AS_ONE_LINE
unfoldable pub one_line : ℕ → Bytes
one_line c =
    if c == 10
    then 92 ∷ (110 ∷ [])
    else if c == 9
    then 92 ∷ (116 ∷ [])
    else if c == 8
    then 92 ∷ (98 ∷ [])
    else if c == 34 || c == 92
    then 92 ∷ (c ∷ [])
    else c ∷ []

-- and for SAVE_OLD_STYLE
unfoldable pub old_style : ℕ → Bytes
old_style c = if c == 34 || (c == 10 || c == 92) then 92 ∷ (c ∷ []) else c ∷ []

abbrev pub each : (ℕ → Bytes) → Bytes → Bytes
each f [] = []
each f (c ∷ s) = f c ++ each f s

unfoldable pub save_string : Style → Bytes → Bytes
unfolding decimal one_line old_style
save_string save_default s = decimal (length s) ++ (72 ∷ s)
save_string save_as_one_line s = 34 ∷ each one_line s ++ (34 ∷ [])
save_string save_old_style s = 34 ∷ each old_style s ++ (34 ∷ [])

-- `(%d`, the opening bracket, the items, the closing bracket and `)`
abbrev pub bracketed : ℕ → ℕ → Bytes → ℕ → Bytes
bracketed n opening inner closing = (40 ∷ decimal n) ++ (opening ∷ inner ++ (closing ∷ (41 ∷ [])))

-- The loop of `save_svalue_list` and the one of `save_mapping` put a comma before each item but the
-- first.
module _ (style : Style) where
  unfoldable mutual
    unfolding save_string print_int decimal

    pub low_save_svalue : Value → Bytes
    low_save_svalue (number subtype n) = print_int n
    low_save_svalue (string s) = save_string style s
    low_save_svalue (vector vs) = bracketed (size vs) 123 (save_svalue_list vs) 125
    low_save_svalue (list vs) = bracketed (size vs) 60 (save_svalue_list vs) 62
    low_save_svalue (mapping es d) = bracketed (entries es) 91 (save_mapping es) 93

    pub save_svalue_list : Values → Bytes
    save_svalue_list none_left = []
    save_svalue_list (also v vs) = low_save_svalue v ++ save_rest vs

    pub save_rest : Values → Bytes
    save_rest none_left = []
    save_rest (also v vs) = 44 ∷ low_save_svalue v ++ save_rest vs

    pub save_mapping : Entries → Bytes
    save_mapping no_entry = []
    save_mapping (entry k v es) =
        low_save_svalue k ++ (58 ∷ low_save_svalue v ++ save_mapping_rest es)

    pub save_mapping_rest : Entries → Bytes
    save_mapping_rest no_entry = []
    save_mapping_rest (entry k v es) =
        44 ∷ low_save_svalue k ++ (58 ∷ low_save_svalue v ++ save_mapping_rest es)
