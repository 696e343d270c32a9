-- ===== src/Sum.antt =====
-- `f_sum` of src/operators.c on strings and numbers, and its cache of the sums of two strings. Strings
-- are shared: equal ones have one address, which is a parameter. What it does with arrays, lists and
-- mappings is `other`. The sum of the lengths of strings is an `int`.
pub mod Cache
pub mod Room
use lpc.Base.{
  ℕ, zero, suc, ◌+◌, ◌*◌, ◌/◌, ◌%◌, ◌^◌, ◌==◌, Bool, true, false, not, ◌&&◌, ◌||◌, Option, none,
  some, List, [], ◌∷◌, ◌++◌, ℤ, pos, ◌+ℤ◌, wrap_int, leb, if◌then◌else◌, length,
}
use lpc.Text.{Bytes}
use lpc.Strings.{same_bytes}
use lpc.Saving.{Value, number, string, vector, list, mapping, print_int}

-- `struct add_cache_entry`
pub record AddCacheEntry : Type 0 where
  pub a : Bytes
  pub b : Bytes
  pub sum : Bytes
  pub hits : ℕ

-- `add_cache`; an entry whose `a` is 0 is `none`.
abbrev pub AddCache : Type 0
AddCache = ℕ → Option AddCacheEntry

abbrev pub add_cache_size : ℕ
add_cache_size = 4096

abbrev pub add_cache_max_length : ℕ
add_cache_max_length = 256

-- The round of `clean_add_cache`.
abbrev pub cleaned : Option AddCacheEntry → Option AddCacheEntry
cleaned none = none
cleaned (some h) = if h.hits == 0 then none else some h

abbrev pub clean_add_cache : AddCache → AddCache
clean_add_cache cache = λ e. cleaned (cache e)

abbrev pub free_add_cache : AddCache → AddCache
free_add_cache cache = λ e. none

abbrev pub update : AddCache → ℕ → AddCacheEntry → AddCache
update cache h entry = λ e. if e == h then some entry else cache e

-- How `f_sum` ends: with a value and the cache, with an error (which of two it is depends on the value
-- behind the arguments), or at values that the model lacks.
pub data Sum : Type 0 where
  summed : Value → AddCache → Sum
  failed : Sum
  other : Sum

abbrev pub is_string : Value → Bool
is_string (string s) = true
is_string _ = false

abbrev pub is_number : Value → Bool
is_number (number subtype n) = true
is_number _ = false

abbrev pub is_array : Value → Bool
is_array (vector vs) = true
is_array _ = false

abbrev pub is_list : Value → Bool
is_list (list vs) = true
is_list _ = false

abbrev pub is_mapping : Value → Bool
is_mapping (mapping es d) = true
is_mapping _ = false

abbrev pub every : (Value → Bool) → List Value → Bool
every p [] = true
every p (v ∷ vs) = p v && every p vs

-- What each argument adds to the buffer: `MEMCPY` of a string, `sprintf` of a number.
abbrev pub text_of : Value → Bytes
text_of (string s) = s
text_of (number subtype n) = print_int n
text_of _ = []

unfoldable pub write_text : List Value → Bytes
write_text [] = []
write_text (v ∷ vs) = text_of v ++ write_text vs

-- The room for it, by the loops that count `size`
abbrev pub room_of : Value → ℕ
room_of (string s) = length s
room_of (number subtype n) = 14
room_of _ = 0

unfoldable pub count_room : List Value → ℕ
count_room [] = 0
count_room (v ∷ vs) = room_of v + count_room vs

-- `for(size=e=0;e<num_arg;e++) size+=argp[e].u.number;` from `size` on
unfoldable pub sum_numbers : ℤ → List Value → ℤ
sum_numbers size [] = size
sum_numbers size (number subtype n ∷ vs) = sum_numbers (wrap_int (size +ℤ n)) vs
sum_numbers size (_ ∷ vs) = sum_numbers size vs

-- The subtype of the first number stays.
abbrev pub subtype_of : List Value → ℕ
subtype_of (number subtype n ∷ vs) = subtype
subtype_of _ = 0

module _ (address : Bytes → ℕ) where
  -- The place in the cache, from addresses that are cut to `unsigned int`
  abbrev pub slot : Bytes → Bytes → ℕ
  slot a b = (address a % 2 ^ 32 + address b % 2 ^ 32 / 4) % 2 ^ 32 % add_cache_size

  -- Two strings whose sum is short
  unfoldable pub cached : AddCache → Bytes → Bytes → Bytes × AddCache
  cached cache a b =
      let h = slot a b in
      let buf = a ++ b in
      let new = update cache h (record { a = a; b = b; sum = buf; hits = 0 }) in
      elim (cache h) [
        | none ↦ (buf, new)
        | some old ↦
            if same_bytes old.a a && same_bytes old.b b
            then (old.sum, update cache h (record old { hits = old.hits + 1 }))
            else (buf, new)
      ]

  -- The case of BT_STRING
  unfoldable pub sum_strings : AddCache → List Value → Sum
  unfolding cached write_text count_room
  sum_strings cache [] = failed
  sum_strings cache (v ∷ []) = summed v cache
  sum_strings cache (v ∷ (w ∷ [])) =
      let r = cached cache (text_of v) (text_of w) in
      if leb (length (text_of v) + length (text_of w)) add_cache_max_length
      then summed (string r.0) r.1
      else summed (string (write_text (v ∷ (w ∷ [])))) cache
  sum_strings cache (v ∷ (w ∷ (u ∷ vs))) = summed (string (write_text (v ∷ (w ∷ (u ∷ vs))))) cache

  unfoldable pub f_sum : AddCache → List Value → Sum
  unfolding sum_strings sum_numbers write_text
  f_sum cache [] = failed
  f_sum cache (v ∷ vs) =
      let argp = v ∷ vs in
      if every is_string argp
      then sum_strings cache argp
      else if every is_number argp
      then summed (number (subtype_of argp) (sum_numbers (pos 0) argp)) cache
      else if every (λ w. is_string w || is_number w) argp
      then summed (string (write_text argp)) cache
      else if every is_array argp || (every is_list argp || every is_mapping argp)
      then other
      else failed
