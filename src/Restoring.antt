-- ===== src/Restoring.antt =====
-- Text read back as values by src/save_objectII.c: `low_restore_svalue` and what it calls. A zero
-- byte ends the text, and so does the end of the list. A reference `#` to an enclosing vector, floats
-- `F`, regexps `R`, and objects and functions `H` are not values of the model.
pub mod Loops
pub mod Cases
pub mod Words
pub mod Quotes
pub mod Shapes
pub mod Bracketed
pub mod Depth
pub mod RoundTrip
use lpc.Base.{
  ℕ, zero, suc, ◌+◌, ◌-◌, ◌*◌, ◌%◌, ◌^◌, ◌==◌, Bool, true, false, not, ◌&&◌, ◌||◌, Option, none,
  some, List, [], ◌∷◌, ◌++◌, map, ℤ, pos, negsuc, negative, leb, ltb, ltb_ℤ, pos_part, wrap_int,
  if◌then◌else◌, length, take, drop, get_or, max,
}
use lpc.Text.{Bytes}
use lpc.Value.{Svalue, alist_cmp}
use lpc.Growth.{max_array_size}
use lpc.Fsort.{fsort}
use lpc.Making.{indices}
use lpc.Saving.{
  Value, number, string, vector, list, mapping, Values, none_left, also, Entries, no_entry, entry,
}

-- How reading ends: with a value and the text behind it, with `my_error`, with a read beyond the end
-- of the text, in a loop that does not end, or at a value that the model lacks.
pub data Restored {ℓ} (A : Type ℓ) : Type ℓ where
  done : A → Bytes → Restored A
  failed : Restored A
  overrun : Restored A
  endless : Restored A
  other : Restored A

infixl 5 ◌>>=◌
abbrev pub ◌>>=◌ {ℓ κ} :
    {A : Type ℓ} {B : Type κ} → Restored A → (A × Bytes → Restored B) → Restored B
done a t >>= f = f (a, t)
failed >>= f = failed
overrun >>= f = overrun
endless >>= f = endless
other >>= f = other

-- `*t`
abbrev pub peek : Bytes → ℕ
peek t = get_or t 0 0

abbrev pub is_digit : ℕ → Bool
is_digit c = leb 48 c && leb c 57

-- The digits at the front of a text, after the number `n` that is read already.
unfoldable pub read_digits : Bytes → ℕ → ℕ × Bytes
read_digits [] n = (n, [])
read_digits (c ∷ t) n =
    let rest = read_digits t (n * 10 + (c - 48)) in if is_digit c then rest else (n, c ∷ t)

-- A `long` has 64 bits, and `STRTOL` returns the nearest one.
abbrev pub clamp_long : ℤ → ℤ
clamp_long (pos n) = if ltb n (2 ^ 63) then pos n else pos (2 ^ 63 - 1)
clamp_long (negsuc n) = if ltb n (2 ^ 63) then negsuc n else negsuc (2 ^ 63 - 1)

abbrev pub negated : ℕ → ℤ
negated zero = pos 0
negated (suc n) = negsuc n

-- `(int)STRTOL(t,&t,10)` at a digit or a minus sign. Without digits nothing is read.
unfoldable pub strtol : Bytes → ℤ × Bytes
unfolding read_digits
strtol t =
    if peek t == 45
    then (let r = read_digits (drop 1 t) 0 in
        if is_digit (peek (drop 1 t))
        then (wrap_int (clamp_long (negated r.0)), r.1)
        else (pos 0, t))
    else (let r = read_digits t 0 in (wrap_int (clamp_long (pos r.0)), r.1))

-- `**t<'0' || **t>'8'`
abbrev pub bad_octal : ℕ → Bool
bad_octal c = ltb c 48 || ltb 56 c

-- What follows a backslash: the bytes that are written, and the rest. After an octal number its last
-- digit is written too.
unfoldable pub escape : Bytes → Option (Bytes × Bytes)
escape t =
    let c = peek t in
    if c == 0
    then none
    else if c == 110
    then some (10 ∷ [], drop 1 t)
    else if c == 116
    then some (9 ∷ [], drop 1 t)
    else if c == 98
    then some (8 ∷ [], drop 1 t)
    else if leb 48 c && leb c 50
    then (let d = peek (drop 1 t) in
        let e = peek (drop 2 t) in
        if bad_octal d || bad_octal e
        then none
        else some (((c - 48) * 64 + (d - 48) * 8 + (e - 48)) % 256 ∷ (e ∷ []), drop 3 t))
    else some (c ∷ [], drop 1 t)

abbrev pub more : Bytes → Option (Bytes × Bytes) → Option (Bytes × Bytes)
more s none = none
more s (some r) = some (s ++ r.0, r.1)

-- The loop of `restore_string`, from behind the opening quote; a round takes a byte at least.
unfoldable pub unquote : ℕ → Bytes → Option (Bytes × Bytes)
unfolding escape
unquote zero t = none
unquote (suc fuel) t =
    let c = peek t in
    elim (c == 34) [
      | true ↦ some ([], drop 1 t)
      | false ↦ elim (c == 0) [
        | true ↦ none
        | false ↦ elim (c == 92) [
          | true ↦ elim (escape (drop 1 t)) [ none ↦ none | some r ↦ more r.0 (unquote fuel r.1) ]
          | false ↦ more (c ∷ []) (unquote fuel (drop 1 t))
        ]
      ]
    ]

unfoldable pub restore_string : Bytes → Option (Bytes × Bytes)
unfolding unquote
restore_string t = unquote (length t) (drop 1 t)
