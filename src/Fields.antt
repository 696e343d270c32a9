-- ===== src/Fields.antt =====
-- `fix_field` of src/sprintf.c, which writes a string into a field of the formatted output. `b` is the
-- bytes from the pointer on, the zero byte behind them included, and `len` how many of them are the
-- string; the pad string is not empty. A loop that runs on below zero, and writes some 2^32 bytes, is `none`.
pub mod Widths
use lpc.Base.{
  ℕ, zero, suc, ◌+◌, ◌-◌, ◌/◌, ◌%◌, ◌==◌, Bool, true, false, not, ◌&&◌, ◌||◌, Option, none, some,
  List, [], ◌∷◌, ◌++◌, ltb, leb, if◌then◌else◌, length, take, drop, get_or, replicate, min,
}
use lpc.Text.{Bytes}

-- DO_TRUNC, ZERO_PAD, FIELD_CENTER and FIELD_LEFT
pub record Flags : Type 0 where
  pub do_trunc : Bool
  pub zero_pad : Bool
  pub field_center : Bool
  pub field_left : Bool

-- `pos_pad && b[0]!='-'`; no `pos_pad` is 0
abbrev pub has_sign : Bytes → ℕ → Bool
has_sign b pos_pad = not (pos_pad == 0) && not (get_or b 0 0 == 45)

abbrev pub sign_of : Bytes → ℕ → Bytes
sign_of b pos_pad = if has_sign b pos_pad then pos_pad ∷ [] else []

-- `n` bytes of the pad string, from its byte `d` on and round about
unfoldable pub pads : Bytes → ℕ → ℕ → Bytes
pads pad_string d zero = []
pads pad_string d (suc n) =
    let d' = if leb (length pad_string) d then 0 else d in
    get_or pad_string d' 0 ∷ pads pad_string (d' + 1) n

-- Where `d` is after these bytes.
unfoldable pub pad_index : Bytes → ℕ → ℕ → ℕ
pad_index pad_string d zero = d
pad_index pad_string d (suc n) =
    let d' = if leb (length pad_string) d then 0 else d in pad_index pad_string (d' + 1) n

-- `flags & ZERO_PAD`; an empty string in front of a minus sign makes the last loop run below zero.
unfoldable pub zero_field : Bytes → ℕ → ℕ → ℕ → Option Bytes
zero_field b len width pos_pad =
    if get_or b 0 0 == 45
    then (if len == 0
        then none
        else some (45 ∷ replicate (width - 1 - (len - 1)) 48 ++ take (len - 1) (drop 1 b)))
    else if not (pos_pad == 0)
    then some (pos_pad ∷ replicate (width - 1 - len) 48 ++ take len b)
    else some (replicate (width - len) 48 ++ take len b)

-- `flags & FIELD_LEFT`, with `d` bytes of the pad string written already
unfoldable pub left_field : Bytes → ℕ → ℕ → Bytes → ℕ → ℕ → Option Bytes
unfolding pads
left_field b len width pad_string pos_pad d =
    let sign = sign_of b pos_pad in
    let room = width - length sign in
    let d' = d + length sign + min room len in
    if ltb room len
    then none
    else some (sign ++ (take len b ++ pads pad_string (d' % length pad_string) (room - len)))

-- `flags & FIELD_CENTER`
unfoldable pub center_field : Bytes → ℕ → ℕ → Bytes → ℕ → Option Bytes
unfolding pads pad_index left_field
center_field b len width pad_string pos_pad =
    let e = (width - (len + length (sign_of b pos_pad))) / 2 in
    elim (left_field b len (width - e) pad_string pos_pad (pad_index pad_string 0 e)) [
      | none ↦ none
      | some s ↦ some (pads pad_string 0 e ++ s)
    ]

-- The right-justification: of a string that is too long the last bytes are written, counted from the
-- sign.
unfoldable pub right_field : Bytes → ℕ → ℕ → Bytes → ℕ → Bytes
unfolding pads
right_field b len width pad_string pos_pad =
    let len' = len + length (sign_of b pos_pad) in
    let width' = min width len' in
    let pad = pads pad_string 0 (width - len') in
    if has_sign b pos_pad && len' == width'
    then pad ++ (pos_pad ∷ take len b)
    else pad ++ take width' (drop (len' - width') b)

-- `fix_field` from the test of ZERO_PAD on
unfoldable pub justify : Bytes → ℕ → Flags → ℕ → Bytes → ℕ → Option Bytes
unfolding zero_field left_field center_field right_field
justify b len flags width pad_string pos_pad =
    if flags.zero_pad
    then zero_field b len width pos_pad
    else if flags.field_center
    then center_field b len width pad_string pos_pad
    else if flags.field_left
    then left_field b len width pad_string pos_pad 0
    else some (right_field b len width pad_string pos_pad)

unfoldable pub fix_field : Bytes → ℕ → Flags → ℕ → Bytes → ℕ → Option Bytes
unfolding justify
fix_field b len flags width pad_string pos_pad =
    if width == 0
    then some (sign_of b pos_pad ++ take len b)
    else if not flags.do_trunc && leb width (len + length (sign_of b pos_pad))
    then some (sign_of b pos_pad ++ take len b)
    else justify b len flags width pad_string pos_pad
