-- ===== src/Fields/Widths.antt =====
-- How wide the fields of src/sprintf.c become.
use lpc.Base.{
  ℕ, zero, suc, ◌+◌, ◌-◌, ◌/◌, ◌%◌, ◌==◌, ◌≤◌, ◌<◌, ◌≡◌, refl, ap, ◌∙◌, Bool, true, false, not,
  ◌&&◌, ◌||◌, Option, none, some, ◌∷◌, ◌++◌, ltb, leb, if◌then◌else◌, length, length-append,
  length-take, length-drop, length-replicate, take, drop, get_or, replicate, min, max, arith, inl,
  inr, Bool-cases,
}
use mathlib.Core.Option
use lpc.Text.{Bytes}
use lpc.Fields.{
  Flags, has_sign, sign_of, pads, pad_index, zero_field, left_field, center_field, right_field,
  justify, fix_field, justify,
}

-- The number of bytes of a field that holds `n` bytes of text and sign.
abbrev pub field_width : Flags → ℕ → ℕ → Option ℕ
field_width flags width n =
    if width == 0
    then some n
    else if flags.do_trunc && not flags.zero_pad && ltb width n
    then (if flags.field_center || flags.field_left then none else some width)
    else some (max width n)

abbrev size_of : Option Bytes → Option ℕ
size_of = Option.map length

length-pads : (p : Bytes) (n d : ℕ) → length (pads p d n) ≡ n
unfolding pads
length-pads p zero d = refl
length-pads p (suc n) d = ap suc (length-pads p n _)

length-zeros : (n : ℕ) (t : Bytes) → length (replicate n 48 ++ t) ≡ n + length t
length-zeros n t = length-append (replicate n 48) t ∙ omega (arith, length-replicate {A = ℕ} n 48)

length_three : (s t u : Bytes) → length (s ++ (t ++ u)) ≡ length s + length t + length u
length_three s t u = omega (arith, length-append s (t ++ u), length-append t u)

module _ (b : Bytes) (len width pos_pad : ℕ) (p : Bytes) (inside : len < length b) where
  plain : length (sign_of b pos_pad ++ take len b) ≡ len + length (sign_of b pos_pad)
  plain = omega (arith, length-append (sign_of b pos_pad) (take len b), length-take len b)

  sign_length : length (sign_of b pos_pad) ≤ 1
  sign_length = ground arith

  zero_field-width :
      (get_or b 0 0 ≡ 45 → 0 < len)
      → 0 < width
      → size_of (zero_field b len width pos_pad)
        ≡ some (max width (len + length (sign_of b pos_pad)))
  unfolding zero_field
  zero_field-width h w = elim (Bool-cases (get_or b 0 0 == 45)) [
    | inl e ↦
        let some_text : (len == 0) ≡ false = ground (arith, h) in
        let t = take (len - 1) (drop 1 b) in
        let size : length t ≡ len - 1 =
          omega (arith, length-take (len - 1) (drop 1 b), length-drop 1 b) in
        rw (e, some_text) (ap some (ground (arith, length-zeros (width - 1 - (len - 1)) t, size)))
    | inr e ↦ elim (Bool-cases (pos_pad == 0)) [
      | inl e' ↦
          rw (e, e')
            (ap some (ground (arith, length-zeros (width - len) (take len b), length-take len b)))
      | inr e' ↦
          rw (e, e')
            (ap some
              (ground (arith, length-zeros (width - 1 - len) (take len b), length-take len b)))
    ]
  ]

  left_field-width :
      (d : ℕ)
      → 0 < width
      → size_of (left_field b len width p pos_pad d)
        ≡ (if ltb width (len + length (sign_of b pos_pad)) then none else some width)
  unfolding left_field
  left_field-width d w =
      let sign = sign_of b pos_pad in
      let room = width - length sign in
      elim (Bool-cases (ltb room len)) [
        | inl e ↦
            let short : ltb width (len + length sign) ≡ true = ground (arith, sign_length) in
            rw (e, short) refl
        | inr e ↦
            let fits : ltb width (len + length sign) ≡ false = ground (arith, sign_length) in
            rw (e, fits)
              (ap some (
                length_three sign (take len b)
                  (pads p ((d + length sign + min room len) % length p) (room - len))
                ∙ ground (
                  arith,
                  length-take len b,
                  length-pads p (room - len) ((d + length sign + min room len) % length p),
                  sign_length,
                )))
      ]

  right_field-width : 0 < width → length (right_field b len width p pos_pad) ≡ width
  unfolding right_field
  right_field-width w =
      let sign = sign_of b pos_pad in
      let len' = len + length sign in
      let width' = min width len' in
      let pad = pads p 0 (width - len') in
      let padded = length-pads p (width - len') 0 in
      let rest = drop (len' - width') b in
      elim (Bool-cases (has_sign b pos_pad && len' == width')) [
        | inl e ↦
            let one : length sign ≡ 1 = ground arith in
            rw e (
              length-append pad (pos_pad ∷ take len b)
              ∙ ground (arith, padded, length-take len b, one))
        | inr e ↦ rw e (
            length-append pad (take width' rest)
            ∙ ground (
              arith,
              padded,
              length-take width' rest,
              length-drop (len' - width') b,
              sign_length,
            ))
      ]

size-prefix :
    (s : Bytes) (o : Option Bytes) (c : Bool) (w : ℕ)
    → size_of o ≡ (if c then none else some w)
    → size_of (Option.map (λ t. s ++ t) o) ≡ (if c then none else some (length s + w))
size-prefix s none true w h = refl
size-prefix s none false w h = cc
size-prefix s (some t) true w h = cc
size-prefix s (some t) false w h =
    let same : length t ≡ w = cc in ap some (length-append s t ∙ ap (◌+◌ (length s)) same)

center_field-width :
    (b : Bytes) (len width pos_pad : ℕ) (p : Bytes)
    → len < length b
    → 0 < width
    → size_of (center_field b len width p pos_pad)
      ≡ (if ltb width (len + length (sign_of b pos_pad)) then none else some width)
unfolding center_field
center_field-width b len width pos_pad p inside w =
    let n = len + length (sign_of b pos_pad) in
    let e = (width - n) / 2 in
    let left =
      left_field-width b len (width - e) pos_pad p inside (pad_index p 0 e) (omega arith) in
    let same : ltb (width - e) n ≡ ltb width n = ground arith in
    let all : length (pads p 0 e) + (width - e) ≡ width = omega (arith, length-pads p e 0) in
    size-prefix (pads p 0 e) (left_field b len (width - e) p pos_pad (pad_index p 0 e))
      (ltb width n) (width - e)
      (left ∙ ap (λ (c : Bool). if c then none else some (width - e)) same)
    ∙ ap (λ (v : ℕ). if ltb width n then none else some v) all

justify-width :
    (b : Bytes) (len : ℕ) (flags : Flags) (width : ℕ) (p : Bytes) (pos_pad : ℕ)
    → len < length b
    → (get_or b 0 0 ≡ 45 → 0 < len)
    → 0 < width
    → size_of (justify b len flags width p pos_pad) ≡ (
        if flags.zero_pad
        then some (max width (len + length (sign_of b pos_pad)))
        else if (flags.field_center || flags.field_left)
            && ltb width (len + length (sign_of b pos_pad))
        then none
        else some width)
unfolding justify
justify-width b len flags width p pos_pad inside h w = elim (Bool-cases flags.zero_pad) [
  | inl z ↦ rw z (zero_field-width b len width pos_pad p inside h w)
  | inr z ↦ elim (Bool-cases flags.field_center) [
    | inl c ↦ rw (z, c) (center_field-width b len width pos_pad p inside w)
    | inr c ↦ elim (Bool-cases flags.field_left) [
      | inl l ↦ rw (z, c, l) (left_field-width b len width pos_pad p inside 0 w)
      | inr l ↦ rw (z, c, l) (ap some (right_field-width b len width pos_pad p inside w))
    ]
  ]
]

-- How wide a field becomes, for every width and all flags, unless the text is empty in front of a
-- minus sign. Without a width it is the text and its sign; else it is the width, or the text if that
-- is longer. With DO_TRUNC a longer text with ZERO_PAD is not cut; without ZERO_PAD it is cut to the
-- width if it is justified to the right, but if it is centered or justified to the left the loop does
-- not stop. The bytes behind `b` include one that is not of the text.
pub fix_field-width :
    (b : Bytes) (len : ℕ) (flags : Flags) (width : ℕ) (p : Bytes) (pos_pad : ℕ)
    → len < length b
    → (get_or b 0 0 ≡ 45 → 0 < len)
    → Option.map length (fix_field b len flags width p pos_pad)
      ≡ field_width flags width (len + length (sign_of b pos_pad))
unfolding fix_field
fix_field-width b len flags width p pos_pad inside h =
    let n = len + length (sign_of b pos_pad) in
    let text = plain b len width pos_pad p inside in
    elim (Bool-cases (width == 0)) [
      | inl e ↦ rw e (ap some text)
      | inr e ↦ elim (Bool-cases (not flags.do_trunc && leb width n)) [
        | inl l ↦
            let full : (flags.do_trunc && not flags.zero_pad && ltb width n) ≡ false =
              ground arith in
            let most : max width n ≡ n = ground arith in rw (e, l, full, most) (ap some text)
        | inr l ↦
            rw (e, l)
              (justify-width b len flags width p pos_pad inside h (ground arith) ∙ ground arith)
      ]
    ]
