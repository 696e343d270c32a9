-- ===== src/Tests/Fields.antt =====
-- Fields of formatted output.
use lpc.Base.{◌+◌, ◌≡◌, refl, Bool, true, false, none, some, [], ◌∷◌, arith, length}
use mathlib.Core.Option
use lpc.Text.{Bytes}
use lpc.Fields.{
  Flags, sign_of, pads, pad_index, zero_field, left_field, center_field, right_field, justify,
  fix_field,
}
use lpc.Fields.Widths.{field_width, fix_field-width}

abbrev program : Unit {0}
unfolding pads pad_index zero_field left_field center_field right_field justify fix_field
program = tt

abbrev flags : Bool → Bool → Flags
flags trunc left = record {
  do_trunc = trunc;
  zero_pad = false;
  field_center = false;
  field_left = left;
}

-- "abc" and the zero byte behind it
abbrev abc : Bytes
abc = 97 ∷ (98 ∷ (99 ∷ (0 ∷ [])))

right_abc :
    fix_field abc 3 (flags false false) 5 (32 ∷ []) 0 ≡ some (32 ∷ (32 ∷ (97 ∷ (98 ∷ (99 ∷ [])))))
unfolding program
right_abc = refl

centered :
    fix_field abc 3
      (record { do_trunc = false; zero_pad = false; field_center = true; field_left = false })
      6
      (45 ∷ (42 ∷ []))
      0
    ≡ some (45 ∷ (97 ∷ (98 ∷ (99 ∷ (45 ∷ (42 ∷ []))))))
unfolding program
centered = refl

-- `%!-2s` of "abc" does not end.
left_cut : fix_field abc 3 (flags true true) 2 (32 ∷ []) 0 ≡ none
unfolding program
left_cut = refl

-- `%!+2s` of "abc" writes "c" and the zero byte.
sign_cut : fix_field abc 3 (flags true false) 2 (32 ∷ []) 43 ≡ some (99 ∷ (0 ∷ []))
unfolding program
sign_cut = refl

fix_field-width_example :
    Option.map length (fix_field abc 3 (flags true false) 2 (32 ∷ []) 43)
    ≡ field_width (flags true false) 2 (3 + length (sign_of abc 43))
fix_field-width_example =
    fix_field-width abc 3 (flags true false) 2 (32 ∷ []) 43 (omega arith)
      (λ e. absurd (omega (arith, e)))
