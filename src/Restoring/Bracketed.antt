-- ===== src/Restoring/Bracketed.antt =====
-- The cases of a value of src/save_objectII.c that a saved value leads to.
use lpc.Base.{
  take-append, drop-append, ℕ, suc, ◌^◌, ◌≤◌, ◌<◌, ◌≡◌, refl, ap, ◌∙◌, ◌==◌, Bool, true, false,
  ◌||◌, some, [], ◌∷◌, ◌++◌, ℤ, pos, negsuc, IsInt, ltb, length, length-append, arith, Bool-cases,
  inl, inr,
}
use mathlib.Core.List.{append_assoc}
use lpc.Text.{Bytes}
use lpc.Value.{Svalue}
use lpc.Growth.{max_array_size}
use lpc.Saving.{
  Value, number, string, vector, list, mapping, Values, Entries, decimal, print_int, Style,
  save_default, save_as_one_line, save_old_style, save_string, bracketed,
}
use lpc.Restoring.{Restored, done, peek, is_digit, restore_string}
use lpc.Restoring.Words.{strtol-decimal, strtol-print_int, peek-decimal}
use lpc.Restoring.Quotes.{restore_string-one_line, restore_string-old_style}
use lpc.Restoring.Loops.{
  zero_value, order_values, order_entries, allocate_array, restore_items, restore_entries,
}
use lpc.Restoring.Cases.{
  restore_number, sized, sized_vector, sized_list, sized_mapping, restore_bracket,
  low_restore_svalue,
}
use lpc.Restoring.Shapes.{IsEnd, FitsString}

bracketed-append :
    (n a : ℕ) (inner : Bytes) (b : ℕ) (t : Bytes)
    → bracketed n a inner b ++ t ≡ 40 ∷ (decimal n ++ (a ∷ (inner ++ (b ∷ (41 ∷ t)))))
bracketed-append n a inner b t = ap (◌∷◌ 40) (
    append_assoc (decimal n) (a ∷ (inner ++ (b ∷ (41 ∷ [])))) t
    ∙ ap (λ s. decimal n ++ (a ∷ s)) (append_assoc inner (b ∷ (41 ∷ [])) t))

-- A byte that closes a vector.
pub record Closes (c : ℕ) : Type 0 where
  pub end : (t : Bytes) → IsEnd (c ∷ t)
  pub no_comma : (c == 44) ≡ false

pub brace-Closes : Closes 125
brace-Closes = record { end = λ t. record { no_digit = refl; no_h = refl }; no_comma = refl }

pub angle-Closes : Closes 62
angle-Closes = record { end = λ t. record { no_digit = refl; no_h = refl }; no_comma = refl }

pub square-Closes : Closes 93
square-Closes = record { end = λ t. record { no_digit = refl; no_h = refl }; no_comma = refl }

pub restore_number-print_int :
    (n : ℤ) (t : Bytes)
    → IsInt n
    → IsEnd t
    → restore_number (print_int n ++ t) ≡ done (number 0 n) t
unfolding restore_number
restore_number-print_int n t h e = rw (strtol-print_int n t h e.no_digit, e.no_h) refl

restore_number-save_string :
    (s t : Bytes)
    → length s < 2 ^ 31
    → restore_number (save_string save_default s ++ t) ≡ done (string s) t
unfolding restore_number save_string
restore_number-save_string s t h =
    let rest : Bytes = 72 ∷ (s ++ t) in
    let fits : ltb (length (s ++ t)) (length s) ≡ false = ground (arith, length-append s t) in
    rw
      (
        append_assoc (decimal (length s)) (72 ∷ s) t,
        strtol-decimal (length s) rest h refl,
        fits,
        take-append s t (length s) refl,
        drop-append s t (length s) refl,
      )
      refl

module _ (as_svalue : Value → Svalue) (batch_mode : Bool) where
  pub by_number :
      (fuel : ℕ) (inside : Bool) (s : Bytes)
      → (peek s == 45) || is_digit (peek s) ≡ true
      → low_restore_svalue as_svalue batch_mode (suc fuel) inside s ≡ restore_number s
  unfolding low_restore_svalue
  by_number fuel inside s h =
      let no_hash : (peek s == 35) ≡ false = ground arith in rw (no_hash, h) refl

  pub peek-print_int :
      (n : ℤ) (t : Bytes)
      → (peek (print_int n ++ t) == 45) || is_digit (peek (print_int n ++ t)) ≡ true
  unfolding print_int
  peek-print_int (pos n) t = ground (arith, peek-decimal n t)
  peek-print_int (negsuc n) t = refl

  by_quotes :
      (fuel : ℕ) (inside : Bool) (s t u : Bytes)
      → restore_string (34 ∷ u) ≡ some (s, t)
      → low_restore_svalue as_svalue batch_mode (suc fuel) inside (34 ∷ u) ≡ done (string s) t
  unfolding low_restore_svalue
  by_quotes fuel inside s t u h = rw h refl

  pub restore-string :
      (style : Style) (fuel : ℕ) (inside : Bool) (s t : Bytes)
      → FitsString style s
      → low_restore_svalue as_svalue batch_mode (suc fuel) inside (save_string style s ++ t)
        ≡ done (string s) t
  unfolding save_string
  restore-string save_default fuel inside s t h =
      by_number fuel inside _ (
        let assoc = append_assoc (decimal (length s)) (72 ∷ s) t in
        ground (arith, assoc, peek-decimal (length s) (72 ∷ s ++ t)))
      ∙ restore_number-save_string s t h
  restore-string save_as_one_line fuel inside s t h =
      by_quotes fuel inside s t _ (restore_string-one_line s t h)
  restore-string save_old_style fuel inside s t h =
      by_quotes fuel inside s t _ (restore_string-old_style s t h)

  -- The reader of the items of a vector.
  module _ (f : Bytes → Restored Value) where
    bracket_sized :
        (n a : ℕ) (u : Bytes)
        → restore_bracket as_svalue batch_mode f (decimal n ++ (a ∷ u))
          ≡ sized as_svalue batch_mode f (decimal n ++ (a ∷ u))
    unfolding restore_bracket
    bracket_sized n a u = rw (peek-decimal n (a ∷ u)) refl

    allocate : (n : ℕ) → n ≤ max_array_size → allocate_array batch_mode (pos n) ≡ done n []
    unfolding allocate_array
    allocate n h = elim (Bool-cases batch_mode) [ inl e ↦ rw e refl | inr e ↦ rw e (ground arith) ]

    pub restore_vector :
        (n : ℕ) (u : Bytes) (vs : Values) (t : Bytes)
        → n ≤ max_array_size
        → restore_items f n u ≡ done vs (125 ∷ (41 ∷ t))
        → restore_bracket as_svalue batch_mode f (decimal n ++ (123 ∷ u)) ≡ done (vector vs) t
    unfolding sized sized_vector
    restore_vector n u vs t h e =
        bracket_sized n 123 u
        ∙ rw (strtol-decimal n (123 ∷ u) (omega arith) refl, allocate n h, e) refl

    pub restore_list :
        (n : ℕ) (u : Bytes) (vs : Values) (t : Bytes)
        → n ≤ max_array_size
        → restore_items f n u ≡ done vs (62 ∷ (41 ∷ t))
        → restore_bracket as_svalue batch_mode f (decimal n ++ (60 ∷ u))
          ≡ done (list (order_values as_svalue vs)) t
    unfolding sized sized_list
    restore_list n u vs t h e =
        bracket_sized n 60 u
        ∙ rw (strtol-decimal n (60 ∷ u) (omega arith) refl, allocate n h, e) refl

    pub restore_mapping :
        (n : ℕ) (u : Bytes) (es : Entries) (t : Bytes)
        → n ≤ max_array_size
        → restore_entries f n u ≡ done es (93 ∷ (41 ∷ t))
        → restore_bracket as_svalue batch_mode f (decimal n ++ (91 ∷ u))
          ≡ done (mapping (order_entries as_svalue es) zero_value) t
    unfolding sized sized_mapping
    restore_mapping n u es t h e =
        bracket_sized n 91 u
        ∙ rw (strtol-decimal n (91 ∷ u) (omega arith) refl, allocate n h, e) refl

  pub by_bracket :
      (fuel : ℕ) (inside : Bool) (n a : ℕ) (inner : Bytes) (b : ℕ) (t : Bytes)
      → low_restore_svalue as_svalue batch_mode (suc fuel) inside (bracketed n a inner b ++ t)
        ≡ restore_bracket as_svalue batch_mode
            (low_restore_svalue as_svalue batch_mode fuel true)
            (decimal n ++ (a ∷ (inner ++ (b ∷ (41 ∷ t)))))
  unfolding low_restore_svalue
  by_bracket fuel inside n a inner b t = rw (bracketed-append n a inner b t) refl
