-- ===== src/Restoring/RoundTrip.antt =====
-- Values that src/save_objectII.c writes and reads back.
use lpc.Base.{
  ℕ, zero, suc, ◌<◌, ◌≡◌, refl, ap, ◌∙◌, Bool, true, false, ◌∷◌, ◌++◌, length-append, arith,
}
use mathlib.Core.List.{append_assoc}
use lpc.Text.{Bytes}
use lpc.Value.{Svalue}
use lpc.Saving.{
  Value, number, string, vector, list, mapping, Values, none_left, also, Entries, no_entry, entry,
  size, entries, Style, low_save_svalue, save_svalue_list, save_rest, save_mapping,
  save_mapping_rest,
}
use lpc.Restoring.{Restored, done}
use lpc.Restoring.Loops.{skip_comma, restore_items, restore_entries}
use lpc.Restoring.Cases.{low_restore_svalue, restore_svalue}
use lpc.Restoring.Shapes.{
  IsEnd, Fits, FitAll, FitEntries, arranged, arranged_all, arranged_entries, depth, depth_all,
  depth_entries,
}
use lpc.Restoring.Bracketed.{
  Closes, brace-Closes, angle-Closes, square-Closes, restore_number-print_int, peek-print_int,
  by_number, restore-string, restore_vector, restore_list, restore_mapping, by_bracket,
}
use lpc.Restoring.Depth.{depth-low_save}

-- What stands behind an item of a vector: the next items, or the end of the vector.
module _ (style : Style) where
  rest-IsEnd : (vs : Values) (c : ℕ) (t : Bytes) → Closes c → IsEnd (save_rest style vs ++ (c ∷ t))
  unfolding low_save_svalue
  rest-IsEnd none_left c t h = h.end t
  rest-IsEnd (also v vs) c t h = record { no_digit = refl; no_h = refl }

  skip_rest :
      (vs : Values) (c : ℕ) (t : Bytes)
      → Closes c
      → skip_comma (save_rest style vs ++ (c ∷ t)) ≡ save_svalue_list style vs ++ (c ∷ t)
  unfolding low_save_svalue
  skip_rest none_left c t h = rw (h.no_comma) refl
  skip_rest (also v vs) c t h = refl

  mapping_rest-IsEnd :
      (es : Entries) (c : ℕ) (t : Bytes) → Closes c → IsEnd (save_mapping_rest style es ++ (c ∷ t))
  unfolding low_save_svalue
  mapping_rest-IsEnd no_entry c t h = h.end t
  mapping_rest-IsEnd (entry k v es) c t h = record { no_digit = refl; no_h = refl }

  skip_mapping_rest :
      (es : Entries) (c : ℕ) (t : Bytes)
      → Closes c
      → skip_comma (save_mapping_rest style es ++ (c ∷ t)) ≡ save_mapping style es ++ (c ∷ t)
  unfolding low_save_svalue
  skip_mapping_rest no_entry c t h = rw (h.no_comma) refl
  skip_mapping_rest (entry k v es) c t h = refl

-- A round of the loops over the items of a vector.
module _ (f : Bytes → Restored Value) where
  items_round :
      (n : ℕ) (v : Value) (vs : Values) (s u w : Bytes)
      → f s ≡ done v u
      → restore_items f n (skip_comma u) ≡ done vs w
      → restore_items f (suc n) s ≡ done (also v vs) w
  unfolding restore_items
  items_round n v vs s u w e e' = rw (e, e') refl

  entries_round :
      (n : ℕ) (k v : Value) (es : Entries) (s u w z : Bytes)
      → f s ≡ done k (58 ∷ u)
      → f u ≡ done v w
      → restore_entries f n (skip_comma w) ≡ done es z
      → restore_entries f (suc n) s ≡ done (entry k v es) z
  unfolding restore_entries
  entries_round n k v es s u w z e e' e'' = rw (e, e', e'') refl

module _ (style : Style) (as_svalue : Value → Svalue) (batch_mode : Bool) where
  abbrev reader : ℕ → Bytes → Restored Value
  reader fuel = low_restore_svalue as_svalue batch_mode fuel true

  mutual
    unfolding low_save_svalue arranged depth restore_items restore_entries

    low_restore-low_save :
        (v : Value) (fuel : ℕ) (inside : Bool) (t : Bytes)
        → Fits style v
        → IsEnd t
        → depth v < fuel
        → low_restore_svalue as_svalue batch_mode fuel inside (low_save_svalue style v ++ t)
          ≡ done (arranged as_svalue v) t
    low_restore-low_save v zero inside t h e d = absurd (omega arith)
    low_restore-low_save (number k n) (suc fuel) inside t h e d =
        by_number as_svalue batch_mode fuel inside _ (peek-print_int as_svalue batch_mode n t)
        ∙ restore_number-print_int n t h e
    low_restore-low_save (string s) (suc fuel) inside t h e d =
        restore-string as_svalue batch_mode style fuel inside s t h
    low_restore-low_save (vector vs) (suc fuel) inside t h e d =
        by_bracket as_svalue batch_mode fuel inside (size vs) 123 (save_svalue_list style vs) 125 t
        ∙ restore_vector as_svalue batch_mode (reader fuel) (size vs) _ (arranged_all as_svalue vs)
            t h.0 (items-save vs fuel 125 (41 ∷ t) brace-Closes h.1 (omega arith))
    low_restore-low_save (list vs) (suc fuel) inside t h e d =
        by_bracket as_svalue batch_mode fuel inside (size vs) 60 (save_svalue_list style vs) 62 t
        ∙ restore_list as_svalue batch_mode (reader fuel) (size vs) _ (arranged_all as_svalue vs) t
            h.0 (items-save vs fuel 62 (41 ∷ t) angle-Closes h.1 (omega arith))
    low_restore-low_save (mapping es q) (suc fuel) inside t h e d =
        by_bracket as_svalue batch_mode fuel inside (entries es) 91 (save_mapping style es) 93 t
        ∙ restore_mapping as_svalue batch_mode (reader fuel) (entries es) _
            (arranged_entries as_svalue es) t h.0
            (entries-save es fuel 93 (41 ∷ t) square-Closes h.1 (omega arith))

    items-save :
        (vs : Values) (fuel c : ℕ) (t : Bytes)
        → Closes c
        → FitAll style vs
        → depth_all vs < fuel
        → restore_items (reader fuel) (size vs) (save_svalue_list style vs ++ (c ∷ t))
          ≡ done (arranged_all as_svalue vs) (c ∷ t)
    items-save none_left fuel c t k h d = refl
    items-save (also v vs) fuel c t k h d =
        let f = reader fuel in
        let behind = save_rest style vs ++ (c ∷ t) in
        let head =
          low_restore-low_save v fuel true behind h.0 (rest-IsEnd style vs c t k) (omega arith) in
        let tail =
          ap (restore_items f (size vs)) (skip_rest style vs c t k)
          ∙ items-save vs fuel c t k h.1 (omega arith) in
        ap (restore_items f (suc (size vs)))
          (append_assoc (low_save_svalue style v) (save_rest style vs) (c ∷ t))
        ∙ items_round f (size vs) _ _ _ behind (c ∷ t) head tail

    entries-save :
        (es : Entries) (fuel c : ℕ) (t : Bytes)
        → Closes c
        → FitEntries style es
        → depth_entries es < fuel
        → restore_entries (reader fuel) (entries es) (save_mapping style es ++ (c ∷ t))
          ≡ done (arranged_entries as_svalue es) (c ∷ t)
    entries-save no_entry fuel c t k h d = refl
    entries-save (entry a v es) fuel c t k h d =
        let f = reader fuel in
        let behind = save_mapping_rest style es ++ (c ∷ t) in
        let value = low_save_svalue style v ++ behind in
        let key =
          low_restore-low_save a fuel true (58 ∷ value) h.0
            (record { no_digit = refl; no_h = refl }) (omega arith) in
        let beside =
          low_restore-low_save v fuel true behind h.1 (mapping_rest-IsEnd style es c t k)
            (omega arith) in
        let tail =
          ap (restore_entries f (entries es)) (skip_mapping_rest style es c t k)
          ∙ entries-save es fuel c t k h.2 (omega arith) in
        let assoc =
          append_assoc (low_save_svalue style a)
            (58 ∷ (low_save_svalue style v ++ save_mapping_rest style es)) (c ∷ t)
          ∙ ap (λ u. low_save_svalue style a ++ (58 ∷ u))
              (append_assoc (low_save_svalue style v) (save_mapping_rest style es) (c ∷ t)) in
        ap (restore_entries f (suc (entries es))) assoc
        ∙ entries_round f (entries es) _ _ _ _ value behind (c ∷ t) key beside tail

-- What `save_svalue` writes, in any of the three styles and with any text behind it that starts with
-- neither a digit nor `H`, `restore_svalue` reads back as the same value, and it stops at that text.
-- The value has numbers of 32 bits, vectors of the size that is allowed, and in quotes no zero byte;
-- it comes back with plain zeros for special ones, and lists and mappings in the order of the new
-- addresses, a mapping with zero for its default.
pub restore_svalue-low_save_svalue :
    (style : Style) (as_svalue : Value → Svalue) (batch_mode : Bool) (v : Value) (t : Bytes)
    → Fits style v
    → IsEnd t
    → restore_svalue as_svalue batch_mode (low_save_svalue style v ++ t)
      ≡ done (arranged as_svalue v) t
unfolding restore_svalue
restore_svalue-low_save_svalue style as_svalue batch_mode v t h e =
    low_restore-low_save style as_svalue batch_mode v _ false t h e
      (omega (arith, depth-low_save style v, length-append (low_save_svalue style v) t))
