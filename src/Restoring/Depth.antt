-- ===== src/Restoring/Depth.antt =====
-- How deep the vectors of a value stand in each other, and the text of src/save_objectII.c.
use lpc.Base.{ℕ, suc, ◌≤◌, [], ◌∷◌, ◌++◌, length, length-append, arith}
use lpc.Text.{Bytes}
use lpc.Saving.{
  Value, number, string, vector, list, mapping, Values, none_left, also, Entries, no_entry, entry,
  size, entries, decimal, Style, bracketed, low_save_svalue, save_svalue_list, save_rest,
  save_mapping, save_mapping_rest,
}
use lpc.Restoring.Shapes.{depth, depth_all, depth_entries}

length-bracketed :
    (n a : ℕ) (inner : Bytes) (b : ℕ) → suc (length inner) ≤ length (bracketed n a inner b)
length-bracketed n a inner b = omega (
  arith,
  length-append (40 ∷ decimal n) (a ∷ (inner ++ (b ∷ (41 ∷ [])))),
  length-append inner (b ∷ (41 ∷ [])),
)

module _ (style : Style) where
  mutual
    unfolding low_save_svalue depth

    pub depth-low_save : (v : Value) → depth v ≤ length (low_save_svalue style v)
    depth-low_save (number k n) = omega arith
    depth-low_save (string s) = omega arith
    depth-low_save (vector vs) =
        omega (arith, length-bracketed (size vs) 123 (save_svalue_list style vs) 125, depth-list vs)
    depth-low_save (list vs) =
        omega (arith, length-bracketed (size vs) 60 (save_svalue_list style vs) 62, depth-list vs)
    depth-low_save (mapping es q) =
        omega (arith, length-bracketed (entries es) 91 (save_mapping style es) 93, depth-mapping es)

    depth-list : (vs : Values) → depth_all vs ≤ length (save_svalue_list style vs)
    depth-list none_left = omega arith
    depth-list (also v vs) = omega (
      arith,
      length-append (low_save_svalue style v) (save_rest style vs),
      depth-low_save v,
      depth-rest vs,
    )

    depth-rest : (vs : Values) → depth_all vs ≤ length (save_rest style vs)
    depth-rest none_left = omega arith
    depth-rest (also v vs) = omega (
      arith,
      length-append (low_save_svalue style v) (save_rest style vs),
      depth-low_save v,
      depth-rest vs,
    )

    depth-mapping : (es : Entries) → depth_entries es ≤ length (save_mapping style es)
    depth-mapping no_entry = omega arith
    depth-mapping (entry k v es) = omega (
      arith,
      length-append (low_save_svalue style k)
          (58 ∷ (low_save_svalue style v ++ save_mapping_rest style es)),
      length-append (low_save_svalue style v) (save_mapping_rest style es),
      depth-low_save k,
      depth-low_save v,
      depth-mapping_rest es,
    )

    depth-mapping_rest : (es : Entries) → depth_entries es ≤ length (save_mapping_rest style es)
    depth-mapping_rest no_entry = omega arith
    depth-mapping_rest (entry k v es) = omega (
      arith,
      length-append (low_save_svalue style k)
          (58 ∷ (low_save_svalue style v ++ save_mapping_rest style es)),
      length-append (low_save_svalue style v) (save_mapping_rest style es),
      depth-low_save k,
      depth-low_save v,
      depth-mapping_rest es,
    )
