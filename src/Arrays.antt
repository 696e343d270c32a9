-- ===== src/Arrays.antt =====
-- Arrays of src/array.c: slices, replacement and the removal of destructed objects. `types` is the set
-- of the types that may occur in a vector.
pub mod Slices
pub mod Destructed
use lpc.Base.{
  ℕ, zero, suc, ◌+◌, ◌-◌, Bool, true, false, not, ◌&&◌, ◌||◌, Option, none, some, List, [], ◌∷◌,
  map, ℤ, pos, negsuc, pos_part, eqb_ℤ, ltb_ℤ, ◌-ℤ◌, negative, leb, ◌==◌, if◌then◌else◌, length,
  get_or, take, drop,
}
use lpc.Value.{Svalue, zero_svalue, is_zero, t_number, t_object, t_function, t_string}

pub record Vector : Type 0 where
  pub item : List Svalue
  pub types : ℕ → Bool

-- `to >= p->size ? p->size-1 : to`
abbrev pub clipped : ℕ → ℤ → ℤ
clipped size to = if ltb_ℤ to (pos size) then to else pos size -ℤ pos 1

unfoldable pub slice_items {ℓ} : {A : Type ℓ} → List A → ℤ → ℤ → List A
slice_items p from to =
    let f = pos_part from in
    let t = clipped (length p) to in
    if leb (length p) f
    then []
    else if ltb_ℤ t (pos f)
    then []
    else take (pos_part t - f + 1) (drop f p)

-- `is_eq` of src/operators.c, for the types that a program can hold
unfoldable pub is_eq : Svalue → Svalue → Bool
is_eq a b =
    a.type == b.type
    && (if a.type == t_function then a.subtype == b.subtype && eqb_ℤ a.u b.u else eqb_ℤ a.u b.u)

-- `IS_TYPE(x, BT_OBJECT | BT_FUNCTION)`
abbrev pub is_object : Svalue → Bool
is_object x = x.type == t_object || x.type == t_function

-- `types|=1<<v->item[e].type`, over the items
unfoldable pub types_of : List Svalue → ℕ → Bool
types_of [] t = false
types_of (x ∷ l) t = x.type == t || types_of l t

-- Which addresses are those of destructed objects.
module _ (destructed : ℤ → Bool) where
  abbrev pub is_destructed : Svalue → Bool
  is_destructed x = is_object x && destructed x.u

  -- `assign_svalue_no_free`: a copy of a destructed object is a zero.
  unfoldable pub copied : Svalue → Svalue
  copied x =
      if is_destructed x
      then record zero_svalue { subtype = if x.type == t_function then 3 else 2 }
      else x

  unfoldable pub slice_array : List Svalue → ℤ → ℤ → List Svalue
  unfolding slice_items
  slice_array p from to = map copied (slice_items p from to)

  -- What the loop makes of an item: `free_svalue` sets the type of an object alone, and `tmp` is
  -- T_OBJECT always.
  unfoldable pub freed : Svalue → Svalue
  freed x = if is_destructed x then record x { type = t_number; subtype = 2 } else x

  unfoldable pub check_vector_for_destruct : Vector → Vector
  unfolding freed types_of
  check_vector_for_destruct v =
      let l = map freed v.item in
      if v.types t_object || v.types t_function then record { item = l; types = types_of l } else v

  unfoldable pub replace_items : Svalue → Svalue → List Svalue → List Svalue
  unfolding is_eq copied
  replace_items what to [] = []
  replace_items what to (x ∷ l) = (if is_eq what x then copied to else x) ∷ replace_items what to l

  unfoldable pub array_replace : Vector → Svalue → Svalue → List Svalue
  unfolding check_vector_for_destruct replace_items
  array_replace from what to = replace_items what to (check_vector_for_destruct from).item
