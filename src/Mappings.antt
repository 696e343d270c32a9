-- ===== src/Mappings.antt =====
-- Operations on whole mappings: `subtract_mapping` of src/mapping.c, `cleanup_map` of src/list.c, and
-- `check_alist_for_destruct` of src/array.c.
pub mod Subtract
pub mod Live
pub mod Cleanup
use lpc.Base.{
  ℕ, zero, suc, ◌+◌, Bool, true, false, not, List, [], ◌∷◌, map, ltb, if◌then◌else◌, length,
  positive, ℤ, ◌||◌,
}
use lpc.Value.{Svalue, alist_cmp, nonzero, undefined_svalue, t_object, t_function}
use lpc.Alist.{
  Item, part, plain, Alist, item, part_at, donk_alist_item, mapping, allocate_mapping,
  map_get_default,
}
use lpc.Arrays.{is_destructed, freed, check_vector_for_destruct}

module _ {E : Type 0} (key : E → Svalue) where
  -- The pass that counts the entries of `a` whose key is not in `b`.
  unfoldable pub subtract_count : List E → List E → ℕ
  subtract_count [] b = 0
  subtract_count (x ∷ a) [] = length (x ∷ a)
  subtract_count (x ∷ a) (y ∷ b) =
      let d = alist_cmp (key x) (key y) in
      let ra = subtract_count a (y ∷ b) in
      let rb = subtract_count (x ∷ a) b in
      if not (nonzero d) then ra else if positive d then rb else suc ra

  -- The pass that copies them.
  unfoldable pub subtract_mapping : List E → List E → List E
  subtract_mapping [] b = []
  subtract_mapping (x ∷ a) [] = x ∷ a
  subtract_mapping (x ∷ a) (y ∷ b) =
      let d = alist_cmp (key x) (key y) in
      let ra = subtract_mapping a (y ∷ b) in
      let rb = subtract_mapping (x ∷ a) b in
      if not (nonzero d) then ra else if positive d then rb else x ∷ ra

-- The `types` of the vectors of an alist: of the list itself, and of its parts by their places. They
-- are sets of the types that may occur.
pub record AlistTypes : Type 0 where
  pub own : ℕ → Bool
  pub of_part : ℕ → ℕ → Bool

-- `types & (BT_OBJECT | BT_FUNCTION)`
abbrev pub has_objects : (ℕ → Bool) → Bool
has_objects types = types t_object || types t_function

module _ (destructed : ℤ → Bool) where
  -- the loop over the keys, whose number falls or whose index grows
  unfoldable pub donk_loop : ℕ → ℕ → Alist → Alist
  donk_loop zero e m = m
  donk_loop (suc fuel) e m = elim (ltb e (length (part_at m 0))) [
    | false ↦ m
    | true ↦ elim (is_destructed destructed (item (part_at m 0) e)) [
      | true ↦ donk_loop fuel e (donk_alist_item m e)
      | false ↦ donk_loop fuel (e + 1) m
    ]
  ]

  -- `check_vector_for_destruct` of the alist itself: a part is no object.
  unfoldable pub check_plain : Item → Item
  unfolding freed
  check_plain (part l) = part l
  check_plain (plain v) = plain (freed destructed v)

  unfoldable pub check_own : (ℕ → Bool) → Alist → Alist
  unfolding check_plain
  check_own types m = if has_objects types then map check_plain m else m

  unfoldable pub check_keys : (ℕ → Bool) → Alist → Alist
  unfolding donk_loop
  check_keys types m = if has_objects types then donk_loop (length (part_at m 0)) 0 m else m

  -- the items from the place `e` on
  unfoldable pub check_parts : (ℕ → ℕ → Bool) → ℕ → Alist → Alist
  unfolding check_vector_for_destruct
  check_parts types e [] = []
  check_parts types e (part l ∷ m) =
      part (check_vector_for_destruct destructed (record { item = l; types = types e })).item
      ∷ check_parts types (e + 1) m
  check_parts types e (plain v ∷ m) = plain v ∷ check_parts types (e + 1) m

  unfoldable pub check_rest : (ℕ → ℕ → Bool) → Alist → Alist
  unfolding check_parts
  check_rest types [] = []
  check_rest types (x ∷ m) = x ∷ check_parts types 1 m

  -- The alist after the check; the sets of types that the check stores are not kept.
  unfoldable pub check_alist_for_destruct : AlistTypes → Alist → Alist
  unfolding check_own check_keys check_rest
  check_alist_for_destruct t m = check_rest t.of_part (check_keys (t.of_part 0) (check_own t.own m))

-- the keys and the values of the entries whose value differs from the default
unfoldable pub kept_keys : Svalue → List Svalue → List Svalue → List Svalue
kept_keys def (k ∷ ks) (v ∷ vs) =
    let r = kept_keys def ks vs in if nonzero (alist_cmp def v) then k ∷ r else r
kept_keys def _ _ = []

unfoldable pub kept_values : Svalue → List Svalue → List Svalue
kept_values def [] = []
kept_values def (v ∷ vs) =
    let r = kept_values def vs in if nonzero (alist_cmp def v) then v ∷ r else r

-- `map->item[2] = s`
abbrev pub map_set_default : Alist → Svalue → Alist
map_set_default m s = mapping (part_at m 0) (part_at m 1) s

-- `cleanup_map`: the mapping as it is left, and the result. The last assignment goes from the result
-- to the mapping.
unfoldable pub cleanup_map : (ℤ → Bool) → AlistTypes → Alist → Alist × Alist
unfolding check_alist_for_destruct kept_keys kept_values
cleanup_map destructed types m =
    let c = check_alist_for_destruct destructed types m in
    let def = map_get_default c in
    let ret =
      allocate_mapping (kept_keys def (part_at c 0) (part_at c 1))
        (kept_values def (part_at c 1)) in
    (map_set_default c (map_get_default ret), ret)
