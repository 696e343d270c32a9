-- ===== src/Making.antt =====
-- Lists and mappings made of arrays: `order_alist` and `subtract_array` of src/array.c, `mklist` of
-- src/list.c, `f_m_aggregate` and `f_mkmapping` of src/mapping_efuns.c. The parts of an alist are as
-- long as its first one.
pub mod Orders
pub mod Distinct
pub mod Results
pub mod Subtract
use lpc.Base.{
  ℕ, zero, suc, ◌+◌, ◌-◌, ◌%◌, ◌/◌, ◌==◌, Bool, not, Option, none, some, List, [], ◌∷◌, map, ℤ, pos,
  negative, if◌then◌else◌, length, get_or, ◌-ℤ◌, min,
}
use lpc.Value.{Svalue, alist_cmp, zero_svalue}
use lpc.Growth.{array_fits}
use lpc.Alist.{Alist, Item, part, plain, item, part_at, assoc, allocate_list, allocate_mapping}
use lpc.Arrays.{Vector, slice_array, check_vector_for_destruct}
use lpc.Fsort.{fsort}

-- `for(e=0;e<globber->size;e++) tmp[e]=e;`, from `e` on
unfoldable pub indices : ℕ → ℕ → List ℕ
indices zero e = []
indices (suc n) e = e ∷ indices n (e + 1)

unfoldable pub new_alist_cmp : List Svalue → ℕ → ℕ → ℤ
new_alist_cmp globber a b = alist_cmp (item globber a) (item globber b)

-- The round of the last loop over `inlist`.
unfoldable pub order_item : List ℕ → Item → Item
order_item tmp (part l) = part (map (item l) tmp)
order_item tmp (plain v) = plain v

unfoldable pub order_alist : Alist → Alist
unfolding new_alist_cmp order_item indices
order_alist inlist =
    let globber = part_at inlist 0 in
    let tmp = fsort 0 (new_alist_cmp globber) (indices (length globber) 0) in
    if length globber == 0 then inlist else map (order_item tmp) inlist

-- The items of the arguments at even places, and at odd ones.
unfoldable pub evens : List Svalue → List Svalue
evens [] = []
evens (x ∷ []) = []
evens (x ∷ (y ∷ l)) = x ∷ evens l

unfoldable pub odds : List Svalue → List Svalue
odds [] = []
odds (x ∷ []) = []
odds (x ∷ (y ∷ l)) = y ∷ odds l

-- `none` is the error about an odd number of arguments, or the one about the size of an array.
unfoldable pub f_m_aggregate : Bool → List Svalue → Option Alist
unfolding order_alist evens odds
f_m_aggregate batch_mode argp =
    if not (length argp % 2 == 0)
    then none
    else if array_fits batch_mode (length argp / 2)
    then some (order_alist (allocate_mapping (evens argp) (odds argp)))
    else none

-- the loop of `subtract_array`
unfoldable pub difference : List Svalue → List Svalue → List Svalue
unfolding assoc
difference [] subtrahend = []
difference (source ∷ l) subtrahend =
    let rest = difference l subtrahend in
    if negative (assoc source subtrahend) then source ∷ rest else rest

module _ (destructed : ℤ → Bool) where
  unfoldable pub mklist : List Svalue → Alist
  unfolding slice_array order_alist
  mklist v = order_alist (allocate_list (slice_array destructed v (pos 0) (pos (length v))))

  unfoldable pub f_mkmapping : List Svalue → List Svalue → Alist
  unfolding slice_array order_alist
  f_mkmapping a b =
      let i = min (length a) (length b) in
      let last = pos i -ℤ pos 1 in
      order_alist (
        allocate_mapping (slice_array destructed a (pos 0) last)
          (slice_array destructed b (pos 0) last))

  -- `ref` is the number of references to the subtrahend, which is sorted in place when it is 1.
  unfoldable pub subtract_array : Vector → List Svalue → ℕ → List Svalue
  unfolding slice_array order_alist check_vector_for_destruct
  subtract_array minuend subtrahend ref =
      let v =
        if ref == 1
        then subtrahend
        else slice_array destructed subtrahend (pos 0) (pos (length subtrahend)) in
      let vtmp = order_alist (allocate_list v) in
      difference (check_vector_for_destruct destructed minuend).item (part_at vtmp 0)
