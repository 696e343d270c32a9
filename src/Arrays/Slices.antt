-- ===== src/Arrays/Slices.antt =====
-- `slice_array` of src/array.c by the indices of its items.
use lpc.Base.{
  ℕ, zero, suc, ◌+◌, ◌-◌, ◌≡◌, refl, Bool, true, none, List, [], ◌∷◌, ℤ, pos, pos_part, ltb_ℤ, ltb,
  leb, if◌then◌else◌, length, get_elem?, take, drop, arith, map,
}
use mathlib.Core.Option
use lpc.Value.{Svalue}
use lpc.Arrays.{clipped, slice_items, slice_array, copied}

get_elem?-take :
    {A : Type 0} (n : ℕ) (l : List A) (i : ℕ)
    → get_elem? (take n l) i ≡ (if ltb i n then get_elem? l i else none)
get_elem?-take zero l i = ground arith
get_elem?-take (suc n) [] i = ground arith
get_elem?-take (suc n) (x ∷ l) zero = ground arith
get_elem?-take (suc n) (x ∷ l) (suc i) = ground (arith, get_elem?-take n l i)

get_elem?-drop :
    {A : Type 0} (n : ℕ) (l : List A) (i : ℕ) → get_elem? (drop n l) i ≡ get_elem? l (n + i)
get_elem?-drop zero l i = ground arith
get_elem?-drop (suc n) [] i = ground arith
get_elem?-drop (suc n) (x ∷ l) i =
    let e : suc n + i ≡ suc (n + i) = omega arith in rw e (get_elem?-drop n l i)

outside_none : {A : Type 0} (l : List A) (i : ℕ) → leb (length l) i ≡ true → get_elem? l i ≡ none
outside_none [] i h = refl
outside_none (x ∷ l) zero h = ground arith
outside_none (x ∷ l) (suc i) h = outside_none l i (ground arith)

get_elem?-slice_items :
    {A : Type 0} (p : List A) (from to : ℤ) (i : ℕ)
    → get_elem? (slice_items p from to) i
      ≡ (if ltb_ℤ to (pos (pos_part from + i)) then none else get_elem? p (pos_part from + i))
unfolding slice_items
get_elem?-slice_items p from to i =
    let f = pos_part from in
    let k = pos_part (clipped (length p) to) - f + 1 in
    ground (arith, get_elem?-take k (drop f p) i, get_elem?-drop f p i, outside_none p (f + i))

pub get_elem?-map :
    (f : Svalue → Svalue) (l : List Svalue) (i : ℕ)
    → get_elem? (map f l) i ≡ Option.map f (get_elem? l i)
get_elem?-map f [] i = refl
get_elem?-map f (x ∷ l) zero = refl
get_elem?-map f (x ∷ l) (suc i) = get_elem?-map f l i

-- The items of a slice are the copies of those from `from`, or the first one, to `to` inclusive, as
-- far as the array has them.
pub slice_array-get_elem? :
    (destructed : ℤ → Bool) (p : List Svalue) (from to : ℤ) (i : ℕ)
    → get_elem? (slice_array destructed p from to) i ≡ (
        if ltb_ℤ to (pos (pos_part from + i))
        then none
        else Option.map (copied destructed) (get_elem? p (pos_part from + i)))
unfolding slice_array
slice_array-get_elem? destructed p from to i =
    rw
      (
        get_elem?-map (copied destructed) (slice_items p from to) i,
        get_elem?-slice_items p from to i,
      )
      (ground arith)
