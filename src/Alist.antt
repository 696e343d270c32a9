-- ===== src/Alist.antt =====
-- Association lists of src/array.c: a vector whose parts of type T_ALIST_PART are parallel vectors,
-- the first of them the keys in the order of `alist_cmp`. A list has that part alone, a mapping a
-- part of values and a default value too. A part is the list of its live items.
pub mod Sorted
pub mod Search
pub mod Places
pub mod Update
pub mod Lookup
use lpc.Base.{
  ℕ, zero, suc, ◌+◌, ◌/◌, ◌<◌, Bool, true, false, not, ◌&&◌, ◌||◌, Option, none, some, List, [],
  ◌∷◌, ◌++◌, ℤ, pos, negsuc, negative, positive, ltb, ◌==◌, if◌then◌else◌, length, get_or, set,
  take, drop,
}
use mathlib.Core.Option
use lpc.Value.{Svalue, alist_cmp, nonzero, is_zero, zero_svalue, undefined_svalue}
use lpc.Growth.{array_fits}
use lpc.Arrays.{copied}

pub data Item : Type 0 where
  -- an item of type T_ALIST_PART
  part : List Svalue → Item
  plain : Svalue → Item

abbrev pub Alist : Type 0
Alist = List Item

-- `keylist->item[c]`
abbrev pub item : List Svalue → ℕ → Svalue
item l c = get_or l c zero_svalue

-- How a binary search ends: at an equal key, or with `a == b`.
pub data Probe : Type 0 where
  found : ℕ → Probe
  gap : ℕ → Probe

-- The loop of `search_alist` and `assoc`: the distance from `a` to `b` falls in each round.
unfoldable pub probe : ℕ → Svalue → List Svalue → ℕ → ℕ → Probe
probe zero key l a b = gap a
probe (suc fuel) key l a b =
    let c = (a + b) / 2 in
    let d = alist_cmp key (item l c) in
    elim (ltb a b) [
      | false ↦ gap a
      | true ↦ elim (negative d) [
        | true ↦ probe fuel key l a c
        | false ↦ elim (positive d) [ true ↦ probe fuel key l (c + 1) b | false ↦ found c ]
      ]
    ]

-- the step to the right after the loop of `search_alist`
unfoldable pub settle : Svalue → List Svalue → Probe → ℕ
settle key l (found c) = c
settle key l (gap a) = if ltb a (length l) && positive (alist_cmp key (item l a)) then a + 1 else a

unfoldable pub search_alist : Svalue → List Svalue → ℕ
search_alist key l = settle key l (probe (length l) key l 0 (length l))

abbrev pub index_of : Probe → ℤ
index_of (found c) = pos c
index_of (gap a) = negsuc 0

unfoldable pub assoc : Svalue → List Svalue → ℤ
assoc key l = index_of (probe (length l) key l 0 (length l))

-- `m->item[i].u.vec`
abbrev pub part_at : Alist → ℕ → List Svalue
part_at m i = elim (get_or m i (plain zero_svalue)) [ part l ↦ l | plain v ↦ [] ]

-- a value in the place `n`, the later ones shifted
unfoldable pub insert_at {ℓ} : {A : Type ℓ} → ℕ → A → List A → List A
insert_at zero x l = x ∷ l
insert_at (suc n) x [] = x ∷ []
insert_at (suc n) x (y ∷ l) = y ∷ insert_at n x l

-- the value in the place `n` gone, the later ones shifted
unfoldable pub remove_at {ℓ} : {A : Type ℓ} → ℕ → List A → List A
remove_at n [] = []
remove_at zero (y ∷ l) = l
remove_at (suc n) (y ∷ l) = y ∷ remove_at n l

module _ (destructed : ℤ → Bool) (batch_mode : Bool) where
  -- `insert_array` on the live items: outside batch mode a vector has room for 5000 at most, and one
  -- that has them all is the error about the size of an array, `none`. A destructed object is stored
  -- as a zero.
  unfoldable pub insert_item : ℕ → Svalue → List Svalue → Option (List Svalue)
  unfolding copied insert_at
  insert_item n s v =
      if array_fits batch_mode (length v + 1)
      then some (insert_at n (copied destructed s) v)
      else none

  -- One round of the loop of `insert_alist`. Without an insertion the keys stay, and `sv` is assigned
  -- in the other parts.
  unfoldable pub place_item : Bool → Bool → ℕ → Svalue → Item → Option Item
  unfolding insert_item
  place_item insert first ix sv (part l) =
      if insert
      then Option.map part (insert_item ix sv l)
      else some (part (if first then l else set l ix (copied destructed sv)))
  place_item insert first ix sv (plain v) = some (plain v)

  unfoldable pub place_items : Bool → ℕ → List Svalue → Alist → Option Alist
  unfolding place_item
  place_items insert ix key_data [] = some []
  place_items insert ix key_data (x ∷ m) =
      let rest = place_items insert ix (drop 1 key_data) m in
      elim (place_item insert false ix (get_or key_data 0 zero_svalue) x) [
        | none ↦ none
        | some y ↦ Option.map (λ r. y ∷ r) rest
      ]

  -- `key_data` holds the values for the items after the first.
  unfoldable pub insert_alist : Svalue → List Svalue → Alist → Option Alist
  unfolding place_item place_items
  insert_alist key key_data [] = some []
  insert_alist key key_data (x ∷ m) =
      let keys = part_at (x ∷ m) 0 in
      let ix = search_alist key keys in
      let insert = ix == length keys || nonzero (alist_cmp key (item keys ix)) in
      elim (place_item insert true ix key x) [
        | none ↦ none
        | some y ↦ Option.map (λ r. y ∷ r) (place_items insert ix key_data m)
      ]

  -- `mapping[key] = s`
  unfoldable pub assign_mapping : Alist → Svalue → Svalue → Option Alist
  unfolding insert_alist
  assign_mapping m key s = insert_alist key (s ∷ []) m

unfoldable pub donk_alist_item : Alist → ℕ → Alist
unfolding remove_at
donk_alist_item [] i = []
donk_alist_item (part l ∷ m) i = part (remove_at i l) ∷ donk_alist_item m i
donk_alist_item (plain v ∷ m) i = plain v ∷ donk_alist_item m i

-- `allocate_list`, and `allocate_mapping` with its default
abbrev pub allocate_list : List Svalue → Alist
allocate_list v = part v ∷ []

abbrev pub mapping : List Svalue → List Svalue → Svalue → Alist
mapping v w d = part v ∷ part w ∷ plain d ∷ []

abbrev pub allocate_mapping : List Svalue → List Svalue → Alist
allocate_mapping v w = mapping v w undefined_svalue

-- `m->item + 2`
abbrev pub map_get_default : Alist → Svalue
map_get_default m = elim (get_or m 2 (plain zero_svalue)) [ part l ↦ zero_svalue | plain v ↦ v ]

unfoldable pub remove_mapping2 : Alist → Svalue → Alist
remove_mapping2 m s = elim (assoc s (part_at m 0)) [ pos i ↦ donk_alist_item m i | negsuc _ ↦ m ]

-- A mapping on the right of an expression: the value of the key, or the default; a destructed object
-- is read as a zero.
unfoldable pub index_mapping : (ℤ → Bool) → Alist → Svalue → Svalue
unfolding copied
index_mapping destructed m key = elim (assoc key (part_at m 0)) [
  | pos i ↦
      let s = copied destructed (item (part_at m 1) i) in
      if is_zero s && s.subtype == 1 then record s { subtype = 0 } else s
  | negsuc _ ↦ copied destructed (map_get_default m)
]
