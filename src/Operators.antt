-- ===== src/Operators.antt =====
-- Comparison in src/operators.c, and `my_strcmp` of src/stralloc.c. `text` gives the bytes of a shared
-- string by its address, and `vec` the items of a vector.
pub mod Strcmp
pub mod Compare
pub mod Deep
use lpc.Base.{
  ℕ, zero, suc, ◌+◌, Bool, true, false, not, ◌&&◌, ◌||◌, Option, none, some, List, [], ◌∷◌, ℤ, pos,
  negsuc, eqb_ℤ, ltb_ℤ, negative, positive, ltb, ◌==◌, if◌then◌else◌, length,
}
use mathlib.Core.Option
use lpc.Value.{
  Svalue, nonzero, t_pointer, t_mapping, t_list, t_alist_part, t_number, t_string, t_float,
}
use lpc.Arrays.{is_eq}

-- `memcmp` over the first `n` bytes, of which the C standard says the sign alone.
unfoldable pub memcmp : ℕ → List ℕ → List ℕ → ℤ
memcmp zero a b = pos 0
memcmp (suc n) (x ∷ a) (y ∷ b) =
    let r = memcmp n a b in if ltb x y then negsuc 0 else if ltb y x then pos 1 else r
memcmp (suc n) _ _ = pos 0

abbrev pub or_else : ℤ → ℤ → ℤ
or_else tmp d = if nonzero tmp then tmp else d

-- `same` is the comparison of the pointers.
unfoldable pub my_strcmp : Bool → List ℕ → List ℕ → ℤ
unfolding memcmp
my_strcmp same a b =
    if same
    then pos 0
    else if ltb (length b) (length a)
    then or_else (memcmp (length b) a b) (pos 1)
    else if ltb (length a) (length b)
    then or_else (memcmp (length a) a b) (negsuc 0)
    else memcmp (length a) a b

module _ (text : ℤ → List ℕ) where
  abbrev pub strcmp : Svalue → Svalue → ℤ
  strcmp a b = my_strcmp (eqb_ℤ a.u b.u) (text a.u) (text b.u)

  -- An error is `none`.
  unfoldable pub is_gt : Svalue → Svalue → Option Bool
  is_gt a b =
      if not (a.type == b.type)
      then none
      else if a.type == t_number || a.type == t_float
      then some (ltb_ℤ b.u a.u)
      else if a.type == t_string
      then some (positive (strcmp a b))
      else none

  unfoldable pub is_lt : Svalue → Svalue → Option Bool
  is_lt a b =
      if not (a.type == b.type)
      then none
      else if a.type == t_number || a.type == t_float
      then some (ltb_ℤ a.u b.u)
      else if a.type == t_string
      then some (negative (strcmp a b))
      else none

-- `push_number`
abbrev pub number : Bool → Svalue
number b = record { type = t_number; subtype = 0; u = if b then pos 1 else pos 0 }

-- An operator on the two values at the top of the stack, the last argument first.
unfoldable pub on_stack : (Svalue → Svalue → Option Bool) → List Svalue → Option (List Svalue)
on_stack test (b ∷ a ∷ sp) = Option.map (λ r. number r ∷ sp) (test a b)
on_stack test _ = none

unfoldable pub f_eq : List Svalue → Option (List Svalue)
unfolding on_stack is_eq
f_eq sp = on_stack (λ a b. some (is_eq a b)) sp

unfoldable pub f_ne : List Svalue → Option (List Svalue)
unfolding on_stack is_eq
f_ne sp = on_stack (λ a b. some (not (is_eq a b))) sp

unfoldable pub f_lt : (ℤ → List ℕ) → List Svalue → Option (List Svalue)
unfolding on_stack is_lt
f_lt text sp = on_stack (is_lt text) sp

unfoldable pub f_gt : (ℤ → List ℕ) → List Svalue → Option (List Svalue)
unfolding on_stack is_gt
f_gt text sp = on_stack (is_gt text) sp

unfoldable pub f_ge : (ℤ → List ℕ) → List Svalue → Option (List Svalue)
unfolding on_stack is_lt
f_ge text sp = on_stack (λ a b. Option.map not (is_lt text a b)) sp

unfoldable pub f_le : (ℤ → List ℕ) → List Svalue → Option (List Svalue)
unfolding on_stack is_gt
f_le text sp = on_stack (λ a b. Option.map not (is_gt text a b)) sp

abbrev pub is_vector : Svalue → Bool
is_vector a =
    (a.type == t_pointer || a.type == t_alist_part) || (a.type == t_mapping || a.type == t_list)

-- `for(;p;p=p->next) if(p->v==a->u.vec) return 1;`
unfoldable pub in_process : ℤ → List ℤ → Bool
in_process v [] = false
in_process v (u ∷ p) = eqb_ℤ u v || in_process v p

-- The loop over the items; `test` is the recursive call.
unfoldable pub equal_items :
    (Svalue → Svalue → Option Bool) → List Svalue → List Svalue → Option Bool
equal_items test (x ∷ a) (y ∷ b) = elim (test x y) [
  | none ↦ none
  | some r ↦ elim r [ false ↦ some false | true ↦ equal_items test a b ]
]
equal_items test _ _ = some true

-- `low_is_equal`: the items are compared by `is_equal`, which starts with no vector in process. With
-- too little fuel, and for a call that does not end, `none`.
unfoldable pub low_is_equal : (ℤ → List Svalue) → ℕ → Svalue → Svalue → List ℤ → Option Bool
unfolding equal_items in_process is_eq
low_is_equal vec zero a b p = none
low_is_equal vec (suc fuel) a b p = elim (not (a.type == b.type)) [
  | true ↦ some false
  | false ↦ elim (is_eq a b) [
    | true ↦ some true
    | false ↦ elim (is_vector a) [
      | false ↦ some false
      | true ↦ elim (length (vec a.u) == length (vec b.u)) [
        | false ↦ some false
        | true ↦ elim (in_process a.u p) [
          | true ↦ some true
          | false ↦ equal_items (λ x y. low_is_equal vec fuel x y []) (vec a.u) (vec b.u)
        ]
      ]
    ]
  ]
]

abbrev pub is_equal : (ℤ → List Svalue) → ℕ → Svalue → Svalue → Option Bool
is_equal vec fuel a b = low_is_equal vec fuel a b []
