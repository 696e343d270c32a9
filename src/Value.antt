-- ===== src/Value.antt =====
-- The values of the interpreter: `struct svalue` of src/interpret.h, and the order that src/array.c
-- gives them. The union is read through its member `int number`: a pointer is its address, and a
-- float is an integer that stands in the same order (no NaN).
pub mod Order
use lpc.Base.{
  ℕ, ◌+◌, ◌-◌, ◌*◌, ◌^◌, ◌<◌, ◌≡◌, Bool, true, false, not, ◌&&◌, ◌||◌, ℤ, pos, negsuc, pos_part,
  neg_part, sub_ℕ, ◌-ℤ◌, ltb_ℤ, eqb_ℤ, IsInt, wrap_int, ◌==◌, if◌then◌else◌,
}

pub record Svalue : Type 0 where
  pub type : ℕ
  pub subtype : ℕ
  pub u : ℤ

abbrev pub t_pointer : ℕ
t_pointer = 0

abbrev pub t_object : ℕ
t_object = 1

abbrev pub t_mapping : ℕ
t_mapping = 2

abbrev pub t_list : ℕ
t_list = 3

abbrev pub t_alist_part : ℕ
t_alist_part = 4

abbrev pub t_function : ℕ
t_function = 5

abbrev pub t_regexp : ℕ
t_regexp = 6

abbrev pub t_string : ℕ
t_string = 7

abbrev pub t_float : ℕ
t_float = 8

abbrev pub t_number : ℕ
t_number = 10

-- `SET_TO_ZERO` and `SET_TO_UNDEFINED`
abbrev pub zero_svalue : Svalue
zero_svalue = record { type = t_number; subtype = 0; u = pos 0 }

abbrev pub undefined_svalue : Svalue
undefined_svalue = record { type = t_number; subtype = 1; u = pos 0 }

-- `IS_ZERO` of a value that is there
abbrev pub is_zero : Svalue → Bool
is_zero v = v.type == t_number && eqb_ℤ v.u (pos 0)

abbrev pub nonzero : ℤ → Bool
nonzero d = not (eqb_ℤ d (pos 0))

-- `if(p1 > p2) return 1; if(p1 < p2) return -1; return 0;`
abbrev pub three_way : ℤ → ℤ → ℤ
three_way a b = if ltb_ℤ b a then pos 1 else if ltb_ℤ a b then negsuc 0 else pos 0

-- `case T_FUNCTION`: the differences are C `int`s, and that of two addresses wraps.
unfoldable pub function_cmp : Svalue → Svalue → ℤ
function_cmp p1 p2 =
    let d = wrap_int (p1.u -ℤ p2.u) in if nonzero d then d else sub_ℕ p1.subtype p2.subtype

-- the `switch`, at equal types
unfoldable pub same_type_cmp : Svalue → Svalue → ℤ
same_type_cmp p1 p2 =
    if p1.type == t_float
    then three_way p1.u p2.u
    else if p1.type == t_function
    then function_cmp p1 p2
    else three_way p1.u p2.u

unfoldable pub alist_cmp : Svalue → Svalue → ℤ
alist_cmp p1 p2 = let d = sub_ℕ p1.type p2.type in if nonzero d then d else same_type_cmp p1 p2

-- A value that the struct can hold, with functions of objects in the lower half of the addresses.
pub record IsValid (v : Svalue) : Type 0 where
  pub type_short : v.type < 2 ^ 16
  pub subtype_short : v.subtype < 2 ^ 16
  pub u_int : IsInt v.u
  pub low_function : v.type ≡ t_function → neg_part v.u ≡ 0

-- The word of an `int`, counted from the least one.
word : ℤ → ℕ
word u = pos_part u + 2 ^ 31 - neg_part u

-- What is compared last: the subtype, of functions only.
last : Svalue → ℕ
last v = if v.type == t_function then v.subtype else 0

-- The place of a value in the order: its type, then its word, then for functions its subtype.
unfoldable pub rank : Svalue → ℕ
unfolding word last
rank v = v.type * 2 ^ 49 + word v.u * 2 ^ 16 + last v
