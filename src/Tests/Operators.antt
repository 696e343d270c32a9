-- ===== src/Tests/Operators.antt =====
-- Strings in the order of their bytes, and arrays that contain themselves.
use lpc.Base.{
  ℕ, ◌≡◌, refl, Bool-cases, inl, inr, List, [], ◌∷◌, none, some, ℤ, pos, eqb_ℤ, true, if◌then◌else◌,
  arith,
}
use lpc.Value.{Svalue, t_number, t_string, t_pointer}
use lpc.Arrays.{is_eq}
use lpc.Operators.{
  memcmp, my_strcmp, is_lt, is_gt, f_lt, f_ge, on_stack, low_is_equal, is_equal, equal_items,
  in_process,
}
use lpc.Operators.Compare.{order, AreComparable, Compares, operators-Compares}
use lpc.Operators.Deep.{Answers, IsDeep, low_is_equal-Answers, is_equal-endless}

abbrev ab : List ℕ
ab = b'a' ∷ (b'b' ∷ [])

abbrev b : List ℕ
b = b'b' ∷ []

abbrev text : ℤ → List ℕ
text u = if eqb_ℤ u (pos 8) then ab else b

abbrev str : ℕ → Svalue
str n = record { type = t_string; subtype = 0; u = pos n }

abbrev num : ℕ → Svalue
num n = record { type = t_number; subtype = 0; u = pos n }

abbrev array : ℕ → Svalue
array n = record { type = t_pointer; subtype = 0; u = pos n }

abbrev program : Unit {0}
unfolding memcmp my_strcmp is_lt is_gt f_lt f_ge on_stack low_is_equal equal_items in_process is_eq
program = tt

less : f_lt text (str 16 ∷ (str 8 ∷ [])) ≡ some (num 1 ∷ [])
unfolding program
less = refl

mixed : f_lt text (num 16 ∷ (str 8 ∷ [])) ≡ none
unfolding program
mixed = refl

-- As addresses, 16 and 24 have the same bytes.
numbers-AreComparable : AreComparable text (num 16) (num 24)
numbers-AreComparable = record {
  same_type = refl;
  ordered = refl;
  shared = λ t e. absurd (omega (arith, t));
  contents = λ t e. absurd (omega (arith, t));
}

operators-Compares_example :
    Compares text (order text (num 16) (num 24)) (num 5 ∷ []) (num 24 ∷ (num 16 ∷ (num 5 ∷ [])))
operators-Compares_example =
    operators-Compares text (num 16) (num 24) numbers-AreComparable (num 5 ∷ [])

-- The array at 1 holds the array at 2 and a number.
abbrev nested : ℤ → List Svalue
nested u =
    if eqb_ℤ u (pos 1)
    then array 2 ∷ (num 3 ∷ [])
    else if eqb_ℤ u (pos 4)
    then array 5 ∷ (num 3 ∷ [])
    else []

abbrev depth : ℤ → ℕ
depth u = if eqb_ℤ u (pos 1) then 1 else if eqb_ℤ u (pos 4) then 1 else 0

equal : is_equal nested 3 (array 1) (array 4) ≡ some true
unfolding program
equal = refl

-- The arrays at 1 and 2 contain themselves.
abbrev knots : ℤ → List Svalue
knots u = if eqb_ℤ u (pos 1) then array 1 ∷ [] else array 2 ∷ []

is_equal-endless_example : is_equal knots 1000 (array 1) (array 2) ≡ none
is_equal-endless_example =
    is_equal-endless knots 1000 (array 1) (array 2) [] [] refl refl refl refl refl refl

nested-IsDeep : IsDeep nested depth
nested-IsDeep u = elim (Bool-cases (eqb_ℤ u (pos 1))) [
  | inl e ↦ rw e ((λ v. omega arith), ((λ v. absurd (cc v)), tt))
  | inr e ↦ elim (Bool-cases (eqb_ℤ u (pos 4))) [
    | inl e' ↦ rw (e, e') ((λ v. omega arith), ((λ v. absurd (cc v)), tt))
    | inr e' ↦ rw (e, e') tt
  ]
]

low_is_equal-Answers_example : Answers (low_is_equal nested 3 (array 1) (array 4) [])
low_is_equal-Answers_example =
    low_is_equal-Answers nested depth 3 (array 1) (array 4) [] nested-IsDeep
      (omega arith, λ v. omega arith)
