-- ===== src/Operators/Compare.antt =====
-- The six comparison operators of src/operators.c, and the order of two values.
use lpc.Base.{
  ℕ, ◌≡◌, refl, true, not, ◌||◌, List, ◌∷◌, ℤ, pos, eqb_ℤ, ltb_ℤ, arith, some, if◌then◌else◌, subst,
  Bool-cases, inl, inr, negative, positive, ◌==◌,
}
use lpc.Value.{Svalue, nonzero, three_way, t_number, t_string, t_float}
use lpc.Arrays.{is_eq}
use lpc.Operators.{strcmp, is_gt, is_lt, number, on_stack, f_eq, f_ne, f_lt, f_gt, f_ge, f_le}
use lpc.Operators.Strcmp.{lex, lex-eq, lex_refl, my_strcmp-lex}

module _ (text : ℤ → List ℕ) where
  -- Numbers and floats by size, strings by their bytes.
  unfoldable pub order : Svalue → Svalue → ℤ
  order a b = if a.type == t_string then lex (text a.u) (text b.u) else three_way a.u b.u

  -- Two values of one type that has an order; for strings, the pointers are equal exactly if the bytes
  -- are.
  pub record AreComparable (a b : Svalue) : Type 0 where
    pub same_type : a.type ≡ b.type
    pub ordered : ((a.type == t_number || a.type == t_float) || a.type == t_string) ≡ true
    pub shared : a.type ≡ t_string → text a.u ≡ text b.u → eqb_ℤ a.u b.u ≡ true
    pub contents : a.type ≡ t_string → eqb_ℤ a.u b.u ≡ true → text a.u ≡ text b.u

  -- What the operators leave on the stack when the order of the two values is `o`.
  pub record Compares (o : ℤ) (sp stack : List Svalue) : Type 0 where
    pub lt : f_lt text stack ≡ some (number (negative o) ∷ sp)
    pub gt : f_gt text stack ≡ some (number (positive o) ∷ sp)
    pub le : f_le text stack ≡ some (number (not (positive o)) ∷ sp)
    pub ge : f_ge text stack ≡ some (number (not (negative o)) ∷ sp)
    pub eq : f_eq stack ≡ some (number (not (nonzero o)) ∷ sp)
    pub ne : f_ne stack ≡ some (number (nonzero o) ∷ sp)

  three_way-negative : (a b : ℤ) → negative (three_way a b) ≡ ltb_ℤ a b
  three_way-negative a b = ground arith

  three_way-positive : (a b : ℤ) → positive (three_way a b) ≡ ltb_ℤ b a
  three_way-positive a b = ground arith

  three_way-zero : (a b : ℤ) → not (nonzero (three_way a b)) ≡ eqb_ℤ a b
  three_way-zero a b = ground arith

  module _ (a b : Svalue) (c : AreComparable a b) where
    strings : a.type ≡ t_string → strcmp text a b ≡ lex (text a.u) (text b.u)
    strings t = my_strcmp-lex (eqb_ℤ a.u b.u) (text a.u) (text b.u) (c.contents t)

    is_lt-order : is_lt text a b ≡ some (negative (order a b))
    unfolding is_lt order
    is_lt-order = elim (Bool-cases (a.type == t_string)) [
      | inl t ↦ ground (arith, c.same_type, c.ordered, t, strings (ground (arith, t)))
      | inr t ↦ ground (arith, c.same_type, c.ordered, t)
    ]

    is_gt-order : is_gt text a b ≡ some (positive (order a b))
    unfolding is_gt order
    is_gt-order = elim (Bool-cases (a.type == t_string)) [
      | inl t ↦ ground (arith, c.same_type, c.ordered, t, strings (ground (arith, t)))
      | inr t ↦ ground (arith, c.same_type, c.ordered, t)
    ]

    -- Equal pointers are what the order says of equal strings.
    same_strings : a.type ≡ t_string → eqb_ℤ a.u b.u ≡ not (nonzero (lex (text a.u) (text b.u)))
    same_strings t = elim (Bool-cases (nonzero (lex (text a.u) (text b.u)))) [
      | inr z ↦ rw (c.shared t (lex-eq (text a.u) (text b.u) z), z) refl
      | inl nz ↦ elim (Bool-cases (eqb_ℤ a.u b.u)) [
        | inr other ↦ rw (other, nz) refl
        | inl same ↦ absurd (
            ground (
              arith,
              nz,
              subst (λ s. lex (text a.u) s ≡ pos 0) (c.contents t same) (lex_refl (text a.u)),
            ))
      ]
    ]

    is_eq-order : is_eq a b ≡ not (nonzero (order a b))
    unfolding is_eq order
    is_eq-order = elim (Bool-cases (a.type == t_string)) [
      | inl t ↦ ground (arith, c.same_type, c.ordered, t, same_strings (ground (arith, t)))
      | inr t ↦ ground (arith, c.same_type, c.ordered, t)
    ]

    -- Two numbers, two floats, and two strings whose pointers are equal exactly if their bytes
    -- are, are compared by one order: each of the six operators leaves on the stack what the order
    -- says, and none of them is an error.
    pub operators-Compares : (sp : List Svalue) → Compares (order a b) sp (b ∷ (a ∷ sp))
    unfolding f_lt f_gt f_le f_ge f_eq f_ne on_stack
    operators-Compares sp = record {
      lt = rw is_lt-order refl;
      gt = rw is_gt-order refl;
      le = rw is_gt-order refl;
      ge = rw is_lt-order refl;
      eq = rw is_eq-order refl;
      ne = rw is_eq-order (ground arith);
    }
