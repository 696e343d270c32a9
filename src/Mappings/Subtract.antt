-- ===== src/Mappings/Subtract.antt =====
-- `subtract_mapping` of src/mapping.c beside `do_array_surgery` of src/list.c.
use lpc.Base.{
  zero, ◌≡◌, refl, not, List, [], ◌∷◌, some, length, arith, if◌then◌else◌, negative, positive,
  Bool-cases, inl, inr, suc, ℤ, pos, negsuc,
}
use lpc.Value.{Svalue, alist_cmp, nonzero}
use lpc.Surgery.{surgery, choose, action, oper_sub, fill_round, skip_a, get_a, skip_b}
use lpc.Mappings.{subtract_count, subtract_mapping}

-- the action at a difference, for the operator that subtracts
action_sub :
    (d : ℤ)
    → action (if nonzero d then (if negative d then 2 else 3) else 1)
      ≡ (if not (nonzero d) then skip_a else if positive d then skip_b else get_a)
action_sub (pos zero) = refl
action_sub (pos (suc n)) = ground arith
action_sub (negsuc n) = ground arith

module _ {E : Type 0} (key : E → Svalue) where
  length-subtract : (a b : List E) → length (subtract_mapping key a b) ≡ subtract_count key a b
  unfolding subtract_mapping subtract_count
  length-subtract [] b = refl
  length-subtract (x ∷ a) [] = refl
  length-subtract (x ∷ a) (y ∷ b) =
      ground (arith, length-subtract a (y ∷ b), length-subtract (x ∷ a) b)

  choose_sub :
      (x y : E)
      → choose key oper_sub x y ≡ (
          if not (nonzero (alist_cmp (key x) (key y)))
          then skip_a
          else if positive (alist_cmp (key x) (key y))
          then skip_b
          else get_a)
  unfolding choose
  choose_sub x y = action_sub (alist_cmp (key x) (key y))

  surgery_sub : (a b : List E) → surgery key oper_sub a b ≡ some (subtract_mapping key a b)
  unfolding surgery subtract_mapping fill_round
  surgery_sub [] b = refl
  surgery_sub (x ∷ a) [] = refl
  surgery_sub (x ∷ a) (y ∷ b) =
      let d = alist_cmp (key x) (key y) in
      rw (choose_sub x y, surgery_sub a (y ∷ b), surgery_sub (x ∷ a) b)
        (elim (Bool-cases (nonzero d)) [
          | inr z ↦ rw z refl
          | inl nz ↦ elim (Bool-cases (positive d)) [
            | inl p ↦ rw (nz, p) refl
            | inr np ↦ rw (nz, np) refl
          ]
        ])

  -- `subtract_mapping` copies the entries that `do_array_surgery` takes with OPER_SUB, and it
  -- allocates room for exactly those.
  pub surgery-subtract_mapping :
      (a b : List E)
      → (surgery key oper_sub a b ≡ some (subtract_mapping key a b))
        × (length (subtract_mapping key a b) ≡ subtract_count key a b)
  surgery-subtract_mapping a b = (surgery_sub a b, length-subtract a b)
