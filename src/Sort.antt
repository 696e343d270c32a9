-- ===== src/Sort.antt =====
-- `msort` of src/msort2.c, the bottom-up merge sort behind the efun `sort_array`. The two areas that
-- it copies between are one list, rewritten by each pass.
pub mod Merge
pub mod Passes
pub mod Runs
use lpc.Base.{
  ℕ, zero, suc, ◌+◌, Bool, true, false, List, [], ◌∷◌, ◌++◌, ℤ, positive, ltb, length, take, drop,
}

module _ {ℓ} {E : Type ℓ} (cmpfunc : E → E → ℤ) where
  -- the inner `while` over two runs, and the copy of what is left of one
  unfoldable pub merge : List E → List E → List E
  merge [] b = b
  merge (x ∷ a) [] = x ∷ a
  merge (x ∷ a) (y ∷ b) = elim (positive (cmpfunc x y)) [
    | false ↦ x ∷ merge a (y ∷ b)
    | true ↦ y ∷ merge (x ∷ a) b
  ]

  -- The loop over `j`: the runs of `half` elements are merged two by two; the last ones may be
  -- short or missing. A round leaves fewer elements, so their number is fuel enough.
  unfoldable pub pass : ℕ → ℕ → List E → List E
  pass zero half l = l
  pass (suc fuel) half l = elim l [
    | [] ↦ []
    | x ∷ r ↦
        merge (take half (x ∷ r)) (take half (drop half (x ∷ r)))
        ++ pass fuel half (drop half (drop half (x ∷ r)))
  ]

  -- The loop over `i`, by its half: it doubles while it is less than the number of elements.
  unfoldable pub passes : ℕ → ℕ → List E → List E
  passes zero half l = l
  passes (suc fuel) half l = elim (ltb half (length l)) [
    | true ↦ passes fuel (half + half) (pass (length l) half l)
    | false ↦ l
  ]

  unfoldable pub msort : List E → List E
  msort l = passes (length l) 1 l
