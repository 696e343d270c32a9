-- ===== src/Sort/Merge.antt =====
-- Merging two sorted runs in src/msort2.c, and what a comparison is to promise.
use lpc.Base.{
  ◌+◌, ◌≡◌, true, false, List, [], ◌∷◌, ◌++◌, ℤ, positive, length, All, arith, inl, inr, Bool-cases,
}
use mathlib.Core.List.{Perm, perm_middle, append-nil}
use mathlib.Core.List.Perm
use lpc.Sort.{merge}

pub record IsOrder {ℓ} {E : Type ℓ} (cmpfunc : E → E → ℤ) : Type ℓ where
  pub total : (x y : E) → positive (cmpfunc x y) ≡ true → positive (cmpfunc y x) ≡ false
  pub trans :
      (x y z : E)
      → positive (cmpfunc x y) ≡ false
      → positive (cmpfunc y z) ≡ false
      → positive (cmpfunc x z) ≡ false

module _ {ℓ} {E : Type ℓ} (cmpfunc : E → E → ℤ) where
  -- `x` need not come after any of the list.
  abbrev pub IsFirst : E → List E → Type 0
  IsFirst x l = All (λ y. positive (cmpfunc x y) ≡ false) l

  abbrev pub IsSorted : List E → Type 0
  IsSorted [] = Unit {0}
  IsSorted (x ∷ l) = IsFirst x l × IsSorted l

  pub merge-perm : (a b : List E) → Perm (merge cmpfunc a b) (a ++ b)
  unfolding merge
  merge-perm [] b = Perm.refl b
  merge-perm (x ∷ a) [] = rw (append-nil a) (Perm.refl (x ∷ a))
  merge-perm (x ∷ a) (y ∷ b) = elim (Bool-cases (positive (cmpfunc x y))) [
    | inr left ↦ rw (left, merge) (Perm.cons x (merge-perm a (y ∷ b)))
    | inl right ↦
        rw (right, merge)
          (Perm.trans (Perm.cons y (merge-perm (x ∷ a) b)) (Perm.symm (perm_middle (x ∷ a) b)))
  ]

  pub length-merge : (a b : List E) → length (merge cmpfunc a b) ≡ length a + length b
  unfolding merge
  length-merge [] b = omega arith
  length-merge (x ∷ a) [] = omega arith
  length-merge (x ∷ a) (y ∷ b) = ground (arith, length-merge a (y ∷ b), length-merge (x ∷ a) b)

  IsFirst-merge : (z : E) (a b : List E) → IsFirst z a → IsFirst z b → IsFirst z (merge cmpfunc a b)
  unfolding merge
  IsFirst-merge z [] b ha hb = hb
  IsFirst-merge z (x ∷ a) [] ha hb = ha
  IsFirst-merge z (x ∷ a) (y ∷ b) ha hb = elim (Bool-cases (positive (cmpfunc x y))) [
    | inr left ↦ rw (left, merge, IsFirst) (ha.0, IsFirst-merge z a (y ∷ b) ha.1 hb)
    | inl right ↦ rw (right, merge, IsFirst) (hb.0, IsFirst-merge z (x ∷ a) b ha hb.1)
  ]

  module _ (o : IsOrder cmpfunc) where
    IsFirst-trans :
        (x y : E) (l : List E) → positive (cmpfunc x y) ≡ false → IsFirst y l → IsFirst x l
    IsFirst-trans x y [] e h = tt
    IsFirst-trans x y (z ∷ l) e h = (o.trans x y z e h.0, IsFirst-trans x y l e h.1)

    pub merge-IsSorted : (a b : List E) → IsSorted a → IsSorted b → IsSorted (merge cmpfunc a b)
    unfolding merge
    merge-IsSorted [] b sa sb = sb
    merge-IsSorted (x ∷ a) [] sa sb = sa
    merge-IsSorted (x ∷ a) (y ∷ b) sa sb = elim (Bool-cases (positive (cmpfunc x y))) [
      | inr left ↦
          rw (left, merge, IsSorted)
            (
              IsFirst-merge x a (y ∷ b) sa.0 (left, IsFirst-trans x y b left sb.0),
              merge-IsSorted a (y ∷ b) sa.1 sb,
            )
      | inl right ↦
          let under = o.total x y right in
          rw (right, merge, IsSorted)
            (
              IsFirst-merge y (x ∷ a) b (under, IsFirst-trans y x a under sa.0) sb.0,
              merge-IsSorted (x ∷ a) b sa sb.1,
            )
    ]
