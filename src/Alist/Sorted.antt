-- ===== src/Alist/Sorted.antt =====
-- Ascending lists of values, by rank, read through their indices.
use lpc.Base.{
  ℕ, zero, suc, ◌≤◌, ◌<◌, ◌≡◌, List, [], ◌∷◌, length, get_or, All, All-imp, arith, true, false,
  negative, positive,
}
use lpc.Value.{Svalue, IsValid, rank, zero_svalue, alist_cmp}
use lpc.Value.Order.{alist_cmp-rank}

-- `a` is not above any of the list.
abbrev pub IsBelow : Svalue → List Svalue → Type 0
IsBelow a l = All (λ b. rank a ≤ rank b) l

abbrev pub IsSorted : List Svalue → Type 0
IsSorted [] = Unit {0}
IsSorted (a ∷ l) = IsBelow a l × IsSorted l

abbrev pub AllValid : List Svalue → Type 0
AllValid l = All IsValid l

pub IsBelow-item :
    (a : Svalue) (l : List Svalue) (i : ℕ)
    → IsBelow a l
    → i < length l
    → rank a ≤ rank (get_or l i zero_svalue)
IsBelow-item a [] i h lt = absurd (omega arith)
IsBelow-item a (b ∷ l) zero h lt = h.0
IsBelow-item a (b ∷ l) (suc i) h lt = IsBelow-item a l i h.1 (omega arith)

pub IsSorted-item :
    (l : List Svalue) (i j : ℕ)
    → IsSorted l
    → i ≤ j
    → j < length l
    → rank (get_or l i zero_svalue) ≤ rank (get_or l j zero_svalue)
IsSorted-item [] i j s le lt = absurd (omega arith)
IsSorted-item (a ∷ l) zero zero s le lt = omega arith
IsSorted-item (a ∷ l) zero (suc j) s le lt = IsBelow-item a l j s.0 (omega arith)
IsSorted-item (a ∷ l) (suc i) zero s le lt = absurd (omega arith)
IsSorted-item (a ∷ l) (suc i) (suc j) s le lt = IsSorted-item l i j s.1 (omega arith) (omega arith)

pub AllValid-item :
    (l : List Svalue) (i : ℕ) → AllValid l → i < length l → IsValid (get_or l i zero_svalue)
AllValid-item [] i h lt = absurd (omega arith)
AllValid-item (a ∷ l) zero h lt = h.0
AllValid-item (a ∷ l) (suc i) h lt = AllValid-item l i h.1 (omega arith)

-- The three outcomes of a comparison, as orders of ranks.
module _ (a b : Svalue) (va : IsValid a) (vb : IsValid b) where
  pub negative-lt : negative (alist_cmp a b) ≡ true → rank a < rank b
  negative-lt h = ground (arith, alist_cmp-rank a b va vb)

  pub positive-lt : positive (alist_cmp a b) ≡ true → rank b < rank a
  positive-lt h = ground (arith, alist_cmp-rank a b va vb)

  pub neither-eq :
      negative (alist_cmp a b) ≡ false → positive (alist_cmp a b) ≡ false → rank a ≡ rank b
  neither-eq h k = ground (arith, alist_cmp-rank a b va vb)

-- No two keys are equal.
abbrev pub IsStrict : List Svalue → Type 0
IsStrict [] = Unit {0}
IsStrict (a ∷ l) = All (λ b. rank a < rank b) l × IsStrict l

pub IsStrict-IsSorted : (l : List Svalue) → IsStrict l → IsSorted l
IsStrict-IsSorted [] h = tt
IsStrict-IsSorted (a ∷ l) h = (All-imp (λ b lt. omega arith) l h.0, IsStrict-IsSorted l h.1)
