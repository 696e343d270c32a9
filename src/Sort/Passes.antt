-- ===== src/Sort/Passes.antt =====
-- The passes of `msort` of src/msort2.c, and the lengths of the runs.
use lpc.Base.{
  ℕ, zero, suc, ◌≤◌, ◌≡◌, refl, ap, ◌∙◌, List, [], ◌∷◌, ◌++◌, ℤ, length, take, drop, arith,
  length-append, length-take, length-drop, take-append-drop,
}
use mathlib.Core.List.{Perm, append_assoc}
use mathlib.Core.List.Perm
use lpc.Sort.{merge, pass}
use lpc.Sort.Merge.{merge-perm, length-merge}

module _ {ℓ} {E : Type ℓ} where
  pub take-nil : (n : ℕ) → take {A = E} n [] ≡ []
  take-nil zero = refl
  take-nil (suc n) = refl

  pub drop-nil : (n : ℕ) → drop {A = E} n [] ≡ []
  drop-nil zero = refl
  drop-nil (suc n) = refl

  pub take-all : (n : ℕ) (l : List E) → length l ≤ n → take n l ≡ l
  take-all n [] h = take-nil n
  take-all zero (x ∷ l) h = absurd (omega arith)
  take-all (suc n) (x ∷ l) h = ap (◌∷◌ x) (take-all n l (omega arith))

  pub drop-all : (n : ℕ) (l : List E) → length l ≤ n → drop n l ≡ []
  drop-all n [] h = drop-nil n
  drop-all zero (x ∷ l) h = absurd (omega arith)
  drop-all (suc n) (x ∷ l) h = drop-all n l (omega arith)

  pub length-zero : (l : List E) → length l ≤ 0 → l ≡ []
  length-zero [] h = refl
  length-zero (x ∷ l) h = absurd (omega arith)

module _ {ℓ} {E : Type ℓ} (cmpfunc : E → E → ℤ) where
  pub pass-nil : (fuel h : ℕ) → pass cmpfunc fuel h [] ≡ []
  unfolding pass
  pass-nil zero h = refl
  pass-nil (suc fuel) h = refl

  pub pass_round :
      (fuel h : ℕ) (l : List E)
      → pass cmpfunc (suc fuel) h l
        ≡ merge cmpfunc (take h l) (take h (drop h l)) ++ pass cmpfunc fuel h (drop h (drop h l))
  unfolding pass merge
  pass_round fuel h [] = rw (drop-nil h, drop-nil h, take-nil h, pass-nil fuel h)
  pass_round fuel h (x ∷ l) = refl

  pub pass-perm : (fuel h : ℕ) (l : List E) → Perm (pass cmpfunc fuel h l) l
  unfolding pass
  pass-perm zero h l = Perm.refl l
  pass-perm (suc fuel) h l =
      let r = drop h l in
      let e : take h l ++ (take h r ++ drop h r) ≡ l =
        ap (λ z. take h l ++ z) (take-append-drop h r) ∙ take-append-drop h l in
      rw (pass_round fuel h l) (
        rw e at (
          rw (append_assoc (take h l) (take h r) (drop h r)) at
            (Perm.append (merge-perm cmpfunc (take h l) (take h r)) (pass-perm fuel h (drop h r)))))

  pub length-pass : (fuel h : ℕ) (l : List E) → length (pass cmpfunc fuel h l) ≡ length l
  unfolding pass
  length-pass zero h l = refl
  length-pass (suc fuel) h l = rw (pass_round fuel h l) (
      omega (
        arith,
        length-append (merge cmpfunc (take h l) (take h (drop h l)))
            (pass cmpfunc fuel h (drop h (drop h l))),
        length-merge cmpfunc (take h l) (take h (drop h l)),
        length-pass fuel h (drop h (drop h l)),
        length-take h l,
        length-drop h l,
        length-take h (drop h l),
        length-drop h (drop h l),
      ))
