-- ===== src/Sort/Runs.antt =====
-- The runs that the passes of `msort` of src/msort2.c merge, and their result.
use lpc.Base.{
  take-append, drop-append, ℕ, zero, suc, ◌+◌, ◌≤◌, ◌<◌, ◌≡◌, refl, ap, List, [], ◌∷◌, ◌++◌, ℤ, ltb,
  length, take, drop, arith, inl, inr, Bool-cases, length-append,
}
use mathlib.Core.List.{Perm, append-nil}
use mathlib.Core.List.Perm
use lpc.Sort.{merge, pass, passes, msort}
use lpc.Sort.Merge.{IsOrder, IsSorted, length-merge, merge-IsSorted}
use lpc.Sort.Passes.{
  take-nil, drop-nil, take-all, drop-all, length-zero, pass-nil, pass_round, pass-perm, length-pass,
}

module _ {ℓ} {E : Type ℓ} (cmpfunc : E → E → ℤ) where
  -- Sorted runs of `h` elements, the last one perhaps shorter.
  pub data Runs (h : ℕ) : List E → Type ℓ where
    last : (l : List E) → length l ≤ h → IsSorted cmpfunc l → Runs h l
    more : (a r l : List E) → l ≡ a ++ r → length a ≡ h → IsSorted cmpfunc a → Runs h r → Runs h l

  module _ (o : IsOrder cmpfunc) where
    -- A pass over a run and what follows it.
    pass_last :
        (fuel h : ℕ) (l : List E) → length l ≤ h → pass cmpfunc (suc fuel) h l ≡ merge cmpfunc l []
    pass_last fuel h l le =
        rw
          (
            pass_round cmpfunc fuel h l,
            take-all h l le,
            drop-all h l le,
            take-nil h,
            drop-nil h,
            pass-nil cmpfunc fuel h,
          )
          (append-nil _)

    pass_pair :
        (fuel h : ℕ) (a r : List E)
        → length a ≡ h
        → pass cmpfunc (suc fuel) h (a ++ r)
          ≡ merge cmpfunc a (take h r) ++ pass cmpfunc fuel h (drop h r)
    pass_pair fuel h a r e =
        rw (pass_round cmpfunc fuel h (a ++ r), take-append a r h e, drop-append a r h e)

    merge_nil : (l : List E) → IsSorted cmpfunc l → IsSorted cmpfunc (merge cmpfunc l [])
    merge_nil l s = merge-IsSorted cmpfunc o l [] s tt

    pass-Runs :
        (fuel h : ℕ) (l : List E)
        → length l ≤ fuel
        → 0 < h
        → Runs h l
        → Runs (h + h) (pass cmpfunc fuel h l)
    unfolding pass
    pass-Runs zero h l le pos runs = rw (length-zero l le) (last [] (omega arith) tt)
    pass-Runs (suc fuel) h l le pos (last _ short s) =
        rw (pass_last fuel h l short)
          (last _ (omega (arith, length-merge cmpfunc l [])) (merge_nil l s))
    pass-Runs (suc fuel) h l le pos (more a r _ e len s (last _ short s')) =
        rw
          (
            e,
            pass_pair fuel h a r len,
            take-all h r short,
            drop-all h r short,
            pass-nil cmpfunc fuel h,
            append-nil (merge cmpfunc a r),
          )
          (last _ (omega (arith, length-merge cmpfunc a r)) (merge-IsSorted cmpfunc o a r s s'))
    pass-Runs (suc fuel) h l le pos (more a r _ e len s (more b q _ e' len' s' runs)) =
        rw (e, pass_pair fuel h a r len, e', take-append b q h len', drop-append b q h len')
          (more (merge cmpfunc a b) (pass cmpfunc fuel h q) _ refl
            (omega (arith, length-merge cmpfunc a b)) (merge-IsSorted cmpfunc o a b s s')
            (pass-Runs fuel h q
              (omega (arith, ap length e, ap length e', length-append a r, length-append b q)) pos
              runs))

    Runs-IsSorted : (h : ℕ) (l : List E) → length l ≤ h → Runs h l → IsSorted cmpfunc l
    Runs-IsSorted h l le (last _ short s) = s
    Runs-IsSorted h l le (more a r _ e len s runs) =
        let none_left : r ≡ [] = length-zero r (omega (arith, ap length e, length-append a r)) in
        rw (e, none_left, append-nil a) s

    passes-IsSorted :
        (fuel h : ℕ) (l : List E)
        → length l ≤ h + fuel
        → 0 < h
        → Runs h l
        → IsSorted cmpfunc (passes cmpfunc fuel h l)
    unfolding passes
    passes-IsSorted zero h l le pos runs = Runs-IsSorted h l (omega arith) runs
    passes-IsSorted (suc fuel) h l le pos runs = elim (Bool-cases (ltb h (length l))) [
      | inr done ↦ rw (done, passes) (Runs-IsSorted h l (ground arith) runs)
      | inl going ↦
          rw (going, passes)
            (passes-IsSorted fuel (h + h) (pass cmpfunc (length l) h l)
              (omega (arith, length-pass cmpfunc (length l) h l)) (omega arith)
              (pass-Runs (length l) h l (omega arith) pos runs))
    ]

    singles : (l : List E) → Runs 1 l
    singles [] = last [] (omega arith) tt
    singles (x ∷ l) = more (x ∷ []) l _ refl refl (tt, tt) (singles l)

    -- With a comparison that is total and transitive, `msort` returns its elements in order: no
    -- element comes after one that follows it.
    pub msort-IsSorted : (l : List E) → IsSorted cmpfunc (msort cmpfunc l)
    unfolding msort
    msort-IsSorted l = passes-IsSorted (length l) 1 l (omega arith) (omega arith) (singles l)

  passes-perm : (fuel h : ℕ) (l : List E) → Perm (passes cmpfunc fuel h l) l
  unfolding passes
  passes-perm zero h l = Perm.refl l
  passes-perm (suc fuel) h l = elim (Bool-cases (ltb h (length l))) [
    | inr done ↦ rw (done, passes) (Perm.refl l)
    | inl going ↦
        rw (going, passes)
          (Perm.trans (passes-perm fuel (h + h) (pass cmpfunc (length l) h l))
            (pass-perm cmpfunc (length l) h l))
  ]

  -- `msort` rearranges its elements and loses and invents none, whatever the comparison answers.
  pub msort-perm : (l : List E) → Perm (msort cmpfunc l) l
  unfolding msort
  msort-perm l = passes-perm (length l) 1 l
