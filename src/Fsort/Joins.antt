-- ===== src/Fsort/Joins.antt =====
-- The two sorted parts of `fsort2` of src/fsort.c around the element at `bas`.
use lpc.Base.{
  ℕ, ◌+◌, ◌≤◌, ◌<◌, ◌≡◌, refl, sym, List, ℤ, pos, negsuc, negative, positive, ltb, leb, false, inl,
  inr, Bool-cases, arith, get_or,
}
use lpc.Fsort.Swaps.{Rearranges, Rearranges-trans, Rearranges-widen}
use lpc.Fsort.Partition.{IsOrdering, IsLe}

module _ {E : Type 0} (d : E) (cmpfun : E → E → ℤ) where
  abbrev pub IsSortedFrom : List E → ℕ → ℕ → Type 0
  IsSortedFrom l bas end =
      (i j : ℕ) → bas ≤ i → i < j → j < end → IsLe d cmpfun (get_or l i d) (get_or l j d)

  pub record Sorts (l : List E) (bas end : ℕ) (l' : List E) : Type 1 where
    pub moves : Rearranges d bas end l l'
    pub sorted : IsSortedFrom l' bas end

  -- No element up to `c` is above `p`, and none from `c` on is below.
  pub record Pivoted (l : List E) (p : E) (bas c end : ℕ) : Type 0 where
    pub low : (k : ℕ) → bas ≤ k → k ≤ c → IsLe d cmpfun (get_or l k d) p
    pub high : (k : ℕ) → c ≤ k → k < end → IsLe d cmpfun p (get_or l k d)

  module _ (o : IsOrdering cmpfun) where
    pub not_above_itself : (x : E) → IsLe d cmpfun x x
    not_above_itself x = neither (cmpfun x x) (o.flip x x)
      where
        neither : (z : ℤ) → negative z ≡ positive z → positive z ≡ false
        neither (pos n) e = sym e
        neither (negsuc n) e = refl

    module _ (n m q : List E) (p : E) (bas c b end : ℕ) (pv : Pivoted n p bas c end) (bc : bas ≤ c)
        (cb : c ≤ b) (bc' : b ≤ c + 1) (be : b < end) (s : Sorts n bas c m)
        (t : Sorts m b end q) where
      join-low : (k : ℕ) → bas ≤ k → k ≤ c → k < b → IsLe d cmpfun (get_or q k d) p
      join-low k h h' g = rw (t.moves.outside k (inl g)) (elim (Bool-cases (ltb k c)) [
        | inl e ↦
            s.moves.inside (λ x. IsLe d cmpfun x p) (λ i u v. pv.low i u (omega arith)) k h
              (ground arith)
        | inr e ↦ rw (s.moves.outside k (inr (ground arith))) (pv.low k h h')
      ])

      join-above : (k : ℕ) → c ≤ k → k < end → IsLe d cmpfun p (get_or m k d)
      join-above k h g = rw (s.moves.outside k (inr h)) (pv.high k h g)

      join-high : (k : ℕ) → c ≤ k → k < end → IsLe d cmpfun p (get_or q k d)
      join-high k h g = elim (Bool-cases (ltb k b)) [
        | inl e ↦ rw (t.moves.outside k (inl (ground arith))) (join-above k h g)
        | inr e ↦
            t.moves.inside (λ x. IsLe d cmpfun p x) (λ i u v. join-above i (omega arith) v) k
              (ground arith) g
      ]

      pub Sorts-join : Sorts n bas end q
      Sorts-join = record {
        moves =
            Rearranges-trans d bas end n m q
              (Rearranges-widen d bas end bas c n m (omega arith) (omega arith) s.moves)
              (Rearranges-widen d bas end b end m q (omega arith) (omega arith) t.moves);
        sorted = λ i j h g e. elim (Bool-cases (ltb j c)) [
          | inl e' ↦
              rw (t.moves.outside i (inl (ground arith)), t.moves.outside j (inl (ground arith)))
                (s.sorted i j h g (ground arith))
          | inr e' ↦ elim (Bool-cases (leb b i)) [
            | inl e'' ↦ t.sorted i j (ground arith) g e
            | inr e'' ↦
                o.trans (get_or q i d) p (get_or q j d) (join-low i h (ground arith) (ground arith))
                  (join-high j (ground arith) e)
          ]
        ];
      }
