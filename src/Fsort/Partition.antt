-- ===== src/Fsort/Partition.antt =====
-- The outer loop of `fsort2` in src/fsort.c: on which side of the two pointers elements are.
use lpc.Base.{
  ℕ, zero, suc, ◌+◌, ◌-◌, ◌≤◌, ◌<◌, ◌≡◌, refl, sym, ◌∙◌, List, ℤ, pos, negsuc, negative, positive,
  ltb, leb, ltb→lt, true, false, ◌⊎◌, inl, inr, Bool-cases, arith, get_or, length, ◌==◌,
  if◌then◌else◌,
}
use lpc.Fsort.{Parted, swap, partition, scan_up, scan_down}
use lpc.Fsort.Swaps.{
  Rearranges, Rearranges-refl, Rearranges-trans, swap-Rearranges, get_or-swap, length-swap,
}
use lpc.Fsort.Scans.{StopsUp, StopsDown, scan_up_lem, scan_down_lem, is_below, is_above}

-- What a comparison is to promise to the sort.
pub record IsOrdering {E : Type 0} (cmpfun : E → E → ℤ) : Type 0 where
  pub flip : (x y : E) → negative (cmpfun x y) ≡ positive (cmpfun y x)
  pub trans :
      (x y z : E)
      → positive (cmpfun x y) ≡ false
      → positive (cmpfun y z) ≡ false
      → positive (cmpfun x z) ≡ false

module _ {E : Type 0} (d : E) (cmpfun : E → E → ℤ) where
  abbrev pub IsLe : E → E → Type 0
  IsLe x y = positive (cmpfun x y) ≡ false

  -- The pointers are at `a` and `b`, the element to compare with is at `bas`.
  pub record Split (l : List E) (bas end a b : ℕ) : Type 0 where
    pub first : bas < a
    pub meet : a ≤ b + 1
    pub inner : bas < b
    pub last : b < end
    pub low : (k : ℕ) → bas < k → k < a → IsLe (get_or l k d) (get_or l bas d)
    pub high : (k : ℕ) → b < k → k < end → IsLe (get_or l bas d) (get_or l k d)
    pub edge : a ≡ b → IsLe (get_or l bas d) (get_or l b d)

  pub negative→not_positive : (z : ℤ) → negative z ≡ true → positive z ≡ false
  negative→not_positive (pos n) e = cc
  negative→not_positive (negsuc n) e = refl

  module _ (o : IsOrdering cmpfun) (l : List E) (bas end a b : ℕ) (s : Split l bas end a b) where
    -- The first inner loop went past `b`.
    Split-crossed :
        (stop : ℕ) → StopsUp (is_below d cmpfun l bas) a b stop → b < stop → Split l bas end stop b
    Split-crossed stop up h = record {
      first = omega (arith, up.from, s.first);
      meet = up.upto;
      inner = s.inner;
      last = s.last;
      low = λ k p q. elim (Bool-cases (ltb k a)) [
        | inl e ↦ s.low k p (ground arith)
        | inr e ↦ negative→not_positive _ (up.passed k (ground arith) q)
      ];
      high = s.high;
      edge = λ e. absurd (omega arith);
    }

    Split-scanned :
        (stop stop' : ℕ)
        → StopsUp (is_below d cmpfun l bas) a b stop
        → stop ≤ b
        → StopsDown (is_above d cmpfun l bas) stop b stop'
        → Split l bas end stop stop'
    Split-scanned stop stop' up h down = record {
      first = omega (arith, up.from, s.first);
      meet = omega (arith, down.upto);
      inner = omega (arith, down.upto, up.from, s.first);
      last = omega (arith, down.from, s.last);
      low = λ k p q. elim (Bool-cases (ltb k a)) [
        | inl e ↦ s.low k p (ground arith)
        | inr e ↦ negative→not_positive _ (up.passed k (ground arith) q)
      ];
      high = λ k p q. elim (Bool-cases (leb k b)) [
        | inl e ↦ negative→not_positive _ (down.passed k p (ground arith))
        | inr e ↦ s.high k (ground arith) q
      ];
      edge = λ e.
          rw (sym e)
            (not_below stop (elim up.stopped [ inl g ↦ absurd (omega arith) | inr g ↦ g ]));
    }
      where
        not_below :
            (k : ℕ) → is_below d cmpfun l bas k ≡ false → IsLe (get_or l bas d) (get_or l k d)
        not_below k e = sym (o.flip (get_or l k d) (get_or l bas d)) ∙ e

  module _ (l : List E) (bas end a b : ℕ) (s : Split l bas end a b) (h : a < b)
      (len : end ≤ length l) (ge : IsLe (get_or l bas d) (get_or l a d))
      (le : IsLe (get_or l b d) (get_or l bas d)) where
    moved :
        (k : ℕ)
        → get_or (swap d l a b) k d
          ≡ (if b == k then get_or l a d else if a == k then get_or l b d else get_or l k d)
    moved k = get_or-swap d l a b (omega (arith, s.last)) (omega (arith, s.last)) k

    same_base : get_or (swap d l a b) bas d ≡ get_or l bas d
    same_base = moved bas ∙ ground (arith, s.first)

    Split-swapped : Split (swap d l a b) bas end (a + 1) (if ltb (a + 1 + 1) b then b - 1 else b)
    Split-swapped = record {
      first = omega (arith, s.first);
      meet = ground arith;
      inner = ground (arith, s.first);
      last = ground (arith, s.last);
      low = λ k p q. elim (Bool-cases (a == k)) [
        | inl e ↦
            let not_b : (b == k) ≡ false = ground arith in rw (same_base, moved k, not_b, e) le
        | inr e ↦
            let not_b : (b == k) ≡ false = ground arith in
            rw (same_base, moved k, not_b, e) (s.low k p (ground arith))
      ];
      high = λ k p q. elim (Bool-cases (b == k)) [
        | inl e ↦ rw (same_base, moved k, e) ge
        | inr e ↦
            let not_a : (a == k) ≡ false = ground arith in
            let above : b < k = ground arith in rw (same_base, moved k, not_a, e) (s.high k above q)
      ];
      edge = λ e.
          let is_b : (if ltb (a + 1 + 1) b then b - 1 else b) ≡ b = ground arith in
          let same : (b == b) ≡ true = ground arith in rw (is_b, same_base, moved b, same) ge;
    }

  -- The area `l` has become `r.items`, and the pointers have met.
  pub record Parts (l : List E) (bas end : ℕ) (r : Parted E) : Type 1 where
    pub split : Split r.items bas end r.a r.b
    pub met : r.b ≤ r.a
    pub moves : Rearranges d (bas + 1) end l r.items

  Parts-trans :
      (l m : List E) (bas end : ℕ) (r : Parted E)
      → Rearranges d (bas + 1) end l m
      → Parts m bas end r
      → Parts l bas end r
  Parts-trans l m bas end r s p = record {
    split = p.split;
    met = p.met;
    moves = Rearranges-trans d (bas + 1) end l m r.items s p.moves;
  }

  -- Both inner loops have run: the pointers have met, or both are at elements of the other side.
  record Scanned (l : List E) (bas end a b a' b' : ℕ) : Type 0 where
    pub split : Split l bas end a' b'
    pub from : a ≤ a'
    pub upto : b' ≤ b
    pub sides :
        (b' ≤ a') ⊎ (IsLe (get_or l bas d) (get_or l a' d) × IsLe (get_or l b' d) (get_or l bas d))

  module _ (o : IsOrdering cmpfun) where
    scans-Scanned :
        (l : List E) (bas end a b : ℕ)
        → Split l bas end a b
        → (let a' = scan_up d cmpfun (b + 1 - a) l bas a b in
            Scanned l bas end a b a' (scan_down d cmpfun (b - a') l bas a' b))
    unfolding scan_down
    scans-Scanned l bas end a b s =
        let a' = scan_up d cmpfun (b + 1 - a) l bas a b in
        let b' = scan_down d cmpfun (b - a') l bas a' b in
        let up = scan_up_lem d cmpfun (b + 1 - a) l bas a b s.meet (omega arith) in
        elim (Bool-cases (leb a' b)) [
          | inr e ↦
              let none_left : b - a' ≡ 0 = ground arith in
              let stays : b' ≡ b = rw none_left refl in
              rw stays record {
                split = Split-crossed o l bas end a b s a' up (ground arith);
                from = up.from;
                upto = omega arith;
                sides = inl (ground arith);
              }
          | inl e ↦
              let down = scan_down_lem d cmpfun (b - a') l bas a' b (ground arith) (omega arith) in
              record {
                split = Split-scanned o l bas end a b s a' b' up (ground arith) down;
                from = up.from;
                upto = down.from;
                sides = elim down.stopped [
                  | inl g ↦ inl (omega arith)
                  | inr g ↦ elim up.stopped [
                    | inl g' ↦ absurd (ground arith)
                    | inr g' ↦ inr (
                      sym (o.flip (get_or l a' d) (get_or l bas d)) ∙ g',
                      sym (o.flip (get_or l bas d) (get_or l b' d)) ∙ g,
                    )
                  ]
                ];
              }
        ]

    pub partition_lem :
        (fuel : ℕ) (l : List E) (bas end a b : ℕ)
        → Split l bas end a b
        → end ≤ length l
        → b ≤ fuel + a
        → Parts l bas end (partition d cmpfun fuel l bas a b)
    unfolding partition
    partition_lem zero l bas end a b s len f = record {
      split = s;
      met = omega arith;
      moves = Rearranges-refl d (bas + 1) end l;
    }
    partition_lem (suc fuel) l bas end a b s len f = elim (Bool-cases (ltb a b)) [
      | inr e ↦
          rw (e, partition)
            record { split = s; met = ground arith; moves = Rearranges-refl d (bas + 1) end l }
      | inl e ↦
          let a' = scan_up d cmpfun (b + 1 - a) l bas a b in
          let b' = scan_down d cmpfun (b - a') l bas a' b in
          let t = scans-Scanned l bas end a b s in
          elim (Bool-cases (ltb a' b')) [
            | inr e' ↦
                rw (e, e', partition)
                  (partition_lem fuel l bas end a' b' t.split len (ground arith))
            | inl e' ↦ elim t.sides [
              | inl g ↦ absurd (ground arith)
              | inr g ↦
                  rw (e, e', partition)
                    (Parts-trans l (swap d l a' b') bas end _
                      (swap-Rearranges d (bas + 1) end l a' b' (omega (arith, t.split.first))
                        (omega (arith, t.upto, s.last, ltb→lt a' b' e'))
                        (omega (arith, t.split.inner)) t.split.last len)
                      (partition_lem fuel (swap d l a' b') bas end (a' + 1)
                        (if ltb (a' + 1 + 1) b' then b' - 1 else b')
                        (Split-swapped l bas end a' b' t.split (ground arith) len g.0 g.1)
                        (omega (arith, length-swap d l a' b')) (ground (arith, t.from, t.upto))))
            ]
          ]
    ]
