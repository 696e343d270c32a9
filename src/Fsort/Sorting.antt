-- ===== src/Fsort/Sorting.antt =====
-- `fsort2` and `fsort` of src/fsort.c: the pivot goes between the two parts, which are sorted next.
use lpc.Base.{
  ℕ, zero, suc, ◌+◌, ◌-◌, ◌/◌, ◌≤◌, ◌<◌, ◌≡◌, ◌∙◌, List, ℤ, positive, ltb, leb, false, inl, inr,
  Bool-cases, arith, get_or, length, ◌==◌, if◌then◌else◌,
}
use mathlib.Core.List.{Perm}
use lpc.Fsort.{Parted, swap, partition, fsort2, fsort}
use lpc.Fsort.Swaps.{
  Rearranges, Rearranges-refl, Rearranges-trans, Rearranges-widen, swap-Rearranges, get_or-swap,
  length-swap,
}
use lpc.Fsort.Partition.{IsOrdering, Split, Parts, negative→not_positive, partition_lem}
use lpc.Fsort.Joins.{Sorts, Pivoted, not_above_itself, Sorts-join}

module _ {E : Type 0} (d : E) (cmpfun : E → E → ℤ) where
  module _ (o : IsOrdering cmpfun) where
    module _ (l : List E) (bas end : ℕ) (r : Parted E) (s : Parts d cmpfun l bas end r)
        (len : end ≤ length l) where
      parted-swap :
          (k : ℕ)
          → get_or (swap d r.items bas (r.a - 1)) k d ≡ (
              if r.a - 1 == k
              then get_or r.items bas d
              else if bas == k
              then get_or r.items (r.a - 1) d
              else get_or r.items k d)
      parted-swap k =
          get_or-swap d r.items bas (r.a - 1)
            (omega (arith, s.moves.same_length, s.split.inner, s.split.last))
            (omega (arith, s.moves.same_length, s.split.meet, s.split.last, s.met)) k

      swap-Pivoted :
          Pivoted d cmpfun (swap d r.items bas (r.a - 1)) (get_or r.items bas d) bas (r.a - 1) end
      swap-Pivoted = record {
        low = λ k h g. elim (Bool-cases (r.a - 1 == k)) [
          | inl e ↦ rw (parted-swap k, e) (not_above_itself d cmpfun o (get_or r.items bas d))
          | inr e ↦ elim (Bool-cases (bas == k)) [
            | inl e' ↦
                rw (parted-swap k, e, e')
                  (s.split.low (r.a - 1) (ground arith) (omega (arith, s.split.first)))
            | inr e' ↦
                rw (parted-swap k, e, e')
                  (s.split.low k (ground arith) (ground (arith, s.split.first)))
          ]
        ];
        high = λ k h g. elim (Bool-cases (r.a - 1 == k)) [
          | inl e ↦ rw (parted-swap k, e) (not_above_itself d cmpfun o (get_or r.items bas d))
          | inr e ↦
              let other : (bas == k) ≡ false = ground (arith, s.split.first) in
              rw (parted-swap k, e, other)
                (elim (Bool-cases (ltb r.b k)) [
                  | inl e' ↦ s.split.high k (ground arith) g
                  | inr e' ↦
                      let met : k ≡ r.b = ground (arith, s.met, s.split.first) in
                      rw met (s.split.edge (ground (arith, s.met, s.split.first)))
                ])
        ];
      }

    first-Split :
        (l : List E) (bas end : ℕ)
        → bas + 1 + 1 < end
        → Split d cmpfun l bas end (bas + 1) (end - 1)
    first-Split l bas end h = record {
      first = omega arith;
      meet = omega arith;
      inner = omega arith;
      last = omega arith;
      low = λ k p q. absurd (omega arith);
      high = λ k p q. absurd (omega arith);
      edge = λ e. absurd (omega arith);
    }

    two-Sorts :
        (l : List E) (bas : ℕ)
        → bas + 1 + 1 ≤ length l
        → Sorts d cmpfun l bas (bas + 1 + 1) (
            if positive (cmpfun (get_or l bas d) (get_or l (bas + 1) d))
            then swap d l bas (bas + 1)
            else l)
    two-Sorts l bas h =
        elim (Bool-cases (positive (cmpfun (get_or l bas d) (get_or l (bas + 1) d)))) [
          | inr e ↦ rw e record {
            moves = Rearranges-refl d bas (bas + 1 + 1) l;
            sorted = λ i j p q r.
                let is_bas : i ≡ bas = omega arith in
                let is_next : j ≡ bas + 1 = omega arith in rw (is_bas, is_next) e;
          }
          | inl e ↦ rw e record {
            moves =
                swap-Rearranges d bas (bas + 1 + 1) l bas (bas + 1) (omega arith) (omega arith)
                  (omega arith) (omega arith) h;
            sorted = λ i j p q r.
                let is_bas : i ≡ bas = omega arith in
                let is_next : j ≡ bas + 1 = omega arith in
                let moved = get_or-swap d l bas (bas + 1) (omega arith) (omega arith) in
                let at_bas : get_or (swap d l bas (bas + 1)) bas d ≡ get_or l (bas + 1) d =
                  moved bas ∙ ground arith in
                let at_next : get_or (swap d l bas (bas + 1)) (bas + 1) d ≡ get_or l bas d =
                  moved (bas + 1) ∙ ground arith in
                rw (is_bas, is_next, at_bas, at_next)
                  (negative→not_positive d cmpfun _
                    (o.flip (get_or l (bas + 1) d) (get_or l bas d) ∙ e));
          }
        ]

    empty-Sorts : (l : List E) (bas end : ℕ) → end ≤ bas + 1 → Sorts d cmpfun l bas end l
    empty-Sorts l bas end h = record {
      moves = Rearranges-refl d bas end l;
      sorted = λ i j p q r. absurd (omega arith);
    }

    -- The element of the middle comes to `bas`, the rest is parted, and it goes between the parts.
    module _ (l : List E) (bas end mid : ℕ) (r : Parted E) (lo : bas ≤ mid) (hi : mid < end)
        (len : end ≤ length l) (s : Parts d cmpfun (swap d l bas mid) bas end r) where
      pivot_moves : Rearranges d bas end l (swap d r.items bas (r.a - 1))
      pivot_moves =
          let first = swap-Rearranges d bas end l bas mid (omega arith) (omega arith) lo hi len in
          let parts =
            Rearranges-widen d bas end (bas + 1) end (swap d l bas mid) r.items (omega arith)
              (omega arith) s.moves in
          let last =
            swap-Rearranges d bas end r.items bas (r.a - 1) (omega arith) (omega arith)
              (omega (arith, s.split.first)) (omega (arith, s.split.meet, s.split.last, s.met))
              (omega (arith, s.moves.same_length, first.same_length)) in
          Rearranges-trans d bas end _ _ _ first (Rearranges-trans d bas end _ _ _ parts last)

      pivot-Sorts :
          (m q : List E)
          → Sorts d cmpfun (swap d r.items bas (r.a - 1)) bas (r.a - 1) m
          → Sorts d cmpfun m r.b end q
          → Sorts d cmpfun l bas end q
      pivot-Sorts m q t u =
          let n = swap d r.items bas (r.a - 1) in
          let pv =
            swap-Pivoted (swap d l bas mid) bas end r s (omega (arith, length-swap d l bas mid)) in
          let joined =
            Sorts-join d cmpfun o n m q (get_or r.items bas d) bas (r.a - 1) r.b end pv
              (omega (arith, s.split.first)) (omega (arith, s.split.meet)) (omega (arith, s.met))
              s.split.last t u in
          record {
            moves = Rearranges-trans d bas end l n q pivot_moves joined.moves;
            sorted = joined.sorted;
          }

    pub fsort2_lem :
        (fuel : ℕ) (l : List E) (bas end : ℕ)
        → end ≤ length l
        → end ≤ fuel + bas
        → Sorts d cmpfun l bas end (fsort2 d cmpfun fuel l bas end)
    unfolding fsort2
    fsort2_lem zero l bas end len f = empty-Sorts l bas end (omega arith)
    fsort2_lem (suc fuel) l bas end len f = elim (Bool-cases (leb end (bas + 1))) [
      | inl e ↦ rw (e, fsort2) (empty-Sorts l bas end (ground arith))
      | inr e ↦ elim (Bool-cases (bas + 1 + 1 == end)) [
        | inl e' ↦
            let is_end : end ≡ bas + 1 + 1 = ground arith in
            rw (e, e', fsort2) (rw is_end (two-Sorts l bas (omega arith)))
        | inr e' ↦
            let mid = bas + (end - 1 - bas) / 2 in
            let many : bas + 1 + 1 < end = ground arith in
            let m = swap d l bas mid in
            let m_len : length m ≡ length l = length-swap d l bas mid in
            let r = partition d cmpfun (end - bas) m bas (bas + 1) (end - 1) in
            let parts =
              partition_lem d cmpfun o (end - bas) m bas end (bas + 1) (end - 1)
                (first-Split m bas end many) (omega arith) (omega arith) in
            let n = swap d r.items bas (r.a - 1) in
            let moves = pivot_moves l bas end mid r (omega arith) (omega arith) len parts in
            let low =
              fsort2_lem fuel n bas (r.a - 1)
                (omega (arith, moves.same_length, parts.split.meet, parts.split.last))
                (omega (arith, parts.split.meet, parts.split.last)) in
            let high =
              fsort2_lem fuel (fsort2 d cmpfun fuel n bas (r.a - 1)) r.b end
                (omega (arith, moves.same_length, low.moves.same_length))
                (omega (arith, parts.split.inner)) in
            rw (e, e', fsort2)
              (pivot-Sorts l bas end mid r (omega arith) (omega arith) len parts _ _ low high)
      ]
    ]

    pub length-fsort : (l : List E) → length (fsort d cmpfun l) ≡ length l
    unfolding fsort
    length-fsort l =
        (fsort2_lem (length l) l 0 (length l) (omega arith) (omega arith)).moves.same_length

    -- With a comparison that is an order, `fsort` leaves the elements of the area, each as often as
    -- before, and none is above a later one.
    pub fsort-Sorts :
        (l : List E)
        → (Perm (fsort d cmpfun l) l
            × ((i j : ℕ)
                → i < j
                → j < length l
                → positive (cmpfun (get_or (fsort d cmpfun l) i d) (get_or (fsort d cmpfun l) j d))
                  ≡ false))
    unfolding fsort
    fsort-Sorts l =
        let s = fsort2_lem (length l) l 0 (length l) (omega arith) (omega arith) in
        (s.moves.perm, λ i j h g. s.sorted i j (omega arith) h g)
