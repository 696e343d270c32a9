-- ===== src/Fsort/Swaps.antt =====
-- The exchanges of src/fsort.c: what a rearrangement of a range of the area keeps.
use lpc.Base.{
  ℕ, zero, suc, ◌≤◌, ◌<◌, ◌≡◌, refl, sym, ◌∙◌, subst, List, [], ◌∷◌, ◌==◌, if◌then◌else◌, length,
  length-set, get_or, set, arith, Bool-cases, inl, inr, ◌⊎◌, leb, ltb,
}
use mathlib.Core.List.{Perm}
use mathlib.Core.List.Perm
use lpc.Fsort.{swap}

module _ {E : Type 0} (d : E) where
  pub get_or-set :
      (l : List E) (i : ℕ) (v : E) (j : ℕ)
      → i < length l
      → get_or (set l i v) j d ≡ (if i == j then v else get_or l j d)
  get_or-set [] i v j h = absurd (omega arith)
  get_or-set (x ∷ l) zero v zero h = refl
  get_or-set (x ∷ l) zero v (suc j) h = ground arith
  get_or-set (x ∷ l) (suc i) v zero h = ground arith
  get_or-set (x ∷ l) (suc i) v (suc j) h = ground (arith, get_or-set l i v j (omega arith))

  set-perm : (l : List E) (i : ℕ) (v : E) → i < length l → Perm (get_or l i d ∷ set l i v) (v ∷ l)
  set-perm [] i v h = absurd (omega arith)
  set-perm (x ∷ l) zero v h = Perm.swap v x l
  set-perm (x ∷ l) (suc i) v h =
      let rest = Perm.cons x (set-perm l i v (omega arith)) in
      Perm.trans (Perm.swap x _ _) (Perm.trans rest (Perm.swap v x l))

  pub length-swap : (l : List E) (i j : ℕ) → length (swap d l i j) ≡ length l
  unfolding swap
  length-swap l i j = length-set (set l i (get_or l j d)) j (get_or l i d) ∙ length-set l i _

  module _ (l : List E) (i j : ℕ) (hi : i < length l) (hj : j < length l) where
    pub get_or-swap :
        (k : ℕ)
        → get_or (swap d l i j) k d
          ≡ (if j == k then get_or l i d else if i == k then get_or l j d else get_or l k d)
    unfolding swap
    get_or-swap k =
        rw
          (
            get_or-set (set l i (get_or l j d)) j (get_or l i d) k
                (omega (arith, length-set l i (get_or l j d))),
            get_or-set l i (get_or l j d) k hi,
          )
          refl

    pub swap-perm : Perm (swap d l i j) l
    unfolding swap
    swap-perm =
        let b = set l i (get_or l j d) in
        let kept : get_or b j d ≡ get_or l j d =
          ground (arith, get_or-set l i (get_or l j d) j hi) in
        let second =
          rw kept at (set-perm b j (get_or l i d) (omega (arith, length-set l i (get_or l j d)))) in
        Perm.cons_inv (Perm.trans second (set-perm l i (get_or l j d) hi))

  -- The elements from `lo` to below `hi` are rearranged, and the others stay.
  pub record Rearranges (lo hi : ℕ) (l l' : List E) : Type 1 where
    pub same_length : length l' ≡ length l
    pub perm : Perm l' l
    pub outside : (k : ℕ) → (k < lo) ⊎ (hi ≤ k) → get_or l' k d ≡ get_or l k d
    pub inside :
        (P : E → Type 0)
        → ((k : ℕ) → lo ≤ k → k < hi → P (get_or l k d))
        → (k : ℕ) → lo ≤ k
        → k < hi
        → P (get_or l' k d)

  pub Rearranges-refl : (lo hi : ℕ) (l : List E) → Rearranges lo hi l l
  Rearranges-refl lo hi l = record {
    same_length = refl;
    perm = Perm.refl l;
    outside = λ k h. refl;
    inside = λ P h. h;
  }

  pub Rearranges-trans :
      (lo hi : ℕ) (l m n : List E)
      → Rearranges lo hi l m
      → Rearranges lo hi m n
      → Rearranges lo hi l n
  Rearranges-trans lo hi l m n r s = record {
    same_length = s.same_length ∙ r.same_length;
    perm = Perm.trans s.perm r.perm;
    outside = λ k h. s.outside k h ∙ r.outside k h;
    inside = λ P h. s.inside P (r.inside P h);
  }

  -- A rearrangement of a part of the range.
  pub Rearranges-widen :
      (lo hi lo' hi' : ℕ) (l m : List E)
      → lo ≤ lo'
      → hi' ≤ hi
      → Rearranges lo' hi' l m
      → Rearranges lo hi l m
  Rearranges-widen lo hi lo' hi' l m p q r = record {
    same_length = r.same_length;
    perm = r.perm;
    outside = λ k h. r.outside k (elim h [ inl e ↦ inl (omega arith) | inr e ↦ inr (omega arith) ]);
    inside = λ P h k a b. elim (below_or k lo' hi') [
      | inl e ↦ r.inside P (λ i c e'. h i (omega arith) (omega arith)) k e.0 e.1
      | inr e ↦ subst P (sym (r.outside k e)) (h k a b)
    ];
  }
    where
      below_or : (k a b : ℕ) → ((a ≤ k) × (k < b)) ⊎ ((k < a) ⊎ (b ≤ k))
      below_or k a b = elim (Bool-cases (leb a k)) [
        | inl e ↦ elim (Bool-cases (ltb k b)) [
          | inl e' ↦ inl (ground arith, ground arith)
          | inr e' ↦ inr (inr (ground arith))
        ]
        | inr e ↦ inr (inl (ground arith))
      ]

  pub swap-Rearranges :
      (lo hi : ℕ) (l : List E) (i j : ℕ)
      → lo ≤ i
      → i < hi
      → lo ≤ j
      → j < hi
      → hi ≤ length l
      → Rearranges lo hi l (swap d l i j)
  swap-Rearranges lo hi l i j pi qi pj qj h = record {
    same_length = length-swap l i j;
    perm = swap-perm l i j (omega arith) (omega arith);
    outside = λ k o.
        get_or-swap l i j (omega arith) (omega arith) k
        ∙ elim o [ inl e ↦ ground arith | inr e ↦ ground arith ];
    inside = λ P p k a b.
        subst P (sym (get_or-swap l i j (omega arith) (omega arith) k))
          (elim (Bool-cases (j == k)) [
            | inl e ↦ rw e (p i pi qi)
            | inr e ↦ elim (Bool-cases (i == k)) [
              | inl e' ↦ rw (e, e') (p j pj qj)
              | inr e' ↦ rw (e, e') (p k a b)
            ]
          ]);
  }
