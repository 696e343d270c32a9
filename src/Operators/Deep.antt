-- ===== src/Operators/Deep.antt =====
-- `is_equal` of src/operators.c on vectors in vectors: whether it ends.
use lpc.Base.{
  ℕ, zero, suc, ◌<◌, ◌≡◌, refl, ap, ◌∙◌, Bool, true, false, not, List, [], ◌∷◌, ℤ, eqb_ℤ, arith,
  Option, some, none, Bool-cases, inl, inr, ◌==◌, length, All, All-imp,
}
use lpc.Value.{Svalue, t_pointer}
use lpc.Arrays.{is_eq}
use lpc.Operators.{is_vector, in_process, equal_items, low_is_equal, is_equal}

-- The call ends with an answer.
abbrev pub Answers : Option Bool → Type 0
Answers o = (r : Bool) × (o ≡ some r)

equal_items-Answers :
    (test : Svalue → Svalue → Option Bool) (l m : List Svalue)
    → All (λ x. (y : Svalue) → Answers (test x y)) l
    → Answers (equal_items test l m)
unfolding equal_items
equal_items-Answers test [] m h = (true, refl)
equal_items-Answers test (x ∷ l) [] h = (true, refl)
equal_items-Answers test (x ∷ l) (y ∷ m) h =
    let (r, e) = h.0 y in
    elim (Bool-cases r) [
      | inl t ↦ rw (e ∙ ap some t, equal_items) (equal_items-Answers test l m h.1)
      | inr f ↦ rw (e ∙ ap some f, equal_items) (false, refl)
    ]

module _ (vec : ℤ → List Svalue) where
  -- Every vector in a vector is less deep.
  abbrev pub IsDeep : (ℤ → ℕ) → Type 0
  IsDeep depth = (u : ℤ) → All (λ x. is_vector x ≡ true → depth x.u < depth u) (vec u)

  abbrev pub IsEnough : (ℤ → ℕ) → ℕ → Svalue → Type 0
  IsEnough depth fuel a = (0 < fuel) × (is_vector a ≡ true → suc (depth a.u) < fuel)

  -- If each vector in a vector is less deep than it, then the comparison ends with an answer, on every
  -- fuel above one more than the depth of its first argument, or above 0 if that is no vector.
  pub low_is_equal-Answers :
      (depth : ℤ → ℕ) (fuel : ℕ) (a b : Svalue) (p : List ℤ)
      → IsDeep depth
      → IsEnough depth fuel a
      → Answers (low_is_equal vec fuel a b p)
  unfolding low_is_equal
  low_is_equal-Answers depth zero a b p deep enough = absurd (omega (arith, enough.0))
  low_is_equal-Answers depth (suc fuel) a b p deep enough =
      elim (Bool-cases (not (a.type == b.type))) [
        | inl t ↦ rw (t, low_is_equal) (false, refl)
        | inr t ↦ elim (Bool-cases (is_eq a b)) [
          | inl e ↦ rw (t, low_is_equal, e) (true, refl)
          | inr e ↦ elim (Bool-cases (is_vector a)) [
            | inr v ↦ rw (t, low_is_equal, e, v) (false, refl)
            | inl v ↦ elim (Bool-cases (length (vec a.u) == length (vec b.u))) [
              | inr s ↦ rw (t, low_is_equal, e, v, s) (false, refl)
              | inl s ↦ elim (Bool-cases (in_process a.u p)) [
                | inl i ↦ rw (t, low_is_equal, e, v, s, i) (true, refl)
                | inr i ↦
                    rw (t, low_is_equal, e, v, s, i)
                      (equal_items-Answers (λ x y. low_is_equal vec fuel x y []) (vec a.u) (vec b.u)
                        (All-imp
                          (λ x h y.
                            low_is_equal-Answers depth fuel x y [] deep
                              (omega (arith, enough.1 v), λ vx. omega (arith, enough.1 v, h vx)))
                          (vec a.u) (deep a.u)))
              ]
            ]
          ]
        ]
      ]

  -- The comparison of two different vectors of one size that contain themselves as their first items
  -- never ends, though the list of the vectors in process is there to end it: the items are compared
  -- without it.
  pub is_equal-endless :
      (fuel : ℕ) (a b : Svalue) (l m : List Svalue)
      → a.type ≡ t_pointer
      → b.type ≡ t_pointer
      → eqb_ℤ a.u b.u ≡ false
      → vec a.u ≡ a ∷ l
      → vec b.u ≡ b ∷ m
      → length l ≡ length m
      → is_equal vec fuel a b ≡ none
  unfolding low_is_equal in_process equal_items is_eq
  is_equal-endless zero a b l m ta tb ne ea eb len = refl
  is_equal-endless (suc fuel) a b l m ta tb ne ea eb len =
      let t : not (a.type == b.type) ≡ false = ground (arith, ta, tb) in
      let e : is_eq a b ≡ false = ground (arith, ta, ne) in
      let v : is_vector a ≡ true = ground (arith, ta) in
      let s : length (vec a.u) == length (vec b.u) ≡ true =
        ground (arith, ap length ea, ap length eb, len) in
      let ih : low_is_equal vec fuel a b [] ≡ none =
        is_equal-endless fuel a b l m ta tb ne ea eb len in
      let items : equal_items (λ x y. low_is_equal vec fuel x y []) (vec a.u) (vec b.u) ≡ none =
        ap (λ k. equal_items (λ x y. low_is_equal vec fuel x y []) k (vec b.u)) ea
        ∙ (ap (equal_items (λ x y. low_is_equal vec fuel x y []) (a ∷ l)) eb
            ∙ rw (ih, equal_items) refl) in
      rw (t, low_is_equal, e, v, s) items
