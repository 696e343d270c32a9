-- ===== src/Arrays/Destructed.antt =====
-- `check_vector_for_destruct` of src/array.c: the items and the set of types after it.
use lpc.Base.{
  ℕ, ◌≡◌, refl, Bool, true, false, ◌||◌, List, [], ◌∷◌, map, ℤ, ◌==◌, All, arith, inl, inr,
  Bool-cases, subst, ==_iff, get_elem?, Option, some, ap, sym,
}
use lpc.Value.{Svalue, t_number, t_object, t_function}
use lpc.Arrays.Slices.{get_elem?-map}
use lpc.Arrays.{Vector, is_destructed, freed, types_of, check_vector_for_destruct}

-- The set of types covers the items.
abbrev pub IsTyped : Vector → Type 0
IsTyped v = All (λ x. v.types x.type ≡ true) v.item

weaken :
    (x : Svalue) (l r : List Svalue)
    → All (λ y. types_of l y.type ≡ true) r
    → All (λ y. types_of (x ∷ l) y.type ≡ true) r
unfolding types_of
weaken x l [] h = tt
weaken x l (y ∷ r) h = (ground (arith, h.0), weaken x l r h.1)

types_of-covers : (l : List Svalue) → All (λ y. types_of l y.type ≡ true) l
unfolding types_of
types_of-covers [] = tt
types_of-covers (x ∷ l) = (ground arith, weaken x l l (types_of-covers l))

module _ (destructed : ℤ → Bool) where
  -- A vector after the check: no item is destructed, the others are as they were, and the set of
  -- types covers the items.
  pub record Checks (v w : Vector) : Type 0 where
    pub items : w.item ≡ map (freed destructed) v.item
    pub clean : All (λ x. is_destructed destructed x ≡ false) w.item
    pub typed : IsTyped w

  freed-clean :
      (l : List Svalue) → All (λ x. is_destructed destructed x ≡ false) (map (freed destructed) l)
  unfolding freed
  freed-clean [] = tt
  freed-clean (x ∷ l) = (ground arith, freed-clean l)

  pub differs : (types : ℕ → Bool) (a b : ℕ) → types a ≡ true → types b ≡ false → a == b ≡ false
  differs types a b ha hb = elim (Bool-cases (a == b)) [
    | inl same ↦ absurd (ground (arith, ap types ((==_iff a b).0 same)))
    | inr other ↦ other
  ]

  pub stays :
      (types : ℕ → Bool) (x : Svalue)
      → types t_object ≡ false
      → types t_function ≡ false
      → types x.type ≡ true
      → freed destructed x ≡ x
  unfolding freed
  stays types x ho hf h =
      rw (differs types x.type t_object h ho, differs types x.type t_function h hf) refl

  -- Without objects and functions the loop would change nothing.
  untouched :
      (types : ℕ → Bool) (l : List Svalue)
      → types t_object ≡ false
      → types t_function ≡ false
      → All (λ x. types x.type ≡ true) l
      → map (freed destructed) l ≡ l
  unfolding freed
  untouched types [] ho hf h = refl
  untouched types (x ∷ l) ho hf h =
      rw (stays types x ho hf h.0) (ap (◌∷◌ x) (untouched types l ho hf h.1))

  -- If the set of types covers the items of a vector, then after the check no item is destructed, the
  -- items that were are freed, the others are as they were, and the set of types covers the items.
  pub check_vector_for_destruct-Checks :
      (v : Vector) → IsTyped v → Checks v (check_vector_for_destruct destructed v)
  unfolding check_vector_for_destruct
  check_vector_for_destruct-Checks v h =
      elim (Bool-cases (v.types t_object || v.types t_function)) [
        | inl has ↦ rw (has) (record {
          items = refl;
          clean = freed-clean v.item;
          typed = types_of-covers (map (freed destructed) v.item);
        })
        | inr lacks ↦
            let e : map (freed destructed) v.item ≡ v.item =
              untouched v.types v.item (ground arith) (ground arith) h in
            rw (lacks) (record {
              items = sym e;
              clean =
                  subst (λ l. All (λ x. is_destructed destructed x ≡ false) l) e
                    (freed-clean v.item);
              typed = h;
            })
      ]

  freed_lem :
      (x : Svalue)
      → is_destructed destructed x ≡ true
      → ◌≡◌ {A = Option Svalue}
          (some (freed destructed x))
          (some (record { type = t_number; subtype = 2; u = x.u }))
  unfolding freed
  freed_lem x d = rw d refl

  -- If the set of types covers the items of a vector, then the item of a destructed object or function
  -- becomes a number that is its address, not 0, with the subtype of a destructed object.
  pub check_vector_for_destruct-get_elem? :
      (v : Vector) (i : ℕ) (x : Svalue)
      → IsTyped v
      → get_elem? v.item i ≡ some x
      → is_destructed destructed x ≡ true
      → get_elem? (check_vector_for_destruct destructed v).item i
        ≡ some (record { type = t_number; subtype = 2; u = x.u })
  check_vector_for_destruct-get_elem? v i x h e d =
      rw
        ((check_vector_for_destruct-Checks v h).items, get_elem?-map (freed destructed) v.item i, e)
        (freed_lem x d)
