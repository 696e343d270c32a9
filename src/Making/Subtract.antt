-- ===== src/Making/Subtract.antt =====
-- `subtract_array` of src/array.c: the items that the subtrahend lacks.
use lpc.Base.{
  ℕ, zero, suc, ◌<◌, ◌≡◌, ◌==◌, refl, sym, ◌∙◌, List, [], ◌∷◌, map, ℤ, Bool, true, false, not, ◌||◌,
  if◌then◌else◌, arith, length, inl, inr, negative, Bool-cases,
}
use mathlib.Core.Logic.{∥∥₁_elim}
use mathlib.Core.List.{Perm, Permᴰ}
use lpc.Value.{Svalue, IsValid, rank, t_object, t_function}
use lpc.Alist.{item, assoc}
use lpc.Alist.Sorted.{AllValid, IsSorted}
use lpc.Alist.Search.{IsAbsent, assoc-absent-or-found}
use lpc.Arrays.{Vector, slice_array, copied, freed, is_destructed, check_vector_for_destruct}
use lpc.Calls.Pure.{keep}
use lpc.Making.{difference, subtract_array}
use lpc.Making.Orders.{order_list-Orders}
use lpc.Making.Results.{slice_items_all}

-- Whether a list has an item equal to `x`.
pub occurs : Svalue → List Svalue → Bool
occurs x [] = false
occurs x (y ∷ l) = (rank y == rank x) || occurs x l

occurs-perm_d : (x : Svalue) {l m : List Svalue} → Permᴰ l m → occurs x l ≡ occurs x m
unfolding occurs
occurs-perm_d x Permᴰ.nil = refl
occurs-perm_d x (Permᴰ.cons {a = a} e d) = rw (sym e, occurs-perm_d x d) refl
occurs-perm_d x (Permᴰ.swap {a = a} {b = b} e e') = rw (sym e, sym e') (ground arith)
occurs-perm_d x (Permᴰ.trans d d') = occurs-perm_d x d ∙ occurs-perm_d x d'

occurs-perm : (x : Svalue) (l m : List Svalue) → Perm l m → occurs x l ≡ occurs x m
occurs-perm x l m p = ∥∥₁_elim p (hlevel) (occurs-perm_d x)

occurs_absent : (x : Svalue) (l : List Svalue) → IsAbsent x l → occurs x l ≡ false
unfolding occurs
occurs_absent x [] h = refl
occurs_absent x (y ∷ l) h =
    ground (arith, h 0 (omega arith), occurs_absent x l (λ i lt. h (suc i) (omega arith)))

occurs_item :
    (x : Svalue) (l : List Svalue) (c : ℕ)
    → c < length l
    → rank (item l c) ≡ rank x
    → occurs x l ≡ true
unfolding occurs
occurs_item x [] c h e = absurd (omega arith)
occurs_item x (y ∷ l) zero h e = ground arith
occurs_item x (y ∷ l) (suc c) h e = ground (arith, occurs_item x l c (omega arith) e)

-- In a sorted list, `assoc` is negative for what does not occur.
assoc-occurs :
    (x : Svalue) (l : List Svalue)
    → IsValid x
    → AllValid l
    → IsSorted l
    → negative (assoc x l) ≡ not (occurs x l)
assoc-occurs x l vx vl s = elim (assoc-absent-or-found x l vx vl s) [
  | inl (e, absent) ↦ rw (e, occurs_absent x l absent) refl
  | inr (c, e, lt, same) ↦ rw (e, occurs_item x l c lt same) refl
]

difference-keep :
    (l s s' : List Svalue)
    → AllValid l
    → AllValid s'
    → IsSorted s'
    → Perm s' s
    → difference l s' ≡ keep (λ x. not (occurs x s)) l
unfolding difference keep
difference-keep [] s s' vl vs o p = refl
difference-keep (x ∷ l) s s' vl vs o p =
    rw (assoc-occurs x s' vl.0 vs o, occurs-perm x s' s p, difference-keep l s s' vl.1 vs o p) refl

module _ (destructed : ℤ → Bool) where
  copied-IsValid : (x : Svalue) → IsValid x → IsValid (copied destructed x)
  unfolding copied
  copied-IsValid x h = elim (Bool-cases (is_destructed destructed x)) [
    | inr e ↦ rw e h
    | inl e ↦ rw e record {
      type_short = omega arith;
      subtype_short = ground arith;
      u_int = (omega arith, omega arith);
      low_function = λ t. refl;
    }
  ]

  freed-IsValid : (x : Svalue) → IsValid x → IsValid (freed destructed x)
  unfolding freed
  freed-IsValid x h = elim (Bool-cases (is_destructed destructed x)) [
    | inr e ↦ rw e h
    | inl e ↦ rw e record {
      type_short = omega arith;
      subtype_short = omega arith;
      u_int = h.u_int;
      low_function = λ t. absurd (omega (arith, t));
    }
  ]

  map-AllValid :
      (f : Svalue → Svalue) (l : List Svalue)
      → ((x : Svalue) → IsValid x → IsValid (f x))
      → AllValid l
      → AllValid (map f l)
  map-AllValid f [] g h = tt
  map-AllValid f (x ∷ l) g h = (g x h.0, map-AllValid f l g h.1)

  checked-AllValid :
      (v : Vector) → AllValid v.item → AllValid (check_vector_for_destruct destructed v).item
  unfolding check_vector_for_destruct
  checked-AllValid v h = elim (Bool-cases (v.types t_object || v.types t_function)) [
    | inl e ↦ rw e (map-AllValid (freed destructed) v.item freed-IsValid h)
    | inr e ↦ rw e h
  ]

  -- What is subtracted: the array itself, or a copy of it if it has other references.
  abbrev pub subtracted : List Svalue → ℕ → List Svalue
  subtracted s ref = if ref == 1 then s else map (copied destructed) s

  -- Of arrays of valid values, `subtract_array` returns the items of the minuend that are equal to
  -- none of the subtrahend, in the order that they have in the minuend. The minuend is checked for
  -- destructed objects first: they stay as items, as the numbers that the check makes of them.
  pub subtract_array-keep :
      (minuend : Vector) (subtrahend : List Svalue) (ref : ℕ)
      → AllValid minuend.item
      → AllValid subtrahend
      → subtract_array destructed minuend subtrahend ref
        ≡ keep
            (λ x. not (occurs x (subtracted subtrahend ref)))
            (check_vector_for_destruct destructed minuend).item
  unfolding subtract_array slice_array
  subtract_array-keep minuend subtrahend ref vm vs =
      let valid : AllValid (subtracted subtrahend ref) = elim (Bool-cases (ref == 1)) [
        | inl e ↦ rw e vs
        | inr e ↦ rw e (map-AllValid (copied destructed) subtrahend copied-IsValid vs)
      ] in
      let (s', made, vs', sorted, p) = order_list-Orders (subtracted subtrahend ref) valid in
      rw (slice_items_all subtrahend, made)
        (difference-keep (check_vector_for_destruct destructed minuend).item
          (subtracted subtrahend ref) s' (checked-AllValid minuend vm) vs' sorted p)
