-- ===== src/Calls/Pure.antt =====
-- The efuns on arrays of src/array.c, for functions that change nothing.
use lpc.Base.{
  ℕ, zero, suc, ◌+◌, ◌≡◌, refl, ap, sym, ◌∙◌, some_inj, none_ne_some, Bool, true, false, not, inl,
  inr, Option, some, List, [], ◌∷◌, map, ℤ, pos, negsuc, if◌then◌else◌, length, get_or, arith,
  Bool-cases, Option-cases,
}
use lpc.Value.{Svalue, is_zero, t_function}
use lpc.Arrays.{copied}
use lpc.Calls.{
  Callee, pushed, lambda, filter_count, filter_fill, run, map_round, search_round, call_function,
  callable, map_loop, map_array, search_loop, search_array, filter, column, sum_loop, sum_arrays,
}

-- The items that pass a test, in order.
unfoldable pub keep : (Svalue → Bool) → List Svalue → List Svalue
keep test [] = []
keep test (x ∷ l) = let r = keep test l in if test x then x ∷ r else r

-- The answer that is kept of a call with an item: the item and the answer are copied.
abbrev pub answer_to : (ℤ → Bool) → (Svalue → Svalue) → Svalue → Svalue
answer_to gone g x = copied gone (g (copied gone x))

-- The first index of an item that passes a test, or -1.
unfoldable pub first_index : (Svalue → Bool) → List Svalue → ℕ → ℤ
first_index test [] cnt = negsuc 0
first_index test (x ∷ l) cnt = let r = first_index test l (cnt + 1) in if test x then pos cnt else r

filter_fill-map :
    (gone : ℤ → Bool) (g : Svalue → Svalue) (p : List Svalue)
    → filter_fill gone (map g p) p ≡ map (copied gone) (keep (λ x. not (is_zero (g x))) p)
unfolding filter_fill keep
filter_fill-map gone g [] = refl
filter_fill-map gone g (x ∷ p) = elim (Bool-cases (is_zero (g x))) [
  | inl z ↦ rw z (filter_fill-map gone g p)
  | inr nz ↦ rw nz (ap (◌∷◌ (copied gone x)) (filter_fill-map gone g p))
]

length-filter_fill :
    (gone : ℤ → Bool) (vs p : List Svalue)
    → length vs ≡ length p
    → length (filter_fill gone vs p) ≡ filter_count vs
unfolding filter_fill filter_count
length-filter_fill gone [] [] h = refl
length-filter_fill gone [] (x ∷ p) h = ground arith
length-filter_fill gone (v ∷ vs) [] h = ground arith
length-filter_fill gone (v ∷ vs) (x ∷ p) h = ground (arith, length-filter_fill gone vs p)

-- The items of the arrays at the indices from `e`, a list of them at each index.
unfoldable pub columns : List (List Svalue) → ℕ → ℕ → List (List Svalue)
unfolding column
columns arrays zero e = []
columns arrays (suc size) e = column arrays e ∷ columns arrays size (e + 1)

module _ (W : Type 0) (destructed : W → ℤ → Bool)
    (apply : Callee → List Svalue → W → Option (Option Svalue × W)) where
  length-map_loop :
      (f : Svalue) (extra p : List Svalue) (w : W) (r : List Svalue × W)
      → map_loop W destructed apply f extra p w ≡ some r
      → length r.0 ≡ length p
  unfolding map_loop
  length-map_loop f extra [] w r h = ap (λ (q : List Svalue × W). length q.0) (sym (some_inj h))
  length-map_loop f extra (x ∷ p) w r h =
      elim (Option-cases (run W destructed apply (map_round W destructed apply f extra x w) w)) [
        | inl e ↦ absurd (none_ne_some (rw (e, map_loop) at h))
        | inr (a, e) ↦ elim (Option-cases (map_loop W destructed apply f extra p a.1)) [
          | inl e' ↦ absurd (none_ne_some (rw (e, map_loop, e') at h))
          | inr (q, e') ↦
              ap (λ (q : List Svalue × W). length q.0) (sym (some_inj (rw (e, map_loop, e') at h)))
              ∙ ap suc (length-map_loop f extra p a.1 q e')
        ]
      ]

  -- The array that `filter` allocates from its count has room for exactly the items that it fills in,
  -- whatever the calls answered.
  pub length-filter_fill_count :
      (p : List Svalue) (f : Svalue) (extra : List Svalue) (w w' : W) (vs : List Svalue)
      → map_array W destructed apply p f extra w ≡ some (vs, w')
      → length (filter_fill (destructed w') vs p) ≡ filter_count vs
  unfolding map_array
  length-filter_fill_count p f extra w w' vs h =
      elim (Bool-cases (callable W destructed apply f w)) [
        | inl c ↦
            length-filter_fill (destructed w') vs p
              (length-map_loop f extra p w (vs, w') (rw (c, map_array) at h))
        | inr c ↦ absurd (none_ne_some (rw (c, map_array) at h))
      ]

  -- A function that answers `g x` at each argument `x` and leaves the game as it is.
  module _ (f : Svalue) (extra : List Svalue) (g : Svalue → Svalue)
      (answers : (x : Svalue) (w : W)
        → apply (lambda f) (x ∷ pushed W destructed apply w extra) w ≡ some (some (g x), w))
      (is_function : f.type ≡ t_function) (lives : (w : W) → destructed w f.u ≡ false) where
    map_run :
        (x : Svalue) (w : W)
        → run W destructed apply (map_round W destructed apply f extra x w) w
          ≡ some (some (g (copied (destructed w) x)), w)
    unfolding run map_round call_function pushed
    map_run x w = simp (is_function, lives w, answers (copied (destructed w) x) w) refl

    search_run :
        (x : Svalue) (w : W)
        → run W destructed apply (search_round W destructed apply f extra x w) w
          ≡ some (some (g (copied (destructed w) x)), w)
    unfolding run search_round call_function pushed
    search_run x w = simp (is_function, lives w, answers (copied (destructed w) x) w) refl

    callable_lem : (w : W) → callable W destructed apply f w ≡ true
    unfolding callable
    callable_lem w = simp (is_function, lives w) refl

    map_loop-map :
        (p : List Svalue) (w : W)
        → map_loop W destructed apply f extra p w ≡ some (map (answer_to (destructed w) g) p, w)
    unfolding map_loop
    map_loop-map [] w = refl
    map_loop-map (x ∷ p) w = rw (map_run x w, map_loop, map_loop-map p w) refl

    -- With a function that answers `g x` at each argument `x` and changes nothing, `map_array` answers
    -- the list of the values of `g` at the items; the items and the values are copied.
    pub map_array-map :
        (p : List Svalue) (w : W)
        → map_array W destructed apply p f extra w ≡ some (map (answer_to (destructed w) g) p, w)
    unfolding map_array
    map_array-map p w = rw (callable_lem w) (map_loop-map p w)

    -- With a function that answers `g x` at each argument `x` and changes nothing, `filter` answers
    -- copies of the items where `g` is not 0, in their order. The function is called with a copy of
    -- the item, and its answer is copied; a destructed object is copied as a zero.
    pub filter-keep :
        (p : List Svalue) (w : W)
        → filter W destructed apply p f extra w
          ≡ some (
            map
                (copied (destructed w))
                (keep (λ x. not (is_zero (answer_to (destructed w) g x))) p),
            w,
          )
    unfolding filter keep
    filter-keep [] w = refl
    filter-keep (x ∷ p) w =
        rw
          (
            map_array-map (x ∷ p) w,
            filter,
            filter_fill-map (destructed w) (answer_to (destructed w) g) (x ∷ p),
          )
          refl

    search_loop-first_index :
        (p : List Svalue) (cnt : ℕ) (w : W)
        → search_loop W destructed apply f extra p cnt w
          ≡ some (first_index (λ x. not (is_zero (g (copied (destructed w) x)))) p cnt, w)
    unfolding search_loop first_index
    search_loop-first_index [] cnt w = refl
    search_loop-first_index (x ∷ p) cnt w =
        elim (Bool-cases (is_zero (g (copied (destructed w) x)))) [
          | inl z ↦ rw (search_run x w, search_loop, z) (search_loop-first_index p (cnt + 1) w)
          | inr nz ↦ rw (search_run x w, search_loop, nz) refl
        ]

    -- With a function that answers `g x` at each argument `x` and changes nothing, `search_array`
    -- answers the index of the first item where `g` is not 0 at a copy of the item, or -1.
    pub search_array-first_index :
        (p : List Svalue) (w : W)
        → search_array W destructed apply p f extra w
          ≡ some (first_index (λ x. not (is_zero (g (copied (destructed w) x)))) p 0, w)
    unfolding search_array
    search_array-first_index p w = rw (callable_lem w) (search_loop-first_index p 0 w)

  module _ (fun : Svalue) (g : List Svalue → Svalue)
      (answers : (l : List Svalue) (w : W) → apply (lambda fun) l w ≡ some (some (g l), w))
      (lives : (w : W) → destructed w fun.u ≡ false) where
    sum_loop-map :
        (arrays : List (List Svalue)) (size e : ℕ) (w : W)
        → sum_loop W destructed apply fun arrays size e w
          ≡ some (
            map
                (λ l. copied (destructed w) (g (map (copied (destructed w)) l)))
                (columns arrays size e),
            w,
          )
    unfolding sum_loop columns pushed
    sum_loop-map arrays zero e w = refl
    sum_loop-map arrays (suc size) e w =
        rw
          (
            lives w,
            sum_loop,
            answers (map (copied (destructed w)) (column arrays e)) w,
            sum_loop-map arrays size (e + 1) w,
          )
          refl

    -- With a function that answers `g l` at each list `l` of arguments and changes nothing,
    -- `sum_arrays` answers copies of the values of `g` at copies of the items of all arrays at each
    -- index of the first array, with 0 for the items that a shorter array lacks.
    pub sum_arrays-map :
        (arrays : List (List Svalue)) (w : W)
        → sum_arrays W destructed apply arrays fun w
          ≡ some (
            map
                (λ l. copied (destructed w) (g (map (copied (destructed w)) l)))
                (columns arrays (length (get_or arrays 0 [])) 0),
            w,
          )
    unfolding sum_arrays
    sum_arrays-map arrays w = sum_loop-map arrays (length (get_or arrays 0 [])) 0 w
