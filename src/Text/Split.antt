-- ===== src/Text/Split.antt =====
-- `explode` and `implode` of src/array.c: the pieces of a string, and the sizes.
use lpc.Base.{
  ℕ, zero, suc, ◌+◌, ◌-◌, ◌*◌, ◌≡◌, ◌≢◌, refl, ap, ◌∙◌, true, Option, some, List, [], ◌∷◌, ◌++◌,
  map, length, drop, arith, inl, inr, Bool-cases, length-append, length-map,
}
use lpc.Text.{
  Bytes, matches, count_loop, cut_loop, pieces, explode_size, bytes_of, implode_rest, implode,
  sum_lengths, implode_size,
}

pub matches-append : (del s : Bytes) → matches del s ≡ true → s ≡ del ++ drop (length del) s
unfolding matches
matches-append [] s h = refl
matches-append (d ∷ del) [] h = absurd (ground arith)
matches-append (d ∷ del) (c ∷ s) h = ground (arith, matches-append del s)

-- All the pieces as items of an array.
abbrev pub items : List Bytes → List (Option Bytes)
items = map some

-- There is always a first piece.
pub rest-pieces :
    (fuel : ℕ) (del piece s to : Bytes)
    → implode_rest (items (cut_loop fuel del piece s)) to
      ≡ to ++ implode (items (cut_loop fuel del piece s)) to
unfolding implode cut_loop
rest-pieces zero del piece s to = refl
rest-pieces (suc fuel) del piece [] to = refl
rest-pieces (suc fuel) del piece (c ∷ s) to = elim (Bool-cases (matches del (c ∷ s))) [
  | inl hit ↦ rw (hit, cut_loop)
  | inr miss ↦ rw (miss, cut_loop) (rest-pieces fuel del (piece ++ c ∷ []) s to)
]

cut_loop-count :
    (fuel : ℕ) (del piece s : Bytes)
    → length (cut_loop fuel del piece s) ≡ suc (count_loop fuel del s)
unfolding cut_loop count_loop
cut_loop-count zero del piece s = refl
cut_loop-count (suc fuel) del piece [] = refl
cut_loop-count (suc fuel) del piece (c ∷ s) = elim (Bool-cases (matches del (c ∷ s))) [
  | inl hit ↦ rw (hit, cut_loop, count_loop) (ap suc (cut_loop-count fuel del [] _))
  | inr miss ↦ rw (miss, cut_loop, count_loop) (cut_loop-count fuel del (piece ++ c ∷ []) s)
]

-- The size of the array is the count of the pieces.
pub length-pieces : (str del : Bytes) → length (pieces str del) ≡ explode_size str del
unfolding pieces explode_size
length-pieces str [] = length-map (λ c. c ∷ []) str
length-pieces str (d ∷ del) =
    let e = cut_loop-count (length str) (d ∷ del) [] str in omega (arith, e)

length-implode_rest :
    (v : List (Option Bytes)) (del : Bytes)
    → length (implode_rest v del) ≡ length del * length v + sum_lengths v
unfolding implode_rest sum_lengths
length-implode_rest [] del = omega arith
length-implode_rest (x ∷ v) del = omega (
  arith,
  length-append del (bytes_of x ++ implode_rest v del),
  length-append (bytes_of x) (implode_rest v del),
  length-implode_rest v del,
)

-- `implode` fills exactly the string that it begins, for every array that is not empty.
pub length-implode :
    (v : List (Option Bytes)) (del : Bytes) → v ≢ [] → length (implode v del) ≡ implode_size v del
unfolding implode implode_size
length-implode [] del h = absurd (h refl)
length-implode (x ∷ v) del h =
    let e : suc (length v) - 1 ≡ length v = omega arith in
    length-append (bytes_of x) (implode_rest v del)
    ∙ omega (arith, length-implode_rest v del, ap (λ (n : ℕ). length del * n) e)
