-- ===== src/Tests/Arrays.antt =====
-- Arrays with a destructed object, and functions called for their items.
use lpc.Base.{
  map, arith, false, ℕ, ◌+◌, ◌≡◌, refl, Bool, not, ◌||◌, Option, some, List, [], ◌∷◌, ℤ, pos,
  negsuc, pos_part, eqb_ℤ, if◌then◌else◌, get_or, ◌==◌,
}
use lpc.Value.{Svalue, zero_svalue, is_zero, t_number, t_object, t_function}
use lpc.Arrays.{
  Vector, slice_items, slice_array, copied, check_vector_for_destruct, freed, types_of,
  array_replace, replace_items, is_eq,
}
use lpc.Arrays.Destructed.{IsTyped}
use lpc.Growth.{Block, allocate_array_no_init, insert_array, shift_up, copy_items}
use lpc.Growth.Inserting.{Inserted, insert_array-Inserted}
use lpc.Calls.{
  pushed, Callee, lambda, shared, lfun, map_round, search_round, call_function, run, callable,
  map_loop, map_array, search_loop, search_array, filter_fill, filter, column, sum_loop, sum_arrays,
}
use lpc.Calls.Pure.{answer_to, keep, filter-keep}

abbrev num : ℕ → Svalue
num n = record { type = t_number; subtype = 0; u = pos n }

abbrev object : ℕ → Svalue
object n = record { type = t_object; subtype = 0; u = pos n }

-- The object at the address 64 is destructed.
abbrev gone : ℤ → Bool
gone u = eqb_ℤ u (pos 64)

abbrev items : List Svalue
items = num 1 ∷ (object 64 ∷ (object 32 ∷ (num 0 ∷ [])))

abbrev vector : Vector
vector = record { item = items; types = λ t. t == t_number || t == t_object }

abbrev program : Unit {0}
unfolding allocate_array_no_init insert_array shift_up copy_items slice_array slice_items copied
    check_vector_for_destruct freed types_of array_replace replace_items is_eq map_round
    search_round call_function pushed run callable map_loop map_array search_loop search_array
    filter_fill filter column sum_loop sum_arrays
program = tt

middle :
    slice_array gone items (negsuc 0) (pos 2)
    ≡ num 1 ∷ (record zero_svalue { subtype = 2 } ∷ (object 32 ∷ []))
unfolding program
middle = refl

replaced :
    array_replace gone vector (num 1) (num 9)
    ≡ num 9 ∷ (record (num 64) { subtype = 2 } ∷ (object 32 ∷ (num 0 ∷ [])))
unfolding program
replaced = refl

vector-IsTyped : IsTyped vector
vector-IsTyped = (refl, (refl, (refl, (refl, tt))))

-- A game whose state is a counter, where the function at 8 answers whether a number is above 0, and
-- the function at 16 adds.
abbrev above : Svalue → Svalue
above x = if is_zero x then num 0 else num 1

abbrev sum : List Svalue → Svalue
sum [] = num 0
sum (x ∷ l) = num (pos_part x.u + pos_part (sum l).u)

abbrev answer : Callee → List Svalue → Svalue
answer (lambda f) l = if eqb_ℤ f.u (pos 16) then sum l else above (get_or l 0 zero_svalue)
answer (shared f x) l = zero_svalue
answer (lfun n x) l = zero_svalue

abbrev apply : Callee → List Svalue → ℕ → Option (Option Svalue × ℕ)
apply c l w = some (some (answer c l), w)

abbrev fun : ℕ → Svalue
fun n = record { type = t_function; subtype = 0; u = pos n }

filtered : filter ℕ (λ w. gone) apply items (fun 8) [] 7 ≡ some (num 1 ∷ (object 32 ∷ []), 7)
unfolding program
filtered = refl

added :
    sum_arrays ℕ (λ w. gone) apply ((num 1 ∷ (num 2 ∷ [])) ∷ ((num 5 ∷ []) ∷ [])) (fun 16) 7
    ≡ some (num 6 ∷ (num 2 ∷ []), 7)
unfolding program
added = refl

filter-keep_example :
    filter ℕ (λ w. gone) apply items (fun 8) [] 7
    ≡ some (map (copied gone) (keep (λ x. not (is_zero (answer_to gone above x))) items), 7)
filter-keep_example =
    filter-keep ℕ (λ w. gone) apply (fun 8) [] above (λ x w. unfold program in refl) refl
      (λ w. refl) items 7

-- Two live items and room for one more, and a vector that is full.
abbrev roomy : Block
roomy = record { item = num 1 ∷ (num 2 ∷ (num 9 ∷ [])); size = 2 }

abbrev full : Block
full = record { item = num 1 ∷ (num 2 ∷ []); size = 2 }

in_room :
    insert_array false (num 7) gone roomy 1 (num 5)
    ≡ some (record { item = num 1 ∷ (num 5 ∷ (num 2 ∷ [])); size = 3 })
unfolding program
in_room = refl

in_copy :
    insert_array false (num 7) gone full 1 (num 5)
    ≡ some (record { item = num 1 ∷ (num 5 ∷ (num 2 ∷ (num 7 ∷ []))); size = 3 })
unfolding program
in_copy = refl

insert_array-Inserted_example :
    Inserted false
      (num 7)
      roomy
      1
      (copied gone (num 5))
      (insert_array false (num 7) gone roomy 1 (num 5))
insert_array-Inserted_example =
    insert_array-Inserted false (num 7) gone roomy 1 (num 5) (omega arith) (omega arith)
