-- ===== src/Tests/Sum.antt =====
-- Sums of strings and numbers.
use lpc.Base.{ℕ, ◌*◌, ◌≡◌, ◌≤◌, refl, [], ◌∷◌, pos, negsuc, none, arith, length}
use lpc.Text.{Bytes}
use lpc.Strings.{same_bytes}
use lpc.Saving.{Value, number, string, decimal_loop, decimal, print_int}
use lpc.Sum.{
  AddCache, update, summed, write_text, count_room, sum_numbers, cached, sum_strings, f_sum, slot,
}
use lpc.Sum.Cache.{Writes, IsReached, started, added, f_sum-IsReached}
use lpc.Sum.Room.{length-write_text}

abbrev program : Unit {0}
unfolding decimal_loop decimal print_int same_bytes write_text count_room sum_numbers cached
    sum_strings f_sum
program = tt

-- Strings stand at addresses by their first bytes here.
abbrev address : Bytes → ℕ
address [] = 0
address (c ∷ t) = c * 64

abbrev hi : Value
hi = string (104 ∷ (105 ∷ []))

abbrev empty_cache : AddCache
empty_cache = λ e. none

abbrev first_cache : AddCache
first_cache = update empty_cache (slot address (104 ∷ (105 ∷ [])) (104 ∷ (105 ∷ []))) (record {
  a = 104 ∷ (105 ∷ []);
  b = 104 ∷ (105 ∷ []);
  sum = 104 ∷ (105 ∷ (104 ∷ (105 ∷ [])));
  hits = 0;
})

first_sum :
    f_sum address empty_cache (hi ∷ (hi ∷ []))
    ≡ summed (string (104 ∷ (105 ∷ (104 ∷ (105 ∷ []))))) first_cache
unfolding program
first_sum = refl

number_sum :
    f_sum address empty_cache (number 0 (pos 2147483647) ∷ (number 0 (pos 1) ∷ []))
    ≡ summed (number 0 (negsuc 2147483647)) empty_cache
unfolding program
number_sum = refl

mixed_sum :
    f_sum address empty_cache (hi ∷ (number 0 (negsuc 6) ∷ []))
    ≡ summed (string (104 ∷ (105 ∷ (45 ∷ (55 ∷ []))))) empty_cache
unfolding program
mixed_sum = refl

first-IsReached : IsReached address first_cache
first-IsReached =
    added started (hi ∷ (hi ∷ [])) (string (104 ∷ (105 ∷ (104 ∷ (105 ∷ []))))) first_sum

f_sum-IsReached_example :
    Writes address (write_text (hi ∷ (hi ∷ []))) (f_sum address first_cache (hi ∷ (hi ∷ [])))
f_sum-IsReached_example = f_sum-IsReached address first_cache hi (hi ∷ []) first-IsReached refl refl

length-write_text_example :
    length (write_text (hi ∷ (number 0 (negsuc 6) ∷ [])))
    ≤ count_room (hi ∷ (number 0 (negsuc 6) ∷ []))
length-write_text_example =
    length-write_text (hi ∷ (number 0 (negsuc 6) ∷ [])) (tt, ((omega arith, omega arith), tt))
