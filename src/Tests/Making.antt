-- ===== src/Tests/Making.antt =====
-- The quick sort, and lists and mappings made of arrays, on small inputs.
use lpc.Base.{
  ℕ, ◌<◌, ◌≡◌, refl, List, [], ◌∷◌, ℤ, pos, arith, length, positive, sub_ℕ, get_or, Bool, false,
  true, eqb_ℤ, not,
}
use mathlib.Core.List.{Perm}
use lpc.Value.{Svalue, IsValid, alist_cmp, same_type_cmp, function_cmp, rank, t_number, t_object}
use lpc.Alist.{Alist, mapping, assoc, probe}
use lpc.Alist.Sorted.{AllValid}
use lpc.Arrays.{
  Vector, slice_array, slice_items, copied, freed, check_vector_for_destruct, types_of,
}
use lpc.Calls.Pure.{keep}
use lpc.Fsort.{fsort, fsort2, partition, scan_up, scan_down, swap}
use lpc.Fsort.Partition.{IsOrdering}
use lpc.Fsort.Sorting.{fsort-Sorts}
use lpc.Making.{
  order_alist, order_item, new_alist_cmp, indices, evens, odds, f_m_aggregate, mklist, f_mkmapping,
  difference, subtract_array,
}
use lpc.Making.Orders.{Orders, order_alist-Orders}
use lpc.Making.Distinct.{IsDistinct}
use lpc.Making.Results.{copies}
use lpc.Making.Subtract.{occurs, subtracted, subtract_array-keep}

abbrev num : ℕ → Svalue
num n = record { type = t_number; subtype = 0; u = pos n }

abbrev ob : ℕ → Svalue
ob n = record { type = t_object; subtype = 0; u = pos n }

abbrev dead : ℤ → Bool
dead = eqb_ℤ (pos 64)

abbrev program : Unit {0}
unfolding fsort fsort2 partition scan_up scan_down swap order_alist order_item new_alist_cmp indices
    evens odds f_m_aggregate mklist f_mkmapping difference subtract_array alist_cmp same_type_cmp
    function_cmp slice_array slice_items copied freed check_vector_for_destruct types_of assoc probe
program = tt

abbrev numbers : List ℕ
numbers = 5 ∷ (2 ∷ (9 ∷ (2 ∷ (0 ∷ (7 ∷ (1 ∷ []))))))

fsort-numbers : fsort 0 sub_ℕ numbers ≡ 0 ∷ (1 ∷ (2 ∷ (2 ∷ (5 ∷ (7 ∷ (9 ∷ []))))))
unfolding program
fsort-numbers = refl

sub_ℕ-IsOrdering : IsOrdering sub_ℕ
sub_ℕ-IsOrdering = record { flip = λ x y. ground arith; trans = λ x y z p q. ground arith }

fsort-Sorts_example :
    Perm (fsort 0 sub_ℕ numbers) numbers
    × ((i j : ℕ)
        → i < j
        → j < length numbers
        → positive (sub_ℕ (get_or (fsort 0 sub_ℕ numbers) i 0) (get_or (fsort 0 sub_ℕ numbers) j 0))
          ≡ false)
fsort-Sorts_example = fsort-Sorts 0 sub_ℕ sub_ℕ-IsOrdering numbers

num-IsValid : (n : ℕ) → n < 1000 → IsValid (num n)
num-IsValid n h = record {
  type_short = omega arith;
  subtype_short = omega arith;
  u_int = (omega arith, omega arith);
  low_function = λ e. absurd (omega (arith, e));
}

abbrev keys : List Svalue
keys = num 7 ∷ (num 3 ∷ (num 9 ∷ (num 5 ∷ [])))

abbrev vals : List Svalue
vals = num 70 ∷ (num 30 ∷ (num 90 ∷ (num 50 ∷ [])))

keys-AllValid : AllValid keys
keys-AllValid = omega arith

keys-IsDistinct : IsDistinct keys
unfolding rank
keys-IsDistinct = (
  (λ e. omega arith, (λ e. omega arith, (λ e. omega arith, tt))),
  ((λ e. omega arith, (λ e. omega arith, tt)), ((λ e. omega arith, tt), (tt, tt))),
)

order_alist-Orders_example :
    (ks' : List Svalue) × (vs' : List Svalue) × (order_alist (mapping keys vals (num 0))
      ≡ mapping ks' vs' (num 0))
    × Orders keys vals ks' vs'
order_alist-Orders_example = order_alist-Orders keys vals (num 0) keys-AllValid refl

ordered :
    order_alist (mapping keys vals (num 0))
    ≡ mapping
        (num 3 ∷ (num 5 ∷ (num 7 ∷ (num 9 ∷ []))))
        (num 30 ∷ (num 50 ∷ (num 70 ∷ (num 90 ∷ []))))
        (num 0)
unfolding program
ordered = refl

abbrev argp : List Svalue
argp = num 7 ∷ (num 70 ∷ (num 3 ∷ (num 30 ∷ (num 9 ∷ (num 90 ∷ (num 5 ∷ (num 50 ∷ [])))))))

copies-AllValid : AllValid (copies dead 4 keys)
unfolding copied
copies-AllValid = keys-AllValid

copies-IsDistinct : IsDistinct (copies dead 4 keys)
unfolding copied
copies-IsDistinct = keys-IsDistinct

abbrev minuend : Vector
minuend = record { item = num 9 ∷ (num 4 ∷ (num 9 ∷ (num 3 ∷ (num 8 ∷ [])))); types = λ t. true }

left_over : subtract_array dead minuend keys 1 ≡ num 4 ∷ (num 8 ∷ [])
unfolding program
left_over = refl

minuend-AllValid : AllValid minuend.item
minuend-AllValid = omega arith

subtract_array-keep_example :
    subtract_array dead minuend keys 2
    ≡ keep
        (λ x. not (occurs x (subtracted dead keys 2)))
        (check_vector_for_destruct dead minuend).item
subtract_array-keep_example = subtract_array-keep dead minuend keys 2 minuend-AllValid keys-AllValid
