-- ===== src/Tests/Mappings.antt =====
-- Association lists at keys that are numbers, strings and functions.
use lpc.Base.{
  false, ℕ, ℤ, Bool, ◌<◌, ◌≡◌, refl, List, [], ◌∷◌, none, some, pos, arith, if◌then◌else◌,
}
use lpc.Value.{
  Svalue, IsValid, alist_cmp, same_type_cmp, function_cmp, rank, t_number, t_string, t_function,
}
use lpc.Arrays.{copied}
use lpc.Alist.{
  Alist, place_item, place_items, insert_item, insert_at, probe, settle, search_alist, assoc,
  insert_alist, assign_mapping, index_mapping, remove_mapping2, donk_alist_item, mapping,
}
use lpc.Alist.Sorted.{AllValid, IsSorted}
use lpc.Alist.Search.{IsPlace, search_alist-IsPlace}
use lpc.Alist.Lookup.{◌~◌, find, defined, IsMap}
use lpc.Alist.Update.{Models, remove_mapping2-Models, index_mapping-assign_mapping}
use lpc.Surgery.{choose, count_round, fill_round, surgery, surgery_size, oper_or}
use lpc.Surgery.Multisets.{xor}
use lpc.Surgery.Operators.{Performed, surgery-Combines}

abbrev num : ℕ → Svalue
num n = record { type = t_number; subtype = 0; u = pos n }

abbrev str : ℕ → Svalue
str n = record { type = t_string; subtype = 0; u = pos n }

abbrev fun : ℕ → ℕ → Svalue
fun n k = record { type = t_function; subtype = k; u = pos n }

abbrev keys : List Svalue
keys = fun 64 1 ∷ str 8 ∷ num 3 ∷ num 7 ∷ []

abbrev vals : List Svalue
vals = num 10 ∷ num 20 ∷ num 30 ∷ num 40 ∷ []

abbrev program : Unit {0}
unfolding alist_cmp same_type_cmp function_cmp probe settle search_alist assoc insert_alist
    assign_mapping index_mapping remove_mapping2 donk_alist_item choose count_round fill_round
    surgery surgery_size place_item place_items insert_item insert_at copied
program = tt

abbrev gone : ℤ → Bool
gone u = false

abbrev assigned : Alist
assigned =
    mapping (fun 64 1 ∷ str 8 ∷ num 3 ∷ num 5 ∷ num 7 ∷ [])
      (num 10 ∷ num 20 ∷ num 30 ∷ num 9 ∷ num 40 ∷ []) (num 0)

search-keys : search_alist (num 5) keys ≡ 3
unfolding program
search-keys = refl

assign-keys : assign_mapping gone false (mapping keys vals (num 0)) (num 5) (num 9) ≡ some assigned
unfolding program
assign-keys = refl

remove-keys :
    remove_mapping2 (mapping keys vals (num 0)) (str 8)
    ≡ mapping (fun 64 1 ∷ num 3 ∷ num 7 ∷ []) (num 10 ∷ num 30 ∷ num 40 ∷ []) (num 0)
unfolding program
remove-keys = refl

or-keys :
    surgery {E = Svalue} (λ k. k) oper_or (num 1 ∷ num 3 ∷ []) (num 2 ∷ num 3 ∷ [])
    ≡ some (num 1 ∷ num 2 ∷ num 3 ∷ [])
unfolding program
or-keys = refl

num-IsValid : (n : ℕ) → n < 1000 → IsValid (num n)
num-IsValid n h = record {
  type_short = omega arith;
  subtype_short = omega arith;
  u_int = omega arith;
  low_function = omega arith;
}

keys-AllValid : AllValid keys
keys-AllValid = omega arith

keys-IsMap : IsMap keys vals
unfolding rank
keys-IsMap = record { keys_valid = keys-AllValid; keys_strict = omega arith; parallel = refl }

keys-IsSorted : IsSorted keys
unfolding rank
keys-IsSorted = omega arith

search_alist-IsPlace_example : IsPlace (num 5) keys (search_alist (num 5) keys)
search_alist-IsPlace_example =
    search_alist-IsPlace (num 5) keys (num-IsValid 5 (omega arith)) keys-AllValid keys-IsSorted

remove_mapping2-Models_example :
    Models
      (remove_mapping2 (mapping keys vals (num 0)) (num 3))
      (num 0)
      (λ j. if num 3 ~ j then none else find j keys vals)
remove_mapping2-Models_example =
    remove_mapping2-Models keys vals (num 0) keys-IsMap (num 3) (num-IsValid 3 (omega arith))

index_mapping-assign_mapping_example : index_mapping gone assigned (num 7) ≡ (
    if num 5 ~ num 7
    then defined (copied gone (num 9))
    else index_mapping gone (mapping keys vals (num 0)) (num 7))
index_mapping-assign_mapping_example =
    index_mapping-assign_mapping gone false keys vals (num 0) (num 5) (num 9) (num 7) assigned
      keys-IsMap (num-IsValid 5 (omega arith)) refl (num-IsValid 7 (omega arith)) assign-keys

abbrev other_keys : List Svalue
other_keys = str 8 ∷ str 8 ∷ num 9 ∷ []

other-IsSorted : IsSorted other_keys
unfolding rank
other-IsSorted = omega arith

surgery-Combines_example : Performed (λ (k : Svalue). k) false xor keys other_keys
surgery-Combines_example =
    surgery-Combines (λ (k : Svalue). k) false xor keys other_keys keys-AllValid (omega arith)
      keys-IsSorted other-IsSorted
