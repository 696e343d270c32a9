-- ===== src/Tests/Cleanups.antt =====
-- Mappings with a destructed key, and a value that is the default.
use lpc.Base.{
  false, ◌||◌, ◌&&◌, ◌==◌, ℕ, ◌≡◌, refl, List, [], ◌∷◌, some, ℤ, pos, eqb_ℤ, Bool, length, arith,
}
use lpc.Value.{
  Svalue, IsValid, rank, alist_cmp, same_type_cmp, function_cmp, t_number, t_object,
  undefined_svalue,
}
use lpc.Alist.{mapping, donk_alist_item, index_mapping}
use lpc.Alist.Lookup.{IsMap, find, found_or}
use lpc.Arrays.{freed, check_vector_for_destruct, types_of}
use lpc.Surgery.{surgery, oper_sub}
use lpc.Mappings.{
  subtract_mapping, subtract_count, check_alist_for_destruct, cleanup_map, donk_loop, check_rest,
  AlistTypes, check_plain, check_own, check_keys, check_parts, kept_keys, kept_values,
}
use lpc.Mappings.Subtract.{surgery-subtract_mapping}
use lpc.Mappings.Live.{live_keys, Covers}
use lpc.Mappings.Cleanup.{sieve, checked_values, cleanup_map-find}

abbrev num : ℕ → Svalue
num n = record { type = t_number; subtype = 0; u = pos n }

abbrev object : ℕ → Svalue
object n = record { type = t_object; subtype = 0; u = pos n }

abbrev gone : ℤ → Bool
gone u = eqb_ℤ u (pos 64)

abbrev keys : List Svalue
keys = object 32 ∷ (object 64 ∷ (num 3 ∷ (num 7 ∷ [])))

abbrev vals : List Svalue
vals = num 5 ∷ (num 6 ∷ (num 0 ∷ (num 8 ∷ [])))

-- The list has parts and numbers, the keys objects and numbers, the values numbers alone.
abbrev all_types : AlistTypes
all_types = record {
  own = λ t. t == 11 || t == t_number;
  of_part = λ e t. t == t_number || (e == 0 && t == t_object);
}

keys-Covers : Covers all_types keys vals (num 0)
keys-Covers = record {
  default_typed = refl;
  keys_typed = (refl, (refl, (refl, (refl, tt))));
  values_typed = (refl, (refl, (refl, (refl, tt))));
}

abbrev program : Unit {0}
unfolding alist_cmp same_type_cmp function_cmp donk_alist_item freed subtract_mapping subtract_count
    check_alist_for_destruct cleanup_map donk_loop check_rest check_plain check_own check_keys
    check_parts check_vector_for_destruct types_of kept_keys kept_values
program = tt

subtracted :
    subtract_mapping (λ x. x) (num 1 ∷ (num 2 ∷ (num 4 ∷ []))) (num 2 ∷ (num 3 ∷ []))
    ≡ num 1 ∷ (num 4 ∷ [])
unfolding program
subtracted = refl

cleaned : cleanup_map gone all_types (mapping keys vals (num 0)) ≡ (
  mapping (object 32 ∷ (num 3 ∷ (num 7 ∷ []))) (num 5 ∷ (num 0 ∷ (num 8 ∷ []))) undefined_svalue,
  mapping (object 32 ∷ (num 7 ∷ [])) (num 5 ∷ (num 8 ∷ [])) undefined_svalue,
)
unfolding program
cleaned = refl

-- Without the type of objects in the set, a destructed key stays.
missed :
    check_alist_for_destruct gone
      (record { own = λ t. false; of_part = λ e t. false })
      (mapping keys vals (num 0))
    ≡ mapping keys vals (num 0)
unfolding program
missed = refl

surgery-subtract_mapping_example :
    (surgery (λ x. x) oper_sub (num 1 ∷ (num 2 ∷ [])) (num 2 ∷ [])
      ≡ some (subtract_mapping (λ x. x) (num 1 ∷ (num 2 ∷ [])) (num 2 ∷ [])))
    × (length (subtract_mapping (λ x. x) (num 1 ∷ (num 2 ∷ [])) (num 2 ∷ []))
        ≡ subtract_count (λ x. x) (num 1 ∷ (num 2 ∷ [])) (num 2 ∷ []))
surgery-subtract_mapping_example =
    surgery-subtract_mapping (λ x. x) (num 1 ∷ (num 2 ∷ [])) (num 2 ∷ [])

keys-IsMap : IsMap keys vals
unfolding rank
keys-IsMap = record { keys_valid = omega arith; keys_strict = omega arith; parallel = refl }

seven-IsValid : IsValid (num 7)
seven-IsValid = record {
  type_short = omega arith;
  subtype_short = omega arith;
  u_int = omega arith;
  low_function = omega arith;
}

cleanup_map-find_example :
    (index_mapping gone (cleanup_map gone all_types (mapping keys vals (num 0))).1 (num 7)
      ≡ found_or gone undefined_svalue (
          sieve
            (freed gone (num 0))
            (find (num 7) (live_keys gone keys) (checked_values gone keys vals))))
    × ((cleanup_map gone all_types (mapping keys vals (num 0))).0
        ≡ mapping (live_keys gone keys) (checked_values gone keys vals) undefined_svalue)
cleanup_map-find_example =
    cleanup_map-find gone all_types keys vals (num 0) (num 7) keys-Covers keys-IsMap seven-IsValid
