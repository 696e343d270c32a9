-- ===== src/Tests/Names.antt =====
-- Programs and objects that are entered, looked up and removed.
use lpc.Base.{ℕ, ◌≡◌, refl, subst, none, some, [], ◌∷◌}
use lpc.Hash.{hashmem, hashstr, c_string}
use lpc.Strings.{same_bytes}
use lpc.Names.{
  Named, Names, take_out, name_hash, find_n, enter, remove, behind, ohash_size, find_obj_n,
  find_hash_n, enter_program_hash, remove_program_hash, lookup_program_hash, enter_my_object_hash,
  put_chain,
}
use lpc.Names.Entries.{IsValid, Enters, Removes, enter-Enters, remove-Removes}

abbrev room : Named
room = record { ob = 64; name = b'r' ∷ [] }

abbrev void : Named
void = record { ob = 96; name = b'v' ∷ [] }

abbrev empty : Names
empty h = []

abbrev program : Unit {0}
unfolding take_out name_hash find_n enter remove behind find_obj_n find_hash_n enter_program_hash
    remove_program_hash enter_my_object_hash hashmem hashstr c_string same_bytes
program = tt

empty-IsValid : (size : ℕ) → IsValid size empty
empty-IsValid size = record { hashed = λ h. tt; distinct = λ h. tt }

-- The table of objects with one entry.
abbrev one : Names
one = put_chain empty (name_hash ohash_size (b'v' ∷ [])) (void ∷ [])

entered_void : enter ohash_size empty void ≡ some one
unfolding program
entered_void = refl

one-IsValid : IsValid ohash_size one
one-IsValid =
    (subst (Enters ohash_size empty void) entered_void
      (enter-Enters ohash_size empty void (empty-IsValid ohash_size))).1.valid

enter-Enters_example : Enters ohash_size one room (enter ohash_size one room)
enter-Enters_example = enter-Enters ohash_size one room one-IsValid

remove-Removes_example : Removes ohash_size one void (remove ohash_size one void)
remove-Removes_example = remove-Removes ohash_size one void one-IsValid

unknown : (lookup_program_hash empty (b'r' ∷ [])).0 ≡ none
unfolding program
unknown = refl

entered : enter_my_object_hash empty void ≡ some one
unfolding program
entered = refl
