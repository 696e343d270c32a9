-- ===== src/Tests/Tables.antt =====
-- Shared strings: the table after a few calls.
use lpc.Base.{ℕ, ◌≡◌, refl, List, [], ◌∷◌, some}
use lpc.Hash.{hashmem, hashstr}
use lpc.Strings.{
  Table, str_hash, unlink, same_bytes, find_in, alloc_new_string, reference, dereference,
  terminally_free_string, make_shared_string, free_string,
}
use lpc.Strings.Chains.{entry}
use lpc.Strings.View.{view, IsValid}
use lpc.Strings.Sharing.{Sets, Shares, make_shared_string-Shares}
use lpc.Strings.Freeing.{less_one, free_string-Sets, shared}

abbrev foo : List ℕ
foo = b'f' ∷ b'o' ∷ b'o' ∷ []

abbrev bar : List ℕ
bar = b'b' ∷ b'a' ∷ b'r' ∷ []

abbrev empty : Table
empty = record { base_table = λ h. []; next_address = 0 }

abbrev program : Unit {0}
unfolding hashmem str_hash same_bytes unlink find_in alloc_new_string reference dereference
    terminally_free_string make_shared_string free_string entry hashstr
program = tt

abbrev both : Table
both = (make_shared_string (make_shared_string (make_shared_string empty foo).0 bar).0 foo).0

foo_twice : view both foo ≡ some (record { address = 0; str = foo; refs = 2 })
unfolding program
foo_twice = refl

empty-IsValid : IsValid empty
empty-IsValid = record { contents = λ a. []; shared = λ h. tt; distinct = λ h. tt }

both-IsValid : IsValid both
both-IsValid =
    (make_shared_string-Shares _ foo
      (make_shared_string-Shares _ bar
        (make_shared_string-Shares empty foo empty-IsValid).sets.valid).sets.valid).sets.valid

make_shared_string-Shares_example : Shares both bar (make_shared_string both bar)
make_shared_string-Shares_example = make_shared_string-Shares both bar both-IsValid

free_string-Sets_example :
    (t' : Table) × (free_string both 0 foo ≡ some t')
    × Sets both foo (less_one (record { address = 0; str = foo; refs = 2 })) t'
free_string-Sets_example =
    free_string-Sets both foo (record { address = 0; str = foo; refs = 2 }) both-IsValid foo_twice
