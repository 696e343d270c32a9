-- ===== src/Names.antt =====
-- The hash tables of names: the programs of src/otable.c and the objects of src/more_hashes.c, the
-- same code for two tables. The statistics are left out, and so are the checks that the link of a
-- new entry is null.
pub mod Chains
pub mod Entries
pub mod Tables
use lpc.Base.{ℕ, ◌%◌, Bool, true, false, Option, none, some, List, [], ◌∷◌, ◌==◌, if◌then◌else◌}
use lpc.Hash.{hashstr}
use lpc.Strings.{same_bytes}

-- A program or an object: its address and its name.
pub record Named : Type 0 where
  pub ob : ℕ
  pub name : List ℕ

-- the heads of the chains
abbrev pub Names : Type 0
Names = ℕ → List Named

-- The loop along a chain: the entry with the name, and the chain without it.
unfoldable pub take_out : List ℕ → List Named → Option (Named × List Named)
take_out s [] = none
take_out s (curr ∷ l) = elim (same_bytes curr.name s) [
  | true ↦ some (curr, l)
  | false ↦ elim (take_out s l) [ none ↦ none | some r ↦ some (r.0, curr ∷ r.1) ]
]

-- `table[h] = chain`
abbrev pub put_chain : Names → ℕ → List Named → Names
put_chain t h chain = λ i. if i == h then chain else t i

-- the head of the chain goes: `table[h] = ob->next`
unfoldable pub behind : List Named → List Named
behind [] = []
behind (x ∷ l) = l

module _ (size : ℕ) where
  -- `ObjHash` and `Obj_Hash`
  unfoldable pub name_hash : List ℕ → ℕ
  name_hash s = hashstr s 100 % size

  -- The entry with the name, moved to the head of its chain.
  unfoldable pub find_n : Names → List ℕ → Option Named × Names
  unfolding take_out
  find_n t s = elim (take_out s (t (name_hash s))) [
    | none ↦ (none, t)
    | some r ↦ (some r.0, put_chain t (name_hash s) (r.0 ∷ r.1))
  ]

  -- A name that is there is an error, `none`.
  unfoldable pub enter : Names → Named → Option Names
  enter t ob =
      let f = find_n t ob.name in
      elim f.0 [
        | some s ↦ none
        | none ↦ some (put_chain f.1 (name_hash ob.name) (ob ∷ f.1 (name_hash ob.name)))
      ]

  -- Another entry under the name, or none, is a fatal error.
  unfoldable pub remove : Names → Named → Option Names
  unfolding behind
  remove t ob =
      let f = find_n t ob.name in
      elim f.0 [
        | none ↦ none
        | some s ↦
            if s.ob == ob.ob
            then some (put_chain f.1 (name_hash ob.name) (behind (f.1 (name_hash ob.name))))
            else none
      ]

-- The table of programs.
abbrev pub otable_size : ℕ
otable_size = 107

unfoldable pub find_obj_n : Names → List ℕ → Option Named × Names
unfolding find_n
find_obj_n t s = find_n otable_size t s

abbrev pub lookup_program_hash : Names → List ℕ → Option Named × Names
lookup_program_hash t s = find_obj_n t s

unfoldable pub enter_program_hash : Names → Named → Option Names
unfolding enter
enter_program_hash t ob = enter otable_size t ob

unfoldable pub remove_program_hash : Names → Named → Option Names
unfolding remove
remove_program_hash t ob = remove otable_size t ob

-- The table of objects.
abbrev pub ohash_size : ℕ
ohash_size = 701

unfoldable pub find_hash_n : Names → List ℕ → Option Named × Names
unfolding find_n
find_hash_n t s = find_n ohash_size t s

abbrev pub lookup_my_object_hash : Names → List ℕ → Option Named × Names
lookup_my_object_hash t s = find_hash_n t s

unfoldable pub enter_my_object_hash : Names → Named → Option Names
unfolding enter
enter_my_object_hash t ob = enter ohash_size t ob

unfoldable pub remove_my_object_hash : Names → Named → Option Names
unfolding remove
remove_my_object_hash t ob = remove ohash_size t ob
