-- ===== src/Strings.antt =====
-- The shared strings of src/stralloc.c: a hash table of chains, each string with a reference count.
-- A pointer is an address, with the bytes that it points to; addresses are given out in turn.
pub mod Chains
pub mod View
pub mod Sharing
pub mod Freeing
use lpc.Base.{
  ℕ, suc, ◌+◌, ◌-◌, ◌%◌, Bool, true, false, ◌&&◌, Option, none, some, List, [], ◌∷◌, ◌==◌,
  if◌then◌else◌,
}
use lpc.Hash.{hashmem}

pub record Shared : Type 0 where
  pub address : ℕ
  pub str : List ℕ
  pub refs : ℕ

pub record Table : Type 0 where
  pub base_table : ℕ → List Shared
  pub next_address : ℕ

abbrev pub htable_size : ℕ
htable_size = 2203

unfoldable pub str_hash : List ℕ → ℕ
str_hash s = hashmem s 20 % htable_size

-- `len==SIZE(curr) && !MEMCMP(curr,s,len)`
unfoldable pub same_bytes : List ℕ → List ℕ → Bool
same_bytes [] [] = true
same_bytes [] (d ∷ t) = false
same_bytes (c ∷ s) [] = false
same_bytes (c ∷ s) (d ∷ t) = c == d && same_bytes s t

-- The loop along a chain: the string that passes the test, and the chain without it.
unfoldable pub unlink : (Shared → Bool) → List Shared → Option (Shared × List Shared)
unlink test [] = none
unlink test (curr ∷ l) = elim (test curr) [
  | true ↦ some (curr, l)
  | false ↦ elim (unlink test l) [ none ↦ none | some r ↦ some (r.0, curr ∷ r.1) ]
]

-- `base_table[h] = chain`
abbrev pub put : Table → ℕ → List Shared → Table
put t h chain = record t { base_table = λ i. if i == h then chain else t.base_table i }

-- `internal_findstring` and `find_shared_string`: the string, moved to the head of its chain.
unfoldable pub find_in : (Shared → Bool) → Table → ℕ → Option Shared × Table
unfolding unlink
find_in test t h = elim (unlink test (t.base_table h)) [
  | none ↦ (none, t)
  | some r ↦ (some r.0, put t h (r.0 ∷ r.1))
]

abbrev pub by_bytes : List ℕ → Shared → Bool
by_bytes s curr = same_bytes curr.str s

abbrev pub by_address : ℕ → Shared → Bool
by_address p curr = curr.address == p

-- `alloc_new_string`: at the head of its chain, with no reference yet.
unfoldable pub alloc_new_string : Table → List ℕ → ℕ → Table
alloc_new_string t str h =
    record (put t h (record { address = t.next_address; str = str; refs = 0 } ∷ t.base_table h)) {
      next_address = t.next_address + 1;
    }

-- `REFS(s)++` for the string at the head of a chain
unfoldable pub reference : Table → ℕ → Table
reference t h = elim (t.base_table h) [
  | [] ↦ t
  | s ∷ l ↦ put t h (record s { refs = s.refs + 1 } ∷ l)
]

-- `make_shared_string` and `make_shared_binary_string`: the table and the pointer.
unfoldable pub make_shared_string : Table → List ℕ → Table × ℕ
make_shared_string t str =
    let h = str_hash str in
    let f = find_in (by_bytes str) t h in
    elim f.0 [
      | some s ↦ (reference f.1 h, s.address)
      | none ↦ (reference (alloc_new_string f.1 str h) h, f.1.next_address)
    ]

-- `terminally_free_string`: the head of the chain goes.
unfoldable pub terminally_free_string : Table → ℕ → Table
terminally_free_string t h = elim (t.base_table h) [ [] ↦ t | s ∷ l ↦ put t h l ]

-- `REFS(s)--` for the string at the head of a chain
unfoldable pub dereference : Table → ℕ → Table
dereference t h = elim (t.base_table h) [
  | [] ↦ t
  | s ∷ l ↦ put t h (record s { refs = s.refs - 1 } ∷ l)
]

-- `free_string` of the debugging build: a pointer that is not in the table is a fatal error, `none`,
-- and so is a string that has no reference left.
unfoldable pub free_string : Table → ℕ → List ℕ → Option Table
free_string t p str =
    let h = str_hash str in
    let f = find_in (by_address p) t h in
    elim f.0 [
      | none ↦ none
      | some s ↦
          let t' = dereference f.1 h in
          if s.refs == 0
          then none
          else some (if s.refs - 1 == 0 then terminally_free_string t' h else t')
    ]
