-- ===== src/Strings/Freeing.antt =====
-- `free_string` of src/stralloc.c and the finite map of the table, and the pointers to strings.
use lpc.Base.{
  false, ℕ, ◌-◌, ◌≡◌, [], sym, ◌∙◌, subst, Option, none, some, List, ◌∷◌, ◌==◌, if◌then◌else◌,
  arith, inl, inr, Bool-cases, some_inj, none_ne_some,
}
use lpc.Strings.{
  Shared, Table, str_hash, unlink, by_bytes, by_address, put, free_string, make_shared_string,
}
use lpc.Strings.Chains.{
  entry, entry-str, IsShared, Unlinks, unlink-Unlinks, unlink-by_address, entry-Differ,
}
use lpc.Strings.View.{view, IsValid, dereference-put, terminally_free_string-put}
use lpc.Strings.Sharing.{find_in-some, kept, back, gone, Sets}

-- What is left of a string with one reference less.
abbrev pub less_one : Shared → Option Shared
less_one e = if e.refs - 1 == 0 then none else some (record e { refs = e.refs - 1 })

-- The string under `b` and its chain without it.
abbrev Found : Table → List ℕ → Shared → Type 0
Found t b e =
    (rest : List Shared) × (unlink (by_bytes b) (t.base_table (str_hash b)) ≡ some (e, rest))
    × Unlinks b (t.base_table (str_hash b)) e rest

found : (t : Table) (b : List ℕ) (e : Shared) → IsValid t → view t b ≡ some e → Found t b e
found t b e v h = elim (unlink-Unlinks b (t.base_table (str_hash b)) (v.distinct (str_hash b))) [
  | inl (run, d) ↦ absurd (none_ne_some (sym (entry-Differ b (t.base_table (str_hash b)) d) ∙ h))
  | inr (e', rest, run, u) ↦ subst (Found t b) (some_inj (sym u.present ∙ h)) (rest, run, u)
]

shared_of :
    (t : Table) (b : List ℕ) (e : Shared) (v : IsValid t)
    → view t b ≡ some e
    → IsShared v.contents t.next_address (str_hash b) e
shared_of t b e v h = let (rest, run, u) = found t b e v h in (kept t v b e rest run u).0

by_pointer :
    (t : Table) (b : List ℕ) (e : Shared) (v : IsValid t) (h : view t b ≡ some e)
    → unlink (by_address e.address) (t.base_table (str_hash b)) ≡ some (e, (found t b e v h).0)
by_pointer t b e v h =
    let str : e.str ≡ b = entry-str b (t.base_table (str_hash b)) e h in
    unlink-by_address v.contents t.next_address (str_hash b) (t.base_table (str_hash b)) e
      (v.shared (str_hash b)) (shared_of t b e v h).content
      (subst (λ c. entry c (t.base_table (str_hash b)) ≡ some e) (sym str) h)
    ∙ (subst (λ c. unlink (by_bytes c) (t.base_table (str_hash b)) ≡ some (e, (found t b e v h).0))
        (sym str) (found t b e v h).1)

free_run :
    (t : Table) (b : List ℕ) (e : Shared) (rest : List Shared)
    → unlink (by_address e.address) (t.base_table (str_hash b)) ≡ some (e, rest)
    → e.refs == 0 ≡ false
    → free_string t e.address b
      ≡ some (
          if e.refs - 1 == 0
          then put t (str_hash b) rest
          else put t (str_hash b) (record e { refs = e.refs - 1 } ∷ rest))
unfolding free_string
free_run t b e rest run live =
    let f = find_in-some (by_address e.address) t (str_hash b) e rest run in
    rw (
      f,
      free_string,
      live,
      f,
      dereference-put t (str_hash b) e rest,
      terminally_free_string-put t (str_hash b) (record e { refs = e.refs - 1 }) rest,
    )

-- In a well formed table, freeing the pointer of a string of the table succeeds: the string has
-- one reference less or, when none is left, is gone, the other strings are as they were, and the
-- table stays well formed.
pub free_string-Sets :
    (t : Table) (b : List ℕ) (e : Shared)
    → IsValid t
    → view t b ≡ some e
    → (t' : Table) × (free_string t e.address b ≡ some t') × Sets t b (less_one e) t'
free_string-Sets t b e v h =
    let (rest, run, u) = found t b e v h in
    let used = (kept t v b e rest run u).0.used in
    let live : e.refs == 0 ≡ false = ground (arith, used) in
    elim (Bool-cases (e.refs - 1 == 0)) [
      | inl last ↦ (
        put t (str_hash b) rest,
        free_run t b e rest (by_pointer t b e v h) live ∙ rw last,
        rw last (gone t v b e rest run u),
      )
      | inr more ↦ (
        put t (str_hash b) (record e { refs = e.refs - 1 } ∷ rest),
        free_run t b e rest (by_pointer t b e v h) live ∙ rw more,
        rw more (back t v b e rest run u (e.refs - 1) (ground arith)),
      )
    ]

-- The tables that sharing and freeing strings make of the empty table, in any order.
pub data IsReached : Table → Type 0 where
  started : IsReached (record { base_table = λ h. []; next_address = 0 })
  shared : {t : Table} → IsReached t → (b : List ℕ) → IsReached (make_shared_string t b).0
  freed :
      {t t' : Table}
      → IsReached t
      → (b : List ℕ) (e : Shared) → view t b ≡ some e
      → free_string t e.address b ≡ some t'
      → IsReached t'
