-- ===== src/Strings/View.antt =====
-- The table of src/stralloc.c as a finite map from bytes to a pointer and its references.
use lpc.Base.{
  ℕ, ◌+◌, ◌-◌, ◌≡◌, sym, ap, ◌∙◌, subst, true, Option, List, ◌∷◌, ◌==◌, if◌then◌else◌, All, arith,
  inl, inr, Bool-cases, ==_iff,
}
use mathlib.Core.Path.{fun_ext}
use lpc.Strings.{Shared, Table, str_hash, put, reference, dereference, terminally_free_string}
use lpc.Strings.Chains.{entry, IsDistinct, IsShared}

-- The string with the bytes `b`, if there is one.
abbrev pub view : Table → List ℕ → Option Shared
view t b = entry b (t.base_table (str_hash b))

-- Every string is in the chain of its hash, no bytes stand in a chain twice, every string is referred
-- to, and an address has one contents.
pub record IsValid (t : Table) : Type 0 where
  pub contents : ℕ → List ℕ
  pub shared : (h : ℕ) → All (IsShared contents t.next_address h) (t.base_table h)
  pub distinct : (h : ℕ) → IsDistinct (t.base_table h)

pub same_index : (h : ℕ) → h == h ≡ true
same_index h = ground arith

put-put : (t : Table) (h : ℕ) (a b : List Shared) → put (put t h a) h b ≡ put t h b
put-put t h a b =
    λ i. record { base_table = fun_ext (λ j. collapse j) i; next_address = t.next_address }
  where
    collapse :
        (j : ℕ)
        → (if j == h then b else if j == h then a else t.base_table j)
          ≡ (if j == h then b else t.base_table j)
    collapse j = ground arith

pub reference-put :
    (t : Table) (h : ℕ) (s : Shared) (l : List Shared)
    → reference (put t h (s ∷ l)) h ≡ put t h (record s { refs = s.refs + 1 } ∷ l)
unfolding reference
reference-put t h s l = rw (same_index h, reference) (put-put t h _ _)

pub dereference-put :
    (t : Table) (h : ℕ) (s : Shared) (l : List Shared)
    → dereference (put t h (s ∷ l)) h ≡ put t h (record s { refs = s.refs - 1 } ∷ l)
unfolding dereference
dereference-put t h s l = rw (same_index h, dereference) (put-put t h _ _)

pub terminally_free_string-put :
    (t : Table) (h : ℕ) (s : Shared) (l : List Shared)
    → terminally_free_string (put t h (s ∷ l)) h ≡ put t h l
unfolding terminally_free_string
terminally_free_string-put t h s l = rw (same_index h, terminally_free_string) (put-put t h _ _)

-- The map after the chain of `b` is replaced.
pub view-put_self :
    (t : Table) (b : List ℕ) (l : List Shared) → view (put t (str_hash b) l) b ≡ entry b l
view-put_self t b l = rw (same_index (str_hash b))

pub view-put :
    (t : Table) (b c : List ℕ) (l : List Shared)
    → entry c l ≡ entry c (t.base_table (str_hash b))
    → view (put t (str_hash b) l) c ≡ view t c
view-put t b c l e = elim (Bool-cases (str_hash c == str_hash b)) [
  | inl same ↦ rw same (e ∙ ap (λ h. entry c (t.base_table h)) (sym ((==_iff _ _).0 same)))
  | inr other ↦ rw other
]

pub IsValid-put :
    (t : Table) (h : ℕ) (l : List Shared) (v : IsValid t)
    → All (IsShared v.contents t.next_address h) l
    → IsDistinct l
    → IsValid (put t h l)
IsValid-put t h l v a d = record {
  contents = v.contents;
  shared = λ i. elim (Bool-cases (i == h)) [
    | inl same ↦
        rw same
          (subst (λ j. All (IsShared v.contents t.next_address j) l) (sym ((==_iff _ _).0 same)) a)
    | inr other ↦ rw other (v.shared i)
  ];
  distinct = λ i. elim (Bool-cases (i == h)) [
    | inl same ↦ rw same d
    | inr other ↦ rw other (v.distinct i)
  ];
}
