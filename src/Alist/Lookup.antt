-- ===== src/Alist/Lookup.antt =====
-- Reading a mapping of src/mapping.c and src/opcodes.c, and the finite map that its parts stand for.
use lpc.Base.{
  All-imp, ℕ, zero, suc, ◌≤◌, ◌<◌, ◌≡◌, refl, inl, inr, Bool, ◌&&◌, Option, none, some, List, [],
  ◌∷◌, length, All, arith, ◌==◌, if◌then◌else◌, set, Bool-cases, ℤ,
}
use lpc.Value.{Svalue, IsValid, rank, is_zero}
use lpc.Arrays.{copied}
use lpc.Alist.{item, index_mapping, mapping, insert_at, remove_at}
use lpc.Alist.Sorted.{IsStrict, AllValid, IsStrict-IsSorted}
use lpc.Alist.Search.{IsAbsent, Under, assoc-absent-or-found}

-- Same place in the order.
infix 50 ◌~◌
abbrev pub ◌~◌ : Svalue → Svalue → Bool
a ~ b = rank a == rank b

-- The finite map that two parallel parts stand for.
unfoldable pub find : Svalue → List Svalue → List Svalue → Option Svalue
find key (k ∷ ks) (v ∷ vs) = if k ~ key then some v else find key ks vs
find key _ _ = none

-- What reading a value from a mapping makes of its undefined zero.
unfoldable pub defined : Svalue → Svalue
defined s = if is_zero s && s.subtype == 1 then record s { subtype = 0 } else s

-- A copy of the value that was found, or of the default.
abbrev pub found_or : (ℤ → Bool) → Svalue → Option Svalue → Svalue
found_or gone d none = copied gone d
found_or gone d (some v) = defined (copied gone v)

-- Parallel parts with keys that are valid, in order and distinct.
pub record IsMap (ks vs : List Svalue) : Type 0 where
  pub keys_valid : AllValid ks
  pub keys_strict : IsStrict ks
  pub parallel : length vs ≡ length ks

pub find-absent : (key : Svalue) (ks vs : List Svalue) → IsAbsent key ks → find key ks vs ≡ none
unfolding find
find-absent key [] vs h = refl
find-absent key (k ∷ ks) [] h = refl
find-absent key (k ∷ ks) (v ∷ vs) h =
    ground (arith, h 0 (omega arith), find-absent key ks vs (λ i lt. h (suc i) (omega arith)))

pub above-item :
    (n : ℕ) (ks : List Svalue) (c : ℕ)
    → All (λ k. n < rank k) ks
    → c < length ks
    → n < rank (item ks c)
above-item n [] c h lt = absurd (omega arith)
above-item n (k ∷ ks) zero h lt = h.0
above-item n (k ∷ ks) (suc c) h lt = above-item n ks c h.1 (omega arith)

find-item :
    (key : Svalue) (ks vs : List Svalue) (c : ℕ)
    → IsStrict ks
    → length vs ≡ length ks
    → c < length ks
    → rank (item ks c) ≡ rank key
    → find key ks vs ≡ some (item vs c)
unfolding find
find-item key [] vs c s e lt h = absurd (omega arith)
find-item key (k ∷ ks) [] c s e lt h = absurd (omega arith)
find-item key (k ∷ ks) (v ∷ vs) zero s e lt h = ground arith
find-item key (k ∷ ks) (v ∷ vs) (suc c) s e lt h = ground (
  arith,
  find-item key ks vs c s.1 (omega arith) (omega arith) h,
  above-item (rank k) ks c s.0 (omega arith),
)

-- In a well formed mapping, indexing by a valid key copies what the finite map of the parts has, or
-- else the default.
pub index_mapping-find :
    (gone : ℤ → Bool) (ks vs : List Svalue) (d key : Svalue)
    → IsMap ks vs
    → IsValid key
    → index_mapping gone (mapping ks vs d) key ≡ found_or gone d (find key ks vs)
unfolding index_mapping defined
index_mapping-find gone ks vs d key m vk =
    elim (assoc-absent-or-found key ks vk m.keys_valid (IsStrict-IsSorted ks m.keys_strict)) [
      | inl (e, absent) ↦ rw (e, index_mapping, find-absent key ks vs absent)
      | inr (c, e, lt, same) ↦
          rw (e, index_mapping, find-item key ks vs c m.keys_strict m.parallel lt same)
    ]

-- The finite map after an insertion, an assignment and a removal.
pub find-insert_at :
    (j key v : Svalue) (ks vs : List Svalue) (n : ℕ)
    → length vs ≡ length ks
    → n ≤ length ks
    → Under key ks n
    → find j (insert_at n key ks) (insert_at n v vs) ≡ (if key ~ j then some v else find j ks vs)
unfolding find insert_at
find-insert_at j key v ks vs zero e le u = refl
find-insert_at j key v [] vs (suc n) e le u = absurd (omega arith)
find-insert_at j key v (k ∷ ks) [] (suc n) e le u = absurd (omega arith)
find-insert_at j key v (k ∷ ks) (w ∷ vs) (suc n) e le u = ground (
  arith,
  u 0 (omega arith),
  find-insert_at j key v ks vs n (omega arith) (omega arith) (λ i lt. u (suc i) (omega arith)),
)

pub find-set :
    (j key v : Svalue) (ks vs : List Svalue) (c : ℕ)
    → IsStrict ks
    → length vs ≡ length ks
    → c < length ks
    → rank (item ks c) ≡ rank key
    → find j ks (set vs c v) ≡ (if key ~ j then some v else find j ks vs)
unfolding find
find-set j key v [] vs c s e lt h = absurd (omega arith)
find-set j key v (k ∷ ks) [] c s e lt h = absurd (omega arith)
find-set j key v (k ∷ ks) (w ∷ vs) zero s e lt h = ground arith
find-set j key v (k ∷ ks) (w ∷ vs) (suc c) s e lt h = ground (
  arith,
  find-set j key v ks vs c s.1 (omega arith) (omega arith) h,
  above-item (rank k) ks c s.0 (omega arith),
)

pub find_above :
    (j : Svalue) (ks vs : List Svalue) → All (λ k. rank j < rank k) ks → find j ks vs ≡ none
unfolding find
find_above j [] vs h = refl
find_above j (k ∷ ks) [] h = refl
find_above j (k ∷ ks) (v ∷ vs) h = ground (arith, find_above j ks vs h.1)

pub find-remove_at :
    (j key : Svalue) (ks vs : List Svalue) (c : ℕ)
    → IsStrict ks
    → length vs ≡ length ks
    → c < length ks
    → rank (item ks c) ≡ rank key
    → find j (remove_at c ks) (remove_at c vs) ≡ (if key ~ j then none else find j ks vs)
unfolding find remove_at
find-remove_at j key [] vs c s e lt h = absurd (omega arith)
find-remove_at j key (k ∷ ks) [] c s e lt h = absurd (omega arith)
find-remove_at j key (k ∷ ks) (w ∷ vs) zero s e lt h = elim (Bool-cases (key ~ j)) [
  | inl same ↦ rw same (find_above j ks vs (All-imp (λ b p. ground arith) ks s.0))
  | inr other ↦ ground arith
]
find-remove_at j key (k ∷ ks) (w ∷ vs) (suc c) s e lt h = ground (
  arith,
  find-remove_at j key ks vs c s.1 (omega arith) (omega arith) h,
  above-item (rank k) ks c s.0 (omega arith),
)
