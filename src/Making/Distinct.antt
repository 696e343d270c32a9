-- ===== src/Making/Distinct.antt =====
-- Entries with keys that are not equal, for src/array.c: what their order does not change.
use lpc.Base.{
  ◌≤◌, ◌<◌, ◌≡◌, ◌≢◌, refl, sym, ◌∙◌, subst, List, [], ◌∷◌, Option, none, some, if◌then◌else◌,
  arith, All, length,
}
use mathlib.Core.Logic.{∥∥₁_elim}
use native.Mathlib.Bridge.{le_prop}
use mathlib.Core.List.{Permᴰ}
use mathlib.Core.List.Permᴰ
use lpc.Value.{Svalue, rank}
use lpc.Alist.Sorted.{IsSorted, IsStrict}
use lpc.Alist.Lookup.{find, IsMap, ◌~◌}
use lpc.Making.Orders.{pairs, Orders}

abbrev pub Entry : Type 0
Entry = Svalue × Svalue

-- No two keys are equal.
abbrev pub IsDistinct : List Svalue → Type 0
IsDistinct [] = Unit {0}
IsDistinct (k ∷ ks) = All (λ b. rank k ≢ rank b) ks × IsDistinct ks

abbrev Apart : Entry → List Entry → Type 0
Apart x l = All (λ y. rank x.0 ≢ rank y.0) l

abbrev AreApart : List Entry → Type 0
AreApart [] = Unit {0}
AreApart (x ∷ l) = Apart x l × AreApart l

lookup : Svalue → List Entry → Option Svalue
lookup key [] = none
lookup key (x ∷ l) = if x.0 ~ key then some x.1 else lookup key l

find-pairs : (key : Svalue) (ks vs : List Svalue) → find key ks vs ≡ lookup key (pairs ks vs)
unfolding find lookup
find-pairs key [] vs = refl
find-pairs key (k ∷ ks) [] = refl
find-pairs key (k ∷ ks) (v ∷ vs) = rw (find-pairs key ks vs) refl

Apart-perm : (x : Entry) {l m : List Entry} → Permᴰ l m → Apart x l → Apart x m
Apart-perm x Permᴰ.nil h = tt
Apart-perm x (Permᴰ.cons {b = b} e d) h =
    (subst (λ (y : Entry). rank x.0 ≢ rank y.0) e h.0, Apart-perm x d h.1)
Apart-perm x (Permᴰ.swap e e') h = (
  subst (λ (y : Entry). rank x.0 ≢ rank y.0) e' h.1.0,
  (subst (λ (y : Entry). rank x.0 ≢ rank y.0) e h.0, h.1.1),
)
Apart-perm x (Permᴰ.trans d d') h = Apart-perm x d' (Apart-perm x d h)

AreApart-perm : {l m : List Entry} → Permᴰ l m → AreApart l → AreApart m
AreApart-perm Permᴰ.nil h = tt
AreApart-perm (Permᴰ.cons {a = a} {b = b} {l₂ = m} e d) h =
    (subst (λ (y : Entry). Apart y m) e (Apart-perm a d h.0), AreApart-perm d h.1)
AreApart-perm (Permᴰ.swap {a = a} {b = b} {b' = b'} {l = l} e e') h =
    let swapped : AreApart (b ∷ (a ∷ l)) = ((λ g. h.0.0 (sym g), h.1.0), (h.0.1, h.1.1)) in
    subst (λ (y : Entry). AreApart (y ∷ (b' ∷ l))) e'
      (subst (λ (y : Entry). AreApart (b ∷ (y ∷ l))) e swapped)
AreApart-perm (Permᴰ.trans d d') h = AreApart-perm d' (AreApart-perm d h)

lookup-perm :
    (key : Svalue) {l m : List Entry} → Permᴰ l m → AreApart l → lookup key l ≡ lookup key m
unfolding lookup
lookup-perm key Permᴰ.nil h = refl
lookup-perm key (Permᴰ.cons {a = a} e d) h = rw (sym e, lookup-perm key d h.1) refl
lookup-perm key (Permᴰ.swap {a = a} {b = b} e e') h = rw (sym e, sym e') (ground (arith, h.0.0))
lookup-perm key (Permᴰ.trans d d') h = lookup-perm key d h ∙ lookup-perm key d' (AreApart-perm d h)

AreApart-pairs :
    (ks vs : List Svalue) → length vs ≡ length ks → IsDistinct ks → AreApart (pairs ks vs)
AreApart-pairs [] vs e h = tt
AreApart-pairs (k ∷ ks) [] e h = absurd (omega arith)
AreApart-pairs (k ∷ ks) (v ∷ vs) e h = (apart ks vs h.0, AreApart-pairs ks vs (omega arith) h.1)
  where
    apart : (ks vs : List Svalue) → All (λ b. rank k ≢ rank b) ks → Apart (k, v) (pairs ks vs)
    apart [] vs h = tt
    apart (k' ∷ ks) [] h = tt
    apart (k' ∷ ks) (v' ∷ vs) h = (h.0, apart ks vs h.1)

IsStrict-pairs :
    (ks vs : List Svalue)
    → length vs ≡ length ks
    → AreApart (pairs ks vs)
    → IsSorted ks
    → IsStrict ks
IsStrict-pairs [] vs e h s = tt
IsStrict-pairs (k ∷ ks) [] e h s = absurd (omega arith)
IsStrict-pairs (k ∷ ks) (v ∷ vs) e h s =
    (strictly ks vs (omega arith) h.0 s.0, IsStrict-pairs ks vs (omega arith) h.1 s.1)
  where
    strictly :
        (ks vs : List Svalue)
        → length vs ≡ length ks
        → Apart (k, v) (pairs ks vs)
        → All (λ b. rank k ≤ rank b) ks
        → All (λ b. rank k < rank b) ks
    strictly [] vs e a l = tt
    strictly (k' ∷ ks) [] e a l = absurd (omega arith)
    strictly (k' ∷ ks) (v' ∷ vs) e a l =
        (omega (arith, a.0, l.0), strictly ks vs (omega arith) a.1 l.1)

option_set : IsSet (Option Svalue)
option_set = hlevel

All-prop : (k : Svalue) (l : List Svalue) → IsProp (All (λ b. rank k < rank b) l)
All-prop k [] = hlevel
All-prop k (b ∷ l) = hlevel (le_prop, All-prop k l)

IsStrict-prop : (l : List Svalue) → IsProp (IsStrict l)
IsStrict-prop [] = hlevel
IsStrict-prop (k ∷ l) = hlevel (All-prop k l, IsStrict-prop l)

-- Parallel parts in the order of their keys, where no two keys were equal.
module _ (ks vs ks' vs' : List Svalue) (e : length vs ≡ length ks) (o : Orders ks vs ks' vs')
    (d : IsDistinct ks) where
  pub Orders-IsMap : IsMap ks' vs'
  Orders-IsMap = record {
    keys_valid = o.keys_valid;
    keys_strict = ∥∥₁_elim o.entries (IsStrict-prop ks') (λ p.
        IsStrict-pairs ks' vs' o.parallel (AreApart-perm (Permᴰ.symm p) (AreApart-pairs ks vs e d))
          o.keys_sorted);
    parallel = o.parallel;
  }

  pub find-Orders : (key : Svalue) → find key ks' vs' ≡ find key ks vs
  find-Orders key =
      let same : lookup key (pairs ks vs) ≡ lookup key (pairs ks' vs') =
        ∥∥₁_elim o.entries (option_set _ _)
          (λ p. lookup-perm key (Permᴰ.symm p) (AreApart-pairs ks vs e d)) in
      find-pairs key ks' vs' ∙ sym same ∙ sym (find-pairs key ks vs)
