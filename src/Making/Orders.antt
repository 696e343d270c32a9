-- ===== src/Making/Orders.antt =====
-- `order_alist` of src/array.c: the order of the keys, and the parts that move together.
use lpc.Base.{
  ℕ, zero, suc, ◌+◌, ◌==◌, ◌≤◌, ◌<◌, ◌≡◌, refl, sym, ap, ◌∙◌, subst, List, [], ◌∷◌, map, ltb, arith,
  All, length, length-map, get_or, negative, positive, false,
}
use mathlib.Core.List.{Perm}
use mathlib.Core.List.Perm
use lpc.Value.{Svalue, IsValid, rank, alist_cmp, zero_svalue}
use lpc.Value.Order.{alist_cmp-rank}
use lpc.Alist.{item, mapping, allocate_list}
use lpc.Alist.Sorted.{AllValid, IsSorted}
use lpc.Fsort.{fsort, fsort2}
use lpc.Fsort.Partition.{IsOrdering}
use lpc.Fsort.Sorting.{fsort-Sorts, length-fsort}
use lpc.Making.{indices, new_alist_cmp, order_item, order_alist}

abbrev pub pairs : List Svalue → List Svalue → List (Svalue × Svalue)
pairs (k ∷ ks) (v ∷ vs) = (k, v) ∷ pairs ks vs
pairs _ _ = []

length-indices : (n e : ℕ) → length (indices n e) ≡ n
unfolding indices
length-indices zero e = refl
length-indices (suc n) e = ap suc (length-indices n (e + 1))

-- The indices that count a list off give its items back.
map-indices :
    {B : Type 0} (d : B) (l : List B) (g : ℕ → B) (e : ℕ)
    → ((i : ℕ) → i < length l → g (e + i) ≡ get_or l i d)
    → map g (indices (length l) e) ≡ l
unfolding indices
map-indices d [] g e h = refl
map-indices d (x ∷ l) g e h =
    let zeroth : e + 0 ≡ e = omega arith in
    let head : g e ≡ x = ap g (sym zeroth) ∙ h 0 (omega arith) in
    let tail = map-indices d l g (e + 1) (λ i lt.
      let next : e + 1 + i ≡ e + suc i = omega arith in ap g next ∙ h (suc i) (omega arith)) in
    rw (head, tail) refl

pub length-pairs : (ks vs : List Svalue) → length vs ≡ length ks → length (pairs ks vs) ≡ length ks
length-pairs [] vs e = refl
length-pairs (k ∷ ks) [] e = absurd (omega arith)
length-pairs (k ∷ ks) (v ∷ vs) e = ap suc (length-pairs ks vs (omega arith))

item-pairs :
    (ks vs : List Svalue) (i : ℕ)
    → length vs ≡ length ks
    → (item ks i, item vs i) ≡ get_or (pairs ks vs) i (zero_svalue, zero_svalue)
item-pairs [] [] i e = refl
item-pairs [] (v ∷ vs) i e = absurd (omega arith)
item-pairs (k ∷ ks) [] i e = absurd (omega arith)
item-pairs (k ∷ ks) (v ∷ vs) zero e = refl
item-pairs (k ∷ ks) (v ∷ vs) (suc i) e = item-pairs ks vs i (omega arith)

pairs-map : (f g : ℕ → Svalue) (l : List ℕ) → pairs (map f l) (map g l) ≡ map (λ i. (f i, g i)) l
pairs-map f g [] = refl
pairs-map f g (i ∷ l) = ap (◌∷◌ (f i, g i)) (pairs-map f g l)

zero_svalue-IsValid : IsValid zero_svalue
zero_svalue-IsValid = record {
  type_short = omega arith;
  subtype_short = omega arith;
  u_int = (omega arith, omega arith);
  low_function = λ e. omega arith;
}

item-IsValid : (l : List Svalue) (i : ℕ) → AllValid l → IsValid (item l i)
item-IsValid [] i h = zero_svalue-IsValid
item-IsValid (x ∷ l) zero h = h.0
item-IsValid (x ∷ l) (suc i) h = item-IsValid l i h.1

module _ (keys : List Svalue) (h : AllValid keys) where
  new_alist_cmp-rank :
      (x y : ℕ)
      → (negative (new_alist_cmp keys x y) ≡ ltb (rank (item keys x)) (rank (item keys y)))
        × (positive (new_alist_cmp keys x y) ≡ ltb (rank (item keys y)) (rank (item keys x)))
  unfolding new_alist_cmp
  new_alist_cmp-rank x y =
      alist_cmp-rank (item keys x) (item keys y) (item-IsValid keys x h) (item-IsValid keys y h)

  new_alist_cmp-IsOrdering : IsOrdering (new_alist_cmp keys)
  new_alist_cmp-IsOrdering = record {
    flip = λ x y. (new_alist_cmp-rank x y).0 ∙ sym (new_alist_cmp-rank y x).1;
    trans = λ x y z p q.
        ground (arith, new_alist_cmp-rank x y, new_alist_cmp-rank y z, new_alist_cmp-rank x z);
  }

-- A list of indices none of which is above a later one.
ordered-IsSorted :
    (keys : List Svalue) (tmp : List ℕ)
    → AllValid keys
    → ((i j : ℕ)
        → i < j
        → j < length tmp
        → positive (new_alist_cmp keys (get_or tmp i 0) (get_or tmp j 0)) ≡ false)
    → IsSorted (map (item keys) tmp)
unfolding new_alist_cmp
ordered-IsSorted keys [] v h = tt
ordered-IsSorted keys (x ∷ tmp) v h = (
  below tmp (λ j lt. h 0 (suc j) (omega arith) (omega arith)),
  ordered-IsSorted keys tmp v (λ i j p q. h (suc i) (suc j) (omega arith) (omega arith)),
)
  where
    below :
        (l : List ℕ)
        → ((j : ℕ)
            → j < length l
            → positive (alist_cmp (item keys x) (item keys (get_or l j 0))) ≡ false)
        → All (λ b. rank (item keys x) ≤ rank b) (map (item keys) l)
    below [] g = tt
    below (y ∷ l) g = (
      ground (
        arith,
        alist_cmp-rank (item keys x) (item keys y) (item-IsValid keys x v) (item-IsValid keys y v),
        g 0,
      ),
      below l (λ j lt. g (suc j) (omega arith)),
    )

abbrev sorted_indices : List Svalue → List ℕ
sorted_indices ks = fsort 0 (new_alist_cmp ks) (indices (length ks) 0)

-- The parallel parts `ks` and `vs` come into the order of the keys, each value with its key.
pub record Orders (ks vs ks' vs' : List Svalue) : Type 0 where
  pub parallel : length vs' ≡ length ks'
  pub keys_valid : AllValid ks'
  pub keys_sorted : IsSorted ks'
  pub entries : Perm (pairs ks' vs') (pairs ks vs)

module _ (ks vs : List Svalue) (v : AllValid ks) (e : length vs ≡ length ks) where
  sorted-Orders :
      Orders ks vs (map (item ks) (sorted_indices ks)) (map (item vs) (sorted_indices ks))
  sorted-Orders =
      let tmp = sorted_indices ks in
      let s =
        fsort-Sorts 0 (new_alist_cmp ks) (new_alist_cmp-IsOrdering ks v) (indices (length ks) 0) in
      let entry : ℕ → Svalue × Svalue = λ i. (item ks i, item vs i) in
      let all : map entry (indices (length ks) 0) ≡ pairs ks vs = rw (sym (length-pairs ks vs e)) (
        map-indices (zero_svalue, zero_svalue) (pairs ks vs) entry 0
          (λ i lt. let same : 0 + i ≡ i = omega arith in ap entry same ∙ item-pairs ks vs i e)) in
      record {
        parallel = length-map (item vs) tmp ∙ sym (length-map (item ks) tmp);
        keys_valid = valid tmp;
        keys_sorted = ordered-IsSorted ks tmp v (λ i j p q. s.1 i j p (
            omega (
              arith,
              length-fsort 0 (new_alist_cmp ks) (new_alist_cmp-IsOrdering ks v)
                  (indices (length ks) 0),
            )));
        entries =
            rw (pairs-map (item ks) (item vs) tmp)
              (subst (λ l. Perm (map entry tmp) l) all (Perm.map entry s.0));
      }
    where
      valid : (l : List ℕ) → AllValid (map (item ks) l)
      valid [] = tt
      valid (i ∷ l) = (item-IsValid ks i v, valid l)

order_alist-mapping :
    (ks vs : List Svalue) (d : Svalue)
    → length vs ≡ length ks
    → order_alist (mapping ks vs d)
      ≡ mapping (map (item ks) (sorted_indices ks)) (map (item vs) (sorted_indices ks)) d
unfolding order_alist order_item fsort fsort2 indices
order_alist-mapping [] [] d e = refl
order_alist-mapping [] (v ∷ vs) d e = absurd (omega arith)
order_alist-mapping (k ∷ ks) vs d e =
    let some_keys : (suc (length ks) == 0) ≡ false = ground arith in rw some_keys refl

order_alist-list :
    (ks : List Svalue)
    → order_alist (allocate_list ks) ≡ allocate_list (map (item ks) (sorted_indices ks))
unfolding order_alist order_item fsort fsort2 indices
order_alist-list [] = refl
order_alist-list (k ∷ ks) =
    let some_keys : (suc (length ks) == 0) ≡ false = ground arith in rw some_keys refl

-- `order_alist` on a mapping with parallel parts and valid keys: it becomes a mapping with the same
-- default whose keys are in order, and whose entries are those of before, each value still with its
-- key.
pub order_alist-Orders :
    (ks vs : List Svalue) (d : Svalue)
    → AllValid ks
    → length vs ≡ length ks
    → ((ks' : List Svalue) × (vs' : List Svalue) × (order_alist (mapping ks vs d)
          ≡ mapping ks' vs' d)
        × Orders ks vs ks' vs')
order_alist-Orders ks vs d v e = (
  map (item ks) (sorted_indices ks),
  map (item vs) (sorted_indices ks),
  order_alist-mapping ks vs d e,
  sorted-Orders ks vs v e,
)

keys-pairs : (ks vs : List Svalue) → length vs ≡ length ks → map (λ x. x.0) (pairs ks vs) ≡ ks
keys-pairs [] vs e = refl
keys-pairs (k ∷ ks) [] e = absurd (omega arith)
keys-pairs (k ∷ ks) (v ∷ vs) e = ap (◌∷◌ k) (keys-pairs ks vs (omega arith))

-- The same for the one part of a list.
pub order_list-Orders :
    (ks : List Svalue)
    → AllValid ks
    → ((ks' : List Svalue) × (order_alist (allocate_list ks) ≡ allocate_list ks')
        × AllValid ks'
        × IsSorted ks'
        × Perm ks' ks)
order_list-Orders ks v =
    let s = sorted-Orders ks ks v refl in
    let ks' = map (item ks) (sorted_indices ks) in
    let fst : Svalue × Svalue → Svalue = λ x. x.0 in
    let keys =
      subst (λ l. Perm ks' l) (keys-pairs ks ks refl)
        (subst (λ l. Perm l (map fst (pairs ks ks))) (keys-pairs ks' ks' refl)
          (Perm.map fst s.entries)) in
    (ks', order_alist-list ks, s.keys_valid, s.keys_sorted, keys)
