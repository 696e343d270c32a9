-- ===== src/Alist/Places.antt =====
-- Insertion and removal at a place of a part, as in `insert_array` and `donk_alist_item` of src/array.c.
use lpc.Base.{ℕ, zero, suc, ◌≤◌, ◌<◌, ◌≡◌, refl, ap, List, [], ◌∷◌, length, All, arith}
use lpc.Value.{Svalue, rank}
use lpc.Alist.{item, insert_at, remove_at}
use lpc.Alist.Sorted.{IsStrict}
use lpc.Alist.Search.{Under, Over}

pub All-insert_at :
    (P : Svalue → Type 0) (n : ℕ) (x : Svalue) (l : List Svalue)
    → P x
    → All P l
    → All P (insert_at n x l)
unfolding insert_at
All-insert_at P zero x l px h = (px, h)
All-insert_at P (suc n) x [] px h = (px, tt)
All-insert_at P (suc n) x (y ∷ l) px h = (h.0, All-insert_at P n x l px h.1)

pub All-remove_at :
    (P : Svalue → Type 0) (n : ℕ) (l : List Svalue) → All P l → All P (remove_at n l)
unfolding remove_at
All-remove_at P n [] h = tt
All-remove_at P zero (y ∷ l) h = h.1
All-remove_at P (suc n) (y ∷ l) h = (h.0, All-remove_at P n l h.1)

pub All-items :
    (P : Svalue → Type 0) (l : List Svalue) → ((i : ℕ) → i < length l → P (item l i)) → All P l
All-items P [] h = tt
All-items P (x ∷ l) h = (h 0 (omega arith), All-items P l (λ i lt. h (suc i) (omega arith)))

pub length-insert_at :
    {A : Type 0} (n : ℕ) (x : A) (l : List A) → length (insert_at n x l) ≡ suc (length l)
unfolding insert_at
length-insert_at zero x l = refl
length-insert_at (suc n) x [] = refl
length-insert_at (suc n) x (y ∷ l) = ap suc (length-insert_at n x l)

pub length-remove_at :
    {A : Type 0} (n : ℕ) (l : List A) → n < length l → suc (length (remove_at n l)) ≡ length l
unfolding remove_at
length-remove_at n [] h = absurd (omega arith)
length-remove_at zero (y ∷ l) h = refl
length-remove_at (suc n) (y ∷ l) h = ap suc (length-remove_at n l (omega arith))

pub IsStrict-insert_at :
    (key : Svalue) (ks : List Svalue) (n : ℕ)
    → IsStrict ks
    → n ≤ length ks
    → Under key ks n
    → Over key ks n
    → IsStrict (insert_at n key ks)
unfolding insert_at
IsStrict-insert_at key ks zero s le u o =
    (All-items (λ k. rank key < rank k) ks (λ i lt. o i (omega arith) lt), s)
IsStrict-insert_at key [] (suc n) s le u o = (tt, tt)
IsStrict-insert_at key (k ∷ ks) (suc n) s le u o = (
  All-insert_at (λ b. rank k < rank b) n key ks (u 0 (omega arith)) s.0,
  IsStrict-insert_at key ks n s.1 (omega arith) (λ i lt. u (suc i) (omega arith))
      (λ i ge lt. o (suc i) (omega arith) (omega arith)),
)

pub IsStrict-remove_at : (ks : List Svalue) (n : ℕ) → IsStrict ks → IsStrict (remove_at n ks)
unfolding remove_at
IsStrict-remove_at [] n s = tt
IsStrict-remove_at (k ∷ ks) zero s = s.1
IsStrict-remove_at (k ∷ ks) (suc n) s =
    (All-remove_at (λ b. rank k < rank b) n ks s.0, IsStrict-remove_at ks n s.1)
