-- ===== src/Growth/Inserting.antt =====
-- `insert_array` of src/array.c beside the insertion into a list.
use lpc.Base.{
  ℕ, zero, suc, ◌+◌, ◌-◌, ◌/◌, ◌≤◌, ◌<◌, ◌≡◌, refl, ◌∙◌, Bool, false, not, ◌&&◌, Option, none, some,
  List, [], ◌∷◌, ltb, leb, ◌==◌, if◌then◌else◌, length, length-set, length-replicate, set, take,
  replicate, min, ℤ, arith, Bool-cases, inl, inr, length-take, ltb→lt,
}
use lpc.Value.{Svalue, zero_svalue}
use lpc.Arrays.{copied}
use lpc.Alist.{item, insert_at}
use lpc.Growth.{Block, max_array_size, shift_up, copy_items, allocate_array_no_init, insert_array}

item-set :
    (l : List Svalue) (i : ℕ) (v : Svalue) (j : ℕ)
    → i < length l
    → item (set l i v) j ≡ (if i == j then v else item l j)
item-set [] i v j h = absurd (omega arith)
item-set (x ∷ l) zero v zero h = refl
item-set (x ∷ l) zero v (suc j) h = ground arith
item-set (x ∷ l) (suc i) v zero h = ground arith
item-set (x ∷ l) (suc i) v (suc j) h = ground (arith, item-set l i v j (omega arith))

item-take : (n : ℕ) (l : List Svalue) (i : ℕ) → i < n → item (take n l) i ≡ item l i
item-take zero l i h = absurd (omega arith)
item-take (suc n) [] i h = refl
item-take (suc n) (x ∷ l) zero h = refl
item-take (suc n) (x ∷ l) (suc i) h = item-take n l i (omega arith)

item-insert_at :
    (n : ℕ) (s : Svalue) (l : List Svalue) (i : ℕ)
    → n ≤ length l
    → item (insert_at n s l) i
      ≡ (if ltb i n then item l i else if i == n then s else item l (i - 1))
unfolding insert_at
item-insert_at zero s l zero h = ground arith
item-insert_at zero s l (suc i) h = ground arith
item-insert_at (suc n) s [] i h = absurd (omega arith)
item-insert_at (suc n) s (x ∷ l) zero h = ground arith
item-insert_at (suc n) s (x ∷ l) (suc zero) h = ground (arith, item-insert_at n s l 0 (omega arith))
item-insert_at (suc n) s (x ∷ l) (suc (suc i)) h =
    ground (arith, item-insert_at n s l (suc i) (omega arith))

length-shift_up : (k n : ℕ) (l : List Svalue) → length (shift_up k n l) ≡ length l
unfolding shift_up
length-shift_up zero n l = refl
length-shift_up (suc k) n l =
    length-shift_up k n (set l (n + suc k) (item l (n + k))) ∙ length-set l (n + suc k) _

item-shift_up :
    (k n : ℕ) (l : List Svalue) (i : ℕ)
    → n + k < length l
    → item (shift_up k n l) i ≡ (if ltb n i && leb i (n + k) then item l (i - 1) else item l i)
unfolding shift_up
item-shift_up zero n l i h = ground arith
item-shift_up (suc k) n l i h =
    let v = item l (n + k) in
    ground (
      arith,
      item-shift_up k n (set l (n + suc k) v) i (omega (arith, length-set l (n + suc k) v)),
      item-set l (n + suc k) v (i - 1) (omega arith),
      item-set l (n + suc k) v i (omega arith),
    )

length-copy_items : (k lo off : ℕ) (l r : List Svalue) → length (copy_items k lo off l r) ≡ length r
unfolding copy_items
length-copy_items zero lo off l r = refl
length-copy_items (suc k) lo off l r =
    length-copy_items k (lo + 1) off l (set r (lo + off) (item l lo)) ∙ length-set r (lo + off) _

item-copy_items :
    (k lo off : ℕ) (l r : List Svalue) (i : ℕ)
    → lo + off + k ≤ length r
    → item (copy_items k lo off l r) i
      ≡ (if leb (lo + off) i && ltb i (lo + off + k) then item l (i - off) else item r i)
unfolding copy_items
item-copy_items zero lo off l r i h = ground arith
item-copy_items (suc k) lo off l r i h =
    let v = item l lo in
    ground (
      arith,
      item-copy_items k (lo + 1) off l (set r (lo + off) v) i
          (omega (arith, length-set r (lo + off) v)),
      item-set r (lo + off) v i (omega arith),
    )

-- A vector that can be: no more live items than slots.
abbrev pub IsValid : Block → Type 0
IsValid v = v.size ≤ length v.item

-- A vector with `s` inserted at `n`.
pub record Inserts (v : Block) (n : ℕ) (s : Svalue) (r : Block) : Type 0 where
  pub size : r.size ≡ v.size + 1
  pub valid : IsValid r
  pub items : (i : ℕ) → i < r.size → item r.item i ≡ item (insert_at n s (take v.size v.item)) i

-- the items of the insertion into the live ones
item-inserted :
    (v : Block) (n : ℕ) (s : Svalue) (i : ℕ)
    → IsValid v
    → n ≤ v.size
    → i < v.size + 1
    → item (insert_at n s (take v.size v.item)) i
      ≡ (if ltb i n then item v.item i else if i == n then s else item v.item (i - 1))
item-inserted v n s i valid le lt = elim (Bool-cases (ltb i n)) [
  | inl before ↦
      item-insert_at n s (take v.size v.item) i (omega (arith, length-take v.size v.item))
      ∙ rw before (item-take v.size v.item i (ground arith))
  | inr after ↦ elim (Bool-cases (i == n)) [
    | inl here ↦
        item-insert_at n s (take v.size v.item) i (omega (arith, length-take v.size v.item))
        ∙ rw (after, here) refl
    | inr behind ↦
        item-insert_at n s (take v.size v.item) i (omega (arith, length-take v.size v.item))
        ∙ rw (after, behind) (item-take v.size v.item (i - 1) (ground arith))
  ]
]

module _ (batch_mode : Bool) (junk : Svalue) where
  -- What inserting does: an error if the vector is full and may not be larger.
  abbrev pub Inserted : Block → ℕ → Svalue → Option Block → Type 0
  Inserted v n s none = (batch_mode ≡ false) × (v.size ≡ length v.item) × (max_array_size ≤ v.size)
  Inserted v n s (some r) = Inserts v n s r

  in_place :
      (v : Block) (n : ℕ) (s : Svalue)
      → v.size < length v.item
      → n ≤ v.size
      → Inserts v n s (record {
        item = set (set (shift_up (v.size - n) n v.item) n zero_svalue) n s;
        size = v.size + 1;
      })
  in_place v n s room le =
      let k = v.size - n in
      let up = shift_up k n v.item in
      let len = length-shift_up k n v.item in
      let len' = length-set up n zero_svalue in
      record {
        size = refl;
        valid = omega (arith, len, len', length-set (set up n zero_svalue) n s);
        items = λ i lt. ground (
          arith,
          item-set (set up n zero_svalue) n s i (omega (arith, len, len')),
          item-set up n zero_svalue i (omega (arith, len)),
          item-shift_up k n v.item i (omega arith),
          item-inserted v n s i (omega arith) le lt,
        );
      }

  moved :
      (v : Block) (n : ℕ) (s : Svalue) (fresh : List Svalue)
      → IsValid v
      → n ≤ v.size
      → v.size + 1 ≤ length fresh
      → Inserts v n s (record {
        item =
            set
              (copy_items
                (v.size - n)
                n
                1
                v.item
                (set (copy_items n 0 0 v.item fresh) n zero_svalue))
              n
              s;
        size = v.size + 1;
      })
  moved v n s fresh valid le room =
      let low = copy_items n 0 0 v.item fresh in
      let len = length-copy_items n 0 0 v.item fresh in
      let low' = set low n zero_svalue in
      let len' = length-set low n zero_svalue in
      let high = copy_items (v.size - n) n 1 v.item low' in
      let len'' = length-copy_items (v.size - n) n 1 v.item low' in
      record {
        size = refl;
        valid = omega (arith, room, len, len', len'', length-set high n s);
        items = λ i lt. ground (
          arith,
          item-set high n s i (omega (arith, room, len, len', len'')),
          item-copy_items (v.size - n) n 1 v.item low' i (omega (arith, room, len, len')),
          item-set low n zero_svalue i (omega (arith, room, len)),
          item-copy_items n 0 0 v.item fresh i (omega (arith, room)),
          item-inserted v n s i valid le lt,
        );
      }

  fresh_room :
      (size : ℕ)
      → not batch_mode && ltb max_array_size (size + 1) ≡ false
      → size + 1
        ≤ length (
            replicate
              (if not batch_mode
                then min (size + 1 + (size / 16 + 1)) max_array_size
                else size + 1 + (size / 16 + 1))
              junk)
  fresh_room size ok = rw (length-replicate _ junk) (elim (Bool-cases batch_mode) [
    | inl b ↦ rw b (omega arith)
    | inr b ↦ rw b (ground (arith, rw b at ok))
  ])

  -- Inserting at a place up to the end of a vector, in its spare room or in a larger copy, gives the
  -- live items with a copy of the new one among them (a zero for a destructed object); it fails only
  -- if the vector is full and has the greatest size that is allowed.
  pub insert_array-Inserted :
      (destructed : ℤ → Bool) (v : Block) (n : ℕ) (s : Svalue)
      → IsValid v
      → n ≤ v.size
      → Inserted v n (copied destructed s) (insert_array batch_mode junk destructed v n s)
  unfolding insert_array allocate_array_no_init
  insert_array-Inserted destructed v n s valid le = elim (Bool-cases (ltb v.size (length v.item))) [
    | inl room ↦ rw room (in_place v n (copied destructed s) (ltb→lt _ _ room) le)
    | inr full ↦ elim (Bool-cases (not batch_mode && ltb max_array_size (v.size + 1))) [
      | inl big ↦ rw (full, big) (ground arith, ground arith, ground arith)
      | inr ok ↦ rw (full, ok) (moved v n (copied destructed s) _ valid le (fresh_room v.size ok))
    ]
  ]
