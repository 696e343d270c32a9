-- ===== src/Growth.antt =====
-- The vectors of src/array.c in memory: `item` is all the slots that were allocated, and the first
-- `size` of them are live. A slot that was never written holds what `junk` says.
pub mod Inserting
use lpc.Base.{
  ◌≡◌, ◌<◌, refl, arith, ℕ, zero, suc, ◌+◌, ◌-◌, ◌/◌, Bool, true, false, not, ◌&&◌, ◌||◌, Option,
  none, some, List, ltb, leb, if◌then◌else◌, length, get_or, set, replicate, min, ℤ,
}
use lpc.Value.{Svalue, zero_svalue}
use lpc.Arrays.{copied}

pub record Block : Type 0 where
  pub item : List Svalue
  pub size : ℕ

abbrev pub max_array_size : ℕ
max_array_size = 5000

-- `for(e=n+k;e>n;e--) v->item[e]=v->item[e-1];`
unfoldable pub shift_up : ℕ → ℕ → List Svalue → List Svalue
shift_up zero n item = item
shift_up (suc k) n item = shift_up k n (set item (n + suc k) (get_or item (n + k) zero_svalue))

-- `for(e=lo;e<lo+k;e++) res->item[e+off]=v->item[e];`
unfoldable pub copy_items : ℕ → ℕ → ℕ → List Svalue → List Svalue → List Svalue
copy_items zero lo off item res = res
copy_items (suc k) lo off item res =
    copy_items k (lo + 1) off item (set res (lo + off) (get_or item lo zero_svalue))

-- `!(!batch_mode && n > MAX_ARRAY_SIZE)`: no error about the size of an array
abbrev pub array_fits : Bool → ℕ → Bool
array_fits batch_mode n = batch_mode || leb n max_array_size

pub array_fits-false :
    (batch_mode : Bool) (n : ℕ)
    → array_fits batch_mode n ≡ false
    → (batch_mode ≡ false) × (5000 < n)
array_fits-false true n h = absurd (ground (arith, h))
array_fits-false false n h = (refl, ground (arith, h))

module _ (batch_mode : Bool) (junk : Svalue) where
  -- For a size above 0: an error, `none`, for a size that is too large.
  unfoldable pub allocate_array_no_init : ℕ → ℕ → Option Block
  allocate_array_no_init n overhead =
      if not batch_mode && ltb max_array_size n
      then none
      else some (record {
        item =
            replicate (if not batch_mode then min (n + overhead) max_array_size else n + overhead)
              junk;
        size = n;
      })

  -- A destructed object is stored as a zero.
  unfoldable pub insert_array : (ℤ → Bool) → Block → ℕ → Svalue → Option Block
  unfolding shift_up copy_items allocate_array_no_init copied
  insert_array destructed v n s =
      if ltb v.size (length v.item)
      then some (record {
        item = set (set (shift_up (v.size - n) n v.item) n zero_svalue) n (copied destructed s);
        size = v.size + 1;
      })
      else elim (allocate_array_no_init (v.size + 1) (v.size / 16 + 1)) [
        | none ↦ none
        | some res ↦
            let low = copy_items n 0 0 v.item res.item in
            let high = copy_items (v.size - n) n 1 v.item (set low n zero_svalue) in
            some (record { item = set high n (copied destructed s); size = res.size })
      ]
