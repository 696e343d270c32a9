-- ===== src/Making/Results.antt =====
-- What `f_mkmapping`, `f_m_aggregate` and `subtract_array` of src/ make of their arguments.
use lpc.Base.{
  ℕ, zero, suc, ◌+◌, ◌-◌, ◌≤◌, ◌<◌, ◌≡◌, refl, ap, ◌∙◌, List, [], ◌∷◌, map, ℤ, pos, ◌-ℤ◌, Bool,
  false, arith, length, take, min, length-take, length-map, leb, ltb_ℤ,
}
use lpc.Value.{Svalue, IsValid, undefined_svalue}
use lpc.Alist.{Alist, mapping, index_mapping}
use lpc.Alist.Sorted.{AllValid}
use lpc.Alist.Lookup.{find, found_or, index_mapping-find}
use lpc.Arrays.{clipped, slice_items, slice_array, copied}
use lpc.Making.{order_alist, f_mkmapping}
use lpc.Making.Orders.{order_alist-Orders}
use lpc.Making.Distinct.{IsDistinct, Orders-IsMap, find-Orders}

-- A mapping made of parallel lists of keys and values, no two keys equal: a well formed mapping,
-- where each key reads the value that stands beside it in the lists.
ordered-index :
    (gone : ℤ → Bool) (ks vs : List Svalue) (key : Svalue)
    → AllValid ks
    → length vs ≡ length ks
    → IsDistinct ks
    → IsValid key
    → index_mapping gone (order_alist (mapping ks vs undefined_svalue)) key
      ≡ found_or gone undefined_svalue (find key ks vs)
ordered-index gone ks vs key v e d vk =
    let (ks', vs', made, o) = order_alist-Orders ks vs undefined_svalue v e in
    rw made (
      index_mapping-find gone ks' vs' undefined_svalue key (Orders-IsMap ks vs ks' vs' e o d) vk
      ∙ ap (found_or gone undefined_svalue) (find-Orders ks vs ks' vs' e o d key))

clipped_last : (n i : ℕ) → i < n → clipped n (pos i) ≡ pos i
clipped_last n i h = ground arith

less_one : (i : ℕ) → pos (suc i) -ℤ pos 1 ≡ pos i
less_one i = ground arith

slice_items-take :
    (p : List Svalue) (i : ℕ) → i ≤ length p → slice_items p (pos 0) (pos i -ℤ pos 1) ≡ take i p
unfolding slice_items
slice_items-take [] zero h = refl
slice_items-take [] (suc i) h = absurd (omega arith)
slice_items-take (x ∷ p) zero h = ground arith
slice_items-take (x ∷ p) (suc i) h =
    let up : i - 0 + 1 ≡ suc i = omega arith in
    let full : leb (suc (length p)) 0 ≡ false = ground arith in
    let low : ltb_ℤ (pos i) (pos 0) ≡ false = ground arith in
    rw (less_one i, clipped_last (suc (length p)) i (omega arith), up, full, low) refl

pub slice_items_all : (p : List Svalue) → slice_items p (pos 0) (pos (length p)) ≡ p
unfolding slice_items
slice_items_all [] = refl
slice_items_all (x ∷ p) =
    let clip : clipped (suc (length p)) (pos (suc (length p))) ≡ pos (length p) = ground arith in
    let up : length p - 0 + 1 ≡ suc (length p) = omega arith in
    let full : leb (suc (length p)) 0 ≡ false = ground arith in
    let low : ltb_ℤ (pos (length p)) (pos 0) ≡ false = ground arith in
    rw (clip, up, full, low) (ap (◌∷◌ x) (take_all p))
  where
    take_all : (p : List Svalue) → take (length p) p ≡ p
    take_all [] = refl
    take_all (x ∷ p) = ap (◌∷◌ x) (take_all p)

module _ (destructed : ℤ → Bool) where
  -- The first `i` items, as copies: a destructed object is a zero.
  abbrev pub copies : ℕ → List Svalue → List Svalue
  copies i l = map (copied destructed) (take i l)

  -- Of arrays of different sizes `mkmapping` uses as many items as the shorter has. If these of the
  -- first array are valid and no two are equal, a valid key reads from the mapping a copy of the item of the
  -- second array that stands beside it, or undefined if it is none of them.
  pub f_mkmapping-index :
      (a b : List Svalue) (key : Svalue)
      → AllValid (copies (min (length a) (length b)) a)
      → IsDistinct (copies (min (length a) (length b)) a)
      → IsValid key
      → index_mapping destructed (f_mkmapping destructed a b) key
        ≡ found_or destructed undefined_svalue
            (find key (copies (min (length a) (length b)) a) (copies (min (length a) (length b)) b))
  unfolding f_mkmapping slice_array
  f_mkmapping-index a b key v d vk =
      let i = min (length a) (length b) in
      rw (slice_items-take a i (omega arith), slice_items-take b i (omega arith))
        (ordered-index destructed (copies i a) (copies i b) key v
          (omega (
            arith,
            length-map (copied destructed) (take i a),
            length-map (copied destructed) (take i b),
            length-take i a,
            length-take i b,
          ))
          d vk)
