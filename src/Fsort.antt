-- ===== src/Fsort.antt =====
-- `fsort` of src/fsort.c, the quick sort in place behind `order_alist`. A pointer into the area is the
-- index of its element, and the end of a range is the index behind its last element, so that an
-- empty range has one too. All the swapping functions exchange two elements.
pub mod Swaps
pub mod Scans
pub mod Partition
pub mod Joins
pub mod Sorting
use lpc.Base.{
  ℕ, zero, suc, ◌+◌, ◌-◌, ◌/◌, Bool, true, false, ◌&&◌, List, ℤ, negative, positive, ltb, leb, ◌==◌,
  if◌then◌else◌, length, get_or, set,
}

module _ {E : Type 0} (d : E) where
  -- `fswap`
  unfoldable pub swap : List E → ℕ → ℕ → List E
  swap l a b = set (set l a (get_or l b d)) b (get_or l a d)

-- The area and the two pointers after the outer loop.
pub record Parted (E : Type 0) : Type 0 where
  pub items : List E
  pub a : ℕ
  pub b : ℕ

module _ {E : Type 0} (d : E) (cmpfun : E → E → ℤ) where
  -- `while(a<=b && (*cmpfun)(a,bas) < 0) a+=size;`
  unfoldable pub scan_up : ℕ → List E → ℕ → ℕ → ℕ → ℕ
  scan_up zero l bas a b = a
  scan_up (suc fuel) l bas a b =
      elim (leb a b && negative (cmpfun (get_or l a d) (get_or l bas d))) [
        | true ↦ scan_up fuel l bas (a + 1) b
        | false ↦ a
      ]

  -- `while(a< b && (*cmpfun)(bas,b) < 0) b-=size;`
  unfoldable pub scan_down : ℕ → List E → ℕ → ℕ → ℕ → ℕ
  scan_down zero l bas a b = b
  scan_down (suc fuel) l bas a b =
      elim (ltb a b && negative (cmpfun (get_or l bas d) (get_or l b d))) [
        | true ↦ scan_down fuel l bas a (b - 1)
        | false ↦ b
      ]

  -- The outer loop: `b` comes nearer to `a` in each round but the last.
  unfoldable pub partition : ℕ → List E → ℕ → ℕ → ℕ → Parted E
  partition zero l bas a b = record { items = l; a = a; b = b }
  partition (suc fuel) l bas a b =
      let a' = scan_up (b + 1 - a) l bas a b in
      let b' = scan_down (b - a') l bas a' b in
      elim (ltb a b) [
        | false ↦ record { items = l; a = a; b = b }
        | true ↦ elim (ltb a' b') [
          | false ↦ partition fuel l bas a' b'
          | true ↦
              partition fuel (swap d l a' b') bas (a' + 1)
                (if ltb (a' + 1 + 1) b' then b' - 1 else b')
        ]
      ]

  unfoldable pub fsort2 : ℕ → List E → ℕ → ℕ → List E
  fsort2 zero l bas end = l
  fsort2 (suc fuel) l bas end = elim (leb end (bas + 1)) [
    | true ↦ l
    | false ↦ elim (bas + 1 + 1 == end) [
      | true ↦
          if positive (cmpfun (get_or l bas d) (get_or l (bas + 1) d))
          then swap d l bas (bas + 1)
          else l
      | false ↦
          let r =
            partition (end - bas) (swap d l bas (bas + (end - 1 - bas) / 2)) bas (bas + 1)
              (end - 1) in
          let l' = fsort2 fuel (swap d r.items bas (r.a - 1)) bas (r.a - 1) in
          fsort2 fuel l' r.b end
    ]
  ]

  -- A range has as many elements at most as the area, and that is fuel enough.
  unfoldable pub fsort : List E → List E
  fsort l = fsort2 (length l) l 0 (length l)
