-- ===== src/Alist/Search.antt =====
-- The binary searches `search_alist` and `assoc` of src/array.c over a sorted part.
use lpc.Base.{
  ℕ, zero, suc, ◌+◌, ◌/◌, ◌≤◌, ◌<◌, ◌≡◌, ◌≢◌, refl, sym, ◌&&◌, pos, negsuc, ◌⊎◌, inl, inr, true,
  List, length, arith, Bool-cases, negative, positive, ltb,
}
use native.Mathlib.Decide.{dec_lt}
use native.Mathlib.Nat.{le_refl}
use lpc.Value.{Svalue, IsValid, rank, alist_cmp}
use lpc.Alist.{item, Probe, found, gap, probe, settle, search_alist, assoc, index_of}
use lpc.Alist.Sorted.{
  IsSorted, AllValid, IsSorted-item, AllValid-item, negative-lt, positive-lt, neither-eq,
}

module _ (key : Svalue) (l : List Svalue) where
  -- Every item before `n` is under the key; every item from `n` on is over it.
  abbrev pub Under : ℕ → Type 0
  Under n = (i : ℕ) → i < n → rank (item l i) < rank key

  abbrev pub Over : ℕ → Type 0
  Over n = (i : ℕ) → n ≤ i → i < length l → rank key < rank (item l i)

  abbrev pub Probed : Probe → Type 0
  Probed (found c) = (c < length l) × (rank (item l c) ≡ rank key)
  Probed (gap a) = (a ≤ length l) × Under a × Over a

  module _ (vk : IsValid key) (vl : AllValid l) (s : IsSorted l) where
    go_left : (c : ℕ) → c < length l → negative (alist_cmp key (item l c)) ≡ true → Over c
    go_left c lt h i le k =
        omega
          (arith, IsSorted-item l c i s, negative-lt key (item l c) vk (AllValid-item l c vl lt) h)

    go_right : (c : ℕ) → c < length l → positive (alist_cmp key (item l c)) ≡ true → Under (c + 1)
    go_right c lt h i k =
        omega
          (arith, IsSorted-item l i c s, positive-lt key (item l c) vk (AllValid-item l c vl lt) h)

    pub probe-Probed :
        (fuel a b : ℕ)
        → a ≤ b
        → b ≤ length l
        → b ≤ a + fuel
        → Under a
        → Over b
        → Probed (probe fuel key l a b)
    unfolding probe
    probe-Probed zero a b ab bn f u o = (omega arith, u, λ i h k. o i (omega arith) k)
    probe-Probed (suc fuel) a b ab bn f u o =
        let c = (a + b) / 2 in
        elim (Bool-cases (ltb a b)) [
          | inr done ↦ rw (done, probe, Probed) (omega arith, u, λ i h k. o i (ground arith) k)
          | inl more ↦
              let lt : c < length l = ground arith in
              elim (Bool-cases (negative (alist_cmp key (item l c)))) [
                | inl left ↦
                    rw (more, left, probe)
                      (probe-Probed fuel a c (omega arith) (omega arith) (ground arith) u
                        (go_left c lt left))
                | inr up ↦ elim (Bool-cases (positive (alist_cmp key (item l c)))) [
                  | inl right ↦
                      rw (more, up, right, probe)
                        (probe-Probed fuel (c + 1) b (ground arith) bn (ground arith)
                          (go_right c lt right) o)
                  | inr same ↦
                      rw (more, up, same, probe)
                        (lt, sym (neither-eq key (item l c) vk (AllValid-item l c vl lt) up same))
                ]
              ]
        ]

  -- The place of the key: an item equal to it, or the border between the items under it and those
  -- over it.
  abbrev pub IsPlace : ℕ → Type 0
  IsPlace n = ((n < length l) × (rank (item l n) ≡ rank key)) ⊎ ((n ≤ length l) × Under n × Over n)

  abbrev pub IsAbsent : Type 0
  IsAbsent = (i : ℕ) → i < length l → rank (item l i) ≢ rank key

  module _ (vk : IsValid key) (vl : AllValid l) (s : IsSorted l) where
    settle-IsPlace : (p : Probe) → Probed p → IsPlace (settle key l p)
    unfolding settle
    settle-IsPlace (found c) h = inl h
    settle-IsPlace (gap a) h =
        elim (Bool-cases (ltb a (length l) && positive (alist_cmp key (item l a)))) [
          | inr stay ↦ inr (rw stay h)
          | inl move ↦
              let lt : a < length l = ground arith in
              absurd (
                omega (
                  arith,
                  h.2 a (le_refl a) lt,
                  positive-lt key (item l a) vk (AllValid-item l a vl lt) (ground arith),
                ))
        ]

    whole : Probed (probe (length l) key l 0 (length l))
    whole =
        probe-Probed vk vl s (length l) 0 (length l) (omega arith) (omega arith) (omega arith)
          (λ i h. absurd (omega arith)) (λ i h k. absurd (omega arith))

    -- `search_alist` returns the place of the key in a sorted part of valid values: an index whose
    -- item is equal to the key, or else the border between the items under it and those over it.
    pub search_alist-IsPlace : IsPlace (search_alist key l)
    unfolding search_alist
    search_alist-IsPlace = settle-IsPlace _ whole

    index-absent-or-found :
        (p : Probe)
        → Probed p
        → ((index_of p ≡ negsuc 0) × IsAbsent)
          ⊎ ((c : ℕ) × (index_of p ≡ pos c) × (c < length l) × (rank (item l c) ≡ rank key))
    index-absent-or-found (found c) h = inr (c, refl, h.0, h.1)
    index-absent-or-found (gap a) h = inl (
      refl,
      λ i k e. elim (dec_lt i a) [
        | yes lt ↦ omega (arith, h.1 i lt)
        | no ge ↦ omega (arith, h.2 i (omega arith) k)
      ],
    )

    -- In a sorted part of valid values, `assoc` returns -1 and no item is equal to the key, or it
    -- returns the index of an item that is.
    pub assoc-absent-or-found :
        ((assoc key l ≡ negsuc 0) × IsAbsent)
        ⊎ ((c : ℕ) × (assoc key l ≡ pos c) × (c < length l) × (rank (item l c) ≡ rank key))
    unfolding assoc
    assoc-absent-or-found = index-absent-or-found _ whole
