-- ===== src/Alist/Update.antt =====
-- Assignment to a key of a mapping and removal of a key, beside updates of the finite map.
use lpc.Base.{
  ltb, refl, ◌+◌, ◌⊎◌, Bool, some_inj, none_ne_some, suc, ◌≤◌, ◌<◌, ◌≡◌, inl, inr, true, false,
  ◌||◌, Option, none, some, List, length, arith, ◌==◌, if◌then◌else◌, set, ap, Bool-cases, ℤ,
  negative, positive, length-set, sym, ◌∙◌,
}
use native.Mathlib.Nat.{le_refl}
use lpc.Value.{Svalue, IsValid, rank, alist_cmp, nonzero}
use lpc.Value.Order.{alist_cmp-rank}
use lpc.Growth.{array_fits, array_fits-false}
use lpc.Arrays.{copied, is_destructed}
use lpc.Alist.{
  insert_item, place_item, place_items, item, search_alist, index_mapping, assign_mapping,
  remove_mapping2, insert_alist, donk_alist_item, mapping, insert_at, remove_at, Alist,
}
use lpc.Alist.Sorted.{IsSorted, IsStrict-IsSorted, AllValid-item}
use lpc.Alist.Places.{
  All-insert_at, All-remove_at, length-insert_at, length-remove_at, IsStrict-insert_at,
  IsStrict-remove_at,
}
use lpc.Alist.Search.{IsAbsent, Over, search_alist-IsPlace, assoc-absent-or-found}
use lpc.Alist.Lookup.{
  ◌~◌, find, IsMap, defined, index_mapping-find, find-insert_at, find-set, find-remove_at,
  find-absent,
}

nonzero-signs : (d : ℤ) → nonzero d ≡ (negative d || positive d)
nonzero-signs d = ground arith

-- `m` is a mapping with the default `d`, well formed, that stands for the finite map `f`.
pub record Models (m : Alist) (d : Svalue) (f : Svalue → Option Svalue) : Type 0 where
  pub ks : List Svalue
  pub vs : List Svalue
  pub shape : m ≡ mapping ks vs d
  pub is_map : IsMap ks vs
  pub reads : (j : Svalue) → find j ks vs ≡ f j

copied-copied : (gone : ℤ → Bool) (s : Svalue) → copied gone (copied gone s) ≡ copied gone s
unfolding copied
copied-copied gone s = elim (Bool-cases (is_destructed gone s)) [
  | inl e ↦ rw e refl
  | inr e ↦ rw (e, e) refl
]

module _ (gone : ℤ → Bool) (batch_mode : Bool) (ks vs : List Svalue) (d : Svalue)
    (valid : IsMap ks vs) (key : Svalue) (vk : IsValid key)
    (live : is_destructed gone key ≡ false) where
  hit :
      (s : Svalue)
      → search_alist key ks < length ks
      → rank (item ks (search_alist key ks)) ≡ rank key
      → assign_mapping gone batch_mode (mapping ks vs d) key s
        ≡ some (mapping ks (set vs (search_alist key ks) (copied gone s)) d)
  unfolding assign_mapping insert_alist place_item place_items
  hit s lt same =
      let c = search_alist key ks in
      let e : (c == length ks || nonzero (alist_cmp key (item ks c))) ≡ false = ground (
        arith,
        nonzero-signs (alist_cmp key (item ks c)),
        alist_cmp-rank key (item ks c) vk (AllValid-item ks c valid.keys_valid lt),
      ) in
      rw (e, insert_alist, assign_mapping, e, place_items)

  is_new :
      search_alist key ks ≤ length ks
      → Over key ks (search_alist key ks)
      → (search_alist key ks == length ks
          || nonzero (alist_cmp key (item ks (search_alist key ks))))
        ≡ true
  is_new le over =
      let c = search_alist key ks in
      elim (Bool-cases (c == length ks)) [
        | inl end ↦ rw end
        | inr inside ↦
            let lt : c < length ks = ground arith in
            ground (
              arith,
              nonzero-signs (alist_cmp key (item ks c)),
              over c (le_refl c) lt,
              alist_cmp-rank key (item ks c) vk (AllValid-item ks c valid.keys_valid lt),
            )
      ]

  same_key : copied gone key ≡ key
  unfolding copied
  same_key = rw live refl

  full :
      (s : Svalue)
      → search_alist key ks ≤ length ks
      → Over key ks (search_alist key ks)
      → array_fits batch_mode (length ks + 1) ≡ false
      → assign_mapping gone batch_mode (mapping ks vs d) key s ≡ none
  unfolding assign_mapping insert_alist place_item place_items insert_item
  full s le over large = rw (is_new le over, insert_alist, assign_mapping, large)

  miss :
      (s : Svalue)
      → search_alist key ks ≤ length ks
      → Over key ks (search_alist key ks)
      → array_fits batch_mode (length ks + 1) ≡ true
      → assign_mapping gone batch_mode (mapping ks vs d) key s
        ≡ some (
            mapping
              (insert_at (search_alist key ks) key ks)
              (insert_at (search_alist key ks) (copied gone s) vs)
              d)
  unfolding assign_mapping insert_alist place_item place_items insert_item
  miss s le over fits = rw (
    is_new le over,
    insert_alist,
    assign_mapping,
    fits,
    is_new le over,
    place_items,
    valid.parallel,
    fits,
    same_key,
  )

  pub assign_mapping-Models :
      (s : Svalue)
      → ((batch_mode ≡ false)
          × (5000 ≤ length ks)
          × IsAbsent key ks
          × (assign_mapping gone batch_mode (mapping ks vs d) key s ≡ none))
        ⊎ ((m : Alist) × (assign_mapping gone batch_mode (mapping ks vs d) key s ≡ some m)
            × Models m d (λ j. if key ~ j then some (copied gone s) else find j ks vs))
  assign_mapping-Models s =
      let t = copied gone s in
      let c = search_alist key ks in
      elim (search_alist-IsPlace key ks vk valid.keys_valid
        (IsStrict-IsSorted ks valid.keys_strict)) [
          | inl (lt, same) ↦ inr (
            mapping ks (set vs c t) d,
            hit s lt same,
            record {
              ks = ks;
              vs = set vs c t;
              shape = refl;
              is_map = record {
                keys_valid = valid.keys_valid;
                keys_strict = valid.keys_strict;
                parallel = length-set vs c t ∙ valid.parallel;
              };
              reads = λ j. find-set j key t ks vs c valid.keys_strict valid.parallel lt same;
            },
          )
          | inr (le, under, over) ↦ elim (Bool-cases (array_fits batch_mode (length ks + 1))) [
            | inr large ↦
                let f = array_fits-false batch_mode (length ks + 1) large in
                inl (
                  f.0,
                  omega (arith, f.1),
                  (λ i lt e. elim (Bool-cases (ltb i c)) [
                    | inl h ↦ omega (arith, under i (ground arith), e)
                    | inr h ↦ omega (arith, over i (ground arith) lt, e)
                  ]),
                  full s le over large,
                )
            | inl fits ↦ inr (
              mapping (insert_at c key ks) (insert_at c t vs) d,
              miss s le over fits,
              record {
                ks = insert_at c key ks;
                vs = insert_at c t vs;
                shape = refl;
                is_map = record {
                  keys_valid = All-insert_at IsValid c key ks vk valid.keys_valid;
                  keys_strict = IsStrict-insert_at key ks c valid.keys_strict le under over;
                  parallel =
                      length-insert_at c t vs
                      ∙ ap suc valid.parallel
                      ∙ sym (length-insert_at c key ks);
                };
                reads = λ j. find-insert_at j key t ks vs c valid.parallel le under;
              },
            )
          ]
        ]

module _ (ks vs : List Svalue) (d : Svalue) (valid : IsMap ks vs) (key : Svalue)
    (vk : IsValid key) where
  sorted : IsSorted ks
  sorted = IsStrict-IsSorted ks valid.keys_strict

  find_missing :
      (j : Svalue) → IsAbsent key ks → find j ks vs ≡ (if key ~ j then none else find j ks vs)
  find_missing j absent = elim (Bool-cases (key ~ j)) [
    | inl same ↦ rw same (find-absent j ks vs (λ i lt e. absent i lt (ground arith)))
    | inr other ↦ rw other
  ]

  -- In a well formed mapping, removing a valid key keeps the mapping well formed and its default,
  -- and forgets that key alone.
  pub remove_mapping2-Models :
      Models (remove_mapping2 (mapping ks vs d) key) d (λ j. if key ~ j then none else find j ks vs)
  unfolding remove_mapping2 donk_alist_item
  remove_mapping2-Models = elim (assoc-absent-or-found key ks vk valid.keys_valid sorted) [
    | inl (e, absent) ↦ record {
      ks = ks;
      vs = vs;
      shape = rw (e, remove_mapping2);
      is_map = valid;
      reads = λ j. find_missing j absent;
    }
    | inr (c, e, lt, same) ↦ record {
      ks = remove_at c ks;
      vs = remove_at c vs;
      shape = rw (e, remove_mapping2);
      is_map = record {
        keys_valid = All-remove_at IsValid c ks valid.keys_valid;
        keys_strict = IsStrict-remove_at ks c valid.keys_strict;
        parallel = omega (arith, length-remove_at c vs, length-remove_at c ks, valid.parallel);
      };
      reads = λ j. find-remove_at j key ks vs c valid.keys_strict valid.parallel lt same;
    }
  ]

-- In a well formed mapping, indexing by a valid key after an assignment to a valid key that is not
-- destructed, and that was no error, gives a copy of the new value under the keys that are equal to
-- the assigned one, and what was there under the others.
pub index_mapping-assign_mapping :
    (gone : ℤ → Bool) (batch_mode : Bool) (ks vs : List Svalue) (d key s j : Svalue) (m : Alist)
    → IsMap ks vs
    → IsValid key
    → is_destructed gone key ≡ false
    → IsValid j
    → assign_mapping gone batch_mode (mapping ks vs d) key s ≡ some m
    → index_mapping gone m j
      ≡ (if key ~ j then defined (copied gone s) else index_mapping gone (mapping ks vs d) j)
index_mapping-assign_mapping gone batch_mode ks vs d key s j m valid vk live vj run =
    elim (assign_mapping-Models gone batch_mode ks vs d valid key vk live s) [
      | inl f ↦ absurd (none_ne_some (sym f.3 ∙ run))
      | inr (m', run', t) ↦
          rw
            (
              some_inj (sym run ∙ run'),
              t.shape,
              index_mapping-find gone t.ks t.vs d j t.is_map vj,
              t.reads j,
              index_mapping-find gone ks vs d j valid vj,
            )
            (elim (Bool-cases (key ~ j)) [
              | inl e ↦ rw e (ap defined (copied-copied gone s))
              | inr e ↦ rw e refl
            ])
    ]
