-- ===== src/Mappings/Cleanup.antt =====
-- `cleanup_map` of src/list.c: the mapping that it returns, and the one that it is given.
use lpc.Base.{
  length-map, ◌<◌, ◌≡◌, refl, ap, ◌∙◌, Bool, Option, none, some, List, [], ◌∷◌, map, length, All,
  All-imp, arith, if◌then◌else◌, Bool-cases, inl, inr, ℤ,
}
use lpc.Value.{Svalue, IsValid, alist_cmp, nonzero, rank, undefined_svalue}
use lpc.Alist.{mapping, index_mapping}
use lpc.Alist.Sorted.{IsStrict}
use lpc.Alist.Lookup.{IsMap, find, found_or, index_mapping-find, find_above, ◌~◌}
use lpc.Arrays.{is_destructed, freed}
use lpc.Mappings.{AlistTypes, kept_keys, kept_values, cleanup_map}
use lpc.Mappings.Live.{Covers, live_keys, live_values, check_alist_for_destruct_lem}

-- A value that `cleanup_map` keeps, one that the default does not equal.
unfoldable pub sieve : Svalue → Option Svalue → Option Svalue
sieve def none = none
sieve def (some v) = if nonzero (alist_cmp def v) then some v else none

module _ (def : Svalue) where
  kept_keys-All :
      (P : Svalue → Type 0) (ks vs : List Svalue) → All P ks → All P (kept_keys def ks vs)
  unfolding kept_keys
  kept_keys-All P [] vs h = tt
  kept_keys-All P (k ∷ ks) [] h = tt
  kept_keys-All P (k ∷ ks) (v ∷ vs) h = elim (Bool-cases (nonzero (alist_cmp def v))) [
    | inl e ↦ rw e (h.0, kept_keys-All P ks vs h.1)
    | inr e ↦ rw e (kept_keys-All P ks vs h.1)
  ]

  kept_keys-IsStrict : (ks vs : List Svalue) → IsStrict ks → IsStrict (kept_keys def ks vs)
  unfolding kept_keys
  kept_keys-IsStrict [] vs h = tt
  kept_keys-IsStrict (k ∷ ks) [] h = tt
  kept_keys-IsStrict (k ∷ ks) (v ∷ vs) h = elim (Bool-cases (nonzero (alist_cmp def v))) [
    | inl e ↦ rw e (kept_keys-All (λ b. rank k < rank b) ks vs h.0, kept_keys-IsStrict ks vs h.1)
    | inr e ↦ rw e (kept_keys-IsStrict ks vs h.1)
  ]

  kept-parallel :
      (ks vs : List Svalue)
      → length vs ≡ length ks
      → length (kept_values def vs) ≡ length (kept_keys def ks vs)
  unfolding kept_keys kept_values
  kept-parallel [] [] h = refl
  kept-parallel [] (v ∷ vs) h = absurd (omega arith)
  kept-parallel (k ∷ ks) [] h = absurd (omega arith)
  kept-parallel (k ∷ ks) (v ∷ vs) h = ground (arith, kept-parallel ks vs (omega arith))

  kept-IsMap :
      (ks vs : List Svalue) → IsMap ks vs → IsMap (kept_keys def ks vs) (kept_values def vs)
  kept-IsMap ks vs m = record {
    keys_valid = kept_keys-All IsValid ks vs m.keys_valid;
    keys_strict = kept_keys-IsStrict ks vs m.keys_strict;
    parallel = kept-parallel ks vs m.parallel;
  }

  find-kept :
      (j : Svalue) (ks vs : List Svalue)
      → IsStrict ks
      → find j (kept_keys def ks vs) (kept_values def vs) ≡ sieve def (find j ks vs)
  unfolding find kept_keys kept_values sieve
  find-kept j [] vs s = refl
  find-kept j (k ∷ ks) [] s = refl
  find-kept j (k ∷ ks) (v ∷ vs) s = elim (Bool-cases (k ~ j)) [
    | inl same ↦
        let rest : find j ks vs ≡ none =
          find_above j ks vs (All-imp (λ b lt. ground arith) ks s.0) in
        elim (Bool-cases (nonzero (alist_cmp def v))) [
          | inl e ↦ rw (e, same) (rw e refl)
          | inr e ↦ rw (e, same) (rw e (find-kept j ks vs s.1 ∙ rw rest refl))
        ]
    | inr other ↦ elim (Bool-cases (nonzero (alist_cmp def v))) [
      | inl e ↦ rw (e, other) (find-kept j ks vs s.1)
      | inr e ↦ rw (e, other) (find-kept j ks vs s.1)
    ]
  ]

module _ (destructed : ℤ → Bool) where
  live_keys-All :
      (P : Svalue → Type 0) (ks : List Svalue) → All P ks → All P (live_keys destructed ks)
  unfolding live_keys
  live_keys-All P [] h = tt
  live_keys-All P (k ∷ ks) h = elim (Bool-cases (is_destructed destructed k)) [
    | inl e ↦ rw e (live_keys-All P ks h.1)
    | inr e ↦ rw e (h.0, live_keys-All P ks h.1)
  ]

  live_keys-IsStrict : (ks : List Svalue) → IsStrict ks → IsStrict (live_keys destructed ks)
  unfolding live_keys
  live_keys-IsStrict [] h = tt
  live_keys-IsStrict (k ∷ ks) h = elim (Bool-cases (is_destructed destructed k)) [
    | inl e ↦ rw e (live_keys-IsStrict ks h.1)
    | inr e ↦ rw e (live_keys-All (λ b. rank k < rank b) ks h.0, live_keys-IsStrict ks h.1)
  ]

  live-parallel :
      (ks vs : List Svalue)
      → length vs ≡ length ks
      → length (live_values destructed ks vs) ≡ length (live_keys destructed ks)
  unfolding live_keys live_values
  live-parallel [] [] h = refl
  live-parallel [] (v ∷ vs) h = absurd (omega arith)
  live-parallel (k ∷ ks) [] h = absurd (omega arith)
  live-parallel (k ∷ ks) (v ∷ vs) h = ground (arith, live-parallel ks vs (omega arith))

  -- The live entries, with destructed values freed.
  abbrev pub checked_values : List Svalue → List Svalue → List Svalue
  checked_values ks vs = map (freed destructed) (live_values destructed ks vs)

  live-IsMap :
      (ks vs : List Svalue) → IsMap ks vs → IsMap (live_keys destructed ks) (checked_values ks vs)
  live-IsMap ks vs m = record {
    keys_valid = live_keys-All IsValid ks m.keys_valid;
    keys_strict = live_keys-IsStrict ks m.keys_strict;
    parallel =
        length-map (freed destructed) (live_values destructed ks vs)
        ∙ live-parallel ks vs m.parallel;
  }

  -- For a well formed mapping, where the sets of types of its vectors cover the keys, the values and
  -- the default, indexed by a valid key: the mapping that `cleanup_map` returns has the live entries
  -- whose value differs from the default, and the undefined value for all other keys; the mapping
  -- that it is given is left with its live entries, and its default is overwritten by the undefined
  -- value. Destructed values and a destructed default are freed before they are compared.
  pub cleanup_map-find :
      (t : AlistTypes) (ks vs : List Svalue) (d j : Svalue)
      → Covers t ks vs d
      → IsMap ks vs
      → IsValid j
      → (index_mapping destructed (cleanup_map destructed t (mapping ks vs d)).1 j
          ≡ found_or destructed undefined_svalue (
              sieve (freed destructed d) (find j (live_keys destructed ks) (checked_values ks vs))))
        × ((cleanup_map destructed t (mapping ks vs d)).0
            ≡ mapping (live_keys destructed ks) (checked_values ks vs) undefined_svalue)
  unfolding cleanup_map
  cleanup_map-find t ks vs d j c m vj =
      let def = freed destructed d in
      let l = live-IsMap ks vs m in
      rw (check_alist_for_destruct_lem destructed t d ks vs m.parallel c) (
        index_mapping-find destructed
              (kept_keys def (live_keys destructed ks) (checked_values ks vs))
              (kept_values def (checked_values ks vs)) undefined_svalue j
              (kept-IsMap def (live_keys destructed ks) (checked_values ks vs) l) vj
            ∙ ap (found_or destructed undefined_svalue)
                (find-kept def j (live_keys destructed ks) (checked_values ks vs) l.keys_strict),
        refl,
      )
